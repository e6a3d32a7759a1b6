-- ===== src/Http/Session/Behind.antt =====
-- The event of one request that arrives whole (net/Channel.h, net/HttpData.cpp).
use jinyi.Http.Analysis.Response.{analysis_request_keeps, analysis_request_outcome}
use jinyi.Http.Analysis.{Site, analysis_request, asks_keep_alive, status_lines, send_file}
use jinyi.Http.Conn.{receives, Conn, epoll_out, LoopCall, is_empty, remove_from_poller}
use jinyi.Http.Handlers.Cycle.{next_calls, asked, handle_conn-next_calls}
use jinyi.Http.Handlers.Request.{IsIdle, Request, request_text, IsRequest, understood}
use jinyi.Http.Handlers.Served.{answer, renewed, handle_read-renewed}
use jinyi.Http.Handlers.{done, handle_read, handle_conn, handle_close}
use jinyi.Http.Session.{asks_close, close_asked, input_event}
use jinyi.Http.Types.{
  AnalysisState, analysis_success, connected, disconnected, HttpData, new_http_data,
}
use Prim.Native.Nat.{min}
use mathlib.Core.Path.{ap₂}
use jinyi.Prelude.Bits.{set_bit}
use jinyi.Prelude.{
  ℕ, suc, ◌≤◌, ◌≡◌, refl, ap, ◌∙◌, inl, inr, Bool, true, false, ◌||◌, some, List, [], ◌∷◌, ◌++◌,
  arith, Bytes, length, if◌then◌else◌, drop-all, take-all, append_assoc,
}
use jinyi.Util.{Socket, WriteAnswer, room, writen, write_loop}

abbrev blank : Socket
blank = record { incoming = []; outgoing = []; sent = [] }

-- What a request is answered with, on any connection.
abbrev pub verdict : Site → Request → AnalysisState
verdict site q = (analysis_request site (understood new_http_data q) blank).0

abbrev pub response : Site → Request → Bytes
response site q = (analysis_request site (understood new_http_data q) blank).1.out_buffer

analysis_request-understood :
    (site : Site) (d : HttpData) (q : Request) (s : Socket)
    → d.out_buffer ≡ []
    → ((analysis_request site (understood d q) s).0 ≡ verdict site q)
      × ((analysis_request site (understood d q) s).1.out_buffer ≡ response site q)
unfolding analysis_request status_lines asks_keep_alive send_file
analysis_request-understood site d q s e = ground arith

writen_all :
    (s : Socket) (m : ℕ) (ans : List WriteAnswer) (text : Bytes)
    → s.outgoing ≡ room m ∷ ans
    → length text ≤ m
    → 1 ≤ length text
    → writen s text ≡ (
      record {
        written = some (length text);
        socket = record s { outgoing = ans; sent = s.sent ++ text };
      },
      [],
    )
unfolding writen write_loop
writen_all s m ans [] o h f = absurd (omega arith)
writen_all s m ans (b ∷ bs) o h f =
    let all = b ∷ bs in
    let k : min m (length all) ≡ length all = omega arith in
    ground (arith, o, k, drop-all (length all) all (omega arith), take-all all)

response-filled :
    (site : Site) (q : Request) → verdict site q ≡ analysis_success → 1 ≤ length (response site q)
unfolding analysis_request status_lines send_file
response-filled site q ok = ground arith

-- The bytes that a request's event asks of the loop, and what the loop is asked at its end.
abbrev pub event_calls : Bool → List LoopCall
event_calls true = next_calls true true
event_calls false = next_calls true false ++ remove_from_poller ∷ []

-- Behind one request, where `ans` is what is left of the kernel's answers to write().
pub record Behind (site : Site) (c : Conn) (q : Request) (ans : List WriteAnswer) (c' : Conn)
    : Type 0 where
  pub sent : c'.socket.sent ≡ c.socket.sent ++ response site q
  pub outgoing : c'.socket.outgoing ≡ ans
  pub kept :
      c'.http.keep_alive ≡ (asks_keep_alive (understood new_http_data q) || c.http.keep_alive)
  pub calls : c'.calls ≡ c.calls ++ event_calls c'.http.keep_alive
  pub state_is : c'.http.connection_state ≡ (if c'.http.keep_alive then connected else disconnected)
  pub idle : c'.http.keep_alive ≡ true → IsIdle c' × (asks_close c'.calls ≡ false)

asks_close-append :
    (xs ys : List LoopCall) → asks_close xs ≡ false → asks_close (xs ++ ys) ≡ asks_close ys
asks_close-append [] ys h = refl
asks_close-append (x ∷ xs) ys h = ground (arith, asks_close-append xs ys)

module _ (site : Site) (c : Conn) (q : Request) (m : ℕ) (ans : List WriteAnswer) (idle : IsIdle c)
    (good : IsRequest q) (ok : verdict site q ≡ analysis_success)
    (room_is : c.socket.outgoing ≡ room m ∷ ans) (fits : length (response site q) ≤ m) where
  abbrev noticed : Conn
  noticed = record (receives c (request_text q)) { http = record c.http { events = 0 } }

  noticed-IsIdle : IsIdle noticed
  noticed-IsIdle = record {
    state_is = idle.state_is;
    header_state = idle.header_state;
    position = idle.position;
    no_error = idle.no_error;
    is_open = idle.is_open;
    read_all = idle.read_all;
    written_all = idle.written_all;
    no_headers = idle.no_headers;
    unlinked = idle.unlinked;
  }

  abbrev before_write : Socket
  before_write = record c.socket { incoming = [] }

  abbrev behind_write : Socket
  behind_write = record before_write { outgoing = ans; sent = c.socket.sent ++ response site q }

  answer-response :
      ((answer site noticed q).0 ≡ analysis_success)
      × ((answer site noticed q).1.out_buffer ≡ response site q)
      × ((answer site noticed q).2 ≡ before_write)
  answer-response =
      let same = analysis_request-understood site noticed.http q before_write idle.written_all in
      let yes = same.0 ∙ ok in
      (yes, same.1, (analysis_request_outcome site (understood noticed.http q) before_write).0 yes)

  writen-response :
      writen (answer site noticed q).2 (answer site noticed q).1.out_buffer
      ≡ (record { written = some (length (response site q)); socket = behind_write }, [])
  writen-response =
      rw (answer-response.1, answer-response.2)
        (writen_all before_write m ans (response site q) room_is fits (response-filled site q ok))

  -- The connection behind handleRead.
  abbrev read_behind : Conn
  read_behind = record (renewed site noticed q 0 [] behind_write) { calls = c.calls }

  settled :
      (e : ℕ) (left : Bytes) (s : Socket)
      → e ≡ 0
      → left ≡ []
      → s ≡ behind_write
      → done (renewed site noticed q e left s) ≡ done read_behind
  settled e left s he hl hs =
      ap₂ (λ e left. done (renewed site noticed q e left s)) he hl
      ∙ ap (λ s. done (renewed site noticed q 0 [] s)) hs

  answer_kept :
      ((answer site noticed q).1.events ≡ 0)
      × ((answer site noticed q).1.keep_alive
          ≡ (asks_keep_alive (understood new_http_data q) || c.http.keep_alive))
  unfolding asks_keep_alive
  answer_kept =
      let kept = analysis_request_keeps site (understood noticed.http q) before_write in
      (kept.4, ground (arith, kept.5))

  handle_read-behind : (fuel : ℕ) → handle_read (suc fuel) site noticed ≡ done read_behind
  handle_read-behind fuel =
      let (f, runs) =
        handle_read-renewed site noticed q fuel (length (response site q)) noticed-IsIdle good refl
          answer-response.0 (ap (λ r. r.0.written) writen-response) in
      elim f.written [
        | inl (l, s, none_out) ↦ absurd (
            omega
              (arith, response-filled site q ok, ap length (answer-response.1), ap length none_out))
        | inr (l, s) ↦
            let left_nil = l ∙ ap (λ r. r.1) writen-response in
            runs
            ∙ settled f.e f.left f.s
                (f.events
                  ∙ ap
                      (λ t.
                        if is_empty t
                        then (answer site noticed q).1.events
                        else set_bit epoll_out (answer site noticed q).1.events)
                      left_nil
                  ∙ answer_kept.0)
                left_nil (s ∙ ap (λ r. r.0.socket) writen-response)
      ]

  abbrev keeps : Bool
  keeps = (answer site noticed q).1.keep_alive

  abbrev pub behind : Conn
  behind = close_asked (asked read_behind true keeps)

  handle_conn-behind :
      (fuel : ℕ) → handle_conn fuel read_behind ≡ done (asked read_behind true keeps)
  handle_conn-behind fuel =
      let kept = analysis_request_keeps site (understood noticed.http q) before_write in
      handle_conn-next_calls read_behind fuel (kept.0 ∙ idle.no_error) (kept.1 ∙ idle.is_open)
        (kept.3 ∙ idle.unlinked) refl

  pub input_event-behind :
      (fuel : ℕ) → input_event (suc fuel) site (receives c (request_text q)) ≡ done behind
  unfolding input_event
  input_event-behind fuel = ground (arith, handle_read-behind fuel, handle_conn-behind (suc fuel))

  asked-IsIdle : IsIdle (asked read_behind true keeps)
  asked-IsIdle =
      let kept = analysis_request_keeps site (understood noticed.http q) before_write in
      record {
        state_is = refl;
        header_state = refl;
        position = refl;
        no_error = kept.0 ∙ idle.no_error;
        is_open = kept.1 ∙ idle.is_open;
        read_all = kept.2;
        written_all = refl;
        no_headers = refl;
        unlinked = kept.3 ∙ idle.unlinked;
      }

  pub behind-Behind : asks_close c.calls ≡ false → Behind site c q ans behind
  unfolding handle_close
  behind-Behind h =
      let kept = analysis_request_keeps site (understood noticed.http q) before_write in
      let asking = asks_close-append c.calls (next_calls true keeps) h in
      let joined = append_assoc c.calls (next_calls true false) (remove_from_poller ∷ []) in
      record {
        sent = ground (arith);
        outgoing = ground (arith);
        kept = ground (arith, answer_kept.1);
        calls = ground (arith, asking, joined);
        state_is = ground (arith, asking, kept.1, idle.is_open);
        idle = λ keep.
            let stays : asks_close (c.calls ++ next_calls true keeps) ≡ false =
              ground (arith, asking) in
            (rw stays asked-IsIdle, ground (arith, asking));
      }
