-- ===== src/Http/Handlers/Served.antt =====
-- The response to a whole request: what handleRead leaves behind.
use mathlib.Core.Path.{ap₂}
use jinyi.Http.Analysis.Response.{analysis_request_outcome, analysis_request_keeps}
use jinyi.Http.Analysis.{Site, analysis_request}
use jinyi.Http.Conn.{Conn, is_empty, epoll_out, handle_write}
use jinyi.Http.Handlers.Request.{
  IsIdle, Request, request_text, IsRequest, understood, receive_request, uri_request,
  headers_request,
}
use jinyi.Http.Handlers.{stop, done, conclude_read, turn, handle_read}
use jinyi.Http.Phases.{leave, analysis_phase, read_block}
use jinyi.Http.Reset.{cleared, reset_unlinked}
use jinyi.Http.Types.{
  state_parse_uri, state_finish, AnalysisState, analysis_success, connected, h_start, HttpData,
}
use jinyi.Prelude.Bits.{set_bit}
use jinyi.Prelude.{
  ℕ, suc, ◌≡◌, refl, ap, ◌∙◌, ◌⊎◌, true, false, some, [], ◌∷◌, ◌++◌, arith, Bytes, take, drop,
  if◌then◌else◌, append_assoc, take-append-drop, Bool-cases, inl, inr,
}
use jinyi.Util.Transfer.{writen_lem}
use jinyi.Util.{Socket, got, writen}

-- What the write in front of the reset leaves: `e` and `left` are the new events and output buffer.
pub record Flushed (c c' : Conn) : Type 0 where
  pub e : ℕ
  pub left : Bytes
  pub s : Socket
  is : c' ≡ record c { http = record c.http { events = e; out_buffer = left }; socket = s }
  conserved : s.sent ++ left ≡ c.socket.sent ++ c.http.out_buffer
  pub events : e ≡ (if is_empty left then c.http.events else set_bit epoll_out c.http.events)
  pub written :
      ((left ≡ c.http.out_buffer) × (s ≡ c.socket) × (c.http.out_buffer ≡ []))
      ⊎ ((left ≡ (writen c.socket c.http.out_buffer).1)
          × (s ≡ (writen c.socket c.http.out_buffer).0.socket))

handle_write-Flushed :
    (c : Conn) (n : ℕ)
    → c.http.error ≡ false
    → c.http.connection_state ≡ connected
    → (writen c.socket c.http.out_buffer).0.written ≡ some n
    → Flushed c (handle_write c)
unfolding handle_write
handle_write-Flushed c n ne o w =
    let r = writen c.socket c.http.out_buffer in
    let laws = (writen_lem c.socket c.http.out_buffer).0 n w in
    record {
      e = if is_empty r.1 then c.http.events else set_bit epoll_out c.http.events;
      left = r.1;
      s = r.0.socket;
      is = ground arith;
      conserved =
          ap₂ (λ a b. a ++ b) laws.0 laws.1
          ∙ append_assoc c.socket.sent (take n c.http.out_buffer) (drop n c.http.out_buffer)
          ∙ ap (◌++◌ c.socket.sent) (take-append-drop n c.http.out_buffer);
      events = refl;
      written = inr (refl, refl);
    }

is_empty-nil : (text : Bytes) → is_empty text ≡ true → text ≡ []
is_empty-nil [] e = refl
is_empty-nil (b ∷ bs) e = ground arith

flush-Flushed :
    (c : Conn) (n : ℕ)
    → c.http.error ≡ false
    → c.http.connection_state ≡ connected
    → (writen c.socket c.http.out_buffer).0.written ≡ some n
    → Flushed c (if is_empty c.http.out_buffer then c else handle_write c)
flush-Flushed c n ne o w = elim (Bool-cases (is_empty c.http.out_buffer)) [
  | inl empty ↦ rw empty (record {
    e = c.http.events;
    left = c.http.out_buffer;
    s = c.socket;
    is = refl;
    conserved = refl;
    events = ground (arith, empty);
    written = inl (refl, refl, is_empty-nil c.http.out_buffer empty);
  })
  | inr filled ↦ rw filled (handle_write-Flushed c n ne o w)
]

-- Behind a finished request the connection is cleared for the next one.
conclude_read-finish :
    (fuel : ℕ) (c : Conn)
    → (f : Flushed c (if is_empty c.http.out_buffer then c else handle_write c))
    → c.http.error ≡ false
    → c.http.state ≡ state_finish
    → c.http.timer_linked ≡ false
    → c.http.in_buffer ≡ []
    → conclude_read (suc fuel) c
      ≡ stop (record c {
        http = cleared (record c.http { events = f.e; out_buffer = f.left });
        socket = f.s;
      })
unfolding conclude_read
conclude_read-finish fuel c f ne fin unlinked r = ground (
  arith,
  f.is,
  reset_unlinked fuel (record c.http { events = f.e; out_buffer = f.left }) unlinked,
)

-- What the request finds, once its first lines are parsed.
abbrev pub parsed : Conn → Request → Conn
parsed c q = record c { http = understood c.http q; socket = record c.socket { incoming = [] } }

abbrev pub answer : Site → Conn → Request → AnalysisState × HttpData × Socket
answer site c q = analysis_request site (understood c.http q) (record c.socket { incoming = [] })

abbrev pub finished : Site → Conn → Request → Conn
finished site c q = record c {
  http = record ((answer site c q).1) { state = state_finish };
  socket = (answer site c q).2;
}

analysis_phase-answer :
    (site : Site) (c : Conn) (q : Request)
    → (answer site c q).0 ≡ analysis_success
    → analysis_phase site (parsed c q) ≡ leave (finished site c q)
unfolding analysis_phase
analysis_phase-answer site c q ok = ground arith

read_block_request :
    (site : Site) (c : Conn) (q : Request)
    → IsIdle c
    → IsRequest q
    → c.socket.incoming ≡ got (request_text q) ∷ []
    → (answer site c q).0 ≡ analysis_success
    → read_block site c ≡ leave (finished site c q)
unfolding read_block
read_block_request site c q idle good e ok = ground (
  arith,
  receive_request site c q idle good e,
  uri_request site c q idle good,
  headers_request site c q idle good,
  analysis_phase-answer site c q ok,
)

-- The connection is ready for the next request, and the peer has been sent the beginning of the
-- response, whose rest waits in the output buffer.
pub record Served (c : Conn) (response : Bytes) (c' : Conn) : Type 0 where
  pub delivered : c'.socket.sent ++ c'.http.out_buffer ≡ c.socket.sent ++ response
  pub state_is : c'.http.state ≡ state_parse_uri
  pub header_state : c'.http.h_state ≡ h_start
  pub read_all : c'.http.in_buffer ≡ []
  pub no_headers : c'.http.headers ≡ []
  pub no_error : c'.http.error ≡ false

-- The connection behind the request, with the events, output buffer and socket that the write left.
abbrev pub renewed : Site → Conn → Request → ℕ → Bytes → Socket → Conn
renewed site c q e left s =
    let end = finished site c q in
    record end { http = cleared (record end.http { events = e; out_buffer = left }); socket = s }

-- A whole request is served in one call, up to what the write leaves.
pub handle_read-renewed :
    (site : Site) (c : Conn) (q : Request) (fuel n : ℕ)
    → IsIdle c
    → IsRequest q
    → c.socket.incoming ≡ got (request_text q) ∷ []
    → (answer site c q).0 ≡ analysis_success
    → (writen (answer site c q).2 (answer site c q).1.out_buffer).0.written ≡ some n
    → (f : Flushed (finished site c q) (
        let end = finished site c q in
        if is_empty end.http.out_buffer then end else handle_write end))
      × (handle_read (suc fuel) site c ≡ done (renewed site c q f.e f.left f.s))
unfolding handle_read turn
handle_read-renewed site c q fuel n idle good e ok w =
    let kept =
      analysis_request_keeps site (understood c.http q) (record c.socket { incoming = [] }) in
    let end = finished site c q in
    let f = flush-Flushed end n (kept.0 ∙ idle.no_error) (kept.1 ∙ idle.is_open) w in
    let last =
      conclude_read-finish fuel end f (kept.0 ∙ idle.no_error) refl (kept.3 ∙ idle.unlinked)
        kept.2 in
    (f, ground (arith, read_block_request site c q idle good e ok, last))

-- From the socket to the response: on an idle connection a whole well-formed request, with one header
-- field or more, that the analysis answers, is served in one call of handleRead, if the write does
-- not fail: the call returns, the peer is sent the response in order with the rest kept in the
-- output buffer, and the connection is ready for the next request.
pub handle_read-Served :
    (site : Site) (c : Conn) (q : Request) (fuel n : ℕ)
    → IsIdle c
    → IsRequest q
    → c.socket.incoming ≡ got (request_text q) ∷ []
    → (answer site c q).0 ≡ analysis_success
    → (writen (answer site c q).2 (answer site c q).1.out_buffer).0.written ≡ some n
    → (c' : Conn) × (handle_read (suc fuel) site c ≡ done c')
      × Served c (answer site c q).1.out_buffer c'
handle_read-Served site c q fuel n idle good e ok w =
    let s = record c.socket { incoming = [] } in
    let kept = analysis_request_keeps site (understood c.http q) s in
    let untouched = (analysis_request_outcome site (understood c.http q) s).0 ok in
    let (f, runs) = handle_read-renewed site c q fuel n idle good e ok w in
    (
      renewed site c q f.e f.left f.s,
      runs,
      record {
        delivered = f.conserved ∙ ap (λ t. t.sent ++ (answer site c q).1.out_buffer) untouched;
        state_is = refl;
        header_state = refl;
        read_all = kept.2;
        no_headers = refl;
        no_error = kept.0 ∙ idle.no_error;
      },
    )
