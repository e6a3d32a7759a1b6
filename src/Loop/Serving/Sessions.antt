-- ===== src/Loop/Serving/Sessions.antt =====
-- A session over the poller: the events of one connection, its handlers, and what they make of the
-- entry of its descriptor.
use jinyi.Http.Analysis.{Site, default_keep_alive_time}
use mathlib.Core.Path.{subst}
use jinyi.Http.Conn.{Conn, receives, epoll_in, epoll_et}
use jinyi.Http.Handlers.{done}
use jinyi.Http.Handlers.Request.{IsIdle, Request, request_text, IsRequest}
use jinyi.Http.Session.Answers.{answered, responses, texts, IsRoomy, IsRoomy-cons}
use jinyi.Http.Session.Behind.{
  verdict, response, event_calls, Behind, behind, input_event-behind, behind-Behind,
}
use jinyi.Http.Types.{analysis_success, connected, disconnected}
use jinyi.Util.{WriteAnswer}
use jinyi.Http.Session.{asks_close, input_event}
use jinyi.Loop.Poller.{Epoll}
use jinyi.Loop.Poller.Active.{reported}
use jinyi.Loop.Serving.{Ctl, perform_all, next, event_done, polled_event, serve_polled}
use jinyi.Loop.Serving.Events.{polled_event-input}
use jinyi.Loop.Serving.Registered.{
  FailsOnlyAbsent, Listening, Removed, SameOthers, reported-Listening, perform-update,
  perform-remove,
}
use jinyi.Prelude.Bits.{set_bit}
use jinyi.Prelude.{
  ℕ, ◌≡◌, refl, sym, ap, ◌∙◌, Bool, true, false, none, List, [], ◌∷◌, arith, Bytes, ◌⊎◌, ◌++◌, suc,
  Bool-cases, inl, inr, append-nil, append_assoc, All,
}

-- What an event leaves of the entry: it waits for the next request, or is taken away with the
-- connection.
abbrev pub IsKept : ℕ → ℕ → Epoll → Conn → Type 0
IsKept ch fd p c =
    ((c.http.connection_state ≡ connected) × Listening p ch fd)
    ⊎ ((c.http.connection_state ≡ disconnected) × Removed p fd)

-- A session over the poller.
pub record Polled (ctl : Ctl) (fuel : ℕ) (site : Site) (ch fd : ℕ) (p : Epoll) (c : Conn)
    (qs : List Request) (c' : Conn) (p' : Epoll) : Type 0 where
  pub runs : serve_polled ctl (suc fuel) site fd (texts qs) p c ≡ next c' p'
  pub sent : c'.socket.sent ≡ c.socket.sent ++ responses site (answered c.http.keep_alive qs)
  pub kept : IsKept ch fd p' c'
  pub others : SameOthers fd p p'

serve_polled-unlisted :
    (ctl : Ctl) (fuel : ℕ) (site : Site) (fd : ℕ) (ts : List Bytes) (p : Epoll) (c : Conn)
    → p.interest fd ≡ none
    → serve_polled ctl fuel site fd ts p c ≡ next c p
unfolding serve_polled
serve_polled-unlisted ctl fuel site fd [] p c gone = refl
serve_polled-unlisted ctl fuel site fd (t ∷ ts) p c gone = ground (arith, gone)

abbrev pub calm : Conn → Conn
calm c = record c { calls = [] }

pub calm-IsIdle : (c : Conn) → IsIdle c → IsIdle (calm c)
calm-IsIdle c idle = record {
  state_is = idle.state_is;
  header_state = idle.header_state;
  position = idle.position;
  no_error = idle.no_error;
  is_open = idle.is_open;
  read_all = idle.read_all;
  written_all = idle.written_all;
  no_headers = idle.no_headers;
  unlinked = idle.unlinked;
}

module _ (ctl : Ctl) (fuel : ℕ) (site : Site) (ch fd : ℕ) (p : Epoll) (c : Conn) (q : Request)
    (ans : List WriteAnswer) (c₁ : Conn) (fails : FailsOnlyAbsent ctl) (l : Listening p ch fd)
    (open_ : c.calls ≡ [])
    (one : input_event (suc fuel) site (receives c (request_text q)) ≡ done c₁)
    (b : Behind site c q ans c₁) where
  abbrev reported_to : Epoll
  reported_to = reported p ch (set_bit epoll_in 0)

  behind_event :
      polled_event ctl (suc fuel) site fd (request_text q) p c
      ≡ next (calm c₁) (perform_all ctl ch reported_to (event_calls c₁.http.keep_alive))
  unfolding event_done
  behind_event =
      polled_event-input ctl (suc fuel) site ch fd (request_text q) p c l
      ∙ ap (event_done ctl ch reported_to) one
      ∙ ap (λ calls. next (calm c₁) (perform_all ctl ch reported_to calls))
          (b.calls ∙ ap (λ calls. calls ++ event_calls c₁.http.keep_alive) open_)

  serve_polled_step :
      (qs : List Request) (e : Bool)
      → c₁.http.keep_alive ≡ e
      → serve_polled ctl (suc fuel) site fd (texts (q ∷ qs)) p c
        ≡ serve_polled ctl
            (suc fuel)
            site
            fd
            (texts qs)
            (perform_all ctl ch reported_to (event_calls e))
            (calm c₁)
  unfolding serve_polled
  serve_polled_step qs e h = ground (arith, l.listed, behind_event, h)

  Polled-kept :
      (qs : List Request) (c' : Conn) (p' : Epoll)
      → c₁.http.keep_alive ≡ true
      → Polled ctl fuel site ch fd
          (perform_all ctl ch reported_to (event_calls true))
          (calm c₁)
          qs
          c'
          p'
      → Polled ctl fuel site ch fd p c (q ∷ qs) c' p'
  Polled-kept qs c' p' e rest =
      let here = sym b.kept ∙ e in
      let (l', same) =
        perform-update ctl reported_to ch fd (set_bit epoll_et (set_bit epoll_in 0))
          default_keep_alive_time fails (reported-Listening p ch fd (set_bit epoll_in 0) l) refl in
      record {
        runs = serve_polled_step qs true e ∙ rest.runs;
        sent = ground (
          arith,
          here,
          e,
          rest.sent,
          b.sent,
          append_assoc c.socket.sent (response site q) (responses site (answered true qs)),
        );
        kept = rest.kept;
        others = λ j other. (
          (rest.others j other).0 ∙ (same j other).0,
          (rest.others j other).1 ∙ (same j other).1,
        );
      }

  Polled-closed :
      (qs : List Request)
      → c₁.http.keep_alive ≡ false
      → (p' : Epoll) × Polled ctl fuel site ch fd p c (q ∷ qs) (calm c₁) p'
  unfolding serve_polled
  Polled-closed qs e =
      let here = sym b.kept ∙ e in
      let (gone, same) =
        perform-remove ctl reported_to ch fd fails
          (reported-Listening p ch fd (set_bit epoll_in 0) l) in
      (
        perform_all ctl ch reported_to (event_calls false),
        record {
          runs =
              serve_polled_step qs false e
              ∙ serve_polled-unlisted ctl (suc fuel) site fd (texts qs)
                  (perform_all ctl ch reported_to (event_calls false)) (calm c₁) gone.unlisted;
          sent = ground (arith, here, b.sent, append-nil (response site q));
          kept = inr (ground (arith, b.state_is, e), gone);
          others = same;
        },
      )

-- A session seen by the loop. An idle connection without open calls listens at its descriptor; with
-- one EPOLLIN for each request that arrives whole, as long as the descriptor is in the kernel's list,
-- and each write() taking all it is given, the peer is sent exactly the responses, in order, up to the
-- first request that leaves the connection to be closed. Then either the connection is open and its
-- channel listens again, or it is closed and its descriptor is neither in the table nor in the list.
-- The entries of all other descriptors are unchanged, and table and list agree. This needs that
-- epoll_ctl fails only for a descriptor that is not in the list.
pub serve_polled-Polled :
    (ctl : Ctl) (fuel : ℕ) (site : Site) (ch fd : ℕ) (qs : List Request) (p : Epoll) (c : Conn)
    → FailsOnlyAbsent ctl
    → Listening p ch fd
    → IsIdle c
    → c.calls ≡ []
    → All (λ q. IsRequest q × (verdict site q ≡ analysis_success)) qs
    → IsRoomy site qs c.socket.outgoing
    → (c' : Conn) × (p' : Epoll) × Polled ctl fuel site ch fd p c qs c' p'
unfolding serve_polled
serve_polled-Polled ctl fuel site ch fd [] p c fails l idle none_open good roomy = (
  c,
  p,
  record {
    runs = refl;
    sent = sym (append-nil c.socket.sent);
    kept = inl (idle.is_open, l);
    others = λ j other. (refl, refl);
  },
)
serve_polled-Polled ctl fuel site ch fd (q ∷ qs) p c fails l idle none_open ((whole, ok), good)
      roomy =
    let (m, ans, out, fits, roomy') = IsRoomy-cons site q qs c.socket.outgoing roomy in
    let c₁ = behind site c q m ans idle whole ok out fits in
    let one = input_event-behind site c q m ans idle whole ok out fits fuel in
    let b = behind-Behind site c q m ans idle whole ok out fits (ap asks_close none_open) in
    elim (Bool-cases c₁.http.keep_alive) [
      | inl e ↦
          let p₁ = perform_all ctl ch (reported p ch (set_bit epoll_in 0)) (event_calls true) in
          let listening =
            perform-update ctl (reported p ch (set_bit epoll_in 0)) ch fd
              (set_bit epoll_et (set_bit epoll_in 0)) default_keep_alive_time fails
              (reported-Listening p ch fd (set_bit epoll_in 0) l) refl in
          let (c', p', rest) =
            serve_polled-Polled ctl fuel site ch fd qs p₁ (calm c₁) fails listening.0
              (calm-IsIdle c₁ (b.idle e).0) refl good
              (subst (IsRoomy site qs) (sym b.outgoing) roomy') in
          (
            c',
            p',
            Polled-kept ctl fuel site ch fd p c q ans c₁ fails l none_open one b qs c' p' e rest,
          )
      | inr e ↦
          let (p', closed) =
            Polled-closed ctl fuel site ch fd p c q ans c₁ fails l none_open one b qs e in
          (calm c₁, p', closed)
    ]
