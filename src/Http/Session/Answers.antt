-- ===== src/Http/Session/Answers.antt =====
-- A connection over several requests, from the first to the one that has it closed.
use jinyi.Http.Analysis.{Site, asks_keep_alive}
use jinyi.Http.Conn.{receives, Conn, LoopCall}
use jinyi.Http.Handlers.Request.{IsIdle, Request, request_text, IsRequest, understood}
use jinyi.Http.Handlers.{done}
use jinyi.Http.Session.{asks_close, input_event, serve_events}
use jinyi.Http.Types.{analysis_success, connected, disconnected, new_http_data}
use mathlib.Core.Path.{subst}
use jinyi.Prelude.{
  Bool-cases, sym, ℕ, suc, ◌≤◌, ◌≡◌, refl, ◌∙◌, inl, inr, Bool, true, false, ◌||◌, List, [], ◌∷◌,
  ◌++◌, arith, Bytes, length, All, if◌then◌else◌, append-nil, append_assoc,
}
use jinyi.Util.{WriteAnswer, room, write_interrupted, write_would_block, write_failed}
use jinyi.Http.Session.Behind.{
  verdict, response, event_calls, Behind, behind, input_event-behind, behind-Behind,
}

-- The requests that are answered: those up to the first that leaves the connection to be closed.
abbrev pub answered : Bool → List Request → List Request
answered keep [] = []
answered keep (q ∷ qs) =
    let kept = asks_keep_alive (understood new_http_data q) || keep in
    q ∷ (if kept then answered kept qs else [])

abbrev pub responses : Site → List Request → Bytes
responses site [] = []
responses site (q ∷ qs) = response site q ++ responses site qs

abbrev pub session_calls : Bool → List Request → List LoopCall
session_calls keep [] = []
session_calls keep (q ∷ qs) =
    let kept = asks_keep_alive (understood new_http_data q) || keep in
    event_calls kept ++ (if kept then session_calls kept qs else [])

abbrev pub texts : List Request → List Bytes
texts [] = []
texts (q ∷ qs) = request_text q ∷ texts qs

-- Each write() takes a whole response.
abbrev pub IsRoomy : Site → List Request → List WriteAnswer → Type 0
IsRoomy site [] ans = Unit
IsRoomy site (q ∷ qs) (room m ∷ ans) = (length (response site q) ≤ m) × IsRoomy site qs ans
IsRoomy site (q ∷ qs) _ = true ≡ false

serve_events-disconnected :
    (fuel : ℕ) (site : Site) (ts : List Bytes) (c : Conn)
    → c.http.connection_state ≡ disconnected
    → serve_events fuel site ts c ≡ done c
unfolding serve_events
serve_events-disconnected fuel site [] c h = refl
serve_events-disconnected fuel site (t ∷ ts) c h = ground (arith, h)

-- What a session comes to.
abbrev pub Session : ℕ → Site → Conn → List Request → Conn → Type 0
Session fuel site c qs c' =
    (serve_events (suc fuel) site (texts qs) c ≡ done c')
    × (c'.socket.sent ≡ c.socket.sent ++ responses site (answered c.http.keep_alive qs))
    × (c'.calls ≡ c.calls ++ session_calls c.http.keep_alive qs)

module _ (fuel : ℕ) (site : Site) (c : Conn) (q : Request) (qs : List Request)
    (ans : List WriteAnswer) (c₁ : Conn) (opened : c.http.connection_state ≡ connected)
    (one : input_event (suc fuel) site (receives c (request_text q)) ≡ done c₁)
    (b : Behind site c q ans c₁) where
  Session-closed : c₁.http.keep_alive ≡ false → Session fuel site c (q ∷ qs) c₁
  unfolding serve_events
  Session-closed e =
      let here = sym b.kept ∙ e in
      (
        ground (
          arith,
          opened,
          one,
          serve_events-disconnected (suc fuel) site (texts qs) c₁ (ground (arith, b.state_is, e)),
        ),
        ground (arith, here, b.sent, append-nil (response site q)),
        ground (arith, here, e, b.calls, append-nil (event_calls false)),
      )

  Session-kept :
      (c' : Conn)
      → c₁.http.keep_alive ≡ true
      → Session fuel site c₁ qs c'
      → Session fuel site c (q ∷ qs) c'
  unfolding serve_events
  Session-kept c' e (runs, sent, calls) =
      let here = sym b.kept ∙ e in
      (
        ground (arith, opened, one, runs),
        ground (
          arith,
          here,
          e,
          sent,
          b.sent,
          append_assoc c.socket.sent (response site q) (responses site (answered true qs)),
        ),
        ground (
          arith,
          here,
          e,
          calls,
          b.calls,
          append_assoc c.calls (event_calls true) (session_calls true qs),
        ),
      )

pub IsRoomy-cons :
    (site : Site) (q : Request) (qs : List Request) (all : List WriteAnswer)
    → IsRoomy site (q ∷ qs) all
    → (m : ℕ) × (ans : List WriteAnswer) × (all ≡ room m ∷ ans)
      × (length (response site q) ≤ m)
      × IsRoomy site qs ans
IsRoomy-cons site q qs [] h = ground arith
IsRoomy-cons site q qs (room m ∷ ans) h = (m, ans, refl, h.0, h.1)
IsRoomy-cons site q qs (write_interrupted ∷ ans) h = ground arith
IsRoomy-cons site q qs (write_would_block ∷ ans) h = ground arith
IsRoomy-cons site q qs (write_failed ∷ ans) h = ground arith

-- A session: on an idle connection, with one event for each request that arrives whole and each write()
-- taking all it is given, the peer is sent exactly the responses to the requests, in order, up to the
-- first request that leaves the connection to be closed; and each request but that one makes the
-- connection wait for the next.
pub serve_events-Session :
    (fuel : ℕ) (site : Site) (qs : List Request) (c : Conn)
    → IsIdle c
    → asks_close c.calls ≡ false
    → All (λ q. IsRequest q × (verdict site q ≡ analysis_success)) qs
    → IsRoomy site qs c.socket.outgoing
    → (c' : Conn) × Session fuel site c qs c'
unfolding serve_events
serve_events-Session fuel site [] c idle h good roomy =
    (c, (refl, sym (append-nil c.socket.sent), sym (append-nil c.calls)))
serve_events-Session fuel site (q ∷ qs) c idle h ((whole, ok), good) roomy =
    let (m, ans, out, fits, roomy') = IsRoomy-cons site q qs c.socket.outgoing roomy in
    let c₁ = behind site c q m ans idle whole ok out fits in
    let one = input_event-behind site c q m ans idle whole ok out fits fuel in
    let b = behind-Behind site c q m ans idle whole ok out fits h in
    elim (Bool-cases c₁.http.keep_alive) [
      | inl e ↦
          let (idle₁, open₁) = b.idle e in
          let (c', rest) =
            serve_events-Session fuel site qs c₁ idle₁ open₁ good
              (subst (IsRoomy site qs) (sym b.outgoing) roomy') in
          (c', Session-kept fuel site c q qs ans c₁ idle.is_open one b c' e rest)
      | inr e ↦ (c₁, Session-closed fuel site c q qs ans c₁ idle.is_open one b e)
    ]
