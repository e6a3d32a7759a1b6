-- ===== src/Loop/Serving/Rounds/Arrivals.antt =====
-- The connection of one arrival, and what its event leaves of the others.
use jinyi.Http.Analysis.{Site}
use jinyi.Http.Conn.{Conn, receives}
use jinyi.Http.Handlers.{done}
use jinyi.Http.Handlers.Request.{IsIdle, request_text, IsRequest}
use jinyi.Http.Session.{asks_close, input_event}
use jinyi.Http.Session.Behind.{
  verdict, response, event_calls, Behind, behind, input_event-behind, behind-Behind,
}
use jinyi.Http.Types.{analysis_success}
use jinyi.Loop.Poller.{Epoll, at}
use jinyi.Loop.Poller.Coherent.{IsCoherent}
use jinyi.Loop.Serving.{Ctl, perform_all, next, event_done, channel_event}
use jinyi.Loop.Serving.Events.{channel_event-input}
use jinyi.Loop.Serving.Rounds.{Loop}
use jinyi.Loop.Serving.Rounds.Apart.{Apart, Apart-SameAt, Listening-SameAt}
use jinyi.Loop.Serving.Rounds.Found.{Arrival, IsListening, IsReported}
use jinyi.Loop.Serving.Sessions.{IsKept, calm}
use mathlib.Core.Path.{subst}
use jinyi.Prelude.{
  ℕ, suc, ◌≤◌, ◌≡◌, sym, ap, ◌∙◌, inl, inr, false, List, [], ◌∷◌, ◌++◌, ◌==◌, arith, All, length,
  Bool-cases,
}
use jinyi.Util.{got, room}

-- The request of an arrival has come whole on an idle connection, the analysis answers it, and the
-- next write() takes the response.
pub record HasRequest (site : Site) (c : Conn) (a : Arrival) : Type 0 where
  pub idle : IsIdle c
  pub none_open : c.calls ≡ []
  pub whole : IsRequest a.request
  pub answerable : verdict site a.request ≡ analysis_success
  pub arrived : c.socket.incoming ≡ got (request_text a.request) ∷ []
  pub outgoing : c.socket.outgoing ≡ room a.space ∷ a.answers
  pub fits : length (response site a.request) ≤ a.space

pub arrival-Behind :
    (ctl : Ctl) (fuel : ℕ) (site : Site) (p : Epoll) (c : Conn) (a : Arrival)
    → IsReported p a
    → HasRequest site c a
    → (c₁ : Conn) × Behind site c a.request a.answers c₁
      × (channel_event ctl (suc fuel) site a.ch p c
          ≡ next (calm c₁) (perform_all ctl a.ch p (event_calls c₁.http.keep_alive)))
unfolding event_done
arrival-Behind ctl fuel site p c a (l, ev) r =
    let c₁ =
      behind site c a.request a.space a.answers r.idle r.whole r.answerable r.outgoing r.fits in
    let b =
      behind-Behind site c a.request a.space a.answers r.idle r.whole r.answerable r.outgoing r.fits
        (ap asks_close r.none_open) in
    let came : c ≡ receives c (request_text a.request) =
      ap (λ i. record c { socket = record c.socket { incoming = i } }) r.arrived in
    let runs : input_event (suc fuel) site c ≡ done c₁ =
      ap (input_event (suc fuel) site) came
      ∙ input_event-behind site c a.request a.space a.answers r.idle r.whole r.answerable r.outgoing
          r.fits fuel in
    (
      c₁,
      b,
      channel_event-input ctl (suc fuel) site a.ch a.fd p c l ev
          ∙ ap (event_done ctl a.ch p) runs
          ∙ ap (λ calls. next (calm c₁) (perform_all ctl a.ch p calls))
              (b.calls ∙ ap (λ calls. calls ++ event_calls c₁.http.keep_alive) r.none_open),
    )

-- Descriptors that are reported once each.
abbrev pub DistinctFds : List Arrival → Type 0
DistinctFds [] = Unit
DistinctFds (a ∷ rest) = All (λ b. (b.fd == a.fd) ≡ false) rest × DistinctFds rest

-- The connection of an arrival behind the round: its response is sent, and it listens again, or is
-- closed and out of the poller.
abbrev pub IsServed : Site → Loop → Loop → Arrival → Type 0
IsServed site s s' a =
    (c₁ : Conn) × Behind site (s.conns a.ch) a.request a.answers c₁
    × (s'.conns a.ch ≡ calm c₁)
    × IsKept a.ch a.fd s'.poller c₁

-- What the round of some arrivals leaves alone.
pub record Untouched (arrivals : List Arrival) (s s' : Loop) : Type 0 where
  pub entries :
      (j : ℕ)
      → All (λ a. (j == a.fd) ≡ false) arrivals
      → (s'.poller.interest j ≡ s.poller.interest j) × (s'.poller.fd2chan j ≡ s.poller.fd2chan j)
  pub channels :
      (k : ℕ)
      → All (λ a. (k == a.ch) ≡ false) arrivals
      → (s'.poller.channels k ≡ s.poller.channels k) × (s'.conns k ≡ s.conns k)

abbrev pub Ready : Site → Loop → Arrival → Type 0
Ready site s a = IsReported s.poller a × HasRequest site (s.conns a.ch) a

-- Two channels at different descriptors are different.
channels-differ :
    (p : Epoll) (a b : Arrival)
    → IsListening p a
    → IsListening p b
    → (b.fd == a.fd) ≡ false
    → (b.ch == a.ch) ≡ false
channels-differ p a b la lb other = elim (Bool-cases (b.ch == a.ch)) [
  | inl same ↦
      let e : b.ch ≡ a.ch = ground arith in
      let fds : b.fd ≡ a.fd = sym lb.at_fd ∙ ap (λ c. (p.channels c).fd) e ∙ la.at_fd in
      ground (arith, fds, other)
  | inr differ ↦ differ
]

-- The connection of `a` has been served; what is so for the others still is.
Ready-Apart :
    (site : Site) (s : Loop) (a b : Arrival) (c' : Conn) (p' : Epoll)
    → Apart a.ch a.fd s.poller p'
    → IsCoherent p'
    → (b.fd == a.fd) ≡ false
    → (b.ch == a.ch) ≡ false
    → Ready site s b
    → Ready site (record { poller = p'; conns = at s.conns a.ch c' }) b
Ready-Apart site s a b c' p' apart coherent other other' ((l, ev), r) =
    let same : at s.conns a.ch c' b.ch ≡ s.conns b.ch = ground (arith, other') in
    (
      (
        Listening-SameAt b.ch b.fd s.poller p'
            (Apart-SameAt a.ch a.fd b.ch b.fd s.poller p' apart other other') coherent l,
        ap (λ c. c.revents) (apart.channels b.ch other') ∙ ev,
      ),
      subst (λ c. HasRequest site c b) (sym same) r,
    )

pub Ready-Apart-All :
    (site : Site) (s : Loop) (a : Arrival) (c' : Conn) (p' : Epoll) (bs : List Arrival)
    → Apart a.ch a.fd s.poller p'
    → IsCoherent p'
    → IsListening s.poller a
    → All (λ b. (b.fd == a.fd) ≡ false) bs
    → All (Ready site s) bs
    → All (Ready site (record { poller = p'; conns = at s.conns a.ch c' })) bs
Ready-Apart-All site s a c' p' [] apart coherent l others all = tt
Ready-Apart-All site s a c' p' (b ∷ bs) apart coherent l (other, others) (r, rs) = (
  Ready-Apart site s a b c' p' apart coherent other (channels-differ s.poller a b l r.0.0 other) r,
  Ready-Apart-All site s a c' p' bs apart coherent l others rs,
)

pub distinct_from :
    (site : Site) (s : Loop) (a : Arrival) (bs : List Arrival)
    → IsListening s.poller a
    → All (λ b. (b.fd == a.fd) ≡ false) bs
    → All (Ready site s) bs
    → All (λ b. (a.fd == b.fd) ≡ false) bs × All (λ b. (a.ch == b.ch) ≡ false) bs
distinct_from site s a [] l others all = (tt, tt)
distinct_from site s a (b ∷ bs) l (other, others) (r, rs) =
    let (fds, chs) = distinct_from site s a bs l others rs in
    let other' = channels-differ s.poller a b l r.0.0 other in
    ((ground (arith, other), fds), (ground (arith, other'), chs))

-- What is served behind the first connection, seen from before it.
pub IsServed-before :
    (site : Site) (s s' : Loop) (a : Arrival) (c' : Conn) (p' : Epoll) (bs : List Arrival)
    → All (λ b. (a.ch == b.ch) ≡ false) bs
    → All (IsServed site (record { poller = p'; conns = at s.conns a.ch c' }) s') bs
    → All (IsServed site s s') bs
IsServed-before site s s' a c' p' [] others served = tt
IsServed-before site s s' a c' p' (b ∷ bs) (other, others) ((c₁, behind_, calm_, kept), served) =
    let same : at s.conns a.ch c' b.ch ≡ s.conns b.ch = ground (arith, other) in
    (
      (c₁, subst (λ c. Behind site c b.request b.answers c₁) same behind_, calm_, kept),
      IsServed-before site s s' a c' p' bs others served,
    )
