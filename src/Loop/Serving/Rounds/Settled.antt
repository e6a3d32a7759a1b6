-- ===== src/Loop/Serving/Rounds/Settled.antt =====
-- The connections behind one round, and what their peers have been sent.
use jinyi.Http.Analysis.{Site}
use jinyi.Http.Conn.{Conn}
use jinyi.Http.Handlers.Request.{IsIdle}
use jinyi.Http.Session.Behind.{response}
use jinyi.Http.Types.{ConnectionState, connected}
use jinyi.Loop.Serving.Registered.{Listening}
use jinyi.Loop.Serving.Rounds.{Loop}
use jinyi.Loop.Serving.Rounds.Arrivals.{DistinctFds, IsServed}
use jinyi.Loop.Serving.Rounds.Found.{Arrival}
use jinyi.Loop.Serving.Rounds.Many.{come, deliver, responses_to, IsAnswerable, chs-differ}
use jinyi.Loop.Serving.Sessions.{calm-IsIdle}
use mathlib.Core.Option.{none-ne-some, some-injective}
use mathlib.Core.Path.{subst}
use jinyi.Prelude.{
  ℕ, ◌≡◌, refl, sym, ap, ◌∙◌, ◌⊎◌, inl, inr, Bool, true, false, List, [], ◌∷◌, ◌++◌, ◌==◌, arith,
  All, All-zip, Bool-cases, append-nil,
}

-- Channels that are all different.
abbrev pub DistinctChs : List Arrival → Type 0
DistinctChs [] = Unit
DistinctChs (a ∷ rest) = All (λ b. (b.ch == a.ch) ≡ false) rest × DistinctChs rest

pub answerable-DistinctChs :
    (site : Site) (fds : ℕ → ℕ) (s : Loop) (arrivals : List Arrival)
    → DistinctFds arrivals
    → All (IsAnswerable site fds s) arrivals
    → DistinctChs arrivals
answerable-DistinctChs site fds s [] d h = tt
answerable-DistinctChs site fds s (a ∷ rest) (others, d) (r, rs) = (
  All-zip (λ b. (b.fd == a.fd) ≡ false) (IsAnswerable site fds s) (λ b. (b.ch == a.ch) ≡ false)
      (λ b other rb. chs-differ site fds s a b r rb other) rest others rs,
  answerable-DistinctChs site fds s rest d rs,
)

pub deliver-other :
    (arrivals : List Arrival) (conns : ℕ → Conn) (k : ℕ)
    → All (λ a. (k == a.ch) ≡ false) arrivals
    → deliver arrivals conns k ≡ conns k
deliver-other [] conns k h = refl
deliver-other (a ∷ rest) conns k (h, hs) = rw h (deliver-other rest conns k hs)

abbrev pub HasCome : List Arrival → (ℕ → Conn) → Arrival → Type 0
HasCome arrivals conns a = deliver arrivals conns a.ch ≡ come a (conns a.ch)

pub deliver-All-HasCome :
    (arrivals : List Arrival) (conns : ℕ → Conn)
    → DistinctChs arrivals
    → All (HasCome arrivals conns) arrivals
deliver-All-HasCome [] conns d = tt
deliver-All-HasCome (a ∷ rest) conns (others, d) = (
  ground arith,
  All-zip (λ b. (b.ch == a.ch) ≡ false) (HasCome rest conns) (HasCome (a ∷ rest) conns)
      (λ b other e. rw other e) rest others (deliver-All-HasCome rest conns d),
)

-- The connection of an arrival behind the round.
pub record Settled (site : Site) (s s' : Loop) (a : Arrival) : Type 0 where
  pub sent : (s'.conns a.ch).socket.sent ≡ (s.conns a.ch).socket.sent ++ response site a.request
  pub serves : Listening s'.poller a.ch a.fd → IsIdle (s'.conns a.ch) × ((s'.conns a.ch).calls ≡ [])
  pub alone : (ch : ℕ) → Listening s'.poller ch a.fd → ch ≡ a.ch

is_open : ConnectionState → Bool
is_open connected = true
is_open _ = false

pub IsServed-Settled :
    (site : Site) (s d s' : Loop) (a : Arrival)
    → d.conns a.ch ≡ come a (s.conns a.ch)
    → IsServed site d s' a
    → Settled site s s' a
unfolding is_open
IsServed-Settled site s d s' a came (c₁, b, e, inl (open_, l)) = record {
  sent =
      ap (λ c. c.socket.sent) e ∙ b.sent ∙ ap (λ c. c.socket.sent ++ response site a.request) came;
  serves = λ l'. elim (Bool-cases c₁.http.keep_alive) [
    | inl keep ↦ (subst IsIdle (sym e) (calm-IsIdle c₁ (b.idle keep).0), ap (λ c. c.calls) e)
    | inr gone ↦ ground (arith, open_, gone, b.state_is)
  ];
  alone = λ ch l'. some-injective ch a.ch (sym l'.placed ∙ l.placed);
}
IsServed-Settled site s d s' a came (c₁, b, e, inr (closed, gone)) = record {
  sent =
      ap (λ c. c.socket.sent) e ∙ b.sent ∙ ap (λ c. c.socket.sent ++ response site a.request) came;
  serves = λ l'. absurd (none-ne-some l'.word (sym gone.unlisted ∙ l'.listed));
  alone = λ ch l'. absurd (none-ne-some l'.word (sym gone.unlisted ∙ l'.listed));
}

-- A descriptor is that of no arrival, or of one.
pub fd_cases :
    {P : Arrival → Type 0} (fd : ℕ) (arrivals : List Arrival)
    → All P arrivals
    → All (λ a. (fd == a.fd) ≡ false) arrivals ⊎ ((a : Arrival) × P a × (fd ≡ a.fd))
fd_cases fd [] h = inl tt
fd_cases fd (a ∷ rest) (h, hs) = elim (Bool-cases (fd == a.fd)) [
  | inl same ↦ inr (a, h, ground arith)
  | inr other ↦ elim (fd_cases fd rest hs) [
    | inl others ↦ inl (other, others)
    | inr found ↦ inr found
  ]
]

pub responses_to-other :
    (site : Site) (ch : ℕ) (arrivals : List Arrival)
    → All (λ a. (ch == a.ch) ≡ false) arrivals
    → responses_to site ch arrivals ≡ []
responses_to-other site ch [] h = refl
responses_to-other site ch (a ∷ rest) (h, hs) = rw h (responses_to-other site ch rest hs)

-- A channel is that of no arrival, or its peer has been sent what the round has for it.
pub sent_cases :
    (site : Site) (s s' : Loop) (ch : ℕ) (arrivals : List Arrival)
    → DistinctChs arrivals
    → All (Settled site s s') arrivals
    → All (λ a. (ch == a.ch) ≡ false) arrivals
      ⊎ ((s'.conns ch).socket.sent ≡ (s.conns ch).socket.sent ++ responses_to site ch arrivals)
sent_cases site s s' ch [] d h = inl tt
sent_cases site s s' ch (a ∷ rest) (others, d) (h, hs) = elim (Bool-cases (ch == a.ch)) [
  | inl same ↦
      let e : ch ≡ a.ch = ground arith in
      let none_else =
        All-zip (λ b. (b.ch == a.ch) ≡ false) (Settled site s s') (λ b. (ch == b.ch) ≡ false)
          (λ b other t. ground (arith, e, other)) rest others hs in
      let gone = responses_to-other site ch rest none_else in
      let here : (s'.conns ch).socket.sent ≡ (s.conns ch).socket.sent ++ response site a.request =
        subst (λ k. (s'.conns k).socket.sent ≡ (s.conns k).socket.sent ++ response site a.request)
          (sym e) h.sent in
      inr (ground (arith, same, gone, append-nil (response site a.request), here))
  | inr other ↦ elim (sent_cases site s s' ch rest d hs) [
    | inl all ↦ inl (other, all)
    | inr sent ↦ inr (rw other sent)
  ]
]
