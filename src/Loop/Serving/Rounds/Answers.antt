-- ===== src/Loop/Serving/Rounds/Answers.antt =====
-- One round, and many rounds in a row.
use jinyi.Http.Analysis.{Site}
use jinyi.Http.Handlers.Request.{IsIdle}
use jinyi.Loop.Poller.{poll, get_events_request}
use jinyi.Loop.Poller.Coherent.{IsCoherent}
use jinyi.Loop.Serving.{Ctl}
use jinyi.Loop.Serving.Registered.{FailsOnlyAbsent, Listening}
use jinyi.Loop.Serving.Rounds.{Loop, loop_round}
use jinyi.Loop.Serving.Rounds.Apart.{Listening-SameAt}
use jinyi.Loop.Serving.Rounds.Arrivals.{HasRequest, DistinctFds, IsServed, Untouched}
use jinyi.Loop.Serving.Rounds.Found.{Arrival}
use jinyi.Loop.Serving.Rounds.Many.{
  delivered, one_round, serve_rounds, responses_to, all_responses_to, IsServing, IsAnswerable,
  AllAnswerable, come-HasRequest,
}
use jinyi.Loop.Serving.Rounds.Served.{HasArrived, loop_round-Served}
use mathlib.Core.Path.{subst}
use jinyi.Prelude.{
  ℕ, suc, ◌≡◌, refl, sym, ap, ◌∙◌, inl, inr, false, some, List, [], ◌∷◌, ◌++◌, ◌==◌, arith, All,
  All-zip, Bool-cases, append-nil, append_assoc,
}
use jinyi.Loop.Serving.Rounds.Settled.{
  DistinctChs, answerable-DistinctChs, deliver-other, HasCome, deliver-All-HasCome, Settled,
  IsServed-Settled, fd_cases, responses_to-other, sent_cases,
}

module _ (site : Site) (fds : ℕ → ℕ) (s s' : Loop) (arrivals : List Arrival)
    (serving : IsServing fds s) (coherent : IsCoherent s.poller) (distinct : DistinctFds arrivals)
    (good : All (IsAnswerable site fds s) arrivals)
    (served : All (IsServed site (delivered arrivals s) s') arrivals)
    (untouched : Untouched arrivals (delivered arrivals s) s') where
  distinct_chs : DistinctChs arrivals
  distinct_chs = answerable-DistinctChs site fds s arrivals distinct good

  behind_round : All (Settled site s s') arrivals
  behind_round =
      All-zip (HasCome arrivals s.conns) (IsServed site (delivered arrivals s) s')
        (Settled site s s') (λ a. IsServed-Settled site s (delivered arrivals s) s' a) arrivals
        (deliver-All-HasCome arrivals s.conns distinct_chs) served

  round_sent :
      (ch : ℕ)
      → (s'.conns ch).socket.sent ≡ (s.conns ch).socket.sent ++ responses_to site ch arrivals
  round_sent ch = elim (sent_cases site s s' ch arrivals distinct_chs behind_round) [
    | inl others ↦
        ap (λ c. c.socket.sent)
          ((untouched.channels ch others).1 ∙ deliver-other arrivals s.conns ch others)
        ∙ sym (append-nil (s.conns ch).socket.sent)
        ∙ ap (◌++◌ (s.conns ch).socket.sent) (sym (responses_to-other site ch arrivals others))
    | inr sent ↦ sent
  ]

  other_channels :
      (ch : ℕ)
      → All (λ a. (fds ch == a.fd) ≡ false) arrivals
      → All (λ a. (ch == a.ch) ≡ false) arrivals
  other_channels ch others =
      All-zip (λ a. (fds ch == a.fd) ≡ false) (IsAnswerable site fds s) (λ a. (ch == a.ch) ≡ false)
        (λ a other r. elim (Bool-cases (ch == a.ch)) [
          | inl same ↦
              let e : ch ≡ a.ch = ground arith in ground (arith, ap fds e ∙ sym r.fd_is, other)
          | inr differ ↦ differ
        ])
        arrivals others good

  round-IsServing : IsServing fds s'
  round-IsServing ch l = elim (fd_cases (fds ch) arrivals behind_round) [
    | inl others ↦
        let chs = other_channels ch others in
        let (list, table) = untouched.entries (fds ch) others in
        let (channel, conn) = untouched.channels ch chs in
        let same = conn ∙ deliver-other arrivals s.conns ch chs in
        let before =
          Listening-SameAt ch (fds ch) s'.poller s.poller
            (record { list = sym list; table = sym table; channel = sym channel }) coherent l in
        subst (λ c. IsIdle c × (c.calls ≡ [])) (sym same) (serving ch before)
    | inr (a, settled, e) ↦
        let l' : Listening s'.poller ch a.fd = subst (Listening s'.poller ch) e l in
        let same = settled.alone ch l' in
        subst (λ k. IsIdle (s'.conns k) × ((s'.conns k).calls ≡ [])) (sym same)
          (settled.serves (subst (λ k. Listening s'.poller k a.fd) same l'))
  ]

-- What some rounds come to.
pub record Served (site : Site) (fds : ℕ → ℕ) (s : Loop) (rounds : List (List Arrival)) (s' : Loop)
    : Type 0 where
  pub serving : IsServing fds s'
  pub coherent : IsCoherent s'.poller
  pub sent :
      (ch : ℕ)
      → (s'.conns ch).socket.sent ≡ (s.conns ch).socket.sent ++ all_responses_to site ch rounds

one_round-Served :
    (ctl : Ctl) (fuel : ℕ) (site : Site) (fds : ℕ → ℕ) (arrivals : List Arrival) (s : Loop)
    → FailsOnlyAbsent ctl
    → IsServing fds s
    → IsCoherent s.poller
    → DistinctFds arrivals
    → All (IsAnswerable site fds s) arrivals
    → (s' : Loop) × (one_round ctl (suc fuel) site arrivals s ≡ some s')
      × IsServing fds s'
      × IsCoherent s'.poller
      × ((ch : ℕ)
          → (s'.conns ch).socket.sent ≡ (s.conns ch).socket.sent ++ responses_to site ch arrivals)
unfolding loop_round poll get_events_request
one_round-Served ctl fuel site fds [] s fails serving coherent d h =
    (s, refl, serving, coherent, λ ch. sym (append-nil (s.conns ch).socket.sent))
one_round-Served ctl fuel site fds (a ∷ rest) s fails serving coherent d h =
    let arrivals = a ∷ rest in
    let come_all =
      All-zip (HasCome arrivals s.conns) (IsAnswerable site fds s)
        (HasArrived site (delivered arrivals s))
        (λ b came r. (
          r.listening,
          subst (λ c. HasRequest site c b) (sym came) (come-HasRequest site fds s b serving r),
        ))
        arrivals
        (deliver-All-HasCome arrivals s.conns (answerable-DistinctChs site fds s arrivals d h)) h in
    let (s', runs, served, untouched, coherent') =
      loop_round-Served ctl fuel site (delivered arrivals s) [] [] a rest fails tt d come_all in
    (
      s',
      runs,
      round-IsServing site fds s s' arrivals serving coherent d h served untouched,
      coherent',
      round_sent site fds s s' arrivals serving coherent d h served untouched,
    )

-- The loop serves any number of connections for any number of rounds: while in each round whole
-- requests that can be answered come for connections that listen then, at different descriptors, and
-- each write() takes the whole response, every round ends, and in the end each peer has been sent
-- exactly the responses to its own requests, in the order in which they came; each connection that
-- listens is idle with no call left open, and table and list agree. This needs that this is so at the
-- beginning, and that epoll_ctl fails only for a descriptor that is not in the list.
pub serve_rounds-Served :
    (ctl : Ctl) (fuel : ℕ) (site : Site) (fds : ℕ → ℕ) (rounds : List (List Arrival)) (s : Loop)
    → FailsOnlyAbsent ctl
    → IsServing fds s
    → IsCoherent s.poller
    → AllAnswerable ctl (suc fuel) site fds rounds s
    → (s' : Loop) × (serve_rounds ctl (suc fuel) site rounds s ≡ some s')
      × Served site fds s rounds s'
unfolding serve_rounds
serve_rounds-Served ctl fuel site fds [] s fails serving coherent h = (
  s,
  refl,
  record {
    serving = serving;
    coherent = coherent;
    sent = λ ch. sym (append-nil (s.conns ch).socket.sent);
  },
)
serve_rounds-Served ctl fuel site fds (arrivals ∷ rounds) s fails serving coherent (d, h, later) =
    let (s₁, one, serving₁, coherent₁, sent₁) =
      one_round-Served ctl fuel site fds arrivals s fails serving coherent d h in
    let (s', runs, rest) =
      serve_rounds-Served ctl fuel site fds rounds s₁ fails serving₁ coherent₁ (later s₁ one) in
    (
      s',
      ground (arith, one, runs),
      record {
        serving = rest.serving;
        coherent = rest.coherent;
        sent = λ ch.
            rest.sent ch
            ∙ ap (λ t. t ++ all_responses_to site ch rounds) (sent₁ ch)
            ∙ append_assoc (s.conns ch).socket.sent (responses_to site ch arrivals)
                (all_responses_to site ch rounds);
      },
    )
