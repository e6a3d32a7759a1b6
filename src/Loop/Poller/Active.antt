-- ===== src/Loop/Poller/Active.antt =====
-- Epoll::getEventsRequest finds the channels of what epoll_wait reports.
use mathlib.Core.List.{map}
use mathlib.Core.Path.{subst}
use jinyi.Loop.Poller.{
  Epoll, at, get_events_request, WaitAnswer, wait_reports, ready, poll, polled, Polled,
}
use jinyi.Loop.Poller.Coherent.{IsCoherent}
use jinyi.Prelude.{
  ℕ, ◌≡◌, refl, sym, ap, ◌∙◌, some, List, [], ◌∷◌, arith, All, ◌++◌, length, ◌≤◌, none,
  Option-cases, inl, inr,
}

-- What a report leaves alone in all channels.
record Same (p q : Epoll) : Type 0 where
  table : q.fd2chan ≡ p.fd2chan
  list : q.interest ≡ p.interest
  fds : (c : ℕ) → (q.channels c).fd ≡ (p.channels c).fd
  lasts : (c : ℕ) → (q.channels c).last_events ≡ (p.channels c).last_events

abbrev pub reported : Epoll → ℕ → ℕ → Epoll
reported p c ev = record p {
  channels = at p.channels c (record (p.channels c) { revents = ev; events = 0 });
}

reported-Same : (p : Epoll) (c ev : ℕ) → Same p (reported p c ev)
reported-Same p c ev = record {
  table = refl;
  list = refl;
  fds = λ d. ground arith;
  lasts = λ d. ground arith;
}

pub reported-IsCoherent : (p : Epoll) (c ev : ℕ) → IsCoherent p → IsCoherent (reported p c ev)
reported-IsCoherent p c ev coherent j e h =
    let (d, t, f, l) = coherent j e h in
    let same = reported-Same p c ev in (d, t, same.fds d ∙ f, same.lasts d ∙ l)

abbrev pub AllRegistered : Epoll → List (ℕ × ℕ) → Type 0
AllRegistered p reports = All (λ r. (e : ℕ) × (p.interest r.0 ≡ some e)) reports

pub get_events_request_step :
    (p : Epoll) (fd ev c : ℕ) (reports : List (ℕ × ℕ))
    → p.fd2chan fd ≡ some c
    → get_events_request p ((fd, ev) ∷ reports) ≡ (
      c ∷ (get_events_request (reported p c ev) reports).0,
      (get_events_request (reported p c ev) reports).1,
    )
unfolding get_events_request
get_events_request_step p fd ev c reports placed = rw (get_events_request, placed) refl

get_events_request-Found :
    (p : Epoll) (fds : ℕ → ℕ) (reports : List (ℕ × ℕ))
    → ((c : ℕ) → (p.channels c).fd ≡ fds c)
    → AllRegistered p reports
    → IsCoherent p
    → (map fds (get_events_request p reports).0 ≡ map (λ r. r.0) reports)
      × IsCoherent (get_events_request p reports).1
unfolding get_events_request
get_events_request-Found p fds [] same registered coherent = (refl, coherent)
get_events_request-Found p fds ((fd, ev) ∷ reports) same ((e, there), registered) coherent =
    let (c, placed, at_fd, last) = coherent fd e there in
    let rest =
      get_events_request-Found (reported p c ev) fds reports
        (λ d. (reported-Same p c ev).fds d ∙ same d) registered
        (reported-IsCoherent p c ev coherent) in
    let here = get_events_request_step p fd ev c reports placed in
    (
      ap (λ r. map fds r.0) here
          ∙ ap (λ f. f ∷ map fds (get_events_request (reported p c ev) reports).0)
              (sym (same c) ∙ at_fd)
          ∙ ap (◌∷◌ fd) rest.0,
      subst (λ r. IsCoherent r.1) (sym here) rest.1,
    )

-- In a coherent state no report on a descriptor of the kernel's list is lost: getEventsRequest gives
-- one channel for each report, in the order of the reports, and it is the channel of that
-- descriptor. The state is coherent afterwards.
pub get_events_request-fds :
    (p : Epoll) (reports : List (ℕ × ℕ))
    → AllRegistered p reports
    → IsCoherent p
    → (map (λ c. (p.channels c).fd) (get_events_request p reports).0 ≡ map (λ r. r.0) reports)
      × IsCoherent (get_events_request p reports).1
get_events_request-fds p reports registered coherent =
    get_events_request-Found p (λ c. (p.channels c).fd) reports (λ c. refl) registered coherent

get_events_request-Same :
    (p : Epoll) (reports : List (ℕ × ℕ)) → Same p (get_events_request p reports).1
unfolding get_events_request
get_events_request-Same p [] = record {
  table = refl;
  list = refl;
  fds = λ c. refl;
  lasts = λ c. refl;
}
get_events_request-Same p ((fd, ev) ∷ reports) = elim (Option-cases (p.fd2chan fd)) [
  | inl gone ↦ rw (get_events_request, gone) (get_events_request-Same p reports)
  | inr (c, placed) ↦
      let here = reported-Same p c ev in
      let rest = get_events_request-Same (reported p c ev) reports in
      let both : Same p (get_events_request (reported p c ev) reports).1 = record {
        table = rest.table;
        list = rest.list;
        fds = λ d. rest.fds d ∙ here.fds d;
        lasts = λ d. rest.lasts d ∙ here.lasts d;
      } in
      subst (λ r. Same p r.1) (sym (get_events_request_step p fd ev c reports placed)) both
]

-- An answer of epoll_wait without a report on a descriptor that has a channel.
abbrev pub IsQuiet : Epoll → WaitAnswer → Type 0
IsQuiet p answer = All (λ r. p.fd2chan r.0 ≡ none) (wait_reports answer)

get_events_request-quiet :
    (p : Epoll) (reports : List (ℕ × ℕ))
    → All (λ r. p.fd2chan r.0 ≡ none) reports
    → get_events_request p reports ≡ ([], p)
unfolding get_events_request
get_events_request-quiet p [] h = refl
get_events_request-quiet p ((fd, ev) ∷ reports) (h, hs) =
    rw (get_events_request, h) (get_events_request-quiet p reports hs)

pub poll-quiet :
    (p : Epoll) (quiet answers : List WaitAnswer)
    → All (IsQuiet p) quiet
    → poll p (quiet ++ answers) ≡ poll p answers
unfolding poll
poll-quiet p [] answers h = refl
poll-quiet p (a ∷ quiet) answers (h, hs) =
    ap
      (λ found. elim found.0 as (λ cs. Polled) [
        | [] ↦ poll found.1 (quiet ++ answers)
        | c ∷ cs ↦ polled (c ∷ cs) found.1 (quiet ++ answers)
      ])
      (get_events_request-quiet p (wait_reports a) h)
    ∙ poll-quiet p quiet answers hs

pub poll-busy :
    (p : Epoll) (reports : List (ℕ × ℕ)) (answers : List WaitAnswer)
    → 1 ≤ length (get_events_request p reports).0
    → poll p (ready reports ∷ answers)
      ≡ polled (get_events_request p reports).0 (get_events_request p reports).1 answers
unfolding poll
poll-busy p reports answers h = ground (arith)

some_found : (f : ℕ → ℕ) (cs : List ℕ) (x : ℕ) (xs : List ℕ) → map f cs ≡ x ∷ xs → 1 ≤ length cs
some_found f [] x xs h = ground (arith, h)
some_found f (c ∷ cs) x xs h = omega arith

-- The channels of a list of reports, and the state behind them.
pub record Found (p : Epoll) (reports : List (ℕ × ℕ)) (cs : List ℕ) (q : Epoll) : Type 0 where
  pub fds : map (λ c. (p.channels c).fd) cs ≡ map (λ r. r.0) reports
  pub coherent : IsCoherent q
  pub table : q.fd2chan ≡ p.fd2chan
  pub list : q.interest ≡ p.interest

-- In a coherent state poll waits as long as epoll_wait fails, or its time is up, or what it reports
-- has no channel. It returns at the first answer that reports on descriptors of the kernel's list,
-- with one channel for each report, in the order of the reports: the channel of that descriptor. No
-- report is lost, later answers are not asked for, and table and list are unchanged and coherent.
pub poll-Found :
    (p : Epoll) (quiet answers : List WaitAnswer) (report : ℕ × ℕ) (reports : List (ℕ × ℕ))
    → All (IsQuiet p) quiet
    → AllRegistered p (report ∷ reports)
    → IsCoherent p
    → (cs : List ℕ) × (q : Epoll) × (poll p (quiet ++ ready (report ∷ reports) ∷ answers)
        ≡ polled cs q answers)
      × Found p (report ∷ reports) cs q
poll-Found p quiet answers report reports silent registered coherent =
    let all = report ∷ reports in
    let found = get_events_request p all in
    let (fds, still) = get_events_request-fds p all registered coherent in
    let same = get_events_request-Same p all in
    (
      found.0,
      found.1,
      poll-quiet p quiet (ready all ∷ answers) silent
          ∙ poll-busy p all answers
              (some_found (λ c. (p.channels c).fd) found.0 report.0 (map (λ r. r.0) reports) fds),
      record { fds = fds; coherent = still; table = same.table; list = same.list },
    )
