-- ===== src/Loop/Serving/Rounds/Served.antt =====
-- A round of the loop in which a whole request has come for each connection that is reported.
use jinyi.Http.Analysis.{Site}
use jinyi.Http.Conn.{Conn}
use jinyi.Http.Session.Behind.{event_calls}
use jinyi.Loop.Poller.{Epoll, at, get_events_request, WaitAnswer, ready, polled, poll}
use jinyi.Loop.Poller.Active.{IsQuiet, poll-quiet, poll-busy}
use jinyi.Loop.Poller.Coherent.{IsCoherent}
use jinyi.Loop.Serving.{Ctl, perform_all, next, channel_event}
use jinyi.Loop.Serving.Registered.{FailsOnlyAbsent}
use jinyi.Loop.Serving.Rounds.{Loop, handle_channels, loop_round}
use jinyi.Loop.Serving.Rounds.Apart.{IsKept-SameAt, IsKept-IsCoherent, perform_all-IsKept}
use jinyi.Loop.Serving.Rounds.Found.{
  Arrival, report, IsListening, IsReported, get_events_request-Marked,
}
use jinyi.Loop.Serving.Sessions.{calm}
use mathlib.Core.List.{map}
use jinyi.Prelude.{ℕ, suc, ◌≤◌, ◌≡◌, refl, ap, ◌∙◌, some, List, [], ◌∷◌, ◌++◌, arith, All, length}
use jinyi.Loop.Serving.Rounds.Arrivals.{
  HasRequest, arrival-Behind, DistinctFds, IsServed, Untouched, Ready, Ready-Apart-All,
  distinct_from, IsServed-before,
}

handle_channels_step :
    (ctl : Ctl) (fuel : ℕ) (site : Site) (ch : ℕ) (chs : List ℕ) (s : Loop) (c : Conn) (p : Epoll)
    → channel_event ctl fuel site ch s.poller (s.conns ch) ≡ next c p
    → handle_channels ctl fuel site (ch ∷ chs) s
      ≡ handle_channels ctl fuel site chs (record { poller = p; conns = at s.conns ch c })
unfolding handle_channels
handle_channels_step ctl fuel site ch chs s c p e = ground (arith, e)

handle_channels-Served :
    (ctl : Ctl) (fuel : ℕ) (site : Site) (arrivals : List Arrival) (s : Loop)
    → FailsOnlyAbsent ctl
    → IsCoherent s.poller
    → DistinctFds arrivals
    → All (Ready site s) arrivals
    → (s' : Loop) × (handle_channels ctl (suc fuel) site (map (λ a. a.ch) arrivals) s ≡ some s')
      × All (IsServed site s s') arrivals
      × Untouched arrivals s s'
      × IsCoherent s'.poller
unfolding handle_channels
handle_channels-Served ctl fuel site [] s fails coherent distinct rs = (
  s,
  refl,
  tt,
  record { entries = λ j h. (refl, refl); channels = λ k h. (refl, refl) },
  coherent,
)
handle_channels-Served ctl fuel site (a ∷ rest) s fails coherent (others, distinct) (r, rs) =
    let (c₁, b, runs) = arrival-Behind ctl fuel site s.poller (s.conns a.ch) a r.0 r.1 in
    let p₁ = perform_all ctl a.ch s.poller (event_calls c₁.http.keep_alive) in
    let (kept, apart) =
      perform_all-IsKept ctl s.poller a.ch a.fd c₁ c₁.http.keep_alive fails r.0.0 b.state_is in
    let coherent₁ = IsKept-IsCoherent a.ch a.fd p₁ c₁ kept in
    let s₁ : Loop = record { poller = p₁; conns = at s.conns a.ch (calm c₁) } in
    let (s', runs', served, untouched, coherent') =
      handle_channels-Served ctl fuel site rest s₁ fails coherent₁ distinct
        (Ready-Apart-All site s a (calm c₁) p₁ rest apart coherent₁ r.0.0 others rs) in
    let (fds, chs) = distinct_from site s a rest r.0.0 others rs in
    let (channel, conn) = untouched.channels a.ch chs in
    let (list, table) = untouched.entries a.fd fds in
    (
      s',
      handle_channels_step ctl (suc fuel) site a.ch (map (λ a. a.ch) rest) s (calm c₁) p₁ runs
          ∙ runs',
      (
        (
          c₁,
          b,
          conn ∙ ground arith,
          IsKept-SameAt a.ch a.fd p₁ s'.poller c₁
              (record { list = list; table = table; channel = channel }) coherent' kept,
        ),
        IsServed-before site s s' a (calm c₁) p₁ rest chs served,
      ),
      record {
        entries = λ j h. (
          (untouched.entries j h.1).0 ∙ (apart.entries j h.0).0,
          (untouched.entries j h.1).1 ∙ (apart.entries j h.0).1,
        );
        channels = λ k h. (
          (untouched.channels k h.1).0 ∙ apart.channels k h.0,
          (untouched.channels k h.1).1 ∙ ground (arith, h.0),
        );
      },
      coherent',
    )

abbrev pub HasArrived : Site → Loop → Arrival → Type 0
HasArrived site s a = IsListening s.poller a × HasRequest site (s.conns a.ch) a

listeners :
    (site : Site) (s : Loop) (arrivals : List Arrival)
    → All (HasArrived site s) arrivals
    → All (IsListening s.poller) arrivals
listeners site s [] h = tt
listeners site s (a ∷ rest) (h, hs) = (h.0, listeners site s rest hs)

All-Ready :
    (site : Site) (s : Loop) (q : Epoll) (arrivals : List Arrival)
    → All (HasArrived site s) arrivals
    → All (IsReported q) arrivals
    → All (Ready site (record s { poller = q })) arrivals
All-Ready site s q [] h m = tt
All-Ready site s q (a ∷ rest) (h, hs) (m, ms) = ((m, h.1), All-Ready site s q rest hs ms)

-- A round of the loop with many connections. Connections listen at descriptors that are all different,
-- and a whole request that can be answered has come for each; epoll_wait answers, behind failures and
-- answers that have no channel, with EPOLLIN for each of them. Then the round ends: each of them has
-- been sent the response to its own request and no other, and listens for the next request or is
-- closed and neither in the table nor in the list. All other connections, channels and entries are as
-- they were, and table and list agree. This needs that epoll_ctl fails only for a descriptor that is
-- not in the list.
pub loop_round-Served :
    (ctl : Ctl) (fuel : ℕ) (site : Site) (s : Loop) (quiet answers : List WaitAnswer) (a : Arrival)
    (rest : List Arrival)
    → FailsOnlyAbsent ctl
    → All (IsQuiet s.poller) quiet
    → DistinctFds (a ∷ rest)
    → All (HasArrived site s) (a ∷ rest)
    → (s' : Loop) × (loop_round ctl
          (suc fuel)
          site
          (quiet ++ ready (map report (a ∷ rest)) ∷ answers)
          s
        ≡ some s')
      × All (IsServed site s s') (a ∷ rest)
      × Untouched (a ∷ rest) s s'
      × IsCoherent s'.poller
unfolding loop_round
loop_round-Served ctl fuel site s quiet answers a rest fails silent distinct arrived =
    let arrivals = a ∷ rest in
    let p = s.poller in
    let (q, m) = get_events_request-Marked p arrivals (listeners site s arrivals arrived) in
    let (s', runs, served, untouched, coherent) =
      handle_channels-Served ctl fuel site arrivals (record s { poller = q }) fails
        m.all_reported.0.0.coherent distinct (All-Ready site s q arrivals arrived m.all_reported) in
    let some_found : 1 ≤ length (get_events_request p (map report arrivals)).0 =
      omega (arith, ap (λ r. length r.0) m.gives) in
    let polls : poll p (quiet ++ ready (map report arrivals) ∷ answers)
        ≡ polled (map (λ a. a.ch) arrivals) q answers =
      poll-quiet p quiet (ready (map report arrivals) ∷ answers) silent
      ∙ poll-busy p (map report arrivals) answers some_found
      ∙ ap (λ r. polled r.0 r.1 answers) m.gives in
    (
      s',
      ground (arith, polls, runs),
      served,
      record {
        entries = λ j h. (
          (untouched.entries j h).0 ∙ ap (λ t. t j) m.list,
          (untouched.entries j h).1 ∙ ap (λ t. t j) m.table,
        );
        channels = λ k h. ((untouched.channels k h).0 ∙ m.leaves k h, (untouched.channels k h).1);
      },
      coherent,
    )
