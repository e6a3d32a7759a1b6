-- ===== src/Loop/Serving/Rounds.antt =====
-- One round of EventLoop::loop (net/EventLoop.cpp) with many connections: poll, and then handleEvent
-- of each channel that is found. A connection stands at the index of its channel. doPendingFunctors
-- and handleExpired follow in the source; nothing waits in the queue, since runInLoop calls at once in
-- the loop's own thread, and no timer is ever linked.
pub mod Found
pub mod Apart
pub mod Arrivals
pub mod Served
pub mod Many
pub mod Settled
pub mod Answers
use jinyi.Http.Analysis.{Site}
use jinyi.Http.Conn.{Conn}
use jinyi.Loop.Poller.{Epoll, at, WaitAnswer, polled, still_waiting, poll}
use jinyi.Loop.Serving.{Ctl, next, stopped, channel_event}
use jinyi.Prelude.{ℕ, Option, none, some, List, [], ◌∷◌}

pub record Loop : Type 0 where
  pub poller : Epoll
  pub conns : ℕ → Conn

-- The handlers that do not return end the loop.
unfoldable pub handle_channels : Ctl → ℕ → Site → List ℕ → Loop → Option Loop
unfolding channel_event
handle_channels ctl fuel site [] s = some s
handle_channels ctl fuel site (ch ∷ chs) s =
    elim (channel_event ctl fuel site ch s.poller (s.conns ch)) [
      | next c p ↦
          handle_channels ctl fuel site chs (record { poller = p; conns = at s.conns ch c })
      | stopped ↦ none
    ]

-- A round, given what epoll_wait answers.
unfoldable pub loop_round : Ctl → ℕ → Site → List WaitAnswer → Loop → Option Loop
unfolding poll handle_channels
loop_round ctl fuel site answers s = elim (poll s.poller answers) [
  | polled chs p rest ↦ handle_channels ctl fuel site chs (record s { poller = p })
  | still_waiting p ↦ some (record s { poller = p })
]
