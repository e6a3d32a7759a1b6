-- ===== src/Tests/EventLoop.antt =====
-- Callbacks on an event loop, alone and beside other threads.
use jinyi.Loop.EventLoop.{EventLoop, new_loop, enqueue, wakeup, do_pending_functors}
use jinyi.Loop.EventLoop.Fifo.{serve_times, view, do_pending_functors-Fifo}
use jinyi.Loop.EventLoop.Steps.{
  polling, thrown, System, entered, push, decide, ask, report, swap, start_call, callback_queues,
  finish, Reach, start, later,
}
use jinyi.Loop.EventLoop.Steps.Safe.{
  taken, Reach_order, IsAsleep, Outside, nothing, more, Reach_unwoken,
}
use jinyi.Sync.Thread.{current_tid}
use jinyi.Prelude.{ℕ, ◌+◌, ◌≡◌, ◌≢◌, refl, arith, length, List, [], ◌∷◌, ◌++◌, if◌then◌else◌, ◌==◌}

-- Callback 1 queues 10 and 11; the others queue nothing.
abbrev body : ℕ → List ℕ
body cb = if cb == 1 then 10 ∷ 11 ∷ [] else []

abbrev loop_12 : EventLoop
loop_12 = record (new_loop 5) { pending_functors = 1 ∷ 2 ∷ [] }

do_pending_functors_runs : (do_pending_functors body loop_12).called ≡ 1 ∷ 2 ∷ []
unfolding do_pending_functors
do_pending_functors_runs = refl

do_pending_functors-Fifo_example :
    (view [] (do_pending_functors body loop_12) ≡ serve_times body 2 (view [] loop_12))
    × ((do_pending_functors body loop_12).wakeup_count
        ≡ 0 + length (do_pending_functors body loop_12).pending_functors)
do_pending_functors-Fifo_example = do_pending_functors-Fifo body loop_12

polling-ne-thrown : polling ≢ thrown
polling-ne-thrown e = ground (arith, e)

-- Another thread queues 1 and tests whether to wake the loop up; another channel has an event, the loop
-- calls 1, and goes back to epoll_wait with 10 and 11 waiting and the eventfd written.
abbrev round : (s : System) × Reach body 5 s
unfolding wakeup enqueue entered current_tid
round = (
  _,
  later
      (later
        (later
          (later
            (later
              (later
                (later (later start (push 1 polling-ne-thrown)) (decide 6 0 polling-ne-thrown refl))
                (report refl))
              (swap refl))
            (start_call 1 [] refl))
          (callback_queues 10 (11 ∷ []) [] refl))
        (callback_queues 11 [] [] refl))
      (finish refl),
)

Reach_order_example :
    round.0.loop.called ++ (taken round.0.phase ++ round.0.loop.pending_functors)
    ≡ round.0.loop.queued
Reach_order_example = Reach_order body 5 round.0 round.1

entered-IsAsleep : IsAsleep (entered 5)
unfolding entered
entered-IsAsleep = record { phase = refl; waking = refl; count = refl }

-- Another thread queues 1, and a third asks the loop to quit.
abbrev outside : (t : System) × Outside body (entered 5) t
unfolding entered enqueue
outside = (
  _,
  more (more (more nothing (push 1 polling-ne-thrown) tt) (decide 6 0 polling-ne-thrown refl) tt)
      (ask 7 polling-ne-thrown) tt,
)

Reach_unwoken_example :
    IsAsleep outside.0
    × (outside.0.loop.called ≡ (entered 5).loop.called)
    × ((entered 5).loop.called ++ outside.0.loop.pending_functors ≡ outside.0.loop.queued)
Reach_unwoken_example = Reach_unwoken body 5 (entered 5) outside.0 start entered-IsAsleep outside.1
