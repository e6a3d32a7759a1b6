-- ===== src/Tests/Sync.antt =====
-- Latches and threads at concrete interleavings.
use jinyi.Prelude.{List, [], ◌∷◌, false, ℕ, some, ◌≤◌, ◌≡◌, ◌≢◌, refl, true, ◌⊎◌, arith}
use jinyi.Sync.Latch.{
  returned, Latch, count_down, Step, enter, test_again, down, Reach, start, later,
}
use jinyi.Sync.Latch.Locked
use jinyi.Sync.Latch.Locked.{
  LockedLatch, decide, store_count, lock_wait, read, test, relock, lock_down, load, count,
  unlock_down,
}
use jinyi.Sync.Latch.Locked.Exclusive
use jinyi.Sync.Latch.Locked.Exclusive.{holds, Fresh, holds-exclusive}
use jinyi.Sync.Latch.Locked.Refines.{view, Reach-view}
use jinyi.Sync.Mutex.{lock, unlock}
use jinyi.Prelude.Int.{pos}
use jinyi.Sync.Latch.Safe.{wait_after_downs, wait_returns}
use jinyi.Sync.Thread
use jinyi.Sync.Thread.Handles.{
  Held, new_held, ThreadCall, call_start, call_join, use_thread, call_thread, start_held, join_held,
  destroy, destroy-released,
}
use jinyi.Sync.Thread.{
  System, current_tid, create_failed, absent, fresh_locals, tid, running, assert_failed, store_tid,
  release, begin, check_tid, set_tid, wait_returns as back,
}
use jinyi.Sync.Thread.Started.{GoesOn, is_counted, start_lem, start-GoesOn}

-- Thread 3 waits, the latch goes down, and thread 3 is notified.
abbrev notified : (l : Latch) × Reach 1 l
notified = (_, later (later start (enter 3 refl)) down)

abbrev passed : (l : Latch) × Reach 1 l
unfolding count_down
passed = (_, later notified.1 (test_again 3 refl))

wait_after_downs_example : 1 ≤ passed.0.downs
unfolding count_down
wait_after_downs_example = wait_after_downs 1 3 passed.0 passed.1 refl

wait_returns_example :
    (notified.0.pc 3 ≡ returned) ⊎ ((m : Latch) × Step notified.0 m × (m.pc 3 ≡ returned))
unfolding count_down
wait_returns_example = wait_returns 1 3 notified.0 notified.1 (omega arith) (λ e. ground arith)

-- Thread 4 counts down between the two tests of thread 3, which is woken by notifyAll.
abbrev locked_run : (l : LockedLatch) × Locked.Reach 1 l
unfolding decide store_count lock unlock
locked_run = (
  _,
  Locked.later
      (Locked.later
        (Locked.later
          (Locked.later
            (Locked.later
              (Locked.later
                (Locked.later
                  (Locked.later Locked.start (lock_wait 3 (record { owner = some 3 }) refl refl))
                  (read 3 refl))
                (test 3 (pos 1) refl))
              (lock_down 4 (record { owner = some 4 }) refl refl))
            (load 4 refl))
          (count 4 (pos 1) refl))
        (unlock_down 4 refl))
      (relock 3 (record { owner = some 3 }) refl refl),
)

Reach-view_example : Reach 1 (view locked_run.0)
Reach-view_example = Reach-view 1 locked_run.0 locked_run.1

holds-exclusive_example :
    (holds (locked_run.0.place 4) ≡ true → ◌≡◌ {A = ℕ} 3 4)
    × Fresh locked_run.0.count (locked_run.0.place 3)
    × Exclusive.GoesOn locked_run.0 3
unfolding decide store_count lock unlock
holds-exclusive_example = holds-exclusive 1 3 4 locked_run.0 locked_run.1 refl

-- gettid() answers 42 in the new thread. It runs up to countDown, and the starter goes on.
abbrev created : (s : System) × Thread.Reach 42 s
unfolding begin
created = (_, Thread.later Thread.at_start (Thread.start true refl))

abbrev started : (s : System) × Thread.Reach 42 s
unfolding begin check_tid set_tid Thread.count_down current_tid
started = (
  _,
  Thread.later (Thread.later (Thread.later created.1 (store_tid refl)) (release refl))
      (back refl refl),
)

start_lem_example :
    (started.0.starter ≢ running)
    × (started.0.starter ≡ create_failed
        → (started.0.child ≡ absent) × (started.0.thread.started ≡ false))
    × (started.0.starter ≡ assert_failed
        → (started.0.thread.started ≡ true)
          × (is_counted started.0.child ≡ true)
          × (started.0.thread.tid ≡ 0))
start_lem_example = start_lem 42 started.0 started.1

start-GoesOn_example : GoesOn 42 created.0
unfolding begin
start-GoesOn_example = start-GoesOn 42 created.0 created.1 refl

-- pthread_create fails, then makes a thread, which is joined.
abbrev calls : List ThreadCall
calls = call_start false ∷ call_start true ∷ call_join 0 ∷ []

abbrev joined : (h : Held) × (use_thread calls new_held ≡ some h)
unfolding use_thread call_thread start_held join_held begin Thread.join
joined = (_, refl)

destroy-released_example :
    ((destroy joined.0).released ≡ (destroy joined.0).created) × ((destroy joined.0).created ≤ 1)
destroy-released_example = destroy-released calls joined.0 joined.1
