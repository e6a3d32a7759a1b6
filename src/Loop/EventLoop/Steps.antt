-- ===== src/Loop/EventLoop/Steps.antt =====
-- EventLoop::loop beside other threads: a step is one critical section, one test, one write or read of
-- the eventfd, or one return of epoll_wait. Between its critical section and its test, queueInLoop
-- leaves another thread about to test, which `deciding` counts, and behind a test that holds about to
-- write the eventfd, which `waking` counts. The tests call CurrentThread::tid() as it is written
-- (base/CurrentThread.h); and handleEvent of the wakeup channel, which calls handleRead and then
-- throws (net/Channel.h), ends the loop and with it the program.
pub mod Safe
use jinyi.Loop.EventLoop.{
  EventLoop, new_loop, is_in_loop_thread, wakeup, handle_read, enqueue, queue_in_loop,
}
use jinyi.Prelude.{
  ℕ, suc, ◌+◌, ◌≡◌, ◌≢◌, Bool, true, false, not, ◌||◌, List, [], ◌∷◌, ◌++◌, if◌then◌else◌,
}
use jinyi.Sync.Thread.{current_tid}

-- Where the loop's thread stands: in epoll_wait, calling the handlers of active channels, in
-- doPendingFunctors with what the current callback has still to queue and the callbacks behind it,
-- behind the loop, or at the exception of handleEvent.
pub data Phase : Type 0 where
  polling : Phase
  handling : Phase
  calling : (todo rest : List ℕ) → Phase
  left : Phase
  thrown : Phase

pub record System : Type 0 where
  pub loop : EventLoop
  pub phase : Phase
  pub deciding : ℕ
  pub waking : ℕ

-- loop() as it is entered, in a thread of which gettid() answers `gettid`.
unfoldable pub entered : ℕ → System
unfolding current_tid
entered gettid = record {
  loop = record (new_loop (current_tid gettid)) { looping = true };
  phase = polling;
  deciding = 0;
  waking = 0;
}

-- The writes that the tests of queueInLoop and of quit ask for, in the thread `tid`.
abbrev pub queue_wakes : ℕ → EventLoop → ℕ
queue_wakes tid l = if not (is_in_loop_thread tid l) || l.calling_pending_functors then 1 else 0

abbrev pub quit_wakes : ℕ → EventLoop → ℕ
quit_wakes tid l = if not (is_in_loop_thread tid l) then 1 else 0

-- The loop's condition, tested at the end of a round.
abbrev pub next_round : EventLoop → Phase
next_round l = if l.quit then left else polling

pub data Step (body : ℕ → List ℕ) (s : System) : System → Type 0 where
  -- another thread in queueInLoop: its critical section, its test, and its write
  push :
      (cb : ℕ)
      → s.phase ≢ thrown
      → Step body s (record s { loop = enqueue cb s.loop; deciding = s.deciding + 1 })
  decide :
      (gettid n : ℕ)
      → s.phase ≢ thrown
      → s.deciding ≡ suc n
      → Step body s
          (record s { deciding = n; waking = s.waking + queue_wakes (current_tid gettid) s.loop })
  write :
      (n : ℕ)
      → s.phase ≢ thrown
      → s.waking ≡ suc n
      → Step body s (record s { loop = wakeup s.loop; waking = n })
  -- quit in another thread, and in a handler or callback of the loop's own
  ask :
      (gettid : ℕ)
      → s.phase ≢ thrown
      → Step body s (record s {
        loop = record s.loop { quit = true };
        waking = s.waking + quit_wakes (current_tid gettid) s.loop;
      })
  ask_inside :
      s.phase ≢ polling
      → s.phase ≢ thrown
      → Step body s (record s { loop = record s.loop { quit = true } })
  -- epoll_wait reports channels, and the eventfd's if it can be read
  report :
      s.phase ≡ polling
      → Step body s (record s { loop = record s.loop { event_handling = true }; phase = handling })
  drain :
      s.phase ≡ handling
      → s.loop.wakeup_count ≢ 0
      → Step body s (record s { loop = handle_read s.loop; phase = thrown })
  handler_queues :
      (cb : ℕ)
      → s.phase ≡ handling
      → Step body s (record s { loop = queue_in_loop s.loop.thread_id cb s.loop })
  -- doPendingFunctors
  swap :
      s.phase ≡ handling
      → Step body s (record s {
        loop = record s.loop {
          event_handling = false;
          calling_pending_functors = true;
          pending_functors = [];
        };
        phase = calling [] s.loop.pending_functors;
      })
  start_call :
      (cb : ℕ) (rest : List ℕ)
      → s.phase ≡ calling [] (cb ∷ rest)
      → Step body s (record s {
        loop = record s.loop { called = s.loop.called ++ cb ∷ [] };
        phase = calling (body cb) rest;
      })
  callback_queues :
      (cb : ℕ) (todo rest : List ℕ)
      → s.phase ≡ calling (cb ∷ todo) rest
      → Step body s
          (record s { loop = queue_in_loop s.loop.thread_id cb s.loop; phase = calling todo rest })
  finish :
      s.phase ≡ calling [] []
      → Step body s (record s {
        loop = record s.loop { calling_pending_functors = false };
        phase = next_round s.loop;
      })

pub data Reach (body : ℕ → List ℕ) (gettid : ℕ) : System → Type 0 where
  start : Reach body gettid (entered gettid)
  later : {s t : System} → Reach body gettid s → Step body s t → Reach body gettid t
