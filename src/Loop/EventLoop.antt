-- ===== src/Loop/EventLoop.antt =====
-- EventLoop (net/EventLoop.cpp, net/EventLoop.h): the queue of callbacks that other threads hand to a
-- loop. A callback is a number, and `body` gives the callbacks that it passes to queueInLoop when it
-- is called. The kernel's counter of the eventfd is part of the state: a write adds one, a read takes
-- all. `called` and `queued` record what was called and queued, for the theorems.
pub mod Fifo
pub mod Steps
use jinyi.Prelude.{ℕ, ◌+◌, Bool, true, false, not, ◌||◌, List, [], ◌∷◌, ◌++◌, ◌==◌, if◌then◌else◌}

pub record EventLoop : Type 0 where
  pub looping : Bool
  pub quit : Bool
  pub event_handling : Bool
  pub calling_pending_functors : Bool
  pub thread_id : ℕ
  pub pending_functors : List ℕ
  pub wakeup_count : ℕ
  pub called : List ℕ
  pub queued : List ℕ

-- The constructor, in the thread `tid`.
abbrev pub new_loop : ℕ → EventLoop
new_loop tid = record {
  looping = false;
  quit = false;
  event_handling = false;
  calling_pending_functors = false;
  thread_id = tid;
  pending_functors = [];
  wakeup_count = 0;
  called = [];
  queued = [];
}

abbrev pub is_in_loop_thread : ℕ → EventLoop → Bool
is_in_loop_thread tid l = l.thread_id == tid

-- wakeup writes 1 to the eventfd, and handleRead reads it.
unfoldable pub wakeup : EventLoop → EventLoop
wakeup l = record l { wakeup_count = l.wakeup_count + 1 }

unfoldable pub handle_read : EventLoop → EventLoop
handle_read l = record l { wakeup_count = 0 }

-- The critical section of queueInLoop.
unfoldable pub enqueue : ℕ → EventLoop → EventLoop
enqueue cb l = record l {
  pending_functors = l.pending_functors ++ cb ∷ [];
  queued = l.queued ++ cb ∷ [];
}

-- queueInLoop, called in the thread `tid`.
unfoldable pub queue_in_loop : ℕ → ℕ → EventLoop → EventLoop
unfolding enqueue wakeup
queue_in_loop tid cb l =
    let p = enqueue cb l in
    if not (is_in_loop_thread tid l) || l.calling_pending_functors then wakeup p else p

unfoldable pub queue_all : ℕ → List ℕ → EventLoop → EventLoop
unfolding queue_in_loop
queue_all tid [] l = l
queue_all tid (cb ∷ cbs) l = queue_all tid cbs (queue_in_loop tid cb l)

-- The call of `cb` in the loop's thread.
unfoldable pub call_functor : (ℕ → List ℕ) → ℕ → EventLoop → EventLoop
unfolding queue_all
call_functor body cb l = queue_all l.thread_id (body cb) (record l { called = l.called ++ cb ∷ [] })

unfoldable pub run_in_loop : (ℕ → List ℕ) → ℕ → ℕ → EventLoop → EventLoop
unfolding call_functor
run_in_loop body tid cb l =
    if is_in_loop_thread tid l then queue_all tid (body cb) l else queue_in_loop tid cb l

unfoldable pub call_all : (ℕ → List ℕ) → List ℕ → EventLoop → EventLoop
unfolding call_functor
call_all body [] l = l
call_all body (cb ∷ cbs) l = call_all body cbs (call_functor body cb l)

-- doPendingFunctors, with no other thread in between.
unfoldable pub do_pending_functors : (ℕ → List ℕ) → EventLoop → EventLoop
unfolding call_all
do_pending_functors body l =
    let swapped = record l { calling_pending_functors = true; pending_functors = [] } in
    record (call_all body l.pending_functors swapped) { calling_pending_functors = false }

-- quit, called in the thread `tid`.
unfoldable pub quit : ℕ → EventLoop → EventLoop
unfolding wakeup
quit tid l =
    let q = record l { quit = true } in if not (is_in_loop_thread tid l) then wakeup q else q
