-- ===== src/Loop/EventLoop/Steps/Safe.antt =====
-- What EventLoop::loop does beside other threads (net/EventLoop.cpp).
use mathlib.Core.Path.{subst}
use jinyi.Loop.EventLoop.{EventLoop, wakeup, handle_read, enqueue, queue_in_loop}
use jinyi.Loop.EventLoop.Fifo.{queue_in_loop-Queued}
use jinyi.Loop.EventLoop.Steps.{
  Phase, polling, handling, calling, System, entered, next_round, Step, push, decide, write, ask,
  ask_inside, report, drain, handler_queues, swap, start_call, callback_queues, finish, Reach,
  start, later,
}
use jinyi.Sync.Thread.{current_tid}
use jinyi.Prelude.{
  ℕ, ◌≡◌, refl, sym, ap, ◌∙◌, Bool, true, false, List, [], ◌∷◌, ◌++◌, arith, append_assoc,
  append-nil,
}

-- The callbacks that doPendingFunctors has taken and not called.
abbrev pub taken : Phase → List ℕ
taken (calling todo rest) = rest
taken _ = []

abbrev is_calling : Phase → Bool
is_calling (calling todo rest) = true
is_calling _ = false

pub record IsSafe (s : System) : Type 0 where
  pub order : s.loop.called ++ (taken s.phase ++ s.loop.pending_functors) ≡ s.loop.queued
  pub thread : s.loop.thread_id ≡ 0
  pub flag : s.loop.calling_pending_functors ≡ is_calling s.phase

-- Queueing a callback keeps the order, wherever the callbacks in front of it stand.
order-push :
    (called rest pending queued : List ℕ) (cb : ℕ)
    → called ++ (rest ++ pending) ≡ queued
    → called ++ (rest ++ (pending ++ cb ∷ [])) ≡ queued ++ cb ∷ []
order-push called rest pending queued cb e =
    ap (◌++◌ called) (sym (append_assoc rest pending (cb ∷ [])))
    ∙ sym (append_assoc called (rest ++ pending) (cb ∷ []))
    ∙ ap (λ xs. xs ++ cb ∷ []) e

taken-next_round : (l : EventLoop) → taken (next_round l) ≡ []
taken-next_round l = ground arith

order-queue :
    (tid cb : ℕ) (rest : List ℕ) (l : EventLoop)
    → l.called ++ (rest ++ l.pending_functors) ≡ l.queued
    → (queue_in_loop tid cb l).called ++ (rest ++ (queue_in_loop tid cb l).pending_functors)
      ≡ (queue_in_loop tid cb l).queued
order-queue tid cb rest l e =
    let q = queue_in_loop-Queued tid cb l in
    rw (q.called, q.pending, q.queued) (order-push l.called rest l.pending_functors l.queued cb e)

is_calling-next_round : (l : EventLoop) → is_calling (next_round l) ≡ false
is_calling-next_round l = ground arith

queue_in_loop-keeps :
    (tid cb : ℕ) (l : EventLoop)
    → ((queue_in_loop tid cb l).thread_id ≡ l.thread_id)
      × ((queue_in_loop tid cb l).calling_pending_functors ≡ l.calling_pending_functors)
unfolding queue_in_loop enqueue wakeup
queue_in_loop-keeps tid cb l = ground arith

module _ (body : ℕ → List ℕ) (s : System) (i : IsSafe s) where
  open s use {loop, phase}

  order_at :
      (p : Phase) → phase ≡ p → loop.called ++ (taken p ++ loop.pending_functors) ≡ loop.queued
  order_at p e =
      subst (λ p. loop.called ++ (taken p ++ loop.pending_functors) ≡ loop.queued) e i.order

  Step-IsSafe : {t : System} → Step body s t → IsSafe t
  unfolding enqueue wakeup handle_read queue_in_loop
  Step-IsSafe (push cb on) = record {
    order = order-push loop.called (taken phase) loop.pending_functors loop.queued cb i.order;
    thread = i.thread;
    flag = i.flag;
  }
  Step-IsSafe (decide gettid n on e) = record { order = i.order; thread = i.thread; flag = i.flag }
  Step-IsSafe (write n on e) = record { order = i.order; thread = i.thread; flag = i.flag }
  Step-IsSafe (ask gettid on) = record { order = i.order; thread = i.thread; flag = i.flag }
  Step-IsSafe (ask_inside ne on) = record { order = i.order; thread = i.thread; flag = i.flag }
  Step-IsSafe (report e) = record {
    order = order_at polling e;
    thread = i.thread;
    flag = i.flag ∙ ap is_calling e;
  }
  Step-IsSafe (drain e up) = record {
    order = order_at handling e;
    thread = i.thread;
    flag = i.flag ∙ ap is_calling e;
  }
  Step-IsSafe (handler_queues cb e) =
      let keeps = queue_in_loop-keeps loop.thread_id cb loop in
      record {
        order = order-queue loop.thread_id cb (taken phase) loop i.order;
        thread = keeps.0 ∙ i.thread;
        flag = keeps.1 ∙ i.flag;
      }
  Step-IsSafe (swap e) = record {
    order = ap (◌++◌ loop.called) (append-nil loop.pending_functors) ∙ order_at handling e;
    thread = i.thread;
    flag = refl;
  }
  Step-IsSafe (start_call cb rest e) = record {
    order = append_assoc loop.called (cb ∷ []) _ ∙ order_at (calling [] (cb ∷ rest)) e;
    thread = i.thread;
    flag = i.flag ∙ ap is_calling e;
  }
  Step-IsSafe (callback_queues cb todo rest e) =
      let keeps = queue_in_loop-keeps loop.thread_id cb loop in
      record {
        order = order-queue loop.thread_id cb rest loop (order_at (calling (cb ∷ todo) rest) e);
        thread = keeps.0 ∙ i.thread;
        flag = keeps.1 ∙ i.flag ∙ ap is_calling e;
      }
  Step-IsSafe (finish e) = record {
    order = rw (taken-next_round loop) (order_at (calling [] []) e);
    thread = i.thread;
    flag = sym (is_calling-next_round loop);
  }

entered-IsSafe : (gettid : ℕ) → IsSafe (entered gettid)
unfolding entered current_tid
entered-IsSafe gettid = record { order = refl; thread = refl; flag = refl }

Reach-IsSafe : {body : ℕ → List ℕ} {gettid : ℕ} {s : System} → Reach body gettid s → IsSafe s
Reach-IsSafe {gettid} start = entered-IsSafe gettid
Reach-IsSafe {body} (later {s} r st) = Step-IsSafe body s (Reach-IsSafe r) st

-- In every reachable state, whatever other threads and the callbacks themselves queue: the callbacks
-- called, then those that doPendingFunctors has taken, then those that wait, are the callbacks queued,
-- each once and in the order of queueing.
pub Reach_order :
    (body : ℕ → List ℕ) (gettid : ℕ) (s : System)
    → Reach body gettid s
    → s.loop.called ++ (taken s.phase ++ s.loop.pending_functors) ≡ s.loop.queued
Reach_order body gettid s r = (Reach-IsSafe r).order

-- The steps of other threads.
abbrev pub IsOutside : {body : ℕ → List ℕ} {s t : System} → Step body s t → Type 0
IsOutside (push cb on) = Unit
IsOutside (decide gettid n on e) = Unit
IsOutside (write n on e) = Unit
IsOutside (ask gettid on) = Unit
IsOutside _ = true ≡ false

pub data Outside (body : ℕ → List ℕ) (s : System) : System → Type 0 where
  nothing : Outside body s s
  more : {t u : System} → Outside body s t → (st : Step body t u) → IsOutside st → Outside body s u

-- The loop's thread is in epoll_wait, the eventfd cannot be read, and no thread is about to write it.
pub record IsAsleep (s : System) : Type 0 where
  pub phase : s.phase ≡ polling
  pub waking : s.waking ≡ 0
  pub count : s.loop.wakeup_count ≡ 0

Step-IsAsleep :
    {body : ℕ → List ℕ} {s t : System} (st : Step body s t)
    → IsOutside st
    → IsSafe s
    → IsAsleep s
    → IsAsleep t × (t.loop.called ≡ s.loop.called)
unfolding enqueue wakeup current_tid
Step-IsAsleep (push cb on) o i a = ground (arith, a.phase, a.waking, a.count)
Step-IsAsleep (decide gettid n on e) o i a =
    ground (arith, a.phase, a.waking, a.count, i.thread, i.flag)
Step-IsAsleep (write n on e) o i a = ground (arith, a.waking, e)
Step-IsAsleep (ask gettid on) o i a = ground (arith, a.phase, a.waking, a.count, i.thread)
Step-IsAsleep (ask_inside ne on) o i a = ground (arith, o)
Step-IsAsleep (report e) o i a = ground (arith, o)
Step-IsAsleep (drain e up) o i a = ground (arith, o)
Step-IsAsleep (handler_queues cb e) o i a = ground (arith, o)
Step-IsAsleep (swap e) o i a = ground (arith, o)
Step-IsAsleep (start_call cb rest e) o i a = ground (arith, o)
Step-IsAsleep (callback_queues cb todo rest e) o i a = ground (arith, o)
Step-IsAsleep (finish e) o i a = ground (arith, o)

Outside-IsAsleep :
    {body : ℕ → List ℕ} {s t : System}
    → Outside body s t
    → IsSafe s
    → IsAsleep s
    → IsSafe t × IsAsleep t × (t.loop.called ≡ s.loop.called)
Outside-IsAsleep nothing i a = (i, a, refl)
Outside-IsAsleep {body} (more {t} run st o) i a =
    let (i', a', same) = Outside-IsAsleep run i a in
    let (asleep, called) = Step-IsAsleep st o i' a' in
    (Step-IsSafe body t i' st, asleep, called ∙ same)

-- With CurrentThread::tid() as it is written, the loop sleeps on: from a reachable state in which it
-- sleeps in epoll_wait, whatever other threads do, however many callbacks they queue and though they
-- ask it to quit, none of them writes the eventfd or is about to. No callback is called, and all that
-- were queued since wait, in order.
pub Reach_unwoken :
    (body : ℕ → List ℕ) (gettid : ℕ) (s t : System)
    → Reach body gettid s
    → IsAsleep s
    → Outside body s t
    → IsAsleep t
      × (t.loop.called ≡ s.loop.called)
      × (s.loop.called ++ t.loop.pending_functors ≡ t.loop.queued)
Reach_unwoken body gettid s t r a run =
    let (i, asleep, called) = Outside-IsAsleep run (Reach-IsSafe r) a in
    (
      asleep,
      called,
      ap (λ c. c ++ t.loop.pending_functors) (sym called) ∙ order_at body t i polling asleep.phase,
    )
