-- ===== src/Sync/Thread/Started.antt =====
-- Thread::start beside the new thread (base/Thread.cpp), with tid() as base/CurrentThread.h has it.
-- Assertions are taken as compiled in.
use mathlib.Core.Path.{subst}
use jinyi.Loop.EventLoop.{EventLoop, queue_in_loop}
use jinyi.Prelude.Int.{pos}
use jinyi.Prelude.{ℕ, ◌≡◌, refl, ◌≢◌, [], ◌∷◌, ◌++◌, Bool, true, false, ◌⊎◌, inl, inr, arith}
use jinyi.Sync.Thread.{
  current_tid, Thread, Starter, before, waiting, running, assert_failed, create_failed, Child,
  absent, born, named, counted, ended, System, begin, check_tid, set_tid, count_down, Step, start,
  wait_returns, store_tid, release, function_ends, Reach, at_start, later,
}

-- As it is written, tid() never calls gettid(): it is 0 in every thread.
pub current_tid-zero : (gettid : ℕ) → current_tid gettid ≡ 0
unfolding current_tid
current_tid-zero gettid = refl

-- What the new thread's place says of the shared members.
abbrev Shared : Child → Thread → Type 0
Shared absent t = (t.latch ≡ pos 1) × (t.tid ≡ 0)
Shared born t = (t.latch ≡ pos 1) × (t.tid ≡ 0)
Shared named t = (t.latch ≡ pos 1) × (t.tid ≡ 0)
Shared counted t = (t.latch ≡ pos 0) × (t.tid ≡ 0)
Shared ended t = (t.latch ≡ pos 0) × (t.tid ≡ 0)

abbrev is_absent : Child → Bool
is_absent absent = true
is_absent _ = false

-- The new thread has counted the latch down.
abbrev pub is_counted : Child → Bool
is_counted counted = true
is_counted ended = true
is_counted _ = false

-- What the starter's place says of the rest.
abbrev Seen : Starter → Child → Thread → Type 0
Seen before c t = (c ≡ absent) × (t.started ≡ false)
Seen waiting c t = (t.started ≡ true) × (is_absent c ≡ false)
Seen running c t = true ≡ false
Seen assert_failed c t = (t.started ≡ true) × (is_counted c ≡ true)
Seen create_failed c t = (c ≡ absent) × (t.started ≡ false)

record Inv (s : System) : Type 0 where
  shared : Shared s.child s.thread
  seen : Seen s.starter s.child s.thread

Step-Inv : (gettid : ℕ) (s t : System) → Step gettid s t → Inv s → Inv t
unfolding begin check_tid set_tid count_down current_tid
Step-Inv gettid s t (start created e) i = ground arith
Step-Inv gettid s t (wait_returns e low) i = ground arith
Step-Inv gettid s t (store_tid e) i = ground arith
Step-Inv gettid s t (release e) i = ground arith
Step-Inv gettid s t (function_ends e) i = ground arith

Reach-Inv : {gettid : ℕ} {s : System} → Reach gettid s → Inv s
Reach-Inv at_start = record { shared = (refl, refl); seen = (refl, refl) }
Reach-Inv {gettid} {s = t} (later {s = s} r st) = Step-Inv gettid s t st (Reach-Inv r)

-- With tid() as it is written, no interleaving brings Thread::start back to its caller with a new
-- thread: it never passes its last assertion. It comes back only where pthread_create made no thread,
-- and then started_ is false. An assertion fails only once a thread was made and has counted the latch
-- down, and then the member tid_ is 0, whatever gettid() answers.
pub start_lem :
    (gettid : ℕ) (s : System)
    → Reach gettid s
    → (s.starter ≢ running)
      × (s.starter ≡ create_failed → (s.child ≡ absent) × (s.thread.started ≡ false))
      × (s.starter ≡ assert_failed
          → (s.thread.started ≡ true) × (is_counted s.child ≡ true) × (s.thread.tid ≡ 0))
start_lem gettid s r =
    let i = Reach-Inv r in
    (
      λ e. ground (arith, i.seen, e),
      λ e. ground (arith, i.seen, e),
      λ e. ground (arith, i.seen, i.shared, e),
    )

-- A step of the new thread, or the starter's return from the latch.
abbrev pub GoesOn : ℕ → System → Type 0
GoesOn gettid s =
    (t : System) × Step gettid s t
    × ((t.starter ≢ waiting) ⊎ ((s.child ≢ t.child) × (t.starter ≡ waiting)))

-- `start` does not hang: while the starter waits, the new thread has a step of its own left, or the
-- starter can go on.
pub start-GoesOn :
    (gettid : ℕ) (s : System) → Reach gettid s → s.starter ≡ waiting → GoesOn gettid s
unfolding check_tid set_tid count_down
start-GoesOn gettid s r e = go s.child refl
  where
    i : Inv s
    i = Reach-Inv r

    go : (c : Child) → s.child ≡ c → GoesOn gettid s
    go absent h =
        absurd
          (let seen = subst (λ p. Seen p s.child s.thread) e i.seen in ground (arith, h, seen.1))
    go born h = (set_tid (current_tid gettid) s, store_tid h, inr (λ eq. ground arith, e))
    go named h = (count_down s, release h, inr (λ eq. ground arith, e))
    go counted h =
        (check_tid s, wait_returns e (ground (arith, i.shared)), inl (λ eq. ground arith))
    go ended h = (check_tid s, wait_returns e (ground (arith, i.shared)), inl (λ eq. ground arith))

-- With that tid() a loop takes every thread for its own: a callback that another thread queues while
-- the loop is not in doPendingFunctors waits with no write to the eventfd.
queue_in_loop-tid :
    (own other cb : ℕ) (l : EventLoop)
    → l.thread_id ≡ current_tid own
    → l.calling_pending_functors ≡ false
    → ((queue_in_loop (current_tid other) cb l).wakeup_count ≡ l.wakeup_count)
      × ((queue_in_loop (current_tid other) cb l).pending_functors ≡ l.pending_functors ++ cb ∷ [])
unfolding queue_in_loop
queue_in_loop-tid own other cb l e idle =
    ground (arith, current_tid-zero own, current_tid-zero other)
