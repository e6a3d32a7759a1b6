-- ===== src/Log/Async/Thread.antt =====
-- AsyncLogging (base/AsyncLogging.cpp): the back-end thread, its assertions and the buffers' owners.
use jinyi.Log.Async.{
  Phase, at_top, waiting, collected, finished, System, collect, is_blank, is_empty, thread_from,
  thread_func,
}
use jinyi.Log.Async.Run.{log, thread, stop, Event, step, run, started}
use jinyi.Log.Async.Safe.{hits, missing, local, Ready, Owned, IsSafe, append-Owned}
use jinyi.Log.Stream.{FixedBuffer}
use jinyi.Prelude.{
  ℕ, ◌+◌, ◌≤◌, ◌≡◌, refl, true, false, Option, none, some, List, [], ◌∷◌, arith, length,
  if◌then◌else◌, Bool-cases, inl, inr,
}
use jinyi.Log.Async.Sections.{SafeAfter, collect-Safe, write_out-Safe}

is_blank-some :
    (heap : ℕ → FixedBuffer) (new : Option ℕ)
    → missing new ≤ 0
    → ((i : ℕ) → 1 ≤ hits i new → length (heap i).text ≤ 0)
    → is_blank heap new ≡ true
is_blank-some heap none h blank = absurd (omega arith)
is_blank-some heap (some p) h blank = ground (arith, blank p)

is_empty-none : (ps : List ℕ) → length ps ≤ 0 → is_empty ps ≡ true
is_empty-none [] h = refl
is_empty-none (p ∷ ps) h = absurd (omega arith)

pub is_empty-some : (ps : List ℕ) → 1 ≤ length ps → is_empty ps ≡ false
is_empty-some [] h = absurd (omega arith)
is_empty-some (p ∷ ps) h = refl

top-Safe :
    (s : System)
    → Owned (λ i. local i s) (λ i. hits i s.new_buffer1 + hits i s.new_buffer2) s.logging
    → missing s.new_buffer1 + missing s.new_buffer2 ≤ 0
    → length s.buffers_to_write ≤ 0
    → SafeAfter
        (if is_empty s.logging.buffers then some (record s { phase = waiting }) else collect s)
top-Safe s o news none_left = elim (Bool-cases (is_empty s.logging.buffers)) [
  | inl idle ↦
      rw idle (record s { phase = waiting }, refl, record { owned = o; ready = (news, none_left) })
  | inr busy ↦ rw busy (collect-Safe s o news none_left)
]

thread_from-Safe :
    (phase : Phase) (s : System)
    → IsSafe s
    → Ready phase s.new_buffer1 s.new_buffer2 s.buffers_to_write
    → SafeAfter (thread_from phase s)
unfolding thread_from
thread_from-Safe at_top s safe ready = elim (Bool-cases s.logging.running) [
  | inl on ↦
      let o = safe.owned in
      let blank1 =
        is_blank-some s.logging.heap s.new_buffer1 (omega (arith, ready.0))
          (λ i h. o.queue i (omega arith)) in
      let blank2 =
        is_blank-some s.logging.heap s.new_buffer2 (omega (arith, ready.0))
          (λ i h. o.queue i (omega arith)) in
      let empty = is_empty-none s.buffers_to_write ready.1 in
      simp (on, blank1, blank2, empty) (top-Safe s o ready.0 ready.1)
  | inr off ↦
      simp off (record s { phase = finished }, refl, record { owned = safe.owned; ready = ready })
]
thread_from-Safe waiting s safe ready = collect-Safe s safe.owned ready.0 ready.1
thread_from-Safe collected s safe ready =
    rw (is_empty-some s.buffers_to_write ready.1) (write_out-Safe s safe.owned ready.0)
thread_from-Safe finished s safe ready = (s, refl, safe)

thread-Safe : (s : System) → IsSafe s → SafeAfter (thread_func s)
unfolding thread_func
thread-Safe s safe = thread_from-Safe s.phase s safe safe.ready

pub step-Safe : (e : Event) (s : System) → IsSafe s → SafeAfter (step e s)
unfolding step
step-Safe (log line) s safe =
    let (a, e, o) = append-Owned s.logging line (λ i. omega arith) safe.owned in
    (record s { logging = a }, rw (step, e) refl, record { owned = o; ready = safe.ready })
step-Safe thread s safe = thread-Safe s safe
step-Safe stop s safe = (
  record s { logging = record s.logging { running = false } },
  refl,
  record {
    owned = record {
      once = safe.owned.once;
      unused = safe.owned.unused;
      queue = safe.owned.queue;
      sizes = safe.owned.sizes;
      present = safe.owned.present;
      behind = safe.owned.behind;
    };
    ready = safe.ready;
  },
)

run-Safe : (es : List Event) (s : System) → IsSafe s → SafeAfter (run es s)
unfolding run
run-Safe [] s safe = (s, refl, safe)
run-Safe (e ∷ es) s safe =
    let (s', here, safe') = step-Safe e s safe in
    let (t, there, safe_t) = run-Safe es s' safe' in (t, rw (run, here) there, safe_t)

pub started-IsSafe : IsSafe started
started-IsSafe = record {
  owned = record {
    once = λ i. ground arith;
    unused = λ i h. ground arith;
    queue = λ i h. omega arith;
    sizes = λ i. refl;
    present = omega arith;
    behind = omega arith;
  };
  ready = (omega arith, omega arith);
}

-- In whatever order log lines arrive, the back-end thread takes its steps and `stop` is called, no
-- assertion of the thread fails and no null pointer is used: every run from the started logger goes
-- on to a state, in which each buffer has one owner at most.
pub run-IsSafe : (es : List Event) → (s : System) × (run es started ≡ some s) × IsSafe s
run-IsSafe es = run-Safe es started started-IsSafe
