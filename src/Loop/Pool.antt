-- ===== src/Loop/Pool.antt =====
-- EventLoopThreadPool (net/EventLoopThreadPool.cpp). A loop is its address. What `startLoop` of the
-- i-th thread returns is given. The calls are made in the base loop's thread, as assertInLoopThread
-- demands; a failed assertion, abort() and an index out of range are `none`.
use native.Mathlib.Nat.{mod-add-mod, mod-lt}
use jinyi.Prelude.{
  ℕ, zero, suc, ◌+◌, ◌%◌, ◌≤◌, ◌<◌, ◌≡◌, refl, ap, ◌∙◌, Bool, true, false, Option, none, some, List,
  [], ◌∷◌, ◌++◌, not, arith, get_elem?, if◌then◌else◌,
}

pub record EventLoopThreadPool : Type 0 where
  pub baseloop : ℕ
  pub started : Bool
  pub thread_nums : ℕ
  pub next : ℕ
  pub loops : List ℕ

-- The constructor; a negative number of threads aborts like 0.
unfoldable pub new_pool : ℕ → ℕ → Option EventLoopThreadPool
new_pool baseloop zero = none
new_pool baseloop (suc n) =
    some
      (record { baseloop = baseloop; started = false; thread_nums = suc n; next = 0; loops = [] })

-- The loops that the loop of `start` adds from round `i` on, in `n` rounds.
abbrev pub loops_from : (ℕ → ℕ) → ℕ → ℕ → List ℕ
loops_from start_loop i zero = []
loops_from start_loop i (suc n) = start_loop i ∷ loops_from start_loop (i + 1) n

unfoldable pub start : (ℕ → ℕ) → EventLoopThreadPool → EventLoopThreadPool
start start_loop p = record p {
  started = true;
  loops = p.loops ++ loops_from start_loop 0 p.thread_nums;
}

abbrev pub loop_at : EventLoopThreadPool → Option ℕ → Option (ℕ × EventLoopThreadPool)
loop_at p none = none
loop_at p (some loop) = some (loop, record p { next = (p.next + 1) % p.thread_nums })

abbrev pub is_empty : List ℕ → Bool
is_empty [] = true
is_empty (l ∷ ls) = false

unfoldable pub get_next_loop : EventLoopThreadPool → Option (ℕ × EventLoopThreadPool)
get_next_loop p =
    if not p.started
    then none
    else if is_empty p.loops
    then some (p.baseloop, p)
    else loop_at p (get_elem? p.loops p.next)

-- The pool behind `k` calls of getNextLoop.
unfoldable pub after_calls : ℕ → EventLoopThreadPool → Option EventLoopThreadPool
after_calls zero p = some p
after_calls (suc k) p = elim (after_calls k p) [
  | none ↦ none
  | some q ↦ elim (get_next_loop q) [ none ↦ none | some r ↦ some r.1 ]
]

get_elem-loops_from :
    (start_loop : ℕ → ℕ) (i n j : ℕ)
    → j < n
    → get_elem? (loops_from start_loop i n) j ≡ some (start_loop (i + j))
get_elem-loops_from start_loop i zero j h = absurd (omega arith)
get_elem-loops_from start_loop i (suc n) zero h = ap (λ k. some (start_loop k)) (omega arith)
get_elem-loops_from start_loop i (suc n) (suc j) h =
    get_elem-loops_from start_loop (i + 1) n j (omega arith)
    ∙ ap (λ k. some (start_loop k)) (omega arith)

abbrev pub running_pool : (ℕ → ℕ) → ℕ → ℕ → ℕ → EventLoopThreadPool
running_pool start_loop base n next = record {
  baseloop = base;
  started = true;
  thread_nums = suc n;
  next = next;
  loops = loops_from start_loop 0 (suc n);
}

pub get_next_loop-running :
    (start_loop : ℕ → ℕ) (base n next : ℕ)
    → next < suc n
    → get_next_loop (running_pool start_loop base n next)
      ≡ some (start_loop next, running_pool start_loop base n ((next + 1) % suc n))
unfolding get_next_loop
get_next_loop-running start_loop base n next h =
    let e : 0 + next ≡ next = omega arith in
    ap (loop_at (running_pool start_loop base n next))
      (get_elem-loops_from start_loop 0 (suc n) next h ∙ ap (λ k. some (start_loop k)) e)

after_calls-running :
    (start_loop : ℕ → ℕ) (base n k : ℕ)
    → after_calls k (running_pool start_loop base n 0)
      ≡ some (running_pool start_loop base n (k % suc n))
unfolding after_calls
after_calls-running start_loop base n zero =
    ap (λ m. some (running_pool start_loop base n m))
      (omega (arith, mod-lt 0 {m = suc n} (omega arith)))
after_calls-running start_loop base n (suc k) =
    rw
      (
        after_calls,
        after_calls-running start_loop base n k,
        get_next_loop-running start_loop base n (k % suc n) (mod-lt k (omega arith)),
      )
      (ap (λ m. some (running_pool start_loop base n m))
        (mod-add-mod k (suc n) 1 ∙ ap (λ m. m % suc n) (omega arith)))

-- A pool of one thread or more, once started, hands out its loops in turn: no call fails, and the
-- call behind `k` others gets the loop of thread `k` modulo the number of threads.
pub get_next_loop-turn :
    (start_loop : ℕ → ℕ) (base n k : ℕ)
    → 1 ≤ n
    → (p q r : EventLoopThreadPool) × (new_pool base n ≡ some p)
      × (after_calls k (start start_loop p) ≡ some q)
      × (get_next_loop q ≡ some (start_loop (k % n), r))
unfolding new_pool start
get_next_loop-turn start_loop base zero k h = absurd (omega arith)
get_next_loop-turn start_loop base (suc n) k h = (
  _,
  running_pool start_loop base n (k % suc n),
  _,
  refl,
  after_calls-running start_loop base n k,
  get_next_loop-running start_loop base n (k % suc n) (mod-lt k (omega arith)),
)
