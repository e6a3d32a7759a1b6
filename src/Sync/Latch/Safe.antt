-- ===== src/Sync/Latch/Safe.antt =====
-- CountDownLatch (base/CountDownLatch.cpp): what `wait` waits for, and who sleeps.
use mathlib.Core.Path.{subst}
use jinyi.Prelude.Int.{ℤ, pos, negsuc}
use jinyi.Sync.Latch.{
  Pc, outside, asleep, woken, returned, Latch, decrement, is_zero, notify, test_count, set_pc,
  count_down, Step, enter, wake_by_chance, test_again, down, Reach, start, later,
}
use jinyi.Prelude.{
  ℕ, zero, suc, ◌+◌, ◌≤◌, ◌<◌, ◌≡◌, ◌≢◌, refl, ◌⊎◌, inl, inr, Bool-cases, arith, ◌==◌,
  if◌then◌else◌,
}

-- The count that `downs` calls leave of `n`.
abbrev Left : ℕ → ℕ → ℤ → Type 0
Left n downs (pos k) = k + downs ≡ n
Left n downs (negsuc k) = downs ≡ n + k + 1

-- What a thread's place says of the count.
abbrev Says : ℕ → ℕ → Pc → Type 0
Says n downs outside = Unit
Says n downs asleep = downs < n
Says n downs woken = Unit
Says n downs returned = n ≤ downs

record Inv (n : ℕ) (l : Latch) : Type 0 where
  left : Left n l.downs l.count
  says : (i : ℕ) → Says n l.downs (l.pc i)

test_count-Says : (n downs : ℕ) (c : ℤ) → Left n downs c → Says n downs (test_count c)
test_count-Says n downs (pos zero) h = omega arith
test_count-Says n downs (pos (suc k)) h = omega arith
test_count-Says n downs (negsuc k) h = omega arith

decrement-Left : (n downs : ℕ) (c : ℤ) → Left n downs c → Left n (downs + 1) (decrement c)
decrement-Left n downs (pos zero) h = omega arith
decrement-Left n downs (pos (suc k)) h = omega arith
decrement-Left n downs (negsuc k) h = omega arith

-- Another countDown, for a thread that is not asleep, and for one that is while the count stays above 0.
Says-down : (n downs : ℕ) (p : Pc) → p ≢ asleep → Says n downs p → Says n (downs + 1) p
Says-down n downs outside ne h = tt
Says-down n downs asleep ne h = absurd (ne refl)
Says-down n downs woken ne h = tt
Says-down n downs returned ne h = omega arith

notify-Says : (n downs : ℕ) (p : Pc) → Says n downs p → Says n (downs + 1) (notify p)
notify-Says n downs outside h = tt
notify-Says n downs asleep h = tt
notify-Says n downs woken h = tt
notify-Says n downs returned h = omega arith

Says-more :
    (n downs : ℕ) (p : Pc) → (downs < n → downs + 1 < n) → Says n downs p → Says n (downs + 1) p
Says-more n downs outside more h = tt
Says-more n downs asleep more h = more h
Says-more n downs woken more h = tt
Says-more n downs returned more h = omega arith

down-Says :
    (n downs : ℕ) (c : ℤ) (p : ℕ → Pc)
    → Left n downs c
    → ((i : ℕ) → Says n downs (p i))
    → (i : ℕ) → Says n (downs + 1) ((if is_zero (decrement c) then (λ j. notify (p j)) else p) i)
down-Says n downs (pos zero) p left h i = Says-more n downs (p i) (λ lt. omega arith) (h i)
down-Says n downs (pos (suc zero)) p left h i = notify-Says n downs (p i) (h i)
down-Says n downs (pos (suc (suc k))) p left h i = Says-more n downs (p i) (λ lt. omega arith) (h i)
down-Says n downs (negsuc k) p left h i = Says-more n downs (p i) (λ lt. omega arith) (h i)

set_pc-Inv :
    (n : ℕ) (l : Latch) (i : ℕ) (p : Pc) → Says n l.downs p → Inv n l → Inv n (set_pc l i p)
set_pc-Inv n l i p here inv = record {
  left = inv.left;
  says = λ j. elim (Bool-cases (j == i)) [
    | inl same ↦ rw same here
    | inr other ↦ rw other (inv.says j)
  ];
}

Step-Inv : (n : ℕ) (l m : Latch) → Step l m → Inv n l → Inv n m
unfolding count_down
Step-Inv n l m (enter i e) inv =
    set_pc-Inv n l i (test_count l.count) (test_count-Says n l.downs l.count inv.left) inv
Step-Inv n l m (wake_by_chance i e) inv = set_pc-Inv n l i woken tt inv
Step-Inv n l m (test_again i e) inv =
    set_pc-Inv n l i (test_count l.count) (test_count-Says n l.downs l.count inv.left) inv
Step-Inv n l m down inv = record {
  left = decrement-Left n l.downs l.count inv.left;
  says = down-Says n l.downs l.count l.pc inv.left inv.says;
}

Reach-Inv : {n : ℕ} {l : Latch} → Reach n l → Inv n l
Reach-Inv {n} start = record { left = omega arith; says = λ i. tt }
Reach-Inv {n} {l = m} (later {l = k} r st) = Step-Inv n k m st (Reach-Inv r)

-- In every interleaving a thread is back from `wait` only after countDown has been called as often as
-- the latch's count.
pub wait_after_downs : (n i : ℕ) (l : Latch) → Reach n l → l.pc i ≡ returned → n ≤ l.downs
wait_after_downs n i l r e = subst (Says n l.downs) e ((Reach-Inv r).says i)

test_count_done : (n downs : ℕ) (c : ℤ) → Left n downs c → n ≤ downs → test_count c ≡ returned
test_count_done n downs (pos zero) left h = refl
test_count_done n downs (pos (suc k)) left h = absurd (omega arith)
test_count_done n downs (negsuc k) left h = refl

-- Once countDown has been called that often, nobody is left asleep: each thread that has called
-- `wait` is back, or its next step takes it back.
pub wait_returns :
    (n i : ℕ) (l : Latch)
    → Reach n l
    → n ≤ l.downs
    → l.pc i ≢ outside
    → (l.pc i ≡ returned) ⊎ ((m : Latch) × Step l m × (m.pc i ≡ returned))
wait_returns n i l r done called = let inv = Reach-Inv r in go (l.pc i) refl inv
  where
    go :
        (p : Pc)
        → l.pc i ≡ p
        → Inv n l
        → (l.pc i ≡ returned) ⊎ ((m : Latch) × Step l m × (m.pc i ≡ returned))
    go outside e inv = absurd (called e)
    go asleep e inv =
        absurd (let lt : l.downs < n = subst (Says n l.downs) e (inv.says i) in omega arith)
    go woken e inv = inr (
      set_pc l i (test_count l.count),
      test_again i e,
      ground (arith, test_count_done n l.downs l.count inv.left done),
    )
    go returned e inv = inl e
