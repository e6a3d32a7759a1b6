-- ===== src/Sync/Latch.antt =====
-- CountDownLatch (base/CountDownLatch.cpp), with its mutex and condition variable (base/MutexLock.h,
-- base/Condition.h). A step is a critical section: waiting on the condition gives the mutex back in
-- one step with falling asleep. `Condition` holds its mutex as a member of its own; it is read as the
-- mutex that its constructor is given. The latch starts with a count that is not negative.
pub mod Safe
pub mod Locked
use jinyi.Prelude.Int.{ℤ, pos, negsuc}
use jinyi.Prelude.{ℕ, zero, suc, ◌+◌, ◌≡◌, Bool, true, false, ◌==◌, if◌then◌else◌}

-- Where a thread stands: it has not called `wait`; asleep in the condition; notified or woken by
-- chance, and still to test the count again; back from `wait`.
pub data Pc : Type 0 where
  outside : Pc
  asleep : Pc
  woken : Pc
  returned : Pc

pub record Latch : Type 0 where
  pub count : ℤ
  pub pc : ℕ → Pc
  -- the calls of countDown so far
  pub downs : ℕ

abbrev pub new_latch : ℕ → Latch
new_latch n = record { count = pos n; pc = λ i. outside; downs = 0 }

abbrev pub is_positive : ℤ → Bool
is_positive (pos zero) = false
is_positive (pos (suc n)) = true
is_positive (negsuc n) = false

abbrev pub decrement : ℤ → ℤ
decrement (pos zero) = negsuc 0
decrement (pos (suc n)) = pos n
decrement (negsuc n) = negsuc (suc n)

abbrev pub is_zero : ℤ → Bool
is_zero (pos zero) = true
is_zero _ = false

abbrev pub notify : Pc → Pc
notify asleep = woken
notify p = p

-- The test of the loop in `wait`.
abbrev pub test_count : ℤ → Pc
test_count count = if is_positive count then asleep else returned

abbrev pub set_pc : Latch → ℕ → Pc → Latch
set_pc l i p = record l { pc = λ j. if j == i then p else l.pc j }

unfoldable pub count_down : Latch → Latch
count_down l =
    let count = decrement l.count in
    record l {
      count = count;
      pc = if is_zero count then (λ i. notify (l.pc i)) else l.pc;
      downs = l.downs + 1;
    }

pub data Step (l : Latch) : Latch → Type 0 where
  enter : (i : ℕ) → l.pc i ≡ outside → Step l (set_pc l i (test_count l.count))
  wake_by_chance : (i : ℕ) → l.pc i ≡ asleep → Step l (set_pc l i woken)
  test_again : (i : ℕ) → l.pc i ≡ woken → Step l (set_pc l i (test_count l.count))
  down : Step l (count_down l)

pub data Reach (n : ℕ) : Latch → Type 0 where
  start : Reach n (new_latch n)
  later : {l m : Latch} → Reach n l → Step l m → Reach n m
