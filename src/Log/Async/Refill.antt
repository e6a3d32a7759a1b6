-- ===== src/Log/Async/Refill.antt =====
-- AsyncLogging: how the back-end thread gets its two new buffers back.
use jinyi.Log.Async.{set_at, back, pop_back, refill, dropped_to_two}
use jinyi.Log.Async.Safe.{hit, hits, count, missing, count-back, count-take}
use jinyi.Log.Stream.{FixedBuffer, reset}
use jinyi.Prelude.{
  ℕ, ◌+◌, ◌≤◌, ◌≡◌, refl, Option, none, some, List, [], ◌∷◌, ◌⊎◌, arith, length, length-take,
}

length-pop_back : (p : ℕ) (ps : List ℕ) → length (pop_back p ps) ≡ length ps
length-pop_back p [] = refl
length-pop_back p (q ∷ qs) = omega (arith, length-pop_back q qs)

pub record Refilled (new : Option ℕ) (ps : List ℕ) (heap : ℕ → FixedBuffer) : Type 0 where
  pub p : ℕ
  pub left : List ℕ
  pub heap' : ℕ → FixedBuffer
  pub returns : refill new ps heap ≡ some (p, left, heap')
  pub same : (i : ℕ) → hit i p + count i left ≡ hits i new + count i ps
  pub shorter : length left + missing new ≡ length ps
  pub size : (i : ℕ) → (heap' i).size ≡ (heap i).size
  pub kept : (i : ℕ) → length (heap i).text ≤ 0 → length (heap' i).text ≤ 0
  pub emptied :
      (i : ℕ)
      → 1 ≤ hit i p
      → (1 ≤ hits i new → length (heap i).text ≤ 0)
      → length (heap' i).text ≤ 0

pub refill-Refilled :
    (new : Option ℕ) (ps : List ℕ) (heap : ℕ → FixedBuffer)
    → missing new ≤ length ps
    → Refilled new ps heap
unfolding refill reset
refill-Refilled (some p) ps heap h = record {
  p = p;
  left = ps;
  heap' = heap;
  returns = refl;
  same = λ i. refl;
  shorter = omega arith;
  size = λ i. refl;
  kept = λ i e. e;
  emptied = λ i here old. old here;
}
refill-Refilled none [] heap h = absurd (omega arith)
refill-Refilled none (q ∷ qs) heap h = record {
  p = back q qs;
  left = pop_back q qs;
  heap' = set_at heap (back q qs) (reset (heap (back q qs)));
  returns = refl;
  same = λ i. omega (arith, count-back i q qs);
  shorter = omega (arith, length-pop_back q qs);
  size = λ i. ground arith;
  kept = λ i e. ground arith;
  emptied = λ i here old. ground arith;
}

-- Shortening `buffersToWrite` drops references only, and keeps two.
pub length-dropped :
    (bound : ℕ) (ps : List ℕ)
    → 2 ≤ bound
    → (length (dropped_to_two bound ps) ≡ length ps) ⊎ (length (dropped_to_two bound ps) ≡ 2)
length-dropped bound ps h = ground (arith, length-take 2 ps)

pub count-dropped : (i bound : ℕ) (ps : List ℕ) → count i (dropped_to_two bound ps) ≤ count i ps
count-dropped i bound ps = ground (arith, count-take i 2 ps)
