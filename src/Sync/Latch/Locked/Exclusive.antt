-- ===== src/Sync/Latch/Locked/Exclusive.antt =====
-- The mutex of the latch: who is between lock and unlock, and what was read there.
use mathlib.Core.Path.{subst}
use jinyi.Prelude.Int.{ℤ}
use jinyi.Prelude.{
  ℕ, ◌≡◌, ◌≢◌, refl, sym, ap, Bool, true, false, ◌==◌, Bool-cases, inl, inr, arith, some, ==_iff,
}
use jinyi.Sync.Latch.{is_positive, is_zero, decrement}
use jinyi.Sync.Latch.Locked.{
  Place, outside, testing, tested, asleep, relocking, retesting, retested, leaving, returned,
  counting, loaded, counted, LockedLatch, put_place, move, decide, told_places, store_count, Step,
  lock_wait, read, test, wake_by_chance, relock, read_again, test_again, unlock_wait, lock_down,
  load, count, unlock_down, Reach, start, later,
}
use jinyi.Sync.Mutex.{MutexLock, lock, unlock}

-- Between lock and unlock.
abbrev pub holds : Place → Bool
holds outside = false
holds asleep = false
holds relocking = false
holds returned = false
holds _ = true

-- A count that was read and is still to be used is the count.
abbrev pub Fresh : ℤ → Place → Type 0
Fresh c (tested v) = v ≡ c
Fresh c (retested v) = v ≡ c
Fresh c (loaded v) = v ≡ c
Fresh c _ = Unit

-- What the mutex `m` and the count `c` say of the thread `j` at `p`.
pub record Good (m : MutexLock) (c : ℤ) (j : ℕ) (p : Place) : Type 0 where
  pub held : holds p ≡ true → m.owner ≡ some j
  pub holder : m.owner ≡ some j → holds p ≡ true
  pub fresh : Fresh c p

abbrev pub Inv : LockedLatch → Type 0
Inv l = (j : ℕ) → Good l.mutex l.count j (l.place j)

-- A property of every thread, behind a step of one.
put_place-all :
    (P : ℕ → Place → Type 0) (place : ℕ → Place) (i : ℕ) (p : Place)
    → P i p
    → ((j : ℕ) → j ≢ i → P j (place j))
    → (j : ℕ) → P j (put_place place i p j)
put_place-all P place i p here others j = elim (Bool-cases (j == i)) [
  | inl same ↦ rw same (subst (λ k. P k p) (sym ((==_iff j i).0 same)) here)
  | inr other ↦ rw other (others j (λ e. ground (arith, other, e)))
]

move-Inv :
    (l : LockedLatch) (i : ℕ) (m : MutexLock) (p : Place)
    → Good m l.count i p
    → ((j : ℕ) → j ≢ i → Good m l.count j (l.place j))
    → Inv (move l i m p)
move-Inv l i m p here others = put_place-all (Good m l.count) l.place i p here others

lock-Inv :
    (l : LockedLatch) (i : ℕ) (m : MutexLock) (p : Place)
    → lock i l.mutex ≡ some m
    → holds p ≡ true
    → Fresh l.count p
    → Inv l
    → Inv (move l i m p)
unfolding lock
lock-Inv l i m p e h fresh inv = move-Inv l i m p (ground arith) (λ j ne. ground (arith, inv j))

unlock-Inv :
    (l : LockedLatch) (i : ℕ) (p : Place)
    → holds (l.place i) ≡ true
    → holds p ≡ false
    → Fresh l.count p
    → Inv l
    → Inv (move l i (unlock l.mutex) p)
unfolding unlock
unlock-Inv l i p h n fresh inv =
    move-Inv l i (unlock l.mutex) p (ground (arith, inv i)) (λ j ne. ground (arith, inv i, inv j))

stay-Inv :
    (l : LockedLatch) (i : ℕ) (p : Place)
    → holds (l.place i) ≡ holds p
    → Fresh l.count p
    → Inv l
    → Inv (move l i l.mutex p)
stay-Inv l i p h fresh inv = move-Inv l i l.mutex p (ground (arith, inv i)) (λ j ne. inv j)

decide-Inv :
    (l : LockedLatch) (i : ℕ) (v : ℤ) → holds (l.place i) ≡ true → Inv l → Inv (decide i v l)
unfolding decide
decide-Inv l i v h inv = elim (Bool-cases (is_positive v)) [
  | inl more ↦ rw more (unlock-Inv l i asleep h refl tt inv)
  | inr enough ↦ rw enough (stay-Inv l i leaving h tt inv)
]

-- A thread that does not hold the mutex is not about to use a count.
Good-told :
    (m : MutexLock) (c d : ℤ) (z : Bool) (place : ℕ → Place) (j : ℕ)
    → holds (place j) ≡ false
    → Good m c j (place j)
    → Good m d j (told_places z place j)
Good-told m c d true place j n g = ground (arith, g)
Good-told m c d false place j n g = ground (arith, g)

store_count-Inv :
    (l : LockedLatch) (i : ℕ) (v : ℤ) → holds (l.place i) ≡ true → Inv l → Inv (store_count i v l)
unfolding store_count
store_count-Inv l i v h inv =
    put_place-all (Good l.mutex (decrement v)) (told_places (is_zero (decrement v)) l.place) i
      counted (ground (arith, inv i))
      (λ j ne.
        Good-told l.mutex l.count (decrement v) (is_zero (decrement v)) l.place j
          (ground (arith, inv i, inv j)) (inv j))

Step-Inv : (l m : LockedLatch) → Step l m → Inv l → Inv m
Step-Inv l m (lock_wait i k e free) inv = lock-Inv l i k testing free refl tt inv
Step-Inv l m (read i e) inv = stay-Inv l i (tested l.count) (ap holds e) refl inv
Step-Inv l m (test i v e) inv = decide-Inv l i v (ap holds e) inv
Step-Inv l m (wake_by_chance i e) inv = stay-Inv l i relocking (ap holds e) tt inv
Step-Inv l m (relock i k e free) inv = lock-Inv l i k retesting free refl tt inv
Step-Inv l m (read_again i e) inv = stay-Inv l i (retested l.count) (ap holds e) refl inv
Step-Inv l m (test_again i v e) inv = decide-Inv l i v (ap holds e) inv
Step-Inv l m (unlock_wait i e) inv = unlock-Inv l i returned (ap holds e) refl tt inv
Step-Inv l m (lock_down i k e free) inv = lock-Inv l i k counting free refl tt inv
Step-Inv l m (load i e) inv = stay-Inv l i (loaded l.count) (ap holds e) refl inv
Step-Inv l m (count i v e) inv = store_count-Inv l i v (ap holds e) inv
Step-Inv l m (unlock_down i e) inv = unlock-Inv l i outside (ap holds e) refl tt inv

pub Reach-Inv : {n : ℕ} {l : LockedLatch} → Reach n l → Inv l
Reach-Inv start = λ j. ground arith
Reach-Inv {l = m} (later {l = l} r st) = Step-Inv l m st (Reach-Inv r)

-- A step that takes the thread `i` on.
abbrev pub GoesOn : LockedLatch → ℕ → Type 0
GoesOn l i = (m : LockedLatch) × Step l m × (m.place i ≢ l.place i)

-- MutexLockGuard excludes: in every interleaving one thread at most is between lock and unlock, a
-- count that it has read is still the count when it is used, and it can always go on.
pub holds-exclusive :
    (n i j : ℕ) (l : LockedLatch)
    → Reach n l
    → holds (l.place i) ≡ true
    → (holds (l.place j) ≡ true → i ≡ j) × Fresh l.count (l.place i) × GoesOn l i
unfolding decide store_count
holds-exclusive n i j l r h =
    let inv = Reach-Inv r in
    (λ k. ground (arith, inv i, inv j), (inv i).fresh, goes_on (l.place i) refl h)
  where
    goes_on : (p : Place) → l.place i ≡ p → holds p ≡ true → GoesOn l i
    goes_on outside e g = ground arith
    goes_on testing e g = (_, read i e, λ q. ground (arith, e, q))
    goes_on (tested v) e g = (_, test i v e, λ q. ground (arith, e, q))
    goes_on asleep e g = ground arith
    goes_on relocking e g = ground arith
    goes_on retesting e g = (_, read_again i e, λ q. ground (arith, e, q))
    goes_on (retested v) e g = (_, test_again i v e, λ q. ground (arith, e, q))
    goes_on leaving e g = (_, unlock_wait i e, λ q. ground (arith, e, q))
    goes_on returned e g = ground arith
    goes_on counting e g = (_, load i e, λ q. ground (arith, e, q))
    goes_on (loaded v) e g = (_, count i v e, λ q. ground (arith, e, q))
    goes_on counted e g = (_, unlock_down i e, λ q. ground (arith, e, q))
