-- ===== src/Sync/Latch/Locked.antt =====
-- CountDownLatch (base/CountDownLatch.cpp) with its mutex and condition taken apart: MutexLockGuard
-- locks in its constructor and unlocks in its destructor (base/MutexLock.h), and Condition::wait
-- unlocks, sleeps, and locks again (base/Condition.h). A thread can be stopped between any two of
-- these. `Condition` is read as using the latch's mutex.
pub mod Exclusive
pub mod Refines
use jinyi.Prelude.Int.{ℤ, pos}
use jinyi.Prelude.{ℕ, ◌+◌, ◌≡◌, Bool, true, false, Option, none, some, ◌==◌, if◌then◌else◌}
use jinyi.Sync.Latch.{is_positive, is_zero, decrement}
use jinyi.Sync.Mutex.{MutexLock, new_mutex, lock, unlock}

-- Where a thread stands: outside; in `wait`, with the mutex before the first test, with the count
-- read for it, asleep, woken and without the mutex, with it before a later test, with the count read
-- for that, behind the loop, behind the guard; in `countDown`, with the mutex, with the count read
-- for `--count_`, and behind notifyAll.
pub data Place : Type 0 where
  outside : Place
  testing : Place
  tested : ℤ → Place
  asleep : Place
  relocking : Place
  retesting : Place
  retested : ℤ → Place
  leaving : Place
  returned : Place
  counting : Place
  loaded : ℤ → Place
  counted : Place

pub record LockedLatch : Type 0 where
  pub mutex : MutexLock
  pub count : ℤ
  pub place : ℕ → Place
  -- the counts of countDown so far
  pub downs : ℕ

abbrev pub new_locked : ℕ → LockedLatch
new_locked n = record { mutex = new_mutex; count = pos n; place = λ i. outside; downs = 0 }

abbrev pub put_place : (ℕ → Place) → ℕ → Place → ℕ → Place
put_place place i p j = if j == i then p else place j

abbrev pub notify : Place → Place
notify asleep = relocking
notify p = p

-- A step of the thread `i` that leaves the count alone.
abbrev pub move : LockedLatch → ℕ → MutexLock → Place → LockedLatch
move l i m p = record l { mutex = m; place = put_place l.place i p }

-- Behind the test of the loop, with the count that was read: the unlocking in Condition::wait, or on.
unfoldable pub decide : ℕ → ℤ → LockedLatch → LockedLatch
unfolding unlock
decide i read l =
    if is_positive read then move l i (unlock l.mutex) asleep else move l i l.mutex leaving

abbrev pub told_places : Bool → (ℕ → Place) → ℕ → Place
told_places true place = λ j. notify (place j)
told_places false place = place

-- `count_` is written, and notifyAll is called if it is 0.
unfoldable pub store_count : ℕ → ℤ → LockedLatch → LockedLatch
store_count i read l =
    let count = decrement read in
    record l {
      count = count;
      place = put_place (told_places (is_zero count) l.place) i counted;
      downs = l.downs + 1;
    }

pub data Step (l : LockedLatch) : LockedLatch → Type 0 where
  lock_wait :
      (i : ℕ) (m : MutexLock)
      → l.place i ≡ outside
      → lock i l.mutex ≡ some m
      → Step l (move l i m testing)
  read : (i : ℕ) → l.place i ≡ testing → Step l (move l i l.mutex (tested l.count))
  test : (i : ℕ) (v : ℤ) → l.place i ≡ tested v → Step l (decide i v l)
  wake_by_chance : (i : ℕ) → l.place i ≡ asleep → Step l (move l i l.mutex relocking)
  relock :
      (i : ℕ) (m : MutexLock)
      → l.place i ≡ relocking
      → lock i l.mutex ≡ some m
      → Step l (move l i m retesting)
  read_again : (i : ℕ) → l.place i ≡ retesting → Step l (move l i l.mutex (retested l.count))
  test_again : (i : ℕ) (v : ℤ) → l.place i ≡ retested v → Step l (decide i v l)
  unlock_wait : (i : ℕ) → l.place i ≡ leaving → Step l (move l i (unlock l.mutex) returned)
  lock_down :
      (i : ℕ) (m : MutexLock)
      → l.place i ≡ outside
      → lock i l.mutex ≡ some m
      → Step l (move l i m counting)
  load : (i : ℕ) → l.place i ≡ counting → Step l (move l i l.mutex (loaded l.count))
  count : (i : ℕ) (v : ℤ) → l.place i ≡ loaded v → Step l (store_count i v l)
  unlock_down : (i : ℕ) → l.place i ≡ counted → Step l (move l i (unlock l.mutex) outside)

pub data Reach (n : ℕ) : LockedLatch → Type 0 where
  start : Reach n (new_locked n)
  later : {l m : LockedLatch} → Reach n l → Step l m → Reach n m
