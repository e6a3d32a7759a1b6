-- ===== src/Sync/Latch/Locked/Refines.antt =====
-- The latch with its mutex taken apart, and the latch whose critical sections are single steps.
use mathlib.Core.Path.{subst}
use jinyi.Prelude.Int.{ℤ}
use jinyi.Prelude.{
  ℕ, ◌+◌, ◌≡◌, refl, sym, ap, ◌∙◌, Bool, true, false, ◌==◌, if◌then◌else◌, Bool-cases, inl, inr,
  arith, ==_iff,
}
use jinyi.Sync.Latch
use jinyi.Sync.Latch.{Latch, Pc, is_positive, is_zero, decrement, test_count, set_pc, count_down}
use jinyi.Sync.Latch.Locked.{
  Place, outside, testing, tested, asleep, relocking, retesting, retested, leaving, returned,
  counting, loaded, counted, LockedLatch, put_place, notify, move, decide, told_places, store_count,
  Step, lock_wait, read, test, wake_by_chance, relock, read_again, test_again, unlock_wait,
  lock_down, load, count, unlock_down, Reach, start, later,
}
use jinyi.Sync.Latch.Locked.Exclusive.{Fresh, Inv, Reach-Inv}
use jinyi.Sync.Mutex.{MutexLock, unlock}

abbrev pub seen : Place → Pc
seen outside = Latch.outside
seen testing = Latch.outside
seen (tested v) = Latch.outside
seen asleep = Latch.asleep
seen relocking = Latch.woken
seen retesting = Latch.woken
seen (retested v) = Latch.woken
seen leaving = Latch.returned
seen returned = Latch.returned
seen counting = Latch.outside
seen (loaded v) = Latch.outside
seen counted = Latch.outside

-- A locked latch as the other threads can tell it.
abbrev pub view : LockedLatch → Latch
view l = record { count = l.count; pc = λ i. seen (l.place i); downs = l.downs }

seen-put_place :
    (place : ℕ → Place) (i : ℕ) (p : Place) (j : ℕ)
    → seen (put_place place i p j) ≡ (if j == i then seen p else seen (place j))
seen-put_place place i p j = elim (Bool-cases (j == i)) [ inl e ↦ rw e refl | inr e ↦ rw e refl ]

abbrev latch : ℤ → ℕ → (ℕ → Pc) → Latch
latch c d p = record { count = c; pc = p; downs = d }

-- Two latches with the same count that agree at each thread.
latch_ext : (c : ℤ) (d : ℕ) (p q : ℕ → Pc) → ((j : ℕ) → p j ≡ q j) → latch c d p ≡ latch c d q
latch_ext c d p q h = ap (latch c d) (λ k j. h j k)

-- A step that the other threads cannot tell.
view-stutter :
    (l : LockedLatch) (i : ℕ) (m : MutexLock) (p : Place)
    → seen p ≡ seen (l.place i)
    → view (move l i m p) ≡ view l
view-stutter l i m p e = latch_ext l.count l.downs _ _ go
  where
    go : (j : ℕ) → seen (put_place l.place i p j) ≡ seen (l.place j)
    go j = elim (Bool-cases (j == i)) [
      | inl same ↦ rw same (e ∙ ap (λ t. seen (l.place t)) (sym ((==_iff j i).0 same)))
      | inr other ↦ rw other refl
    ]

view-move :
    (l : LockedLatch) (i : ℕ) (m : MutexLock) (p : Place)
    → view (move l i m p) ≡ set_pc (view l) i (seen p)
view-move l i m p = latch_ext l.count l.downs _ _ (seen-put_place l.place i p)

view-decide :
    (l : LockedLatch) (i : ℕ) (v : ℤ)
    → v ≡ l.count
    → view (decide i v l) ≡ set_pc (view l) i (test_count l.count)
unfolding decide
view-decide l i v e = elim (Bool-cases (is_positive v)) [
  | inl more ↦
      rw more
        (view-move l i (unlock l.mutex) asleep ∙ ap (set_pc (view l) i) (ground (arith, more, e)))
  | inr done ↦
      rw done (view-move l i l.mutex leaving ∙ ap (set_pc (view l) i) (ground (arith, done, e)))
]

abbrev told : Bool → (ℕ → Pc) → ℕ → Pc
told true pc = λ j. Latch.notify (pc j)
told false pc = pc

seen-notify : (p : Place) → seen (notify p) ≡ Latch.notify (seen p)
seen-notify p = ground arith

seen-told :
    (z : Bool) (place : ℕ → Place) (i : ℕ)
    → seen (place i) ≡ Latch.outside
    → (j : ℕ) → seen (put_place (told_places z place) i counted j) ≡ told z (λ k. seen (place k)) j
seen-told true place i e j =
    seen-put_place (λ k. notify (place k)) i counted j ∙ elim (Bool-cases (j == i)) [
      | inl same ↦
          rw same (
            sym (ap (λ k. Latch.notify (seen (place k))) ((==_iff j i).0 same) ∙ ap Latch.notify e))
      | inr other ↦ rw other (seen-notify (place j))
    ]
seen-told false place i e j = seen-put_place place i counted j ∙ elim (Bool-cases (j == i)) [
  | inl same ↦ rw same (sym (ap (λ k. seen (place k)) ((==_iff j i).0 same) ∙ e))
  | inr other ↦ rw other refl
]

view-store_count :
    (l : LockedLatch) (i : ℕ) (v : ℤ)
    → l.place i ≡ loaded v
    → v ≡ l.count
    → view (store_count i v l) ≡ count_down (view l)
unfolding store_count count_down
view-store_count l i v e fresh =
    ap
      (λ c.
        latch (decrement c) (l.downs + 1)
          (λ j. seen (put_place (told_places (is_zero (decrement c)) l.place) i counted j)))
      fresh
    ∙ latch_ext (decrement l.count) (l.downs + 1) _ _ (by_zero (is_zero (decrement l.count)))
  where
    by_zero :
        (z : Bool) (j : ℕ)
        → seen (put_place (told_places z l.place) i counted j) ≡ (
            if◌then◌else◌ {A = ℕ → Pc} z
              (λ k. Latch.notify (seen (l.place k)))
              (λ k. seen (l.place k))
              j)
    by_zero true j = seen-told true l.place i (ap seen e) j
    by_zero false j = seen-told false l.place i (ap seen e) j

carried : {n : ℕ} {a b : Latch} → a ≡ b → Latch.Reach n b → Latch.Reach n a
carried {n} e r = subst (Latch.Reach n) (sym e) r

unseen :
    {n : ℕ} (l : LockedLatch) (i : ℕ) (m : MutexLock) (p q : Place)
    → l.place i ≡ q
    → seen p ≡ seen q
    → Latch.Reach n (view l)
    → Latch.Reach n (view (move l i m p))
unseen l i m p q e same r = carried (view-stutter l i m p (same ∙ ap seen (sym e))) r

decided :
    {n : ℕ} (l : LockedLatch) (i : ℕ) (v : ℤ)
    → v ≡ l.count
    → Latch.Step (view l) (set_pc (view l) i (test_count l.count))
    → Latch.Reach n (view l)
    → Latch.Reach n (view (decide i v l))
decided l i v fresh st r = carried (view-decide l i v fresh) (Latch.later r st)

-- What was read is still the count.
read_value : (l : LockedLatch) (i : ℕ) (p : Place) → l.place i ≡ p → Inv l → Fresh l.count p
read_value l i p e inv = subst (Fresh l.count) e (inv i).fresh

Step-view :
    {n : ℕ} (l m : LockedLatch) → Step l m → Inv l → Latch.Reach n (view l) → Latch.Reach n (view m)
Step-view l m (lock_wait i k e free) inv r = unseen l i k testing outside e refl r
Step-view l m (read i e) inv r = unseen l i l.mutex (tested l.count) testing e refl r
Step-view l m (test i v e) inv r =
    decided l i v (read_value l i (tested v) e inv) (Latch.enter i (ap seen e)) r
Step-view l m (wake_by_chance i e) inv r =
    carried (view-move l i l.mutex relocking) (Latch.later r (Latch.wake_by_chance i (ap seen e)))
Step-view l m (relock i k e free) inv r = unseen l i k retesting relocking e refl r
Step-view l m (read_again i e) inv r = unseen l i l.mutex (retested l.count) retesting e refl r
Step-view l m (test_again i v e) inv r =
    decided l i v (read_value l i (retested v) e inv) (Latch.test_again i (ap seen e)) r
Step-view l m (unlock_wait i e) inv r = unseen l i (unlock l.mutex) returned leaving e refl r
Step-view l m (lock_down i k e free) inv r = unseen l i k counting outside e refl r
Step-view l m (load i e) inv r = unseen l i l.mutex (loaded l.count) counting e refl r
Step-view l m (count i v e) inv r =
    carried (view-store_count l i v e (read_value l i (loaded v) e inv)) (Latch.later r Latch.down)
Step-view l m (unlock_down i e) inv r = unseen l i (unlock l.mutex) outside counted e refl r

-- The critical sections are atomic: every run of the latch with its mutex and condition taken apart
-- is, as seen from outside, a run of the latch whose critical sections are single steps.
pub Reach-view : (n : ℕ) (l : LockedLatch) → Reach n l → Latch.Reach n (view l)
Reach-view n l start = Latch.start
Reach-view n m (later {l = l} r st) = Step-view l m st (Reach-Inv r) (Reach-view n l r)
