-- ===== src/Loop/Timer.antt =====
-- Timer and TimerQueue (net/Timer.cpp, net/Timer.h). `gettimeofday` is read as a pair of numbers; a
-- timeout is not negative. The priority queue of the C++ library is an interface: a heap's top is one
-- of the earliest, as long as no key in it changes.
use mathlib.Core.Path.{subst}
use jinyi.Prelude.{
  All, Bool-cases, inl, inr, ap, length, List, [], ◌∷◌, ◌++◌, ◌⊎◌, ℕ, ◌+◌, ◌*◌, ◌/◌, ◌%◌, ◌≤◌, ◌<◌,
  ◌≡◌, refl, Bool, true, false, not, arith, ltb, if◌then◌else◌,
}

pub record Timeval : Type 0 where
  pub tv_sec : ℕ
  pub tv_usec : ℕ

pub record Timer : Type 0 where
  pub deleted : Bool
  pub expired_time : ℕ

-- The milliseconds that all the functions of Timer compute from the time of day.
unfoldable pub milliseconds : Timeval → ℕ
milliseconds now = (now.tv_sec % 10000) * 1000 + now.tv_usec / 1000

unfoldable pub new_timer : Timeval → ℕ → Timer
unfolding milliseconds
new_timer now timeout = record { deleted = false; expired_time = milliseconds now + timeout }

unfoldable pub update : Timer → Timeval → ℕ → Timer
unfolding milliseconds
update t now timeout = record t { expired_time = milliseconds now + timeout }

-- The answer, and the timer afterwards.
unfoldable pub is_valid : Timer → Timeval → Bool × Timer
unfolding milliseconds
is_valid t now =
    if ltb (milliseconds now) t.expired_time
    then (true, t)
    else (false, record t { deleted = true })

-- gettimeofday keeps tv_usec below a million.
abbrev pub IsTime : Timeval → Type 0
IsTime now = now.tv_usec < 1000000

-- All milliseconds since the epoch.
abbrev pub total : Timeval → ℕ
total now = now.tv_sec * 1000 + now.tv_usec / 1000

-- As long as the two readings fall in the same period of 10000 seconds, a timer is valid exactly
-- until its timeout has passed, and it is marked as deleted when it is found not valid.
pub new_timer-is_valid :
    (start now : Timeval) (timeout : ℕ)
    → start.tv_sec / 10000 ≡ now.tv_sec / 10000
    → ((is_valid (new_timer start timeout) now).0 ≡ ltb (total now) (total start + timeout))
      × ((is_valid (new_timer start timeout) now).1.deleted
          ≡ not (ltb (total now) (total start + timeout)))
unfolding new_timer is_valid milliseconds
new_timer-is_valid start now timeout same = ground arith

-- A timer whose end lies behind the end of the period of 10000 seconds never ends: it is valid at
-- every time of day.
pub new_timer_forever :
    (start now : Timeval) (timeout : ℕ)
    → IsTime now
    → 10000000 ≤ milliseconds start + timeout
    → (is_valid (new_timer start timeout) now).0 ≡ true
unfolding new_timer is_valid milliseconds
new_timer_forever start now timeout time late = ground arith

-- `addTimer` and the queue: the timers in the order in which `top` and `pop` give them out, which
-- `push` decides.
unfoldable pub add_timer : (Timer → List Timer → List Timer) → Timeval → ℕ → List Timer → List Timer
unfolding new_timer
add_timer push now timeout queue = push (new_timer now timeout) queue

-- The queue that handleExpiredTimer leaves, and the timers popped. The destructor of a popped timer
-- closes its connection. Round `i` reads the time of day `clock i`.
pub record Handled : Type 0 where
  pub left : List Timer
  pub popped : List Timer

unfoldable pub handle_expired_timer : (ℕ → Timeval) → ℕ → List Timer → Handled
unfolding is_valid
handle_expired_timer clock i [] = record { left = []; popped = [] }
handle_expired_timer clock i (t ∷ ts) =
    let rest = handle_expired_timer clock (i + 1) ts in
    let checked = is_valid t (clock i) in
    if t.deleted
    then record { left = rest.left; popped = t ∷ rest.popped }
    else if not checked.0
    then record { left = rest.left; popped = checked.1 ∷ rest.popped }
    else record { left = checked.1 ∷ ts; popped = [] }

-- The order that TimerCmp asks for.
abbrev pub IsSorted : List Timer → Type 0
IsSorted [] = Unit
IsSorted (t ∷ ts) = All (λ u. t.expired_time ≤ u.expired_time) ts × IsSorted ts

-- Each timer is marked as deleted, or its time has come in its round.
abbrev pub AllOver : (ℕ → Timeval) → ℕ → List Timer → Type 0
AllOver clock i [] = Unit
AllOver clock i (t ∷ ts) =
    ((t.deleted ≡ true) ⊎ (t.expired_time ≤ milliseconds (clock i))) × AllOver clock (i + 1) ts

pub record Split (clock : ℕ → Timeval) (i : ℕ) (queue : List Timer) (r : Handled) : Type 0 where
  pub front : List Timer
  pub parts : queue ≡ front ++ r.left
  pub same_length : length r.popped ≡ length front
  pub over : AllOver clock i front
  pub marked : All (λ t. t.deleted ≡ true) r.popped
  pub later : All (λ t. milliseconds (clock (i + length front)) < t.expired_time) r.left

All-later :
    (n m : ℕ) (ts : List Timer)
    → n < m
    → All (λ u. m ≤ u.expired_time) ts
    → All (λ u. n < u.expired_time) ts
All-later n m [] h all = tt
All-later n m (t ∷ ts) h (here, all) = (omega arith, All-later n m ts h all)

Split-pop :
    (clock : ℕ → Timeval) (i : ℕ) (t t' : Timer) (ts left popped : List Timer)
    → (t.deleted ≡ true) ⊎ (t.expired_time ≤ milliseconds (clock i))
    → t'.deleted ≡ true
    → Split clock (i + 1) ts (record { left = left; popped = popped })
    → Split clock i (t ∷ ts) (record { left = left; popped = t' ∷ popped })
Split-pop clock i t t' ts left popped over marked s = record {
  front = t ∷ s.front;
  parts = ap (◌∷◌ t) s.parts;
  same_length = omega (arith, s.same_length);
  over = (over, s.over);
  marked = (marked, s.marked);
  later =
      subst (λ n. All (λ t. milliseconds (clock n) < t.expired_time) left) (omega arith) s.later;
}

is_later :
    (t : Timer) (now : Timeval)
    → ltb (milliseconds now) t.expired_time ≡ true
    → milliseconds now < t.expired_time
is_later t now h = ground arith

later_at :
    (clock : ℕ → Timeval) (i j : ℕ) (t : Timer) (ts : List Timer)
    → All (λ u. t.expired_time ≤ u.expired_time) ts
    → milliseconds (clock i) < t.expired_time
    → i ≡ j
    → All (λ u. milliseconds (clock j) < u.expired_time) (t ∷ ts)
later_at clock i j t ts first h e =
    subst (λ n. All (λ u. milliseconds (clock n) < u.expired_time) (t ∷ ts)) e
      (h, All-later (milliseconds (clock i)) t.expired_time ts h first)

-- On a queue in the order of TimerCmp, handleExpiredTimer takes off a front part: each timer there
-- was deleted or its time had come, and is marked as deleted. No timer that is left has come to its
-- time in the last round.
pub handle_expired_timer-Split :
    (clock : ℕ → Timeval) (i : ℕ) (queue : List Timer)
    → IsSorted queue
    → Split clock i queue (handle_expired_timer clock i queue)
unfolding handle_expired_timer is_valid
handle_expired_timer-Split clock i [] sorted = record {
  front = [];
  parts = refl;
  same_length = refl;
  over = tt;
  marked = tt;
  later = tt;
}
handle_expired_timer-Split clock i (t ∷ ts) (first, sorted) =
    let rest = handle_expired_timer-Split clock (i + 1) ts sorted in
    elim (Bool-cases t.deleted) [
      | inl gone ↦ simp gone (Split-pop clock i t t ts _ _ (inl gone) gone rest)
      | inr here ↦ elim (Bool-cases (ltb (milliseconds (clock i)) t.expired_time)) [
        | inl valid ↦
            simp (here, valid)
              (record {
                front = [];
                parts = refl;
                same_length = refl;
                over = tt;
                marked = tt;
                later =
                    later_at clock i (i + 0) t ts first (is_later t (clock i) valid) (omega arith);
              })
        | inr over ↦
            simp (here, over)
              (Split-pop clock i t (record t { deleted = true }) ts _ _ (inr (ground arith)) refl
                rest)
      ]
    ]
