-- ===== src/Sync/Thread/Handles.antt =====
-- What becomes of a thread's handle: start, join and the destructor of base/Thread.cpp in any order that
-- their assertions allow; and the thread's name. That start waits for the latch is in Sync/Thread.
use mathlib.Core.Option.{none-ne-some, some-injective}
use mathlib.Core.Path.{subst}
use jinyi.Prelude.{
  sym, ℕ, suc, ◌≤◌, ◌≡◌, refl, ◌∙◌, inl, inr, Bool, true, not, ◌&&◌, Option, none, some, List, [],
  ◌∷◌, Bytes, codes, arith, if◌then◌else◌, Option-cases,
}
use jinyi.Sync.Thread.{Thread, new_thread, before, assert_failed, absent, begin, join}

-- A Thread, with how many threads pthread_create made for it, and how many calls of pthread_join and
-- pthread_detach it made.
pub record Held : Type 0 where
  pub thread : Thread
  pub created : ℕ
  pub released : ℕ

abbrev pub new_held : Held
new_held = record { thread = new_thread; created = 0; released = 0 }

-- The calls on a Thread, with the answers of pthread_create and pthread_join.
pub data ThreadCall : Type 0 where
  call_start : Bool → ThreadCall
  call_join : ℕ → ThreadCall

unfoldable pub start_held : Bool → Held → Option Held
unfolding begin
start_held made h =
    let s = begin made (record { thread = h.thread; starter = before; child = absent }) in
    elim s.starter [
      | assert_failed ↦ none
      | _ ↦ some (record {
        thread = s.thread;
        created = if made then suc h.created else h.created;
        released = h.released;
      })
    ]

unfoldable pub join_held : ℕ → Held → Option Held
unfolding join
join_held answer h = elim (join answer h.thread) [
  | none ↦ none
  | some (a, t) ↦ some (record h { thread = t; released = suc h.released })
]

-- `none` at a failed assertion.
unfoldable pub call_thread : ThreadCall → Held → Option Held
unfolding start_held join_held
call_thread (call_start made) h = start_held made h
call_thread (call_join answer) h = join_held answer h

unfoldable pub use_thread : List ThreadCall → Held → Option Held
unfolding call_thread
use_thread [] h = some h
use_thread (call ∷ calls) h = elim (call_thread call h) [
  | none ↦ none
  | some h' ↦ use_thread calls h'
]

-- The destructor.
unfoldable pub destroy : Held → Held
destroy h =
    if h.thread.started && not h.thread.joined then record h { released = suc h.released } else h

-- setDefaultName
abbrev pub default_name : Bytes → Bytes
default_name [] = codes "Thread"
default_name (c ∷ cs) = c ∷ cs

-- The counts that the flags stand for.
record IsCounted (h : Held) : Type 0 where
  created : h.created ≡ (if h.thread.started then 1 else 0)
  released : h.released ≡ (if h.thread.joined then 1 else 0)
  started : h.thread.joined ≡ true → h.thread.started ≡ true

call_thread-IsCounted :
    (call : ThreadCall) (h h' : Held) → call_thread call h ≡ some h' → IsCounted h → IsCounted h'
unfolding call_thread start_held join_held begin join
call_thread-IsCounted (call_start made) h h' e k = record {
  created = ground (arith, e, k.created, k.started);
  released = ground (arith, e, k.released, k.started);
  started = ground (arith, e, k.started);
}
call_thread-IsCounted (call_join answer) h h' e k = record {
  created = ground (arith, e, k.created, k.started);
  released = ground (arith, e, k.released, k.started);
  started = ground (arith, e, k.started);
}

use_thread-failed :
    (call : ThreadCall) (calls : List ThreadCall) (h : Held)
    → call_thread call h ≡ none
    → use_thread (call ∷ calls) h ≡ none
unfolding use_thread
use_thread-failed call calls h e = ground (arith, e)

use_thread-IsCounted :
    (calls : List ThreadCall) (h h' : Held)
    → use_thread calls h ≡ some h'
    → IsCounted h
    → IsCounted h'
unfolding use_thread
use_thread-IsCounted [] h h' e k = subst IsCounted (some-injective h h' e) k
use_thread-IsCounted (call ∷ calls) h h' e k = elim (Option-cases (call_thread call h)) [
  | inl failed ↦ absurd (none-ne-some h' (sym (use_thread-failed call calls h failed) ∙ e))
  | inr (h₁, one) ↦
      use_thread-IsCounted calls h₁ h' (ground (arith, e, one))
        (call_thread-IsCounted call h h₁ one k)
]

-- However start and join are called on a Thread, as long as their assertions hold, once it is destroyed
-- each thread that pthread_create made for it has been joined or detached, exactly once; and there is
-- one at most.
pub destroy-released :
    (calls : List ThreadCall) (h : Held)
    → use_thread calls new_held ≡ some h
    → ((destroy h).released ≡ (destroy h).created) × ((destroy h).created ≤ 1)
unfolding destroy
destroy-released calls h e =
    let k =
      use_thread-IsCounted calls new_held h e
        (record { created = refl; released = refl; started = λ e. e }) in
    (ground (arith, k.created, k.released, k.started), ground (arith, k.created))
