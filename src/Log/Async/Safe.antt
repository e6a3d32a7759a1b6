-- ===== src/Log/Async/Safe.antt =====
-- AsyncLogging (base/AsyncLogging.cpp): the owners of the buffers.
use jinyi.Log.Async.{
  AsyncLogging, new_buffer, set_at, append_at, append_next, append, Phase, collected, System, back,
  pop_back,
}
use jinyi.Log.Stream.{avail, large_buffer, reset}
use jinyi.Log.Stream.{append as append_text}
use jinyi.Prelude.{
  ℕ, zero, suc, ◌+◌, ◌≤◌, ◌≡◌, refl, Option, none, some, List, [], ◌∷◌, ◌++◌, arith, Bytes, length,
  length-append, take, ltb, ◌==◌, if◌then◌else◌, Option-cases, Bool-cases, inl, inr, ap,
}

abbrev pub hit : ℕ → ℕ → ℕ
hit i p = if i == p then 1 else 0

abbrev pub hits : ℕ → Option ℕ → ℕ
hits i none = 0
hits i (some p) = hit i p

abbrev pub count : ℕ → List ℕ → ℕ
count i [] = 0
count i (p ∷ ps) = hit i p + count i ps

-- How often the buffer at `i` is referred to: by the members, and by the thread's variables.
abbrev pub shared : ℕ → AsyncLogging → ℕ
shared i a = hits i a.current_buffer + hits i a.next_buffer + count i a.buffers

abbrev pub local : ℕ → System → ℕ
local i s = hits i s.new_buffer1 + hits i s.new_buffer2 + count i s.buffers_to_write

abbrev pub missing : Option ℕ → ℕ
missing none = 1
missing (some p) = 0

-- What the phase promises of the thread's variables.
abbrev pub Ready : Phase → Option ℕ → Option ℕ → List ℕ → Type 0
Ready collected new1 new2 ps = (missing new1 + missing new2 ≤ length ps) × 1 ≤ length ps
Ready _ new1 new2 ps = (missing new1 + missing new2 ≤ 0) × length ps ≤ 0

-- What the members and the rest of a system share: each buffer has one owner at most, those not yet
-- made have none, and the next buffer, a queued one and one that waits in the thread are empty.
pub record Owned (rest : ℕ → ℕ) (blank : ℕ → ℕ) (a : AsyncLogging) : Type 0 where
  pub once : (i : ℕ) → shared i a + rest i ≤ 1
  pub unused : (i : ℕ) → a.fresh ≤ i → shared i a + rest i ≤ 0
  pub queue :
      (i : ℕ)
      → 1 ≤ count i a.buffers + (hits i a.next_buffer + blank i)
      → length (a.heap i).text ≤ 0
  pub sizes : (i : ℕ) → (a.heap i).size ≡ large_buffer
  pub present : missing a.current_buffer ≤ 0
  pub behind : missing a.next_buffer ≤ length a.buffers

pub record IsSafe (s : System) : Type 0 where
  pub owned : Owned (λ i. local i s) (λ i. hits i s.new_buffer1 + hits i s.new_buffer2) s.logging
  pub ready : Ready s.phase s.new_buffer1 s.new_buffer2 s.buffers_to_write

pub count-append : (i : ℕ) (ps qs : List ℕ) → count i (ps ++ qs) ≡ count i ps + count i qs
count-append i [] qs = omega arith
count-append i (p ∷ ps) qs = omega (arith, count-append i ps qs)

pub count-back :
    (i p : ℕ) (ps : List ℕ) → hit i p + count i ps ≡ count i (pop_back p ps) + hit i (back p ps)
count-back i p [] = omega arith
count-back i p (q ∷ qs) = omega (arith, count-back i q qs)

pub count-take : (i n : ℕ) (ps : List ℕ) → count i (take n ps) ≤ count i ps
count-take i zero ps = omega arith
count-take i (suc n) [] = omega arith
count-take i (suc n) (p ∷ ps) = omega (arith, count-take i n ps)

-- A write to a buffer in use leaves the queued and the waiting ones alone.
append_at-Owned :
    {rest blank : ℕ → ℕ} (a : AsyncLogging) (p : ℕ) (line : Bytes)
    → ((i : ℕ) → blank i ≤ rest i)
    → a.current_buffer ≡ some p
    → Owned rest blank a
    → Owned rest blank (append_at a p line)
unfolding append_text
append_at-Owned a p line sub e o = record {
  once = o.once;
  unused = o.unused;
  queue = λ i h. ground (arith, o.once i, o.queue i h, sub i, e);
  sizes = λ i. ground (arith, o.sizes i);
  present = o.present;
  behind = o.behind;
}

-- The members when the full buffer at `p` has been queued and another one taken.
abbrev taken : AsyncLogging → ℕ → Option ℕ → AsyncLogging
taken a p (some q) = record a {
  buffers = a.buffers ++ p ∷ [];
  heap = set_at a.heap p (reset (a.heap p));
  current_buffer = some q;
  next_buffer = none;
}
taken a p none = record a {
  buffers = a.buffers ++ p ∷ [];
  heap = set_at (set_at a.heap p (reset (a.heap p))) a.fresh new_buffer;
  fresh = a.fresh + 1;
  current_buffer = some a.fresh;
}

taken-Owned :
    {rest blank : ℕ → ℕ} (a : AsyncLogging) (p : ℕ) (next : Option ℕ)
    → ((i : ℕ) → blank i ≤ rest i)
    → a.current_buffer ≡ some p
    → a.next_buffer ≡ next
    → Owned rest blank a
    → Owned rest blank (taken a p next)
unfolding reset
taken-Owned a p (some q) sub e n o = record {
  once = λ i. ground (arith, o.once i, count-append i a.buffers (p ∷ []), e, n);
  unused = λ i h. ground (arith, o.unused i h, count-append i a.buffers (p ∷ []), e, n);
  queue = λ i h. ground (arith, o.once i, o.queue i, count-append i a.buffers (p ∷ []), e, n);
  sizes = λ i. ground (arith, o.sizes i);
  present = omega arith;
  behind = omega (arith, length-append a.buffers (p ∷ []));
}
taken-Owned a p none sub e n o = record {
  once = λ i. ground (arith, o.once i, o.unused i, count-append i a.buffers (p ∷ []), e, n);
  unused = λ i h. ground (arith, o.unused i, count-append i a.buffers (p ∷ []), e, n);
  queue = λ i h. ground (arith, o.once i, o.queue i, count-append i a.buffers (p ∷ []), e, n);
  sizes = λ i. ground (arith, o.sizes i);
  present = omega arith;
  behind = omega (arith, length-append a.buffers (p ∷ []), ap missing n);
}

append_next-Owned :
    {rest blank : ℕ → ℕ} (a : AsyncLogging) (p : ℕ) (next : Option ℕ) (line : Bytes)
    → ((i : ℕ) → blank i ≤ rest i)
    → a.current_buffer ≡ some p
    → a.next_buffer ≡ next
    → Owned rest blank a
    → Owned rest blank (
        append_next
          (record a { buffers = a.buffers ++ p ∷ []; heap = set_at a.heap p (reset (a.heap p)) })
          next
          line)
append_next-Owned a p none line sub e n o =
    append_at-Owned (taken a p none) a.fresh line sub refl (taken-Owned a p none sub e n o)
append_next-Owned a p (some q) line sub e n o =
    append_at-Owned (taken a p (some q)) q line sub refl (taken-Owned a p (some q) sub e n o)

pub append-Owned :
    {rest blank : ℕ → ℕ} (a : AsyncLogging) (line : Bytes)
    → ((i : ℕ) → blank i ≤ rest i)
    → Owned rest blank a
    → (a' : AsyncLogging) × (append a line ≡ some a') × Owned rest blank a'
unfolding append
append-Owned a line sub o = elim (Option-cases a.current_buffer) [
  | inl n ↦ absurd (omega (arith, o.present, ap missing n))
  | inr (p, e) ↦ elim (Bool-cases (ltb (length line) (avail (a.heap p)))) [
    | inl fits ↦ (_, rw (e, fits) refl, append_at-Owned a p line sub e o)
    | inr full ↦ (_, rw (e, full) refl, append_next-Owned a p a.next_buffer line sub e refl o)
  ]
]
