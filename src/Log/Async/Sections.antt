-- ===== src/Log/Async/Sections.antt =====
-- AsyncLogging (base/AsyncLogging.cpp): the owners of the buffers behind the critical section of the
-- back-end thread and behind its writing.
use jinyi.Log.Async.{
  System, is_none, collect_from, collect, refilled, refill_second, texts, dropped_to_two, write_out,
}
use jinyi.Log.Async.Refill.{Refilled, refill-Refilled, length-dropped, count-dropped}
use jinyi.Log.Async.Safe.{hit, hits, count, missing, local, Owned, IsSafe, count-append}
use jinyi.Prelude.{
  ℕ, ◌+◌, ◌≤◌, ◌≡◌, refl, ap, ◌∙◌, Option, none, some, List, [], ◌∷◌, ◌++◌, ◌⊎◌, arith, length,
  length-append, if◌then◌else◌, Option-cases, inl, inr,
}

abbrev pub SafeAfter : Option System → Type 0
SafeAfter r = (s' : System) × (r ≡ some s') × IsSafe s'

-- `nextBuffer_` and the thread's second buffer behind the critical section.
abbrev next_after : Option ℕ → Option ℕ → Option ℕ
next_after n m = if is_none n then m else n

abbrev second_after : Option ℕ → Option ℕ → Option ℕ
second_after n m = if is_none n then none else m

hits-after :
    (i : ℕ) (n m : Option ℕ)
    → hits i (next_after n m) + hits i (second_after n m) ≡ hits i n + hits i m
hits-after i none m = omega arith
hits-after i (some q) m = omega arith

missing-after :
    (n m : Option ℕ)
    → (missing (next_after n m) ≤ missing m) × (missing (second_after n m) ≤ missing n + missing m)
missing-after none m = (omega arith, omega arith)
missing-after (some q) m = (omega arith, omega arith)

count-none : (i : ℕ) (ps : List ℕ) → length ps ≤ 0 → count i ps ≡ 0
count-none i [] h = refl
count-none i (p ∷ ps) h = absurd (omega arith)

collect_from-IsSafe :
    (s : System) (p : ℕ)
    → s.logging.current_buffer ≡ some p
    → Owned (λ i. local i s) (λ i. hits i s.new_buffer1 + hits i s.new_buffer2) s.logging
    → missing s.new_buffer1 + missing s.new_buffer2 ≤ 0
    → length s.buffers_to_write ≤ 0
    → IsSafe (collect_from s p)
collect_from-IsSafe s p e o news none_left =
    let n = s.logging.next_buffer in
    let m = s.new_buffer2 in
    let size = length-append s.logging.buffers (p ∷ []) in
    record {
      owned = record {
        once = λ i. omega (
          arith,
          o.once i,
          ap (hits i) e,
          hits-after i n m,
          count-append i s.logging.buffers (p ∷ []),
        );
        unused = λ i h. omega (
          arith,
          o.unused i h,
          ap (hits i) e,
          hits-after i n m,
          count-append i s.logging.buffers (p ∷ []),
        );
        queue = λ i h.
            o.queue i
              (omega (arith, h, hits-after i n m, count-none i s.buffers_to_write none_left));
        sizes = o.sizes;
        present = omega arith;
        behind = omega (arith, (missing-after n m).0);
      };
      ready = (omega (arith, size, (missing-after n m).1, o.behind), omega (arith, size));
    }

pub collect-Safe :
    (s : System)
    → Owned (λ i. local i s) (λ i. hits i s.new_buffer1 + hits i s.new_buffer2) s.logging
    → missing s.new_buffer1 + missing s.new_buffer2 ≤ 0
    → length s.buffers_to_write ≤ 0
    → SafeAfter (collect s)
unfolding collect
collect-Safe s o news none_left = elim (Option-cases s.logging.current_buffer) [
  | inl n ↦ absurd (omega (arith, o.present, ap missing n))
  | inr (p, e) ↦ (collect_from s p, rw e refl, collect_from-IsSafe s p e o news none_left)
]

one_of : (a b c : ℕ) → 1 ≤ a + (b + c) → (1 ≤ a) ⊎ ((1 ≤ b) ⊎ (1 ≤ c))
one_of a b c h = ground arith

refilled-IsSafe :
    (s : System) (qs : List ℕ)
    → Owned (λ i. local i s) (λ i. hits i s.new_buffer1 + hits i s.new_buffer2) s.logging
    → ((i : ℕ) → count i qs ≤ count i s.buffers_to_write)
    → (r1 : Refilled s.new_buffer1 qs s.logging.heap)
    → (r2 : Refilled s.new_buffer2 r1.left r1.heap')
    → IsSafe (refilled s (r2.p, r2.left, r2.heap') r1.p)
refilled-IsSafe s qs o fewer r1 r2 = record {
  owned = record {
    once = λ i. omega (arith, o.once i, fewer i, r1.same i, r2.same i);
    unused = λ i h. omega (arith, o.unused i h, fewer i, r1.same i, r2.same i);
    queue = λ i h.
        elim (one_of (count i s.logging.buffers + hits i s.logging.next_buffer) (hit i r1.p)
          (hit i r2.p) (omega (arith, h))) [
            | inl queued ↦ r2.kept i (r1.kept i (o.queue i (omega arith)))
            | inr (inl first) ↦ r2.kept i (r1.emptied i first (λ old. o.queue i (omega arith)))
            | inr (inr second) ↦ r2.emptied i second (λ old. r1.kept i (o.queue i (omega arith)))
          ];
    sizes = λ i. r2.size i ∙ r1.size i ∙ o.sizes i;
    present = o.present;
    behind = o.behind;
  };
  ready = (omega arith, omega arith);
}

missing_bound : (new : Option ℕ) → missing new ≤ 1
missing_bound none = omega arith
missing_bound (some p) = omega arith

still_enough :
    (new1 new2 : Option ℕ) (bound : ℕ) (ps : List ℕ)
    → 2 ≤ bound
    → missing new1 + missing new2 ≤ length ps
    → missing new1 + missing new2 ≤ length (dropped_to_two bound ps)
still_enough new1 new2 bound ps two h = elim (length-dropped bound ps two) [
  | inl e ↦ omega arith
  | inr e ↦ omega (arith, missing_bound new1, missing_bound new2)
]

pub write_out-Safe :
    (s : System)
    → Owned (λ i. local i s) (λ i. hits i s.new_buffer1 + hits i s.new_buffer2) s.logging
    → missing s.new_buffer1 + missing s.new_buffer2 ≤ length s.buffers_to_write
    → SafeAfter (write_out s)
unfolding write_out
write_out-Safe s o enough =
    let tw = s.buffers_to_write in
    let ps = dropped_to_two 25 tw in
    let qs = dropped_to_two 2 ps in
    let still = still_enough s.new_buffer1 s.new_buffer2 25 tw (omega arith) enough in
    let again = still_enough s.new_buffer1 s.new_buffer2 2 ps (omega arith) still in
    let r1 = refill-Refilled s.new_buffer1 qs s.logging.heap (omega (arith, again)) in
    let r2 = refill-Refilled s.new_buffer2 r1.left r1.heap' (omega (arith, again, r1.shorter)) in
    let written = record s { output = s.output ++ texts s.logging.heap ps } in
    (
      refilled written (r2.p, r2.left, r2.heap') r1.p,
      rw (write_out, r1.returns, refill_second, r2.returns) refl,
      refilled-IsSafe written qs o (λ i. omega (arith, count-dropped i 2 ps, count-dropped i 25 tw))
          r1 r2,
    )
