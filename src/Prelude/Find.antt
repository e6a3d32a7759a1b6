-- ===== src/Prelude/Find.antt =====
-- Searching a text: where a byte is found, and what lies in front of it.
use Prim.Native.Nat.{ℕ, zero, suc, ◌+◌, ◌<◌}
use mathlib.Core.Path.{◌≡◌, refl, ap, ◌∙◌}
use mathlib.Core.Bool.{Bool, true, false}
use mathlib.Core.Option.{none, some}
use mathlib.Core.List.{[], ◌∷◌, ◌++◌}
use native.Mathlib.Omega.{arith}
use jinyi.Prelude.Tests.{◌==◌, if◌then◌else◌, Option-cases}
use mathlib.Core.Logic.{inl, inr}
use jinyi.Prelude.Lists.{length, drop, drop-add, drop-append}
use jinyi.Prelude.Text.{Bytes, first_index, find_byte, Lacks}

first_index-append :
    (c : ℕ) (xs ys : Bytes) → Lacks c xs → first_index c (xs ++ c ∷ ys) ≡ some (length xs)
unfolding first_index
first_index-append c [] ys h = ground arith
first_index-append c (x ∷ xs) ys h = ground (arith, first_index-append c xs ys)

first_index-Lacks : (c : ℕ) (xs : Bytes) → Lacks c xs → first_index c xs ≡ none
unfolding first_index
first_index-Lacks c [] h = refl
first_index-Lacks c (x ∷ xs) h = ground (arith, first_index-Lacks c xs)

-- The first `c` behind `pre` is found at its place.
pub find_byte-append :
    (c : ℕ) (pre xs ys : Bytes)
    → Lacks c xs
    → find_byte c (length pre) (pre ++ (xs ++ c ∷ ys)) ≡ some (length pre + length xs)
unfolding find_byte
find_byte-append c pre xs ys h =
    rw (drop-append pre (xs ++ c ∷ ys), first_index-append c xs ys h) refl

pub find_byte-zero :
    (c : ℕ) (xs ys : Bytes) → Lacks c xs → find_byte c 0 (xs ++ c ∷ ys) ≡ some (length xs)
find_byte-zero c xs ys h = find_byte-append c [] xs ys h ∙ ap some (omega arith)

pub find_byte-Lacks : (c : ℕ) (xs : Bytes) → Lacks c xs → find_byte c 0 xs ≡ none
unfolding find_byte
find_byte-Lacks c xs h = rw (first_index-Lacks c xs h) refl

first_index-lt : (c : ℕ) (xs : Bytes) {p : ℕ} → first_index c xs ≡ some p → p < length xs
unfolding first_index
first_index-lt c [] h = cc
first_index-lt c (x ∷ xs) {p = zero} h = omega arith
first_index-lt c (x ∷ xs) {p = suc p} h = ground (arith, first_index-lt c xs {p = p})

-- For literals: the test computes.
abbrev pub lacks : ℕ → Bytes → Bool
lacks c [] = true
lacks c (x ∷ xs) = if x == c then false else lacks c xs

pub lacks-Lacks : (c : ℕ) (xs : Bytes) → lacks c xs ≡ true → Lacks c xs
lacks-Lacks c [] h = tt
lacks-Lacks c (x ∷ xs) h = ground (arith, lacks-Lacks c xs)

pub Lacks-append : (c : ℕ) (xs ys : Bytes) → Lacks c xs → Lacks c ys → Lacks c (xs ++ ys)
Lacks-append c [] ys hx hy = hy
Lacks-append c (x ∷ xs) ys hx hy = (hx.0, Lacks-append c xs ys hx.1 hy)

pub Lacks-literal : (c : ℕ) (xs ys : Bytes) → lacks c xs ≡ true → Lacks c ys → Lacks c (xs ++ ys)
Lacks-literal c xs ys h = Lacks-append c xs ys (lacks-Lacks c xs h)

-- find() at the place that it has just given gives the same place.
first_index-drop :
    (c : ℕ) (xs : Bytes) (p : ℕ) → first_index c xs ≡ some p → first_index c (drop p xs) ≡ some 0
unfolding first_index
first_index-drop c [] p h = ground (arith, h)
first_index-drop c (x ∷ xs) zero h = ground (arith, h)
first_index-drop c (x ∷ xs) (suc p) h = ground (arith, h, first_index-drop c xs p)

find_byte_again :
    (c start : ℕ) (xs : Bytes) (p : ℕ) → find_byte c start xs ≡ some p → find_byte c p xs ≡ some p
unfolding find_byte
find_byte_again c start xs p h = elim (Option-cases (first_index c (drop start xs))) [
  | inl gone ↦ ground (arith, gone, h)
  | inr (k, found) ↦
      let at : p ≡ start + k = ground (arith, found, h) in
      let here : first_index c (drop p xs) ≡ some 0 =
        ap (λ q. first_index c (drop q xs)) at
        ∙ ap (first_index c) (drop-add start k xs)
        ∙ first_index-drop c (drop start xs) k found in
      ground (arith, here)
]
