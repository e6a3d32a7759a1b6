-- ===== src/Prelude/Text.antt =====
-- Bytes as a list of numbers, and what the program uses of std::string.
use Prim.Native.Nat.{ℕ, suc, ◌+◌}
use Prim.Native.Char.{code}
use Prim.Native.String.{String}
use mathlib.Core.Path.{◌≡◌}
use mathlib.Core.Logic.{◌↔◌}
use mathlib.Core.Bool.{Bool, true, false, ◌&&◌}
use mathlib.Core.Option
use mathlib.Core.Option.{Option, none, some}
use mathlib.Core.List.{List, [], ◌∷◌}
use native.Mathlib.Omega.{arith}
use jinyi.Prelude.Tests.{◌==◌, if◌then◌else◌}
use jinyi.Prelude.Lists.{drop, All}

abbrev pub Bytes : Type 0
Bytes = List ℕ

-- The code points of a literal: its bytes, if it is ASCII.
abbrev pub codes : String → Bytes
codes String.[] = []
codes (String.◌∷◌ c s) = code c ∷ codes s

unfoldable pub bytes_eq : Bytes → Bytes → Bool
bytes_eq [] [] = true
bytes_eq (x ∷ xs) (y ∷ ys) = x == y && bytes_eq xs ys
bytes_eq _ _ = false

pub bytes_eq_iff : (a b : Bytes) → (bytes_eq a b ≡ true) ↔ (a ≡ b)
unfolding bytes_eq
bytes_eq_iff (x ∷ a) (y ∷ b) = ground (arith, bytes_eq_iff a b)
bytes_eq_iff _ _ = ground arith

unfoldable pub first_index : ℕ → Bytes → Option ℕ
first_index c [] = none
first_index c (x ∷ xs) = if x == c then some 0 else Option.map suc (first_index c xs)

-- `str.find(c, from)`; `none` is `npos`. A start behind the end finds nothing.
unfoldable pub find_byte : ℕ → ℕ → Bytes → Option ℕ
unfolding first_index
find_byte c from s = Option.map (λ k. from + k) (first_index c (drop from s))

unfoldable pub starts_with : Bytes → Bytes → Bool
starts_with [] s = true
starts_with (p ∷ ps) [] = false
starts_with (p ∷ ps) (x ∷ xs) = p == x && starts_with ps xs

-- `str.find(text)` for a text that is not empty.
unfoldable pub find_text : Bytes → Bytes → Option ℕ
unfolding starts_with
find_text p [] = none
find_text p (x ∷ xs) = if starts_with p (x ∷ xs) then some 0 else Option.map suc (find_text p xs)

-- The byte `c` does not occur.
abbrev pub Lacks : ℕ → Bytes → Type 0
Lacks c = All (λ x. (x == c) ≡ false)
