-- ===== src/Prelude/Decimal.antt =====
-- Decimal numerals: std::to_string on numbers that are not negative, and reading them back.
use Prim.Native.Nat.{ℕ, zero, suc, ◌+◌, ◌-◌, ◌*◌, ◌/◌, ◌%◌, ◌^◌, ◌<◌, ◌≤◌}
use mathlib.Core.Path.{◌≡◌, refl, ap, ◌∙◌}
use mathlib.Core.Logic.{inl, inr}
use mathlib.Core.List.{List, [], ◌∷◌, ◌++◌, reverse, reverse-cons}
use native.Mathlib.Nat.{pow-succ'}
use native.Mathlib.Omega.{arith}
use jinyi.Prelude.Tests.{◌==◌, if◌then◌else◌, Bool-cases}
use jinyi.Prelude.Lists.{length, length-append, All, All-append}
use jinyi.Prelude.Text.{Bytes, Lacks}

-- The digits from the last to the first, with fuel; more than `n` is enough.
unfoldable pub digits_back : ℕ → ℕ → Bytes
digits_back zero n = []
digits_back (suc fuel) n =
    let rest = digits_back fuel (n / 10) in (b'0' + n % 10) ∷ (if n / 10 == 0 then [] else rest)

unfoldable pub to_string : ℕ → Bytes
unfolding digits_back
to_string n = reverse (digits_back (suc n) n)

-- Reading a numeral from the left.
unfoldable pub read_from : ℕ → Bytes → ℕ
read_from acc [] = acc
read_from acc (c ∷ cs) = read_from (acc * 10 + (c - b'0')) cs

pub read_from-append :
    (acc : ℕ) (xs ys : Bytes) → read_from acc (xs ++ ys) ≡ read_from (read_from acc xs) ys
unfolding read_from
read_from-append acc [] ys = refl
read_from-append acc (x ∷ xs) ys = read_from-append (acc * 10 + (x - b'0')) xs ys

-- Reading back what the digits were made from.
pub read_from-digits_back : (fuel n : ℕ) → n < fuel → read_from 0 (reverse (digits_back fuel n)) ≡ n
unfolding read_from digits_back
read_from-digits_back zero n h = absurd (omega arith)
read_from-digits_back (suc fuel) n h = elim (Bool-cases (n / 10 == 0)) [
  | inl small ↦ rw small (ground arith)
  | inr more ↦ rw more (
      rw (reverse-cons (b'0' + n % 10) (digits_back fuel (n / 10))) (
        rw
          (
            read_from-append 0 (reverse (digits_back fuel (n / 10))) ((b'0' + n % 10) ∷ []),
            read_from-digits_back fuel (n / 10) (ground arith),
          )
          (omega arith)))
]

pub read_from-to_string : (n : ℕ) → read_from 0 (to_string n) ≡ n
unfolding to_string
read_from-to_string n = read_from-digits_back (suc n) n (omega arith)

pub length-reverse {ℓ} : {A : Type ℓ} (xs : List A) → length (reverse xs) ≡ length xs
length-reverse [] = refl
length-reverse (x ∷ xs) =
    ap length (reverse-cons x xs)
    ∙ length-append (reverse xs) (x ∷ [])
    ∙ omega (arith, length-reverse xs)

-- A number below 10 ^ k has at most k digits.
pub length-digits_back : (fuel n k : ℕ) → n < 10 ^ suc k → length (digits_back fuel n) ≤ suc k
unfolding digits_back
length-digits_back zero n k h = omega arith
length-digits_back (suc fuel) n zero h = ground arith
length-digits_back (suc fuel) n (suc k) h = elim (Bool-cases (n / 10 == 0)) [
  | inl small ↦ rw small (omega arith)
  | inr more ↦
      rw more
        (omega (arith, length-digits_back fuel (n / 10) k (omega (arith, pow-succ' 10 (suc k)))))
]

pub length-to_string : (n k : ℕ) → n < 10 ^ suc k → length (to_string n) ≤ suc k
unfolding to_string
length-to_string n k h =
    omega (arith, length-reverse (digits_back (suc n) n), length-digits_back (suc n) n k h)

Lacks-reverse : (c : ℕ) (xs : Bytes) → Lacks c xs → Lacks c (reverse xs)
Lacks-reverse c [] h = tt
Lacks-reverse c (x ∷ xs) h =
    rw (reverse-cons x xs) (All-append _ (reverse xs) (x ∷ []) (h.0, tt) (Lacks-reverse c xs h.1))

digits_back-Lacks : (c fuel n : ℕ) → c < b'0' → Lacks c (digits_back fuel n)
unfolding digits_back
digits_back-Lacks c zero n h = tt
digits_back-Lacks c (suc fuel) n h = elim (Bool-cases (n / 10 == 0)) [
  | inl small ↦ rw small (ground arith, tt)
  | inr more ↦ rw more (ground arith, digits_back-Lacks c fuel (n / 10) h)
]

-- A numeral holds no byte below '0'.
pub to_string-Lacks : (c n : ℕ) → c < b'0' → Lacks c (to_string n)
unfolding to_string
to_string-Lacks c n h = Lacks-reverse c (digits_back (suc n) n) (digits_back-Lacks c (suc n) n h)

-- A byte from '0' to '9'.
abbrev pub IsDigit : ℕ → Type 0
IsDigit c = (b'0' ≤ c) × (c ≤ b'9')

-- The decimal numeral of a number, as a reader knows it: one digit or more and nothing else, no leading
-- zero but in "0", and the value that they spell.
pub record IsNumeral (n : ℕ) (text : Bytes) : Type 0 where
  pub filled : 1 ≤ length text
  pub digits : All IsDigit text
  pub first : (rest : Bytes) → text ≡ b'0' ∷ rest → rest ≡ []
  pub value : read_from 0 text ≡ n

-- The digits from the last to the first are not empty, and the last one of them is '0' only for 0.
digits_back-Digits : (fuel n : ℕ) → All IsDigit (digits_back fuel n)
unfolding digits_back
digits_back-Digits zero n = tt
digits_back-Digits (suc fuel) n = elim (Bool-cases (n / 10 == 0)) [
  | inl small ↦ rw small ((omega arith, omega arith), tt)
  | inr more ↦ rw more ((omega arith, omega arith), digits_back-Digits fuel (n / 10))
]

reverse-Digits : (xs : Bytes) → All IsDigit xs → All IsDigit (reverse xs)
reverse-Digits [] h = tt
reverse-Digits (x ∷ xs) h =
    rw (reverse-cons x xs) (All-append _ (reverse xs) (x ∷ []) (h.0, tt) (reverse-Digits xs h.1))

-- The first digit of a number that is not 0.
reverse-first :
    (fuel n : ℕ)
    → n < fuel
    → 1 ≤ n
    → (c : ℕ) × (rest : Bytes) × (reverse (digits_back fuel n) ≡ c ∷ rest) × (b'0' < c)
unfolding digits_back
reverse-first zero n h k = absurd (omega arith)
reverse-first (suc fuel) n h k = elim (Bool-cases (n / 10 == 0)) [
  | inl small ↦ rw small (b'0' + n % 10, [], refl, ground arith)
  | inr more ↦
      let (c, rest, e, up) = reverse-first fuel (n / 10) (ground arith) (ground arith) in
      rw more (
        c,
        rest ++ (b'0' + n % 10) ∷ [],
        reverse-cons (b'0' + n % 10) (digits_back fuel (n / 10))
            ∙ ap (λ t. t ++ (b'0' + n % 10) ∷ []) e,
        up,
      )
]

to_string-first : (n : ℕ) (rest : Bytes) → to_string n ≡ b'0' ∷ rest → rest ≡ []
unfolding to_string digits_back
to_string-first zero rest h = ground (arith, h)
to_string-first (suc n) rest h =
    let (c, more, e, up) = reverse-first (suc (suc n)) (suc n) (omega arith) (omega arith) in
    ground (arith, e, h, up)

pub to_string-IsNumeral : (n : ℕ) → IsNumeral n (to_string n)
unfolding to_string digits_back
to_string-IsNumeral n = record {
  filled = omega (arith, length-reverse (digits_back (suc n) n));
  digits = reverse-Digits (digits_back (suc n) n) (digits_back-Digits (suc n) n);
  first = to_string-first n;
  value = read_from-to_string n;
}
