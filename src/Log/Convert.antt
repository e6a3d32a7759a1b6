-- ===== src/Log/Convert.antt =====
-- The template `convert` of base/LogStream.cpp: a number to its decimal text, for a signed type with
-- C++'s division, which rounds towards zero and gives negative remainders.
use mathlib.Core.List.{reverse, reverse-append}
use jinyi.Prelude.Decimal.{digits_back, to_string, IsNumeral, to_string-IsNumeral, length-to_string}
use jinyi.Prelude.Int.{ℤ, pos, negsuc}
use jinyi.Prelude.{
  ℕ, zero, suc, ◌+◌, ◌-◌, ◌/◌, ◌%◌, ◌^◌, ◌<◌, ◌≤◌, ◌≡◌, refl, ap, ◌∙◌, Bool, false, Option, none,
  some, [], ◌∷◌, ◌++◌, arith, Bytes, codes, length, get_elem?, ◌==◌, if◌then◌else◌, append-nil,
}

abbrev pub digits : Bytes
digits = codes "9876543210123456789"

-- A read outside the table would be `none`; it does not happen (`digit-pos`, `digit-negsuc`).
abbrev pub byte_at : Option ℕ → ℕ
byte_at none = 0
byte_at (some c) = c

abbrev pub negate : ℕ → ℤ
negate zero = pos 0
negate (suc n) = negsuc n

-- `zero[i % 10]`, where `zero` is `digits + 9`.
unfoldable pub digit_at : ℤ → ℕ
digit_at (pos n) = byte_at (get_elem? digits (9 + n % 10))
digit_at (negsuc n) = byte_at (get_elem? digits (9 - (n + 1) % 10))

-- `i /= 10`
abbrev pub quotient : ℤ → ℤ
quotient (pos n) = pos (n / 10)
quotient (negsuc n) = negate ((n + 1) / 10)

abbrev pub is_zero : ℤ → Bool
is_zero (pos n) = n == 0
is_zero (negsuc n) = false

-- The bytes in the order in which the loop writes them.
unfoldable pub convert_loop : ℕ → ℤ → Bytes
convert_loop zero i = []
convert_loop (suc fuel) i =
    let rest = convert_loop fuel (quotient i) in
    digit_at i ∷ (if is_zero (quotient i) then [] else rest)

-- More rounds than the loop has digits to write.
abbrev pub fuel_for : ℤ → ℕ
fuel_for (pos n) = suc n
fuel_for (negsuc n) = suc (suc n)

abbrev pub sign_of : ℤ → Bytes
sign_of (pos n) = []
sign_of (negsuc n) = b'-' ∷ []

unfoldable pub convert : ℤ → Bytes
unfolding convert_loop digit_at
convert value = reverse (convert_loop (fuel_for value) value ++ sign_of value)

-- The table reads the same from its middle in both directions.
abbrev Mirrored : ℕ → Type 0
Mirrored d =
    (byte_at (get_elem? digits (9 + d)) ≡ b'0' + d)
    × (byte_at (get_elem? digits (9 - d)) ≡ b'0' + d)

digits-Mirrored : (d : ℕ) → d < 10 → Mirrored d
digits-Mirrored zero h = (refl, refl)
digits-Mirrored (suc zero) h = (refl, refl)
digits-Mirrored (suc (suc zero)) h = (refl, refl)
digits-Mirrored (suc (suc (suc zero))) h = (refl, refl)
digits-Mirrored (suc (suc (suc (suc zero)))) h = (refl, refl)
digits-Mirrored (suc (suc (suc (suc (suc zero))))) h = (refl, refl)
digits-Mirrored (suc (suc (suc (suc (suc (suc zero)))))) h = (refl, refl)
digits-Mirrored (suc (suc (suc (suc (suc (suc (suc zero))))))) h = (refl, refl)
digits-Mirrored (suc (suc (suc (suc (suc (suc (suc (suc zero)))))))) h = (refl, refl)
digits-Mirrored (suc (suc (suc (suc (suc (suc (suc (suc (suc zero))))))))) h = (refl, refl)
digits-Mirrored (suc (suc (suc (suc (suc (suc (suc (suc (suc (suc d)))))))))) h =
    absurd (omega arith)

digit-pos : (n : ℕ) → digit_at (pos n) ≡ b'0' + n % 10
unfolding digit_at
digit-pos n = (digits-Mirrored (n % 10) (omega arith)).0

digit-negsuc : (n : ℕ) → digit_at (negsuc n) ≡ b'0' + (n + 1) % 10
unfolding digit_at
digit-negsuc n = (digits-Mirrored ((n + 1) % 10) (omega arith)).1

loop-pos : (fuel n : ℕ) → convert_loop fuel (pos n) ≡ digits_back fuel n
unfolding convert_loop digits_back
loop-pos zero n = refl
loop-pos (suc fuel) n = rw (digit-pos n, loop-pos fuel (n / 10)) refl

rest-negate :
    (fuel q : ℕ)
    → ((m : ℕ) → convert_loop fuel (negsuc m) ≡ digits_back fuel (suc m))
    → (if is_zero (negate q) then [] else convert_loop fuel (negate q))
      ≡ (if q == 0 then [] else digits_back fuel q)
rest-negate fuel zero ih = refl
rest-negate fuel (suc q) ih = ground (arith, ih q)

loop-negsuc : (fuel n : ℕ) → convert_loop fuel (negsuc n) ≡ digits_back fuel (suc n)
unfolding convert_loop digits_back
loop-negsuc zero n = refl
loop-negsuc (suc fuel) n =
    let e : n + 1 ≡ suc n = omega arith in
    rw (digit-negsuc n, e)
      (ap (◌∷◌ (b'0' + suc n % 10)) (rest-negate fuel (suc n / 10) (loop-negsuc fuel)))

convert-pos : (n : ℕ) → convert (pos n) ≡ to_string n
unfolding convert to_string
convert-pos n = rw append-nil (ap reverse (loop-pos (suc n) n))

convert-negsuc : (n : ℕ) → convert (negsuc n) ≡ b'-' ∷ to_string (suc n)
unfolding convert to_string
convert-negsuc n =
    reverse-append (convert_loop (suc (suc n)) (negsuc n)) (b'-' ∷ [])
    ∙ ap (λ t. b'-' ∷ reverse t) (loop-negsuc (suc (suc n)) n)

-- `convert` writes the decimal numeral: of a value that is not negative the numeral alone, which is
-- digits only, has one at least and no leading zero, and spells the value; of -(n + 1) a '-' and the
-- numeral of n + 1.
pub convert_lem :
    (n : ℕ)
    → IsNumeral n (convert (pos n))
      × (numeral : Bytes) × (convert (negsuc n) ≡ b'-' ∷ numeral)
      × IsNumeral (suc n) numeral
convert_lem n = (
  rw (convert-pos n) (to_string-IsNumeral n),
  to_string (suc n),
  convert-negsuc n,
  to_string-IsNumeral (suc n),
)

-- The integer types that are written: 64 bits at most, with a sign or without.
abbrev pub Is64 : ℤ → Type 0
Is64 (pos n) = n < 2 ^ 64
Is64 (negsuc n) = n < 2 ^ 63

-- A 64-bit value takes at most 20 bytes.
pub length-convert : (v : ℤ) → Is64 v → length (convert v) ≤ 20
length-convert (pos n) h = rw (convert-pos n) (length-to_string n 19 (omega arith))
length-convert (negsuc n) h =
    rw (convert-negsuc n) (omega (arith, length-to_string (suc n) 18 (omega arith)))
