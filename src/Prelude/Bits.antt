-- ===== src/Prelude/Bits.antt =====
-- Single bits of a flag word. `x & (1 << k)` is read off the quotient by 2 ^ k, and `x |= 1 << k`
-- adds 2 ^ k where that bit is clear: the form that linear arithmetic reads at a numeral k.
use Prim.Native.Nat.{ℕ, ◌+◌, ◌/◌, ◌%◌, ◌^◌}
use mathlib.Core.Bool.{Bool}
use jinyi.Prelude.Tests.{◌==◌, if◌then◌else◌}

abbrev pub has : ℕ → ℕ → Bool
has k x = (x / 2 ^ k) % 2 == 1

abbrev pub set_bit : ℕ → ℕ → ℕ
set_bit k x = if has k x then x else x + 2 ^ k
