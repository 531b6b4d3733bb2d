-- ===== src/Common/Floats.antt =====
-- `f64` as its IEEE 754 bit pattern, with the tests that the code makes of one.
use Prim.Native.Nat.{ℕ, ◌%◌}
use mathlib.Core.Bool.{Bool, not, ◌&&◌, ◌||◌}
use flutterdec.Common.Tests.{leb, ltb, nat_eq, if◌then◌else◌}

abbrev pub is_negative : ℕ → Bool
is_negative x = leb 0x8000000000000000 x

abbrev pub magnitude : ℕ → ℕ
magnitude x = x % 0x8000000000000000

-- Past the largest finite magnitude lie infinity and, above it, the NaNs.
abbrev pub infinity : ℕ
infinity = 0x7ff0000000000000

abbrev pub is_nan : ℕ → Bool
is_nan x = ltb infinity (magnitude x)

abbrev pub is_finite : ℕ → Bool
is_finite x = ltb (magnitude x) infinity

-- `x <= y`, false if either is a NaN; the two zeros are equal.
abbrev pub f64_le : ℕ → ℕ → Bool
f64_le x y =
    not (is_nan x)
    && not (is_nan y)
    && (if is_negative x
        then (not (is_negative y) || leb (magnitude y) (magnitude x))
        else if is_negative y
        then (nat_eq (magnitude x) 0 && nat_eq (magnitude y) 0)
        else leb (magnitude x) (magnitude y))

abbrev pub f64_zero : ℕ
f64_zero = 0

abbrev pub f64_one : ℕ
f64_one = 0x3ff0000000000000
