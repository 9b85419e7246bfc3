-- ===== src/Prelude/Words.antt =====
-- Machine integers of an LP64 kernel as native numbers: `unsigned long` and `size_t` are numbers
-- below 2 ^ 64, an `int` is its bit pattern below 2 ^ 32.
use Prim.Native.Nat.{ℕ, ◌+◌, ◌-◌, ◌%◌, ◌^◌}

abbrev pub ulong_mod : ℕ
ulong_mod = 2 ^ 64

abbrev pub uint_mod : ℕ
uint_mod = 2 ^ 32

-- `unsigned long` addition and subtraction wrap; `-` on ℕ stops at 0, so the modulus comes first.
abbrev pub add_ulong : ℕ → ℕ → ℕ
add_ulong a b = (a + b) % ulong_mod

abbrev pub sub_ulong : ℕ → ℕ → ℕ
sub_ulong a b = (a + ulong_mod - b) % ulong_mod

-- `int`, `unsigned int` and `atomic_t` addition wrap at 2 ^ 32.
abbrev pub add_int : ℕ → ℕ → ℕ
add_int a b = (a + b) % uint_mod

-- the `int` -1
abbrev pub minus_one : ℕ
minus_one = 2 ^ 32 - 1
