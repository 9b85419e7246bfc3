-- ===== src/PowerPc/Common/TimeBase.antt =====
-- `oprofile_get_tb` of powerpc/common.c, which reads the 64 bits of the time base in two halves.
use rrprofile.Prelude.{
  ℕ, zero, suc, ◌+◌, ◌*◌, ◌/◌, ◌%◌, ◌<◌, ◌≤◌, ◌≡◌, arith, ◌==◌, if◌then◌else◌, Option, none, some,
  uint_mod, ulong_mod, subst, Bool-cases, inl, inr,
}

-- `time n` is the time base at the instant of the driver's read number `n`, and the next read is number
-- `n`; `mftbu` gives its upper half and `mftb` its lower half. With the result stands the number of the
-- first read after the call.
module _ (time : ℕ → ℕ) where
  unfoldable pub oprofile_get_tb : (fuel n : ℕ) → Option (ℕ × ℕ)
  oprofile_get_tb zero n = none
  oprofile_get_tb (suc fuel) n =
      let hi = time n / uint_mod in
      let lo = time (n + 1) % uint_mod in
      let hic = time (n + 2) / uint_mod in
      let again = oprofile_get_tb fuel (n + 3) in
      if hic == hi then some (hi * uint_mod + lo, n + 3) else again

  -- For a time base of 64 bits that never goes back, and as many rounds as its upper half has values
  -- left, `oprofile_get_tb` ends, and the number that it returns is the time base at the instant of one
  -- of the reads of the call, from its first to its last.
  pub oprofile_get_tb_lem :
      (fuel n : ℕ)
      → ((m : ℕ) → time m ≤ time (m + 1))
      → ((m : ℕ) → time m < ulong_mod)
      → uint_mod ≤ fuel + time n / uint_mod
      → (m : ℕ) × (last : ℕ) × (n ≤ m) × (m < last) × (oprofile_get_tb fuel n ≡ some (time m, last))
  unfolding oprofile_get_tb
  oprofile_get_tb_lem zero n grows small enough = absurd (omega (arith, small n))
  oprofile_get_tb_lem (suc fuel) n grows small enough =
      let first = grows n in
      let p : n + 1 + 1 ≡ n + 2 = omega arith in
      let q : n + 2 + 1 ≡ n + 3 = omega arith in
      let second : time (n + 1) ≤ time (n + 2) =
        subst (λ (k : ℕ). time (n + 1) ≤ time k) p (grows (n + 1)) in
      let third : time (n + 2) ≤ time (n + 3) =
        subst (λ (k : ℕ). time (n + 2) ≤ time k) q (grows (n + 2)) in
      elim (Bool-cases (time (n + 2) / uint_mod == time n / uint_mod)) [
        | inl e ↦ (n + 1, n + 3, omega arith, omega arith, ground (arith, e, first, second))
        | inr e ↦
            let more : uint_mod ≤ fuel + time (n + 3) / uint_mod =
              ground (arith, e, first, second, third) in
            let (m, last, le, lt, done) = oprofile_get_tb_lem fuel (n + 3) grows small more in
            (m, last, omega (arith, le), lt, ground (arith, e, done))
      ]
