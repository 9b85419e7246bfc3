-- ===== src/PowerPc/Common/Setup.antt =====
-- `op_powerpc_setup` of powerpc/common.c on all CPUs, for the POWER4.
use rrprofile.Prelude.{
  ℕ, zero, suc, ◌+◌, ◌%◌, ◌<◌, ◌≡◌, ◌≢◌, ◌⊎◌, refl, ap, ◌∙◌, arith, List, [], ◌∷◌, Bool, get_or,
  length, uint_mod, inl, inr,
}
use Prim.Native.Nat.{bit_or, max}
use rrprofile.Bits.{bit, bit-bit_or}
use rrprofile.Bits.Shift.{bit-mod}
use rrprofile.CpuBuffer.{OprofileCpuBuffer}
use rrprofile.PowerPc.{PpcCpu, PpcShared, PpcMasks}
use rrprofile.PowerPc.Words.{no_field}
use rrprofile.PowerPc.Power4.Encode.{mmcr1_fields, mmcr1_lem}
use rrprofile.PowerPc.Power4.{power4_reg_setup}
use rrprofile.PowerPc.Power4.Run.{PpcKernel, power4_cpu_setup}
use rrprofile.PowerPc.Common.{Ppc, on_each_cpu, op_powerpc_setup, op_model_power4}

-- What the function does to a CPU from any shared state holds of every CPU afterwards, when it leaves
-- the shared state alone.
each-lem :
    (f : PpcShared → PpcCpu → PpcCpu) (P : PpcCpu → Type 0) (g : PpcShared) (cs : List PpcCpu)
    (i : ℕ) (d : PpcCpu)
    → ((c : PpcCpu) → P (f g c))
    → i < length cs
    → P (get_or (on_each_cpu (λ (g, c). (g, f g c)) g cs).1 i d)
each-lem f P g [] i d h lt = absurd (omega arith)
each-lem f P g (c ∷ cs) zero d h lt = h c
each-lem f P g (c ∷ cs) (suc i) d h lt = each-lem f P g cs i d h (omega arith)

-- Whether bit `k` is one of those that `power4_cpu_setup` has to set: `FC`, `FCM1`, `PMXE`, `FCECE`, `PMC1CE` or `PMCjCE`.
abbrev pub setup_bit : PpcMasks → ℕ → ℕ
setup_bit b k =
    max (max (bit k b.fc) (max (max (bit k b.fcm1) (bit k b.pmxe)) (bit k b.fcece)))
      (max (bit k b.pmc1ce) (bit k b.pmcjce))

-- What `power4_cpu_setup` leaves on a CPU: the value of `MMCR1`, and `MMCR0` with these bits added.
record IsProgrammed (b : PpcMasks) (g : PpcShared) (c : PpcCpu) : Type 0 where
  value : c.mmcr1 ≡ g.mmcr1_val
  bits : (k : ℕ) → k < 32 → bit k c.mmcr0 ≡ max (bit k g.mmcr0_val) (setup_bit b k)

max-four : (m a x y : ℕ) → max (max (max m a) x) y ≡ max m (max (max a x) y)
max-four m a x y = omega arith

cpu_setup-IsProgrammed :
    (b : PpcMasks) (must : Bool) (g : PpcShared) (c : PpcCpu)
    → IsProgrammed b g (power4_cpu_setup b must g c)
unfolding power4_cpu_setup
cpu_setup-IsProgrammed b must g c = record {
  value = refl;
  bits = λ k lt.
      let word = g.mmcr0_val % uint_mod in
      let frozen = bit_or word b.fc in
      let rest = bit_or (bit_or b.fcm1 b.pmxe) b.fcece in
      let last = bit_or b.pmc1ce b.pmcjce in
      bit-bit_or k (bit_or frozen rest) last
      ∙ (λ t. max (bit-bit_or k frozen rest t) (bit-bit_or k b.pmc1ce b.pmcjce t))
      ∙ (λ t.
          max (max (bit-bit_or k word b.fc t) (bit-bit_or k (bit_or b.fcm1 b.pmxe) b.fcece t))
            (max (bit k b.pmc1ce) (bit k b.pmcjce)))
      ∙ (λ t.
          max
            (max (max (bit-mod 32 k g.mmcr0_val lt t) (bit k b.fc))
              (max (bit-bit_or k b.fcm1 b.pmxe t) (bit k b.fcece)))
            (max (bit k b.pmc1ce) (bit k b.pmcjce)))
      ∙ max-four (bit k g.mmcr0_val) _ _ _;
}

-- For the POWER4 with its eight counters, `op_powerpc_setup` either finds the hardware taken, returns the
-- error and changes nothing, or returns 0, and then every CPU is programmed as the counters are
-- configured: each field of its `MMCR1` holds what the table asks for, and each of the 32 bits of its
-- `MMCR0` is set exactly when it is set in the configured `mmcr0_val` or is one of `FC`, `FCM1`,
-- `PMXE`, `FCECE`, `PMC1CE` and `PMCjCE`.
pub power4_setup_lem :
    (b : PpcMasks) (add_ext_sample : (pc i is_kernel : ℕ) → OprofileCpuBuffer → OprofileCpuBuffer)
    (must : Bool) (kernel : PpcKernel) (old : Ppc) (reserved n i j k : ℕ) (d : PpcCpu)
    → let s = record old { model = op_model_power4 b add_ext_sample 8 must kernel } in
      let f = get_or (mmcr1_fields s.ctr) i no_field in
      n < length s.cpus
      → i < 22
      → j < f.width
      → k < 32
      → let r = op_powerpc_setup reserved s in
        let c = get_or r.0.cpus n d in
        (reserved ≢ 0) × (r ≡ (s, reserved))
        ⊎ (reserved ≡ 0)
          × (r.1 ≡ 0)
          × (bit (f.first + j) c.mmcr1 ≡ bit j f.holds)
          × (bit k c.mmcr0
              ≡ max (bit k (power4_reg_setup b 8 s.ctr s.sys s.shared).mmcr0_val) (setup_bit b k))
unfolding op_powerpc_setup op_model_power4
power4_setup_lem b add must kernel s zero n i j k d lt hi hj hk =
    let g = power4_reg_setup b 8 s.ctr s.sys s.shared in
    let done =
      each-lem (power4_cpu_setup b must) (IsProgrammed b g) g s.cpus n d
        (cpu_setup-IsProgrammed b must g) lt in
    let field = mmcr1_lem s.ctr b s.sys s.shared i j hi hj in
    let f = get_or (mmcr1_fields s.ctr) i no_field in
    inr (refl, refl, ap (bit (f.first + j)) done.value ∙ field, done.bits k hk)
power4_setup_lem b add must kernel s (suc r) n i j k d lt hi hj hk = inl (omega arith, ground arith)
