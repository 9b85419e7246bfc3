-- ===== src/PowerPc/Rs64/Interrupt.antt =====
-- `rs64_handle_interrupt` of powerpc/op_model_rs64.c: what an interrupt does to each counter, to the log and
-- to `MMCR0`.
use rrprofile.Prelude.{
  ℕ, ◌-◌, ◌%◌, ◌<◌, ◌≤◌, ◌≡◌, ◌∙◌, arith, Bool, ◌&&◌, not, ◌==◌, if◌then◌else◌, List, get_or,
  length, length-set, get_or-set_self, get_or-set_ne, uint_mod,
}
use Prim.Native.Nat.{min, max}
use rrprofile.Bits.{bit, bit_small, bit-bit_or}
use rrprofile.Bits.Shift.{bit-mod}
use rrprofile.CpuBuffer.{OprofileCpuBuffer}
use rrprofile.PowerPc.{
  PpcCounterConfig, PpcCpu, PpcShared, PpcMasks, no_ppc_config, is_negative, set_pmm,
}
use rrprofile.PowerPc.Words.{bit-clear}
use rrprofile.PowerPc.Rounds.{IsRound, pmc_at, log_counters, rounds-pmc, rounds-ring, rounds-mmcr0}
use rrprofile.PowerPc.Rs64.{handle_ctr, rs64_handle_interrupt}

-- An overflow of an enabled counter is a sample.
abbrev goes_on : PpcShared → List PpcCounterConfig → ℕ → Bool
goes_on g ctr i = not ((get_or ctr i no_ppc_config).enabled == 0)

module _ (add_ext_sample : (pc i is_kernel : ℕ) → OprofileCpuBuffer → OprofileCpuBuffer)
    (g : PpcShared) (ctr : List PpcCounterConfig) where
  abbrev sampled : ℕ → ℕ → Bool
  sampled i v = is_negative (v % uint_mod) && goes_on g ctr i

  -- what the handler leaves in the counter that holds `v`
  abbrev left_in : ℕ → ℕ → ℕ
  left_in i v =
      if is_negative (v % uint_mod)
      then (if goes_on g ctr i then get_or g.reset_value i 0 % uint_mod else 0)
      else v

  abbrev log_counter : (pc is_kernel start i : ℕ) → OprofileCpuBuffer → OprofileCpuBuffer
  log_counter pc is_kernel start i ring = add_ext_sample pc i is_kernel ring

  handle_ctr-IsRound :
      (pc is_kernel : ℕ)
      → IsRound
          (handle_ctr add_ext_sample pc is_kernel g ctr)
          left_in
          sampled
          (log_counter pc is_kernel)
  unfolding handle_ctr
  handle_ctr-IsRound pc is_kernel = record {
    own = λ i c lt. ground (
      arith,
      get_or-set_self c.pmc i 0 0 lt,
      get_or-set_self c.pmc i (get_or g.reset_value i 0 % uint_mod) 0 lt,
    );
    other = λ i j c ne. ground (
      arith,
      get_or-set_ne c.pmc 0 0 ne,
      get_or-set_ne c.pmc (get_or g.reset_value i 0 % uint_mod) 0 ne,
    );
    counters = λ i c.
        ground
          (arith, length-set c.pmc i 0, length-set c.pmc i (get_or g.reset_value i 0 % uint_mod));
    start = λ i c. ground arith;
    ring = λ i c. ground arith;
    mmcr0 = λ i c. ground arith;
  }

  -- For masks that are words and a CPU that has the counters of the model, `rs64_handle_interrupt` logs
  -- one sample for each enabled counter that has overflowed, in the counters' order, and for no other, at
  -- the sampled address; it reloads exactly those counters, empties the others that have overflowed, and
  -- leaves the rest alone; in `MMCR0` it clears the freeze bit, sets the bit that lets the next
  -- interrupt through unless it is that bit, and keeps every other.
  rs64_handle_interrupt_lem :
      (b : PpcMasks) (is_kernel_addr : ℕ → Bool) (i j : ℕ) (c : PpcCpu)
      → b.fc < uint_mod
      → g.num_counters ≤ length c.pmc
      → i < g.num_counters
      → j < 32
      → let r = rs64_handle_interrupt add_ext_sample b is_kernel_addr ctr g c in
        let log = log_counter c.siar (if is_kernel_addr c.siar then 1 else 0) c.start_timestamp in
        (r.ring ≡ log_counters sampled log c g.num_counters 0 c.ring)
        × (pmc_at r i ≡ left_in i (pmc_at c i))
        × (bit j r.mmcr0 ≡ min (max (bit j c.mmcr0) (bit j b.pmxe)) (1 - bit j b.fc))
  unfolding rs64_handle_interrupt
  rs64_handle_interrupt_lem b is_kernel_addr i j c fc le small lt =
      let round = handle_ctr-IsRound c.siar (if is_kernel_addr c.siar then 1 else 0) in
      let masked = set_pmm b c in
      let kept = rounds-mmcr0 round g.num_counters 0 masked in
      let word = bit-mod 32 j c.mmcr0 lt in
      (
        rounds-ring round g.num_counters masked,
        rounds-pmc round g.num_counters i masked small le,
        rw kept (
            bit-clear j _ b.fc lt fc
            ∙ omega (arith, bit-bit_or j (c.mmcr0 % uint_mod) b.pmxe, word, bit_small j b.fc)),
      )
