-- ===== src/PowerPc/Fsl7450/Run.antt =====
-- The interrupt of powerpc/op_model_7450.c, and the bits of `MMCR0` that start and stop the counters.
use rrprofile.Prelude.{
  ℕ, ◌-◌, ◌%◌, ◌<◌, ◌≤◌, ◌≡◌, refl, ap, ◌∙◌, arith, Bool, ◌&&◌, not, ◌==◌, if◌then◌else◌, List,
  get_or, length, length-set, get_or-set_self, get_or-set_ne, uint_mod, for_counters,
}
use Prim.Native.Nat.{bit_or, min, max}
use rrprofile.Bits.{bit, bit-bit_or}
use rrprofile.Bits.Shift.{bit-mod}
use rrprofile.CpuBuffer.{OprofileCpuBuffer}
use rrprofile.PowerPc.{
  PpcCounterConfig, PpcCpu, PpcShared, PpcMasks, no_ppc_config, is_negative, set_pmm,
}
use rrprofile.PowerPc.Words.{bit-clear}
use rrprofile.PowerPc.Rounds.{IsRound, pmc_at, log_counters, rounds-pmc, rounds-ring, rounds-mmcr0}
use rrprofile.PowerPc.Fsl7450.{
  num_ctrs, interrupt_mask, pmc_start_ctrs, pmc_stop_ctrs, handle_ctr, fsl7450_handle_interrupt,
}

-- An overflow of an enabled counter is a sample while the profiler runs.
abbrev goes_on : PpcShared → List PpcCounterConfig → ℕ → Bool
goes_on g ctr i = not (g.oprofile_running == 0) && not ((get_or ctr i no_ppc_config).enabled == 0)

-- `pmc_start_ctrs` lets the counters run and interrupt, and `pmc_stop_ctrs` freezes them.
pmc_start_ctrs-bit :
    (b : PpcMasks) (c : PpcCpu) (j : ℕ)
    → j < 32
    → bit_or b.fc b.fcm0 < uint_mod
    → bit j (pmc_start_ctrs b c).mmcr0
      ≡ max (min (bit j c.mmcr0) (1 - bit j (bit_or b.fc b.fcm0))) (bit j (interrupt_mask b))
unfolding pmc_start_ctrs
pmc_start_ctrs-bit b c j lt h =
    let word = bit-mod 32 j c.mmcr0 lt in
    let cleared = bit-clear j (c.mmcr0 % uint_mod) (bit_or b.fc b.fcm0) lt h in
    bit-bit_or j _ (interrupt_mask b) ∙ omega (arith, word, cleared)

pmc_start_ctrs-keeps :
    (b : PpcMasks) (c : PpcCpu)
    → ((pmc_start_ctrs b c).ring ≡ c.ring) × ((pmc_start_ctrs b c).pmc ≡ c.pmc)
unfolding pmc_start_ctrs
pmc_start_ctrs-keeps b c = (refl, refl)

pmc_stop_ctrs-bit :
    (b : PpcMasks) (c : PpcCpu) (j : ℕ)
    → j < 32
    → interrupt_mask b < uint_mod
    → bit j (pmc_stop_ctrs b c).mmcr0
      ≡ min (max (bit j c.mmcr0) (bit j b.fc)) (1 - bit j (interrupt_mask b))
unfolding pmc_stop_ctrs
pmc_stop_ctrs-bit b c j lt h =
    let word = bit-mod 32 j c.mmcr0 lt in
    let frozen = bit-bit_or j (c.mmcr0 % uint_mod) b.fc in
    bit-clear j _ (interrupt_mask b) lt h ∙ omega (arith, word, frozen)

module _ (add_ext_sample : (pc i is_kernel : ℕ) → OprofileCpuBuffer → OprofileCpuBuffer)
    (g : PpcShared) (ctr : List PpcCounterConfig) where
  abbrev sampled : ℕ → ℕ → Bool
  sampled i v = is_negative (v % uint_mod) && goes_on g ctr i

  -- what the handler leaves in the counter that holds `v`
  abbrev left_in : ℕ → ℕ → ℕ
  left_in i v =
      if is_negative (v % uint_mod)
      then (if goes_on g ctr i then get_or g.reset_value i 0 % uint_mod else 0)
      else v

  abbrev log_counter : (pc is_kernel start i : ℕ) → OprofileCpuBuffer → OprofileCpuBuffer
  log_counter pc is_kernel start i ring = add_ext_sample pc i is_kernel ring

  handle_ctr-IsRound :
      (pc is_kernel : ℕ)
      → IsRound
          (handle_ctr add_ext_sample pc is_kernel g ctr)
          left_in
          sampled
          (log_counter pc is_kernel)
  unfolding handle_ctr
  handle_ctr-IsRound pc is_kernel = record {
    own = λ i c lt. ground (
      arith,
      get_or-set_self c.pmc i 0 0 lt,
      get_or-set_self c.pmc i (get_or g.reset_value i 0 % uint_mod) 0 lt,
    );
    other = λ i j c ne. ground (
      arith,
      get_or-set_ne c.pmc 0 0 ne,
      get_or-set_ne c.pmc (get_or g.reset_value i 0 % uint_mod) 0 ne,
    );
    counters = λ i c.
        ground
          (arith, length-set c.pmc i 0, length-set c.pmc i (get_or g.reset_value i 0 % uint_mod));
    start = λ i c. ground arith;
    ring = λ i c. ground arith;
    mmcr0 = λ i c. ground arith;
  }

  -- For masks that are words and a CPU with its six counters, `fsl7450_handle_interrupt` logs one sample
  -- for each enabled counter that has overflowed while the profiler runs, in the counters' order, and for
  -- no other, at the sampled address; it reloads exactly those counters, empties the others that have
  -- overflowed, and leaves the rest alone; and it lets the counters run and interrupt again: in `MMCR0`
  -- the bits that freeze them are clear but where the bits that let them interrupt are set, which are
  -- set, and every other bit is kept.
  fsl7450_handle_interrupt_lem :
      (b : PpcMasks) (is_kernel_addr : ℕ → Bool) (i j : ℕ) (c : PpcCpu)
      → bit_or b.fc b.fcm0 < uint_mod
      → num_ctrs ≤ length c.pmc
      → i < num_ctrs
      → j < 32
      → let r = fsl7450_handle_interrupt add_ext_sample b is_kernel_addr ctr g c in
        let log = log_counter c.siar (if is_kernel_addr c.siar then 1 else 0) c.start_timestamp in
        (r.ring ≡ log_counters sampled log c num_ctrs 0 c.ring)
        × (pmc_at r i ≡ left_in i (pmc_at c i))
        × (bit j r.mmcr0
            ≡ max (min (bit j c.mmcr0) (1 - bit j (bit_or b.fc b.fcm0))) (bit j (interrupt_mask b)))
  unfolding fsl7450_handle_interrupt
  fsl7450_handle_interrupt_lem b is_kernel_addr i j c fc le small lt =
      let round = handle_ctr-IsRound c.siar (if is_kernel_addr c.siar then 1 else 0) in
      let masked = set_pmm b c in
      let handled =
        for_counters
          (handle_ctr add_ext_sample c.siar (if is_kernel_addr c.siar then 1 else 0) g ctr) num_ctrs
          0 masked in
      let (ring, pmc) = pmc_start_ctrs-keeps b handled in
      (
        ring ∙ rounds-ring round num_ctrs masked,
        ap (λ (p : List ℕ). get_or p i 0) pmc ∙ rounds-pmc round num_ctrs i masked small le,
        pmc_start_ctrs-bit b handled j lt fc
            ∙ omega (arith, ap (bit j) (rounds-mmcr0 round num_ctrs 0 masked)),
      )
