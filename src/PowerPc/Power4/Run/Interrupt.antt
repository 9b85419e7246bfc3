-- ===== src/PowerPc/Power4/Run/Interrupt.antt =====
-- `power4_handle_interrupt` of powerpc/op_model_power4.c: what an interrupt does to each counter, to the
-- log and to `MMCR0`.
use rrprofile.Prelude.{
  ℕ, ◌-◌, ◌%◌, ◌<◌, ◌≤◌, ◌≡◌, refl, ◌∙◌, arith, Bool, ◌&&◌, not, ◌==◌, if◌then◌else◌, List, get_or,
  length, length-set, get_or-set_self, get_or-set_ne, uint_mod,
}
use Prim.Native.Nat.{bit_or, min, max}
use rrprofile.Bits.{bit, bit_small, bit-bit_or}
use rrprofile.Bits.Shift.{bit-mod}
use rrprofile.CpuBuffer.{OprofileCpuBuffer, oprofile_add_sample_start, oprofile_add_sample_stop}
use rrprofile.PowerPc.{
  PpcCounterConfig, PpcCpu, PpcShared, PpcMasks, no_ppc_config, is_negative, set_pmm,
}
use rrprofile.PowerPc.Words.{bit-clear}
use rrprofile.PowerPc.Rounds.{IsRound, pmc_at, log_counters, rounds-pmc, rounds-ring, rounds-mmcr0}
use rrprofile.PowerPc.Power4.Run.{
  PpcKernel, get_pc, get_kernel, handle_ctr, power4_handle_interrupt,
}

module _ (g : PpcShared) (ctr : List PpcCounterConfig) (i : ℕ) where
  abbrev config : PpcCounterConfig
  config = get_or ctr i no_ppc_config

  -- Counter `i` counts: the profiler runs, and the counter is enabled.
  abbrev pub counts : Bool
  counts = not (g.oprofile_running == 0) && not (config.enabled == 0)

  -- A value that has reached 2 ^ 31 has overflowed.
  abbrev sampled : ℕ → Bool
  sampled v = counts && not (config.count == 0) && is_negative (v % uint_mod)

  -- what the handler leaves in the counter that holds `v`
  abbrev left_in : ℕ → ℕ
  left_in v =
      if counts
      then (if config.count == 0
          then 0
          else if is_negative (v % uint_mod)
          then get_or g.reset_value i 0 % uint_mod
          else v)
      else if is_negative (v % uint_mod)
      then 0
      else v

module _ (add_ext_sample : (pc i is_kernel : ℕ) → OprofileCpuBuffer → OprofileCpuBuffer)
    (g : PpcShared) (ctr : List PpcCounterConfig) where
  -- the two time stamps of the period, then the sample
  abbrev log_counter : (pc is_kernel stop start i : ℕ) → OprofileCpuBuffer → OprofileCpuBuffer
  log_counter pc is_kernel stop start i ring =
      add_ext_sample pc i is_kernel
        (oprofile_add_sample_stop (oprofile_add_sample_start ring start) stop)

  handle_ctr-IsRound :
      (pc is_kernel stop : ℕ)
      → IsRound
          (handle_ctr add_ext_sample pc is_kernel stop g ctr)
          (left_in g ctr)
          (sampled g ctr)
          (log_counter pc is_kernel stop)
  unfolding handle_ctr
  handle_ctr-IsRound pc is_kernel stop = record {
    own = λ i c lt. ground (
      arith,
      get_or-set_self c.pmc i 0 0 lt,
      get_or-set_self c.pmc i (get_or g.reset_value i 0 % uint_mod) 0 lt,
    );
    other = λ i j c ne. ground (
      arith,
      get_or-set_ne c.pmc 0 0 ne,
      get_or-set_ne c.pmc (get_or g.reset_value i 0 % uint_mod) 0 ne,
    );
    counters = λ i c.
        ground
          (arith, length-set c.pmc i 0, length-set c.pmc i (get_or g.reset_value i 0 % uint_mod));
    start = λ i c. ground arith;
    ring = λ i c. ground arith;
    mmcr0 = λ i c. ground arith;
  }

  -- For masks that are words and a CPU with at least `num_pmcs` counters, `power4_handle_interrupt` logs
  -- a sample between its time stamps for each enabled counter with a count that has overflowed while the
  -- profiler runs, in the counters' order, and for no other, at the pc and in the mode that `get_pc` and
  -- `get_kernel` give; it reloads exactly those counters, empties those that count without a limit and
  -- those that have overflowed unasked, and leaves the others alone; in `MMCR0` it clears the bits that
  -- freeze the counters and report the interrupt, sets the bit that lets the next interrupt through
  -- unless it is one of those, and keeps every other; the next period starts at its last time stamp.
  pub power4_handle_interrupt_lem :
      (b : PpcMasks) (k : PpcKernel) (num_pmcs tb_end tb_start i j : ℕ) (c : PpcCpu)
      → b.fc < uint_mod
      → b.pmao < uint_mod
      → num_pmcs ≤ length c.pmc
      → i < num_pmcs
      → j < 32
      → let r = power4_handle_interrupt add_ext_sample b k num_pmcs tb_end tb_start ctr g c in
        let pc = get_pc k c in
        let log = log_counter pc (get_kernel k c pc) tb_end c.start_timestamp in
        (r.ring ≡ log_counters (sampled g ctr) log c num_pmcs 0 c.ring)
        × (pmc_at r i ≡ left_in g ctr i (pmc_at c i))
        × (bit j r.mmcr0
            ≡ min (max (bit j c.mmcr0) (bit j b.pmxe)) (1 - max (bit j b.fc) (bit j b.pmao)))
        × (r.start_timestamp ≡ tb_start)
  unfolding power4_handle_interrupt
  power4_handle_interrupt_lem b k num_pmcs tb_end tb_start i j c fc pmao le small lt =
      let pc = get_pc k c in
      let is_kernel = get_kernel k c pc in
      let round = handle_ctr-IsRound pc is_kernel tb_end in
      let masked = set_pmm b c in
      let kept = rounds-mmcr0 round num_pmcs 0 masked in
      let word = bit-mod 32 j c.mmcr0 lt in
      (
        rounds-ring round num_pmcs masked,
        rounds-pmc round num_pmcs i masked small le,
        rw kept (
            bit-clear j _ b.fc lt fc
            ∙ omega (
              arith,
              bit-clear j (bit_or (c.mmcr0 % uint_mod) b.pmxe) b.pmao lt pmao,
              bit-bit_or j (c.mmcr0 % uint_mod) b.pmxe,
              word,
              bit_small j b.fc,
              bit_small j b.pmao,
            )),
        refl,
      )
