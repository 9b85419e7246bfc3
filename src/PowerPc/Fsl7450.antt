-- ===== src/PowerPc/Fsl7450.antt =====
-- powerpc/op_model_7450.c: the six counters of the 7450, whose kernel has 32 bits.
pub mod Run
use rrprofile.Prelude.{
  ℕ, ◌+◌, ◌-◌, ◌%◌, ◌^◌, List, Bool, not, ◌==◌, ◌&&◌, if◌then◌else◌, get_or, set, uint_mod,
  for_counters,
}
use Prim.Native.Nat.{bit_and, bit_or}
use rrprofile.CpuBuffer.{OprofileCpuBuffer}
use rrprofile.Bits.Fields.{shifted}
use rrprofile.PowerPc.{
  PpcCounterConfig, OpSystemConfig, PpcCpu, PpcShared, PpcMasks, no_ppc_config, ctr_read, ctr_write,
  is_negative, clear_mask, set_pmm, on_mmcr0,
}

-- `NUM_CTRS`
abbrev pub num_ctrs : ℕ
num_ctrs = 6

-- the kernel's masks of the event fields, `MMCR0_PMC1SEL` and its kin
pub record PmcSel : Type 0 where
  pub pmc1sel : ℕ
  pub pmc2sel : ℕ
  pub pmc3sel : ℕ
  pub pmc4sel : ℕ
  pub pmc5sel : ℕ
  pub pmc6sel : ℕ

-- `mmcr0_event1` and its kin: `(event << shift) & mask`
abbrev pub event_field : (shift mask event : ℕ) → ℕ
event_field shift mask event = bit_and (shifted shift event % uint_mod) mask

-- `MMCR0_INIT`
abbrev pub mmcr0_init : PpcMasks → ℕ
mmcr0_init b = bit_or (bit_or (bit_or (bit_or b.fc b.fcs) b.fcp) b.fcm1) b.fcm0

-- `MMCR0_FCECE | MMCR0_PMC1CE | MMCR0_PMCnCE | MMCR0_PMXE`
abbrev pub interrupt_mask : PpcMasks → ℕ
interrupt_mask b = bit_or (bit_or (bit_or b.fcece b.pmc1ce) b.pmcnce) b.pmxe

unfoldable pub pmc_start_ctrs : PpcMasks → PpcCpu → PpcCpu
pmc_start_ctrs b c =
    on_mmcr0 (λ mmcr0. bit_or (clear_mask mmcr0 (bit_or b.fc b.fcm0)) (interrupt_mask b)) c

unfoldable pub pmc_stop_ctrs : PpcMasks → PpcCpu → PpcCpu
pmc_stop_ctrs b c = on_mmcr0 (λ mmcr0. clear_mask (bit_or mmcr0 b.fc) (interrupt_mask b)) c

unfoldable pub fsl7450_cpu_setup : PpcMasks → PpcShared → PpcCpu → PpcCpu
unfolding pmc_stop_ctrs
fsl7450_cpu_setup b g c = record (pmc_stop_ctrs b c) {
  mmcr0 = g.mmcr0_val;
  mmcr1 = g.mmcr1_val;
  mmcr2 = g.mmcr2_val;
}

-- `0x80000000UL - ctr[i].count` of an unsigned long of 32 bits
abbrev pub reset_of : PpcCounterConfig → ℕ
reset_of config = (2 ^ 31 + uint_mod - config.count % uint_mod) % uint_mod

-- the mask is cleared when the flag is set
abbrev pub allow_if : (flag mask x : ℕ) → ℕ
allow_if flag mask x = if flag == 0 then x else clear_mask x mask

unfoldable pub fsl7450_reg_setup :
    PpcMasks → PmcSel → List PpcCounterConfig → OpSystemConfig → PpcShared → PpcShared
fsl7450_reg_setup b s ctr sys g =
    let event = λ (i : ℕ). (get_or ctr i no_ppc_config).event in
    let selected =
      bit_or (bit_or (mmcr0_init b) (event_field 6 s.pmc1sel (event 0)))
        (event_field 0 s.pmc2sel (event 1)) in
    let resets =
      for_counters (λ i a. set a i (reset_of (get_or ctr i no_ppc_config))) num_ctrs 0
        g.reset_value in
    record g {
      reset_value = resets;
      mmcr0_val = allow_if sys.enable_user b.fcp (allow_if sys.enable_kernel b.fcs selected);
      mmcr1_val =
          bit_or
            (bit_or
              (bit_or (event_field 27 s.pmc3sel (event 2)) (event_field 22 s.pmc4sel (event 3)))
              (event_field 17 s.pmc5sel (event 4)))
            (event_field 11 s.pmc6sel (event 5));
      mmcr2_val = 0;
    }

-- the body of the loop of `fsl7450_start`
unfoldable pub start_ctr : PpcShared → List PpcCounterConfig → ℕ → PpcCpu → PpcCpu
start_ctr g ctr i c =
    if (get_or ctr i no_ppc_config).enabled == 0
    then ctr_write i 0 c
    else ctr_write i (get_or g.reset_value i 0) c

unfoldable pub fsl7450_start :
    PpcMasks → List PpcCounterConfig → PpcShared × PpcCpu → PpcShared × PpcCpu
unfolding start_ctr pmc_start_ctrs
fsl7450_start b ctr (g, c) = (
  record g { oprofile_running = 1 },
  pmc_start_ctrs b (for_counters (start_ctr g ctr) num_ctrs 0 (set_pmm b c)),
)

unfoldable pub fsl7450_stop : PpcMasks → PpcShared × PpcCpu → PpcShared × PpcCpu
unfolding pmc_stop_ctrs
fsl7450_stop b (g, c) = (record g { oprofile_running = 0 }, pmc_stop_ctrs b c)

-- `add_ext_sample` is as for the POWER4; `is_kernel_addr` is the kernel's test.
module _ (add_ext_sample : (pc i is_kernel : ℕ) → OprofileCpuBuffer → OprofileCpuBuffer) where
  -- the body of the loop of `fsl7450_handle_interrupt`
  unfoldable pub handle_ctr :
      (pc is_kernel : ℕ) → PpcShared → List PpcCounterConfig → ℕ → PpcCpu → PpcCpu
  handle_ctr pc is_kernel g ctr i c =
      let config = get_or ctr i no_ppc_config in
      if is_negative (ctr_read i c)
      then (if not (g.oprofile_running == 0) && not (config.enabled == 0)
          then ctr_write i (get_or g.reset_value i 0)
              (record c { ring = add_ext_sample pc i is_kernel c.ring })
          else ctr_write i 0 c)
      else c

  unfoldable pub fsl7450_handle_interrupt :
      PpcMasks → (is_kernel_addr : ℕ → Bool) → List PpcCounterConfig → PpcShared → PpcCpu → PpcCpu
  unfolding handle_ctr pmc_start_ctrs
  fsl7450_handle_interrupt b is_kernel_addr ctr g c =
      let is_kernel = if is_kernel_addr c.siar then 1 else 0 in
      pmc_start_ctrs b (for_counters (handle_ctr c.siar is_kernel g ctr) num_ctrs 0 (set_pmm b c))
