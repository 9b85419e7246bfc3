-- ===== src/PowerPc/Rs64.antt =====
-- powerpc/op_model_rs64.c: the eight counters of the RS64 and the POWER3.
pub mod Fields
pub mod Start
pub mod Interrupt
use rrprofile.Prelude.{
  ℕ, ◌+◌, ◌-◌, ◌%◌, ◌^◌, List, [], ◌∷◌, Bool, not, ◌==◌, ltb, leb, if◌then◌else◌, get_or, set,
  uint_mod, for_counters,
}
use Prim.Native.Nat.{bit_and, bit_or}
use rrprofile.CpuBuffer.{OprofileCpuBuffer}
use rrprofile.Bits.Fields.{shifted}
use rrprofile.PowerPc.{
  PpcCounterConfig, PpcCpu, PpcShared, PpcMasks, no_ppc_config, ctr_read, ctr_write, is_negative,
  clear_mask, set_pmm, on_mmcr0, reset_of,
}

-- `shift` and `mask` of `ctrl_write`, by counter
abbrev pub ctrl_shift : ℕ → ℕ
ctrl_shift i = get_or (6 ∷ 0 ∷ 27 ∷ 22 ∷ 17 ∷ 12 ∷ 7 ∷ 3 ∷ []) i 0

abbrev pub ctrl_mask : ℕ → ℕ
ctrl_mask i = get_or (0x7F ∷ 0x3F ∷ 0x1F ∷ 0x1F ∷ 0x1F ∷ 0x1F ∷ 0x1F ∷ 0xF ∷ []) i 0

-- the register of counter `i`, as an unsigned int; 0 where there is no such counter
abbrev pub ctrl_read : ℕ → PpcCpu → ℕ
ctrl_read i c = if ltb i 2 then c.mmcr0 % uint_mod else if ltb i 8 then c.mmcr1 % uint_mod else 0

-- `val` is an unsigned int.
unfoldable pub ctrl_write : ℕ → ℕ → PpcCpu → PpcCpu
ctrl_write i val c =
    let tmp =
      bit_or (clear_mask (ctrl_read i c) (shifted (ctrl_shift i) (ctrl_mask i)))
        (shifted (ctrl_shift i) (val % uint_mod) % uint_mod) in
    if ltb i 2 then record c { mmcr0 = tmp } else record c { mmcr1 = tmp }

unfoldable pub rs64_reg_setup : (num_ctrs : ℕ) → List PpcCounterConfig → PpcShared → PpcShared
rs64_reg_setup num_ctrs ctr g = record g {
  num_counters = num_ctrs;
  reset_value =
      for_counters (λ i a. set a i (reset_of (get_or ctr i no_ppc_config))) num_ctrs 0
        g.reset_value;
}

-- `has_mmcra` is `cpu_has_feature(CPU_FTR_MMCRA)`.
unfoldable pub rs64_cpu_setup : PpcMasks → (has_mmcra : Bool) → PpcCpu → PpcCpu
rs64_cpu_setup b has_mmcra c =
    let enabled = bit_or b.fc (bit_or (bit_or b.fcm1 b.pmxe) b.fcece) in
    record c {
      mmcr0 = bit_or enabled (bit_or b.pmc1ce b.pmcjce);
      mmcr1 = 0;
      mmcra = if has_mmcra then 0 else c.mmcra;
    }

-- the body of the loop of `rs64_start`
unfoldable pub start_ctr : PpcShared → List PpcCounterConfig → ℕ → PpcCpu → PpcCpu
unfolding ctrl_write
start_ctr g ctr i c =
    let config = get_or ctr i no_ppc_config in
    if config.enabled == 0
    then ctr_write i 0 c
    else ctrl_write i config.event (ctr_write i (get_or g.reset_value i 0) c)

unfoldable pub rs64_start : PpcMasks → List PpcCounterConfig → PpcShared → PpcCpu → PpcCpu
unfolding start_ctr
rs64_start b ctr g c =
    on_mmcr0 (λ mmcr0. clear_mask mmcr0 b.fc)
      (for_counters (start_ctr g ctr) g.num_counters 0 (set_pmm b c))

unfoldable pub rs64_stop : PpcMasks → PpcCpu → PpcCpu
rs64_stop b c = on_mmcr0 (λ mmcr0. bit_or mmcr0 b.fc) c

-- `add_ext_sample` is as for the POWER4; `is_kernel_addr` is the kernel's test.
module _ (add_ext_sample : (pc i is_kernel : ℕ) → OprofileCpuBuffer → OprofileCpuBuffer) where
  -- the body of the loop of `rs64_handle_interrupt`
  unfoldable pub handle_ctr :
      (pc is_kernel : ℕ) → PpcShared → List PpcCounterConfig → ℕ → PpcCpu → PpcCpu
  handle_ctr pc is_kernel g ctr i c =
      let config = get_or ctr i no_ppc_config in
      if is_negative (ctr_read i c)
      then (if config.enabled == 0
          then ctr_write i 0 c
          else ctr_write i (get_or g.reset_value i 0)
              (record c { ring = add_ext_sample pc i is_kernel c.ring }))
      else c

  unfoldable pub rs64_handle_interrupt :
      PpcMasks → (is_kernel_addr : ℕ → Bool) → List PpcCounterConfig → PpcShared → PpcCpu → PpcCpu
  unfolding handle_ctr
  rs64_handle_interrupt b is_kernel_addr ctr g c =
      let is_kernel = if is_kernel_addr c.siar then 1 else 0 in
      on_mmcr0 (λ mmcr0. clear_mask (bit_or mmcr0 b.pmxe) b.fc)
        (for_counters (handle_ctr c.siar is_kernel g ctr) g.num_counters 0 (set_pmm b c))
