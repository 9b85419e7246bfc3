-- ===== src/PowerPc/Power4/Run.antt =====
-- powerpc/op_model_power4.c: the control of the counters on a CPU, and the interrupt.
pub mod Interrupt
use rrprofile.Prelude.{
  ℕ, ◌+◌, ◌%◌, Bool, ◌&&◌, ◌||◌, not, ◌==◌, ltb, leb, if◌then◌else◌, List, get_or, uint_mod,
  for_counters,
}
use Prim.Native.Nat.{bit_and, bit_or}
use rrprofile.CpuBuffer.{OprofileCpuBuffer, oprofile_add_sample_start, oprofile_add_sample_stop}
use rrprofile.PowerPc.{
  PpcCounterConfig, PpcCpu, PpcShared, PpcMasks, no_ppc_config, ctr_read, ctr_write, is_negative,
  clear_mask, set_pmm, on_mmcr0,
}

-- `mmcra_must_set_sample`: `is_processor` is the kernel's `__is_processor`, and the processors are its
-- `PV_` constants.
data Pv : Type 0 where
  power4 : Pv
  power4p : Pv
  ppc970 : Pv
  ppc970fx : Pv
  ppc970mp : Pv

mmcra_must_set_sample : (is_processor : Pv → Bool) → Bool
mmcra_must_set_sample is_processor =
    is_processor power4
    || is_processor power4p
    || is_processor ppc970
    || is_processor ppc970fx
    || is_processor ppc970mp

unfoldable pub power4_cpu_setup : PpcMasks → (must_set_sample : Bool) → PpcShared → PpcCpu → PpcCpu
power4_cpu_setup b must_set_sample g c =
    let frozen = bit_or (g.mmcr0_val % uint_mod) b.fc in
    let enabled = bit_or frozen (bit_or (bit_or b.fcm1 b.pmxe) b.fcece) in
    record c {
      mmcr0 = bit_or enabled (bit_or b.pmc1ce b.pmcjce);
      mmcr1 = g.mmcr1_val;
      mmcra = if must_set_sample then bit_or g.mmcra_val b.sample_enable else g.mmcra_val;
    }

-- the body of the loop of `power4_start`
unfoldable pub start_ctr : PpcShared → List PpcCounterConfig → ℕ → PpcCpu → PpcCpu
start_ctr g ctr i c =
    let config = get_or ctr i no_ppc_config in
    if not (config.enabled == 0) && not (config.count == 0)
    then ctr_write i (get_or g.reset_value i 0) c
    else ctr_write i 0 c

-- `tb` is what `oprofile_get_tb()` returns.
unfoldable pub power4_start :
    PpcMasks → (num_pmcs tb : ℕ) → List PpcCounterConfig → PpcShared × PpcCpu → PpcShared × PpcCpu
unfolding start_ctr
power4_start b num_pmcs tb ctr (g, c) =
    let loaded =
      for_counters (start_ctr g ctr) num_pmcs 0 (set_pmm b (record c { start_timestamp = tb })) in
    (
      record g { oprofile_running = 1 },
      on_mmcr0 (λ mmcr0. clear_mask (clear_mask mmcr0 b.pmao) b.fc) loaded,
    )

unfoldable pub power4_stop : PpcMasks → PpcShared × PpcCpu → PpcShared × PpcCpu
power4_stop b (g, c) = (record g { oprofile_running = 0 }, on_mmcr0 (λ mmcr0. bit_or mmcr0 b.fc) c)

-- What the kernel says of its addresses: `cur_cpu_spec`'s two masks, whether the firmware is that of a
-- partition, the addresses of the three functions that stand for code without symbols, the range of
-- RTAS, `KERNELBASE` and `__va`.
pub record PpcKernel : Type 0 where
  pub oprofile_mmcra_sihv : ℕ
  pub oprofile_mmcra_sipr : ℕ
  pub lpar : Bool
  pub hypervisor_bucket : ℕ
  pub rtas_bucket : ℕ
  pub kernel_unknown_bucket : ℕ
  pub rtas_base : ℕ
  pub rtas_size : ℕ
  pub kernelbase : ℕ
  pub va : ℕ → ℕ

abbrev pub is_kernel_addr : PpcKernel → ℕ → Bool
is_kernel_addr k x = leb k.kernelbase x

unfoldable pub get_pc : PpcKernel → PpcCpu → ℕ
get_pc k c =
    if k.oprofile_mmcra_sihv == 0
    then c.siar
    else if k.lpar && not (bit_and c.mmcra k.oprofile_mmcra_sihv == 0)
    then k.hypervisor_bucket
    else if not (bit_and c.mmcra k.oprofile_mmcra_sipr == 0)
    then c.siar
    else if leb k.rtas_base c.siar && ltb c.siar (k.rtas_base + k.rtas_size)
    then k.rtas_bucket
    else if ltb c.siar 0x1000000
    then k.va c.siar
    else if not (is_kernel_addr k c.siar)
    then k.kernel_unknown_bucket
    else c.siar

unfoldable pub get_kernel : PpcKernel → PpcCpu → (pc : ℕ) → ℕ
get_kernel k c pc =
    if k.oprofile_mmcra_sihv == 0
    then (if is_kernel_addr k pc then 1 else 0)
    else if bit_and c.mmcra k.oprofile_mmcra_sipr == 0
    then 1
    else 0

-- `add_ext_sample pc i is_kernel` is `oprofile_add_ext_sample(pc, regs, i, is_kernel)` of
-- driver/cpu_buffer.c for the interrupted context.
module _ (add_ext_sample : (pc i is_kernel : ℕ) → OprofileCpuBuffer → OprofileCpuBuffer) where
  -- the body of the loop of `power4_handle_interrupt`
  unfoldable pub handle_ctr :
      (pc is_kernel end_timestamp : ℕ) → PpcShared → List PpcCounterConfig → ℕ → PpcCpu → PpcCpu
  handle_ctr pc is_kernel end_timestamp g ctr i c =
      let config = get_or ctr i no_ppc_config in
      let val = ctr_read i c in
      if not (g.oprofile_running == 0) && not (config.enabled == 0)
      then (if config.count == 0
          then ctr_write i 0 c
          else if is_negative val
          then ctr_write i (get_or g.reset_value i 0) (record c {
            ring = add_ext_sample pc i is_kernel (
                oprofile_add_sample_stop (oprofile_add_sample_start c.ring c.start_timestamp)
                  end_timestamp);
          })
          else c)
      else if is_negative val
      then ctr_write i 0 c
      else c

  -- `tb_end` and `tb_start` are the two results of `oprofile_get_tb()`.
  unfoldable pub power4_handle_interrupt :
      PpcMasks
      → PpcKernel
      → (num_pmcs tb_end tb_start : ℕ) → List PpcCounterConfig
      → PpcShared
      → PpcCpu
      → PpcCpu
  unfolding get_pc get_kernel handle_ctr
  power4_handle_interrupt b k num_pmcs tb_end tb_start ctr g c =
      let pc = get_pc k c in
      let is_kernel = get_kernel k c pc in
      let handled = for_counters (handle_ctr pc is_kernel tb_end g ctr) num_pmcs 0 (set_pmm b c) in
      on_mmcr0 (λ mmcr0. clear_mask (clear_mask (bit_or mmcr0 b.pmxe) b.pmao) b.fc)
        (record handled { start_timestamp = tb_start })
