-- ===== src/X86/Ppro.antt =====
-- x86/op_model_ppro.c: two counters of the P6 family, and of the architectural monitoring. The state is
-- that of one CPU; spin locks and the time stamp counter are outside, so a time stamp is an argument.
pub mod Control
pub mod Overflow
use rrprofile.Prelude.{
  for_counters, ℕ, zero, suc, ◌+◌, ◌-◌, ◌%◌, ◌^◌, List, [], ◌∷◌, Bool, ◌==◌, if◌then◌else◌, get_or,
  set, uint_mod,
}
use Prim.Native.Nat.{bit_and}
use rrprofile.CpuBuffer.{OprofileCpuBuffer, oprofile_add_sample_start, oprofile_add_sample_stop}
use rrprofile.X86.{
  MsrFile, OpMsr, OpMsrs, OpSavedMsr, OpCounterConfig, no_msr, no_config, wrmsr, ctr_value,
  ctr_overflowed, ctrl_set_active, ctrl_set_inactive, ctrl_clear, ctrl_set_enable, ctrl_set_usr,
  ctrl_set_kern, ctrl_set_um, ctrl_set_event,
}

-- The registers of a CPU, their addresses, the interrupt's vector, and `reset_value`,
-- `start_timestamp` and the CPU's buffer.
pub record Cpu : Type 0 where
  pub file : MsrFile
  pub msrs : OpMsrs
  pub lvtpc : ℕ
  pub reset_value : List ℕ
  pub start_timestamp : ℕ
  pub ring : OprofileCpuBuffer

-- `num_counters`, which is 2 for all models of this file
abbrev pub num_counters : ℕ
num_counters = 2

abbrev pub counter_addr : Cpu → ℕ → ℕ
counter_addr c i = (get_or c.msrs.counters i no_msr).addr

abbrev pub control_addr : Cpu → ℕ → ℕ
control_addr c i = (get_or c.msrs.controls i no_msr).addr

-- `CTR_WRITE(l, msrs, i)`
abbrev pub ctr_write : ℕ → ℕ → Cpu → Cpu
ctr_write l i c = record c { file = wrmsr (counter_addr c i) (ctr_value l) c.file }

-- `CTRL_READ(low, high, msrs, i)`, a change of `low`, and `CTRL_WRITE(low, high, msrs, i)`
abbrev pub on_control : (ℕ → ℕ) → ℕ → Cpu → Cpu
on_control f i c =
    let value = c.file (control_addr c i) in
    record c { file = wrmsr (control_addr c i) (record value { low = f value.low }) c.file }

-- `ppro_fill_in_addresses`; the addresses are the kernel's `MSR_P6_PERFCTR0` and its kin.
unfoldable pub ppro_fill_in_addresses : (perfctr0 perfctr1 evntsel0 evntsel1 : ℕ) → OpMsrs → OpMsrs
ppro_fill_in_addresses perfctr0 perfctr1 evntsel0 evntsel1 msrs = record {
  counters = put (put msrs.counters 0 perfctr0) 1 perfctr1;
  controls = put (put msrs.controls 0 evntsel0) 1 evntsel1;
}
  where
    put : List OpMsr → ℕ → ℕ → List OpMsr
    put rs i a = let r = get_or rs i no_msr in set rs i (record r { addr = a })

-- the control register of an enabled counter
unfoldable pub configure : OpCounterConfig → ℕ → ℕ
configure config low =
    ctrl_set_event
      (ctrl_set_um
        (ctrl_set_kern (ctrl_set_usr (ctrl_set_enable (ctrl_clear low)) config.user) config.kernel)
        config.unit_mask)
      config.event

-- the body of the last loop of `ppro_setup_ctrs`
unfoldable pub setup_ctr : List OpCounterConfig → ℕ → Cpu → Cpu
setup_ctr configs i c =
    let config = get_or configs i no_config in
    if config.enabled == 0
    then c
    else on_control (configure config) i
        (ctr_write config.count i (record c { reset_value = set c.reset_value i config.count }))

unfoldable pub ppro_setup_ctrs : List OpCounterConfig → Cpu → Cpu
ppro_setup_ctrs configs c = for_counters (setup_ctr configs) num_counters 0 (
    for_counters (ctr_write 1) num_counters 0
      (for_counters (on_control ctrl_clear) num_counters 0 c))

-- `tb` is what `oprofile_get_tb()` returns.
unfoldable pub ppro_start : (tb : ℕ) → Cpu → Cpu
ppro_start tb c = on_control ctrl_set_active 0 (record c { start_timestamp = tb })

unfoldable pub ppro_stop : Cpu → Cpu
ppro_stop c = on_control ctrl_set_inactive 0 c

-- `add_sample` is `oprofile_add_sample(regs, i)` of driver/cpu_buffer.c for the interrupted context;
-- `lvt_masked` is the kernel's `APIC_LVT_MASKED`.
module _ (add_sample : ℕ → OprofileCpuBuffer → OprofileCpuBuffer) (lvt_masked : ℕ) where
  -- the body of the loop of `ppro_check_ctrs`
  unfoldable pub check_ctr : (end_timestamp : ℕ) → ℕ → Cpu → Cpu
  check_ctr end_timestamp i c =
      if ctr_overflowed (c.file (counter_addr c i)).low
      then ctr_write (get_or c.reset_value i 0) i (record c {
        ring = add_sample i (
            oprofile_add_sample_stop (oprofile_add_sample_start c.ring c.start_timestamp)
              end_timestamp);
      })
      else c

  -- `tb_end`, `tb_start` and `tb_last` are the three results of `oprofile_get_tb()`.
  unfoldable pub ppro_check_ctrs : (tb_end tb_start tb_last : ℕ) → Cpu → Cpu × ℕ
  ppro_check_ctrs tb_end tb_start tb_last c =
      let checked = for_counters (check_ctr tb_end) num_counters 0 (ppro_stop c) in
      let unmasked = record checked { lvtpc = bit_and checked.lvtpc (uint_mod - 1 - lvt_masked) } in
      let started = ppro_start tb_start unmasked in
      (record started { start_timestamp = tb_last }, 1)
