-- ===== src/X86/Athlon.antt =====
-- x86/op_model_athlon.c: the four counters of the K7, K8 and family 10h. The state and the macros that the
-- file shares with x86/op_model_ppro.c are those of `X86.Ppro`.
pub mod Sees
pub mod Event
pub mod Check
use rrprofile.Prelude.{
  for_counters, ℕ, zero, suc, ◌+◌, ◌-◌, ◌*◌, ◌/◌, ◌%◌, ◌^◌, List, [], ◌∷◌, Bool, ◌==◌,
  if◌then◌else◌, get_or, set, uint_mod, none,
}
use Prim.Native.Nat.{bit_and, bit_or}
use rrprofile.CpuBuffer.{OprofileCpuBuffer}
use rrprofile.X86.{
  OpMsr, OpMsrs, OpSavedMsr, OpCounterConfig, no_msr, no_config, wrmsr, ctrl_set_active,
  ctrl_set_inactive, ctrl_clear, ctrl_set_enable, ctrl_set_usr, ctrl_set_kern, ctrl_set_um,
}
use rrprofile.X86.Ppro.{Cpu, control_addr, ctr_write, on_control, check_ctr}

-- `NUM_COUNTERS` and `NUM_CONTROLS`
abbrev pub num_counters : ℕ
num_counters = 4

-- `CTRL_CLEAR_HI`
abbrev pub ctrl_clear_hi : ℕ → ℕ
ctrl_clear_hi x = bit_and x 0xfffffcf0

-- `CTRL_SET_EVENT_LOW` and `CTRL_SET_EVENT_HIGH`
abbrev pub ctrl_set_event_low : ℕ → ℕ → ℕ
ctrl_set_event_low val e = bit_or val (e % 2 ^ 8)

abbrev pub ctrl_set_event_high : ℕ → ℕ → ℕ
ctrl_set_event_high val e = bit_or val (e / 2 ^ 8 % 2 ^ 4)

-- `CTRL_SET_HOST_ONLY` and `CTRL_SET_GUEST_ONLY`
abbrev pub ctrl_set_host_only : ℕ → ℕ → ℕ
ctrl_set_host_only val h = bit_or val ((h % 2) * 2 ^ 9)

abbrev pub ctrl_set_guest_only : ℕ → ℕ → ℕ
ctrl_set_guest_only val h = bit_or val ((h % 2) * 2 ^ 8)

-- the address `a` in the entry `i` of an array of `struct op_msr`
abbrev pub put_addr : List OpMsr → ℕ → ℕ → List OpMsr
put_addr rs i a = let r = get_or rs i no_msr in set rs i (record r { addr = a })

-- The addresses are the kernel's `MSR_K7_PERFCTR0` to `3` and `MSR_K7_EVNTSEL0` to `3`.
unfoldable pub athlon_fill_in_addresses : (perfctr evntsel : ℕ → ℕ) → OpMsrs → OpMsrs
athlon_fill_in_addresses perfctr evntsel msrs = record {
  counters = all perfctr msrs.counters;
  controls = all evntsel msrs.controls;
}
  where
    all : (ℕ → ℕ) → List OpMsr → List OpMsr
    all f rs = put_addr (put_addr (put_addr (put_addr rs 0 (f 0)) 1 (f 1)) 2 (f 2)) 3 (f 3)

-- `CTRL_READ`, a change of both halves, and `CTRL_WRITE`
abbrev pub on_halves : (OpSavedMsr → OpSavedMsr) → ℕ → Cpu → Cpu
on_halves f i c = record c {
  file = wrmsr (control_addr c i) (f (c.file (control_addr c i))) c.file;
}

abbrev pub clear : OpSavedMsr → OpSavedMsr
clear value = record { low = ctrl_clear value.low; high = ctrl_clear_hi value.high }

-- the control register of an enabled counter
unfoldable pub configure : OpCounterConfig → OpSavedMsr → OpSavedMsr
configure config value = record {
  low =
      ctrl_set_event_low
        (ctrl_set_um
          (ctrl_set_kern (ctrl_set_usr (ctrl_set_enable (ctrl_clear value.low)) config.user)
            config.kernel)
          config.unit_mask)
        config.event;
  high = ctrl_set_guest_only (ctrl_set_host_only (ctrl_set_event_high value.high config.event) 0) 0;
}

-- the body of the last loop of `athlon_setup_ctrs`
unfoldable pub setup_ctr : List OpCounterConfig → ℕ → Cpu → Cpu
setup_ctr configs i c =
    let config = get_or configs i no_config in
    if config.enabled == 0
    then record c { reset_value = set c.reset_value i 0 }
    else on_halves (configure config) i
        (ctr_write config.count i (record c { reset_value = set c.reset_value i config.count }))

unfoldable pub athlon_setup_ctrs : List OpCounterConfig → Cpu → Cpu
athlon_setup_ctrs configs c =
    for_counters (setup_ctr configs) num_counters 0
      (for_counters (ctr_write 1) num_counters 0 (for_counters (on_halves clear) num_counters 0 c))

-- the body of the loop of `athlon_start`
unfoldable pub start_ctr : ℕ → Cpu → Cpu
start_ctr i c = if get_or c.reset_value i 0 == 0 then c else on_control ctrl_set_active i c

-- `tb` is what `oprofile_get_tb()` returns.
unfoldable pub athlon_start : (tb : ℕ) → Cpu → Cpu
athlon_start tb c = for_counters start_ctr num_counters 0 (record c { start_timestamp = tb })

unfoldable pub athlon_stop : Cpu → Cpu
athlon_stop c = for_counters (on_control ctrl_set_inactive) num_counters 0 c

-- The loop's body is that of `ppro_check_ctrs`; the time stamps are the three results of
-- `oprofile_get_tb()`. The interrupt's vector is left alone, so that its mask does not matter.
unfoldable pub athlon_check_ctrs :
    (add_sample : ℕ → OprofileCpuBuffer → OprofileCpuBuffer) (tb_end tb_start tb_last : ℕ)
    → Cpu
    → Cpu × ℕ
athlon_check_ctrs add_sample tb_end tb_start tb_last c =
    let checked = for_counters (check_ctr add_sample 0 tb_end) num_counters 0 (athlon_stop c) in
    (record (athlon_start tb_start checked) { start_timestamp = tb_last }, 1)
