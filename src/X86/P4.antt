-- ===== src/X86/P4.antt =====
-- x86/op_model_p4.c: the counters of the Pentium 4, which two hyper-threads divide. The state is that of
-- `X86.Ppro`; the addresses of the registers are the kernel's.
pub mod Tables
pub mod Fill
pub mod Setup
pub mod Control
pub mod Check
use rrprofile.Prelude.{
  for_counters, ℕ, zero, suc, ◌+◌, ◌-◌, ◌*◌, ◌/◌, ◌%◌, ◌^◌, List, [], ◌∷◌, Bool, ◌==◌, not, ◌||◌,
  leb, ltb, if◌then◌else◌, get_or, set, uint_mod,
}
use Prim.Native.Nat.{bit_and, bit_or}
use rrprofile.CpuBuffer.{OprofileCpuBuffer, oprofile_add_sample_start, oprofile_add_sample_stop}
use rrprofile.X86.{
  OpSavedMsr, OpCounterConfig, no_register, no_config, wrmsr, ctr_value, ctr_overflowed,
}
use rrprofile.X86.Ppro.{Cpu}
use rrprofile.X86.P4.Tables.{
  P4Msrs, P4CounterBinding, P4EventBinding, EscrBinding, p4_counters, p4_events,
}

abbrev pub num_counters_non_ht : ℕ
num_counters_non_ht = 8

abbrev pub num_counters_ht2 : ℕ
num_counters_ht2 = 4

-- the variable `num_counters` once `setup_num_counters` has run
abbrev pub setup_num_counters : (smp_num_siblings : ℕ) → ℕ
setup_num_counters smp_num_siblings =
    if smp_num_siblings == 2 then num_counters_ht2 else num_counters_non_ht

abbrev pub addr_increment : (smp_num_siblings : ℕ) → ℕ
addr_increment smp_num_siblings = if smp_num_siblings == 2 then 2 else 1

-- `get_stagger` on a CPU, whose first sibling is `cpumask_first` of its siblings
abbrev pub get_stagger : (cpu first : ℕ) → ℕ
get_stagger cpu first = if cpu == first then 0 else 1

abbrev pub no_binding : P4CounterBinding
no_binding = record { virt_counter = 0; counter_address = 0; cccr_address = 0 }

abbrev pub no_event : P4EventBinding
no_event = record {
  escr_select = 0;
  event_select = 0;
  first = record { virt_counter = 0; escr_address = 0 };
  second = record { virt_counter = 0; escr_address = 0 };
}

-- `rdmsr`, a change of the lower half, and `wrmsr`
abbrev pub on_low : (ℕ → ℕ) → ℕ → Cpu → Cpu
on_low f a c = record c {
  file = wrmsr a (let value = c.file a in record value { low = f value.low }) c.file;
}

-- the macros on an ESCR
abbrev pub escr_clear : ℕ → ℕ
escr_clear escr = bit_and escr 0x80000003

abbrev pub escr_set_usr_0 : ℕ → ℕ → ℕ
escr_set_usr_0 escr usr = bit_or escr ((usr % 2) * 2 ^ 2)

abbrev pub escr_set_os_0 : ℕ → ℕ → ℕ
escr_set_os_0 escr os = bit_or escr ((os % 2) * 2 ^ 3)

abbrev pub escr_set_usr_1 : ℕ → ℕ → ℕ
escr_set_usr_1 escr usr = bit_or escr (usr % 2)

abbrev pub escr_set_os_1 : ℕ → ℕ → ℕ
escr_set_os_1 escr os = bit_or escr ((os % 2) * 2)

abbrev pub escr_set_event_select : ℕ → ℕ → ℕ
escr_set_event_select escr sel = bit_or escr ((sel % 2 ^ 6) * 2 ^ 25)

abbrev pub escr_set_event_mask : ℕ → ℕ → ℕ
escr_set_event_mask escr mask = bit_or escr ((mask % 2 ^ 16) * 2 ^ 9)

-- the macros on a CCCR
abbrev pub cccr_clear : ℕ → ℕ
cccr_clear cccr = bit_and cccr 0x38030fff

abbrev pub cccr_set_required_bits : ℕ → ℕ
cccr_set_required_bits cccr = bit_or cccr 0x00030000

abbrev pub cccr_set_escr_select : ℕ → ℕ → ℕ
cccr_set_escr_select cccr sel = bit_or cccr ((sel % 2 ^ 3) * 2 ^ 13)

abbrev pub cccr_set_pmi_ovf_0 : ℕ → ℕ
cccr_set_pmi_ovf_0 cccr = bit_or cccr (2 ^ 26)

abbrev pub cccr_set_pmi_ovf_1 : ℕ → ℕ
cccr_set_pmi_ovf_1 cccr = bit_or cccr (2 ^ 27)

abbrev pub cccr_set_enable : ℕ → ℕ
cccr_set_enable cccr = bit_or cccr (2 ^ 12)

abbrev pub cccr_set_disable : ℕ → ℕ
cccr_set_disable cccr = bit_and cccr (uint_mod - 1 - 2 ^ 12)

abbrev pub cccr_ovf_p : ℕ → Bool
cccr_ovf_p cccr = not (bit_and cccr (2 ^ 31) == 0)

abbrev pub cccr_clear_ovf : ℕ → ℕ
cccr_clear_ovf cccr = bit_and cccr (2 ^ 31 - 1)

-- `n` is `num_counters`, and `stag` what `get_stagger` returns on the CPU.
module _ (m : P4Msrs) (n stag : ℕ) where
  -- `VIRT_CTR(stag, i)`, and the addresses of the virtual counter and of its CCCR
  abbrev pub virt_ctr : ℕ → ℕ
  virt_ctr i = i + n * stag

  abbrev pub counter_at : ℕ → ℕ
  counter_at i = (get_or (p4_counters m) (virt_ctr i) no_binding).counter_address

  abbrev pub cccr_at : ℕ → ℕ
  cccr_at i = (get_or (p4_counters m) (virt_ctr i) no_binding).cccr_address

  -- `CTR_WRITE(l, VIRT_CTR(stag, i))`
  abbrev pub ctr_write : ℕ → ℕ → Cpu → Cpu
  ctr_write l i c = record c { file = wrmsr (counter_at i) (ctr_value l) c.file }

  -- the body of the loop of `p4_start`
  unfoldable pub start_ctr : ℕ → Cpu → Cpu
  start_ctr i c = if get_or c.reset_value i 0 == 0 then c else on_low cccr_set_enable (cccr_at i) c

  -- `tb` is what `oprofile_get_tb()` returns.
  unfoldable pub p4_start : (tb : ℕ) → Cpu → Cpu
  p4_start tb c = for_counters start_ctr n 0 (record c { start_timestamp = tb })

  unfoldable pub p4_stop : Cpu → Cpu
  p4_stop c = for_counters (λ i. on_low cccr_set_disable (cccr_at i)) n 0 c

  -- `add_sample` is `oprofile_add_sample(regs, i)` for the interrupted context, `lvt_masked` is the
  -- kernel's `APIC_LVT_MASKED`.
  module _ (add_sample : ℕ → OprofileCpuBuffer → OprofileCpuBuffer) (lvt_masked : ℕ) where
    -- The body of the loop of `p4_check_ctrs`: `tb` is what `oprofile_get_tb()` returns for the
    -- counter. The upper half that is written to the CCCR is that of the counter, which was read
    -- into the same variable.
    unfoldable pub check_ctr : (end_timestamp : ℕ) (tb : ℕ → ℕ) → ℕ → Cpu → Cpu
    check_ctr end_timestamp tb i c =
        let reset = get_or c.reset_value i 0 in
        let cccr = c.file (cccr_at i) in
        let ctr = c.file (counter_at i) in
        if reset == 0
        then c
        else if cccr_ovf_p cccr.low || ctr_overflowed ctr.low
        then (let logged = record c {
          ring =
              add_sample i
                (oprofile_add_sample_stop (oprofile_add_sample_start c.ring end_timestamp) (tb i));
        } in
            let written = ctr_write reset i logged in
            let cleared = record written {
              file =
                  wrmsr (cccr_at i) (record { low = cccr_clear_ovf cccr.low; high = ctr.high })
                    written.file;
            } in
            ctr_write reset i cleared)
        else c

    -- `tb_end`, `tb`, `tb_start` and `tb_last` are the results of `oprofile_get_tb()`, in order.
    unfoldable pub p4_check_ctrs : (tb_end : ℕ) (tb : ℕ → ℕ) (tb_start tb_last : ℕ) → Cpu → Cpu × ℕ
    p4_check_ctrs tb_end tb tb_start tb_last c =
        let checked = for_counters (check_ctr tb_end tb) n 0 (p4_stop c) in
        let unmasked = record checked {
          lvtpc = bit_and checked.lvtpc (uint_mod - 1 - lvt_masked);
        } in
        (record (p4_start tb_start unmasked) { start_timestamp = tb_last }, 1)
