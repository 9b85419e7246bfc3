-- ===== src/X86/P4/Setup.antt =====
-- `p4_setup_ctrs` of x86/op_model_p4.c: the registers are cleared, and each enabled counter is bound to its
-- event.
pub mod Event
use rrprofile.Prelude.{
  for_counters, ℕ, zero, suc, ◌+◌, ◌-◌, ◌*◌, ◌%◌, ◌^◌, List, [], ◌∷◌, Bool, not, ◌==◌, ◌||◌, leb,
  ltb, if◌then◌else◌, get_or, set,
}
use Prim.Native.Nat.{bit_and}
use rrprofile.X86.{OpCounterConfig, MsrFile, no_config, no_register, wrmsr}
use rrprofile.X86.Ppro.{Cpu}
use rrprofile.X86.P4.{
  num_counters_non_ht, addr_increment, no_event, on_low, escr_clear, escr_set_usr_0, escr_set_os_0,
  escr_set_usr_1, escr_set_os_1, escr_set_event_select, escr_set_event_mask, cccr_clear,
  cccr_set_required_bits, cccr_set_escr_select, cccr_set_pmi_ovf_0, cccr_set_pmi_ovf_1, virt_ctr,
  cccr_at, ctr_write,
}
use rrprofile.X86.P4.Tables.{P4Msrs, P4EventBinding, EscrBinding, p4_events, p4_unused_cccr}

-- `NUM_EVENTS` and `NUM_UNUSED_CCCRS`
abbrev pub num_events : ℕ
num_events = 39

abbrev pub num_unused_cccrs : ℕ
num_unused_cccrs = 10

-- what `pmc_setup_one_p4_counter` makes of the ESCR of an event
unfoldable pub program_escr : (stag : ℕ) → OpCounterConfig → P4EventBinding → ℕ → ℕ
program_escr stag config ev escr =
    let cleared = escr_clear escr in
    let allowed =
      if stag == 0
      then escr_set_os_0 (escr_set_usr_0 cleared config.user) config.kernel
      else escr_set_os_1 (escr_set_usr_1 cleared config.user) config.kernel in
    escr_set_event_mask (escr_set_event_select allowed ev.event_select) config.unit_mask

-- what it makes of the CCCR of the counter
unfoldable pub program_cccr : (stag : ℕ) → P4EventBinding → ℕ → ℕ
program_cccr stag ev cccr =
    let selected = cccr_set_escr_select (cccr_set_required_bits (cccr_clear cccr)) ev.escr_select in
    if stag == 0 then cccr_set_pmi_ovf_0 selected else cccr_set_pmi_ovf_1 selected

-- a loop over addresses that clears each register: `end` is the first address after the last
unfoldable pub clear_range : (fuel end inc addr : ℕ) → MsrFile → MsrFile
clear_range zero end inc addr file = file
clear_range (suc fuel) end inc addr file =
    let rest = clear_range fuel end inc (addr + inc) (wrmsr addr no_register file) in
    if ltb addr end then rest else file

-- The address grows in each round, so that the fuel is enough.
abbrev pub clear_msrs : (inc first end : ℕ) → Cpu → Cpu
clear_msrs inc first end c = record c { file = clear_range (end - first) end inc first c.file }

abbrev pub clear_msr : ℕ → Cpu → Cpu
clear_msr a c = record c { file = wrmsr a no_register c.file }

abbrev pub reset_cccr : ℕ → ℕ
reset_cccr low = cccr_set_required_bits (cccr_clear low)

-- `n` is `num_counters`.
module _ (m : P4Msrs) (n stag : ℕ) where
  -- The loop over `bindings` of `pmc_setup_one_p4_counter`: the first binding that has the counter.
  abbrev pub bound : EscrBinding → (ctr : ℕ) → Bool
  bound b ctr = not (bit_and b.virt_counter (2 ^ virt_ctr m n stag ctr) == 0)

  abbrev pub program : OpCounterConfig → P4EventBinding → (escr ctr : ℕ) → Cpu → Cpu
  program config ev escr ctr c =
      on_low (program_cccr stag ev) (cccr_at m n stag ctr)
        (on_low (program_escr stag config ev) escr c)

  unfoldable pub pmc_setup_one_p4_counter : List OpCounterConfig → (ctr : ℕ) → Cpu → Cpu
  pmc_setup_one_p4_counter configs ctr c =
      let config = get_or configs ctr no_config in
      let ev = get_or (p4_events m) (config.event - 1) no_event in
      if config.event == 0 || ltb num_events config.event
      then c
      else if bound ev.first ctr
      then program config ev ev.first.escr_address ctr c
      else if bound ev.second ctr
      then program config ev ev.second.escr_address ctr c
      else c

-- `misc_enable` is the kernel's `MSR_IA32_MISC_ENABLE`.
module _ (m : P4Msrs) (n stag smp_num_siblings x86_model misc_enable : ℕ) where
  -- the loop over the CCCRs that are not used, from `i` on
  unfoldable pub clear_unused : (fuel i : ℕ) → Cpu → Cpu
  clear_unused zero i c = c
  clear_unused (suc fuel) i c =
      let rest =
        clear_unused fuel (i + addr_increment smp_num_siblings)
          (on_low reset_cccr (get_or (p4_unused_cccr m) i 0) c) in
      if ltb i num_unused_cccrs then rest else c

  -- the loops that clear the ESCRs
  unfoldable pub clear_escrs : Cpu → Cpu
  clear_escrs c =
      let inc = addr_increment smp_num_siblings in
      let bsus = clear_msrs inc (m.bsu_escr0 + stag) m.iq_escr0 c in
      let iqs =
        if ltb x86_model 3 then clear_msr m.iq_escr1 (clear_msr m.iq_escr0 bsus) else bsus in
      let rats = clear_msrs inc (m.rat_escr0 + stag) (m.ssu_escr0 + 1) iqs in
      let mss = clear_msrs inc (m.ms_escr0 + stag) (m.tc_escr1 + 1) rats in
      let ixs = clear_msrs inc (m.ix_escr0 + stag) (m.cru_escr3 + 1) mss in
      if n == num_counters_non_ht
      then clear_msr m.cru_escr5 (clear_msr m.cru_escr4 ixs)
      else if stag == 0
      then clear_msr m.cru_escr4 ixs
      else clear_msr m.cru_escr5 ixs

  -- the body of the last loop of `p4_setup_ctrs`
  unfoldable pub setup_ctr : List OpCounterConfig → ℕ → Cpu → Cpu
  unfolding pmc_setup_one_p4_counter
  setup_ctr configs i c =
      let config = get_or configs i no_config in
      if config.enabled == 0
      then record c { reset_value = set c.reset_value i 0 }
      else ctr_write m n stag config.count i (
          pmc_setup_one_p4_counter m n stag configs i
            (record c { reset_value = set c.reset_value i config.count }))

  unfoldable pub p4_setup_ctrs : List OpCounterConfig → Cpu → Cpu
  unfolding clear_unused clear_escrs setup_ctr
  p4_setup_ctrs configs c =
      if bit_and (c.file misc_enable).low (2 ^ 7) == 0
      then c
      else for_counters (setup_ctr configs) n 0 (
          clear_escrs (
            clear_unused num_unused_cccrs stag
              (for_counters (λ i. on_low reset_cccr (cccr_at m n stag i)) n 0 c)))
