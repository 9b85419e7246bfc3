-- ===== src/X86/Ppro/Overflow.antt =====
-- `ppro_check_ctrs` of x86/op_model_ppro.c: the overflow interrupt.
use rrprofile.Prelude.{ℕ, ◌≡◌, ◌≢◌, arith, if◌then◌else◌, Bool, get_or}
use rrprofile.CpuBuffer.{OprofileCpuBuffer, oprofile_add_sample_start, oprofile_add_sample_stop}
use rrprofile.X86.{ctr_value, ctr_overflowed, ctrl_set_active, ctrl_set_inactive}
use rrprofile.X86.Ppro.{
  Cpu, control_addr, counter_addr, check_ctr, ppro_start, ppro_stop, ppro_check_ctrs,
}
use rrprofile.X86.Ppro.Control.{control}

-- the two counters and the first control register are three registers
pub record IsWired (c : Cpu) : Type 0 where
  pub counters_ne : counter_addr c 0 ≢ counter_addr c 1
  pub first_ne : counter_addr c 0 ≢ control_addr c 0
  pub second_ne : counter_addr c 1 ≢ control_addr c 0

abbrev pub overflowed : Cpu → ℕ → Bool
overflowed c i = ctr_overflowed (c.file (counter_addr c i)).low

module _ (add_sample : ℕ → OprofileCpuBuffer → OprofileCpuBuffer) (lvt_masked : ℕ) where
  -- what is logged for a counter: the two time stamps, then the sample
  abbrev pub log_counter : (start stop : ℕ) → ℕ → OprofileCpuBuffer → OprofileCpuBuffer
  log_counter start stop i ring =
      add_sample i (oprofile_add_sample_stop (oprofile_add_sample_start ring start) stop)

  -- On a CPU whose registers are wired apart, `ppro_check_ctrs` logs a sample between its time stamps
  -- for each counter that has overflowed, the first counter first, and for no other; it reloads exactly
  -- those counters with their reset values, leaves the first control register active, dates the next
  -- period from its last time stamp, and returns 1.
  pub check_ctrs_lem :
      (tb_end tb_start tb_last : ℕ) (c : Cpu)
      → IsWired c
      → let r = ppro_check_ctrs add_sample lvt_masked tb_end tb_start tb_last c in
        let log = log_counter c.start_timestamp tb_end in
        let first = if overflowed c 0 then log 0 c.ring else c.ring in
        (r.0.ring ≡ (if overflowed c 1 then log 1 first else first))
        × (r.0.file (counter_addr c 0) ≡ (
            if overflowed c 0
            then ctr_value (get_or c.reset_value 0 0)
            else c.file (counter_addr c 0)))
        × (r.0.file (counter_addr c 1) ≡ (
            if overflowed c 1
            then ctr_value (get_or c.reset_value 1 0)
            else c.file (counter_addr c 1)))
        × ((r.0.file (control_addr c 0)).low ≡ ctrl_set_active (ctrl_set_inactive (control c).low))
        × (r.0.start_timestamp ≡ tb_last)
        × (r.1 ≡ 1)
  unfolding ppro_check_ctrs check_ctr ppro_start ppro_stop
  check_ctrs_lem tb_end tb_start tb_last c w = ground arith
