-- ===== src/X86/P4/Check.antt =====
-- `p4_check_ctrs` of x86/op_model_p4.c: the overflow interrupt of a hyper-thread.
use rrprofile.Prelude.{
  for_counters, for_counters_at, ℕ, zero, suc, ◌+◌, ◌<◌, ◌≤◌, ◌≡◌, ◌≢◌, refl, ap, ap₂, sym, ◌∙◌,
  arith, if◌then◌else◌, Bool, not, ◌&&◌, ◌||◌, get_or, List, uint_mod, ◌-◌, ◌==◌, inl,
}
use Prim.Native.Nat.{bit_and}
use rrprofile.CpuBuffer.{OprofileCpuBuffer, oprofile_add_sample_start, oprofile_add_sample_stop}
use rrprofile.X86.{OpSavedMsr, ctr_value, ctr_overflowed}
use rrprofile.X86.Ppro.{Cpu}
use rrprofile.X86.P4.{
  counter_at, cccr_at, cccr_ovf_p, cccr_clear_ovf, p4_stop, check_ctr, p4_check_ctrs,
}
use rrprofile.X86.P4.Tables.{P4Msrs}
use rrprofile.X86.P4.Control.{
  activate, deactivate, IsWired, Holds, counters_apart, stop-cccr, stop-counter, start-cccr,
  start-counter, stop-ring, start-ring,
}

module _ (m : P4Msrs) (n stag : ℕ) where
  -- A counter with a reset value has overflowed, by its CCCR once it is stopped or by its top bit.
  abbrev pub is_due : Cpu → ℕ → Bool
  is_due c i =
      not (get_or c.reset_value i 0 == 0)
      && (cccr_ovf_p (deactivate (c.file (cccr_at m n stag i))).low
          || ctr_overflowed (c.file (counter_at m n stag i)).low)

  -- what a CCCR and a counter hold after their round: the upper half of the CCCR is the counter's
  abbrev pub checked_cccr : Cpu → ℕ → OpSavedMsr
  checked_cccr c i =
      let stopped = deactivate (c.file (cccr_at m n stag i)) in
      if is_due c i
      then record { low = cccr_clear_ovf stopped.low; high = (c.file (counter_at m n stag i)).high }
      else stopped

  abbrev pub checked_counter : Cpu → ℕ → OpSavedMsr
  checked_counter c i =
      if is_due c i then ctr_value (get_or c.reset_value i 0) else c.file (counter_at m n stag i)

  -- what is logged for the counters from `i` on
  abbrev pub log_due :
      (add_sample : ℕ → OprofileCpuBuffer → OprofileCpuBuffer) (start : ℕ) (stop : ℕ → ℕ) (c : Cpu)
      → (rounds i : ℕ) → OprofileCpuBuffer
      → OprofileCpuBuffer
  log_due add_sample start stop c zero i ring = ring
  log_due add_sample start stop c (suc rounds) i ring =
      log_due add_sample start stop c rounds (i + 1) (
        if is_due c i
        then add_sample i (oprofile_add_sample_stop (oprofile_add_sample_start ring start) (stop i))
        else ring)

  module _ (add_sample : ℕ → OprofileCpuBuffer → OprofileCpuBuffer) (lvt_masked tb_end : ℕ)
      (tb : ℕ → ℕ) (o : Cpu) (w : IsWired m n stag) where
    -- counter `i` of `c` as it is after `p4_stop` of `o`
    record IsStopped (i : ℕ) (c : Cpu) : Type 0 where
      reset : c.reset_value ≡ o.reset_value
      counter : c.file (counter_at m n stag i) ≡ o.file (counter_at m n stag i)
      cccr : c.file (cccr_at m n stag i) ≡ deactivate (o.file (cccr_at m n stag i))

    record IsChecked (i : ℕ) (c : Cpu) : Type 0 where
      reset : c.reset_value ≡ o.reset_value
      counter : c.file (counter_at m n stag i) ≡ checked_counter o i
      cccr : c.file (cccr_at m n stag i) ≡ checked_cccr o i

    check_ctr-other :
        (i : ℕ) (a : ℕ) (v : OpSavedMsr) (c : Cpu)
        → a ≢ counter_at m n stag i
        → a ≢ cccr_at m n stag i
        → Holds m n stag o a v c
        → Holds m n stag o a v (check_ctr m n stag add_sample lvt_masked tb_end tb i c)
    unfolding check_ctr
    check_ctr-other i a v c ne ne' h = record {
      reset = ground (arith, h.reset);
      value = ground (arith, h.value);
    }

    check_ctr-own :
        (i : ℕ) (c : Cpu)
        → counter_at m n stag i ≢ cccr_at m n stag i
        → IsStopped i c
        → IsChecked i (check_ctr m n stag add_sample lvt_masked tb_end tb i c)
    unfolding check_ctr
    check_ctr-own i c apart h = record {
      reset = ground (arith, h.reset);
      counter = ground (arith, h.reset, h.counter, h.cccr);
      cccr = ground (arith, h.reset, h.counter, h.cccr);
    }

    check_ctr-ring :
        (i : ℕ) (c : Cpu)
        → IsStopped i c
        → (check_ctr m n stag add_sample lvt_masked tb_end tb i c).ring ≡ (
            if is_due o i
            then add_sample i
                (oprofile_add_sample_stop (oprofile_add_sample_start c.ring tb_end) (tb i))
            else c.ring)
    unfolding check_ctr
    check_ctr-ring i c h = ground (arith, h.reset, h.counter, h.cccr)

    -- the rounds of the other counters
    module _ (i k : ℕ) (c : Cpu) (small : i < n) (max : k < n) (ne : i ≢ k) where
      other-IsStopped :
          IsStopped i c → IsStopped i (check_ctr m n stag add_sample lvt_masked tb_end tb k c)
      other-IsStopped h =
          let (counters, cccrs) = counters_apart m n stag w i k small max ne in
          let counter =
            check_ctr-other k (counter_at m n stag i) _ c counters (w.apart i k small max)
              (record { reset = h.reset; value = h.counter }) in
          let cccr =
            check_ctr-other k (cccr_at m n stag i) _ c (λ e. w.apart k i max small (sym e)) cccrs
              (record { reset = h.reset; value = h.cccr }) in
          record { reset = counter.reset; counter = counter.value; cccr = cccr.value }

      other-IsChecked :
          IsChecked i c → IsChecked i (check_ctr m n stag add_sample lvt_masked tb_end tb k c)
      other-IsChecked h =
          let (counters, cccrs) = counters_apart m n stag w i k small max ne in
          let counter =
            check_ctr-other k (counter_at m n stag i) _ c counters (w.apart i k small max)
              (record { reset = h.reset; value = h.counter }) in
          let cccr =
            check_ctr-other k (cccr_at m n stag i) _ c (λ e. w.apart k i max small (sym e)) cccrs
              (record { reset = h.reset; value = h.cccr }) in
          record { reset = counter.reset; counter = counter.value; cccr = cccr.value }

    check-IsChecked :
        (i : ℕ) (c : Cpu)
        → i < n
        → IsStopped i c
        → IsChecked i (for_counters (check_ctr m n stag add_sample lvt_masked tb_end tb) n 0 c)
    check-IsChecked i c small h =
        for_counters_at (check_ctr m n stag add_sample lvt_masked tb_end tb) n (IsStopped i)
          (IsChecked i) i small (λ c h. check_ctr-own i c (w.apart i i small small) h)
          (λ k c lt h. other-IsStopped i k c small (omega arith) (λ e. omega arith) h)
          (λ k c lt max h. other-IsChecked i k c small max (λ e. omega arith) h) n 0 c (omega arith)
          (inl (omega arith, h))

    check-ring :
        (rounds i : ℕ) (c : Cpu)
        → i + rounds ≡ n
        → ((j : ℕ) → i ≤ j → j < n → IsStopped j c)
        → (for_counters (check_ctr m n stag add_sample lvt_masked tb_end tb) rounds i c).ring
          ≡ log_due add_sample tb_end tb o rounds i c.ring
    check-ring zero i c all h = refl
    check-ring (suc rounds) i c all h =
        check-ring rounds (i + 1) (check_ctr m n stag add_sample lvt_masked tb_end tb i c)
          (omega arith)
          (λ j le lt.
            other-IsStopped j i c lt (omega arith) (λ e. omega arith) (h j (omega arith) lt))
        ∙ ap (log_due add_sample tb_end tb o rounds (i + 1))
            (check_ctr-ring i c (h i (omega arith) (omega arith)))

    -- On a hyper-thread whose counters and CCCRs are different registers, `p4_check_ctrs` logs a sample
    -- for each counter that has a reset value and that has overflowed, by its CCCR or by its top bit,
    -- in the counters' order and for no other, between the time of the interrupt and the time of the
    -- sample; it reloads exactly those counters; their CCCRs lose the overflow flag and get the upper
    -- half of the counter for their own; every CCCR is stopped and, where its counter has a reset
    -- value, started again; the result is 1.
    pub p4_check_ctrs_lem :
        (tb_start tb_last i : ℕ)
        → i < n
        → let r = p4_check_ctrs m n stag add_sample lvt_masked tb_end tb tb_start tb_last o in
          (r.0.ring ≡ log_due add_sample tb_end tb o n 0 o.ring)
          × (r.0.file (counter_at m n stag i) ≡ checked_counter o i)
          × (r.0.file (cccr_at m n stag i) ≡ (
              if get_or o.reset_value i 0 == 0
              then checked_cccr o i
              else activate (checked_cccr o i)))
          × (r.0.start_timestamp ≡ tb_last)
          × (r.1 ≡ 1)
    unfolding p4_check_ctrs
    p4_check_ctrs_lem tb_start tb_last i small =
        let s = p4_stop m n stag o in
        let stopped : ((j : ℕ) → 0 ≤ j → j < n → IsStopped j s) = λ j le lt. record {
          reset = (stop-cccr m n stag o w j lt).reset;
          counter = (stop-counter m n stag o w j lt).value;
          cccr = (stop-cccr m n stag o w j lt).value;
        } in
        let k = for_counters (check_ctr m n stag add_sample lvt_masked tb_end tb) n 0 s in
        let checked = check-IsChecked i s small (stopped i (omega arith) small) in
        let unmasked = record k { lvtpc = bit_and k.lvtpc (uint_mod - 1 - lvt_masked) } in
        let ring = check-ring n 0 s (omega arith) stopped in
        (
          start-ring m n stag tb_start unmasked
              ∙ ring
              ∙ ap (log_due add_sample tb_end tb o n 0) (stop-ring m n stag o),
          (start-counter m n stag unmasked w i small tb_start).value ∙ checked.counter,
          (start-cccr m n stag unmasked w i small tb_start).value
              ∙ ap₂ (λ (r : List ℕ) (v : OpSavedMsr). if get_or r i 0 == 0 then v else activate v)
                  checked.reset checked.cccr,
          refl,
          refl,
        )
