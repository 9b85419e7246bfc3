-- ===== src/X86/Athlon/Check.antt =====
-- `athlon_check_ctrs` of x86/op_model_athlon.c: the overflow interrupt.
use rrprofile.Prelude.{
  for_counters, for_counters-keeps, for_counters_at, ℕ, zero, suc, ◌+◌, ◌<◌, ◌≤◌, ◌≡◌, ◌≢◌, refl,
  ap, ap₂, sym, ◌∙◌, arith, if◌then◌else◌, Bool, get_or, List, ◌==◌, inl,
}
use rrprofile.CpuBuffer.{OprofileCpuBuffer, oprofile_add_sample_start, oprofile_add_sample_stop}
use rrprofile.X86.{OpSavedMsr, OpMsrs, no_msr, ctr_value, ctr_overflowed, ctrl_set_inactive}
use rrprofile.X86.Ppro.{Cpu, control_addr, counter_addr, on_control, check_ctr}
use rrprofile.X86.Athlon.{num_counters, start_ctr, athlon_start, athlon_stop, athlon_check_ctrs}
use rrprofile.X86.Athlon.Sees.{
  IsWired, Sees, activate, deactivate, on_halves-own, on_halves-other, start_ctr-own,
  start_ctr-other,
}

abbrev pub overflowed : Cpu → ℕ → Bool
overflowed c i = ctr_overflowed (c.file (counter_addr c i)).low

-- what is logged for the counters from `i` on: for each that has overflowed the two time stamps, then
-- the sample
abbrev pub log_overflows :
    (add_sample : ℕ → OprofileCpuBuffer → OprofileCpuBuffer) (stop : ℕ) (c : Cpu) (n i : ℕ)
    → OprofileCpuBuffer
    → OprofileCpuBuffer
log_overflows add_sample stop c zero i ring = ring
log_overflows add_sample stop c (suc n) i ring = log_overflows add_sample stop c n (i + 1) (
    if overflowed c i
    then add_sample i
        (oprofile_add_sample_stop (oprofile_add_sample_start ring c.start_timestamp) stop)
    else ring)

-- `c` has the addresses, the reset values and the start of the period of `o`.
record IsLike (o c : Cpu) : Type 0 where
  msrs : c.msrs ≡ o.msrs
  reset : c.reset_value ≡ o.reset_value
  start : c.start_timestamp ≡ o.start_timestamp

module _ (o : Cpu) (w : IsWired o) (i : ℕ) (small : i < num_counters) where
  -- the counters are out of the control registers' way
  stop-counter : (athlon_stop o).file (counter_addr o i) ≡ o.file (counter_addr o i)
  unfolding athlon_stop
  stop-counter = ground (
    arith,
    w.apart i 0 small (omega arith),
    w.apart i 1 small (omega arith),
    w.apart i 2 small (omega arith),
    w.apart i 3 small (omega arith),
  )

  stop-control : Sees o (control_addr o i) (deactivate (o.file (control_addr o i))) (athlon_stop o)
  unfolding athlon_stop
  stop-control =
      let a = control_addr o i in
      let v = o.file a in
      for_counters_at (on_control ctrl_set_inactive) num_counters (Sees o a v)
        (Sees o a (deactivate v)) i small (on_halves-own o i v deactivate)
        (λ k c lt s.
          on_halves-other o a v deactivate k c (λ e. w.controls_ne k i lt small (sym e)) s)
        (λ k c lt max s. on_halves-other o a _ deactivate k c (w.controls_ne i k lt max) s)
        num_counters 0 o refl
        (inl (omega arith, record { msrs = refl; reset = refl; value = refl }))

  start-counter : (tb : ℕ) → (athlon_start tb o).file (counter_addr o i) ≡ o.file (counter_addr o i)
  unfolding athlon_start start_ctr
  start-counter tb = ground (
    arith,
    w.apart i 0 small (omega arith),
    w.apart i 1 small (omega arith),
    w.apart i 2 small (omega arith),
    w.apart i 3 small (omega arith),
  )

  start-control :
      (tb : ℕ)
      → Sees o
          (control_addr o i)
          (let value = o.file (control_addr o i) in
            if get_or o.reset_value i 0 == 0 then value else activate value)
          (athlon_start tb o)
  unfolding athlon_start
  start-control tb =
      let a = control_addr o i in
      let v = o.file a in
      for_counters_at start_ctr num_counters (Sees o a v)
        (Sees o a (if get_or o.reset_value i 0 == 0 then v else activate v)) i small
        (start_ctr-own o i v)
        (λ k c lt s. start_ctr-other o a v k c (λ e. w.controls_ne k i lt small (sym e)) s)
        (λ k c lt max s. start_ctr-other o a _ k c (w.controls_ne i k lt max) s) num_counters 0
        (record o { start_timestamp = tb }) refl
        (inl (omega arith, record { msrs = refl; reset = refl; value = refl }))

stop-IsLike : (o : Cpu) → IsLike o (athlon_stop o)
unfolding athlon_stop
stop-IsLike o = record { msrs = refl; reset = refl; start = refl }

stop-ring : (o : Cpu) → (athlon_stop o).ring ≡ o.ring
unfolding athlon_stop
stop-ring o = refl

start-ring : (tb : ℕ) (o : Cpu) → (athlon_start tb o).ring ≡ o.ring
unfolding athlon_start start_ctr
start-ring tb o = ground arith

module _ (add_sample : ℕ → OprofileCpuBuffer → OprofileCpuBuffer) (stop : ℕ) (o : Cpu) where
  check_ctr-IsLike : (i : ℕ) (c : Cpu) → IsLike o c → IsLike o (check_ctr add_sample 0 stop i c)
  unfolding check_ctr
  check_ctr-IsLike i c l = record {
    msrs = ground (arith, l.msrs);
    reset = ground (arith, l.reset);
    start = ground (arith, l.start);
  }

  check_ctr-other :
      (a i : ℕ) (c : Cpu)
      → a ≢ counter_addr o i
      → IsLike o c
      → (check_ctr add_sample 0 stop i c).file a ≡ c.file a
  unfolding check_ctr
  check_ctr-other a i c ne l = ground (arith, l.msrs)

  check_ctr-own :
      (i : ℕ) (c : Cpu)
      → IsLike o c
      → (check_ctr add_sample 0 stop i c).file (counter_addr o i) ≡ (
          if ctr_overflowed (c.file (counter_addr o i)).low
          then ctr_value (get_or o.reset_value i 0)
          else c.file (counter_addr o i))
  unfolding check_ctr
  check_ctr-own i c l = ground (arith, l.msrs, l.reset)

  check_ctr-ring :
      (i : ℕ) (c : Cpu)
      → IsLike o c
      → c.file (counter_addr o i) ≡ o.file (counter_addr o i)
      → (check_ctr add_sample 0 stop i c).ring ≡ (
          if overflowed o i
          then add_sample i
              (oprofile_add_sample_stop (oprofile_add_sample_start c.ring o.start_timestamp) stop)
          else c.ring)
  unfolding check_ctr
  check_ctr-ring i c l same = ground (arith, l.msrs, l.start)

  module _ (w : IsWired o) where
    check-ring :
        (n i : ℕ) (c : Cpu)
        → i + n ≡ num_counters
        → IsLike o c
        → ((j : ℕ)
            → i ≤ j
            → j < num_counters
            → c.file (counter_addr o j) ≡ o.file (counter_addr o j))
        → (for_counters (check_ctr add_sample 0 stop) n i c).ring
          ≡ log_overflows add_sample stop o n i c.ring
    check-ring zero i c whole l same = refl
    check-ring (suc n) i c whole l same =
        check-ring n (i + 1) (check_ctr add_sample 0 stop i c) (omega arith)
          (check_ctr-IsLike i c l)
          (λ j le lt.
            check_ctr-other (counter_addr o j) i c (λ e. w.counters_ne i j (omega arith) lt (sym e))
              l
            ∙ same j (omega arith) lt)
        ∙ ap (log_overflows add_sample stop o n (i + 1))
            (check_ctr-ring i c l (same i (omega arith) (omega arith)))

    check-counter :
        (i : ℕ) (c : Cpu)
        → i < num_counters
        → IsLike o c
        → c.file (counter_addr o i) ≡ o.file (counter_addr o i)
        → IsLike o (for_counters (check_ctr add_sample 0 stop) num_counters 0 c)
          × ((for_counters (check_ctr add_sample 0 stop) num_counters 0 c).file (counter_addr o i)
              ≡ (if overflowed o i
                  then ctr_value (get_or o.reset_value i 0)
                  else o.file (counter_addr o i)))
    check-counter i c small l same =
        let a = counter_addr o i in
        let v = if overflowed o i then ctr_value (get_or o.reset_value i 0) else o.file a in
        for_counters_at (check_ctr add_sample 0 stop) num_counters
          (λ c. IsLike o c × (c.file a ≡ o.file a)) (λ c. IsLike o c × (c.file a ≡ v)) i small
          (λ c h. (check_ctr-IsLike i c h.0, rw (← h.1) (check_ctr-own i c h.0)))
          (λ k c lt h. (
            check_ctr-IsLike k c h.0,
            check_ctr-other a k c (λ e. w.counters_ne k i lt small (sym e)) h.0 ∙ h.1,
          ))
          (λ k c lt max h.
            (check_ctr-IsLike k c h.0, check_ctr-other a k c (w.counters_ne i k lt max) h.0 ∙ h.1))
          num_counters 0 c refl (inl (omega arith, (l, same)))

    check-control :
        (i : ℕ) (c : Cpu)
        → i < num_counters
        → IsLike o c
        → (for_counters (check_ctr add_sample 0 stop) num_counters 0 c).file (control_addr o i)
          ≡ c.file (control_addr o i)
    check-control i c small l =
        let a = control_addr o i in
        (for_counters-keeps (check_ctr add_sample 0 stop) num_counters
          (λ d. IsLike o d × (d.file a ≡ c.file a))
          (λ k d max h. (
            check_ctr-IsLike k d h.0,
            check_ctr-other a k d (λ e. w.apart k i max small (sym e)) h.0 ∙ h.1,
          ))
          num_counters 0 c refl (l, refl)).1

IsLike-IsWired : (o c : Cpu) → IsLike o c → IsWired o → IsWired c
IsLike-IsWired o c l w = record {
  counters_ne = λ i j lt max. rw l.msrs (w.counters_ne i j lt max);
  controls_ne = λ i j lt max. rw l.msrs (w.controls_ne i j lt max);
  apart = λ i j p q. rw l.msrs (w.apart i j p q);
}

-- On a CPU whose registers are wired apart, `athlon_check_ctrs` logs a sample between its time stamps
-- for each counter that has overflowed, in the counters' order, and for no other; it reloads exactly
-- those counters with their reset values; every control register is stopped and, where its counter
-- has a reset value, started again; the next period is dated from the last time stamp, and the
-- result is 1.
pub athlon_check_ctrs_lem :
    (add_sample : ℕ → OprofileCpuBuffer → OprofileCpuBuffer) (tb_end tb_start tb_last i : ℕ)
    (c : Cpu)
    → i < num_counters
    → IsWired c
    → let r = athlon_check_ctrs add_sample tb_end tb_start tb_last c in
      let stopped = deactivate (c.file (control_addr c i)) in
      (r.0.ring ≡ log_overflows add_sample tb_end c num_counters 0 c.ring)
      × (r.0.file (counter_addr c i) ≡ (
          if overflowed c i
          then ctr_value (get_or c.reset_value i 0)
          else c.file (counter_addr c i)))
      × (r.0.file (control_addr c i)
          ≡ (if get_or c.reset_value i 0 == 0 then stopped else activate stopped))
      × (r.0.start_timestamp ≡ tb_last)
      × (r.1 ≡ 1)
unfolding athlon_check_ctrs
athlon_check_ctrs_lem add_sample tb_end tb_start tb_last i c small w =
    let s = athlon_stop c in
    let like = stop-IsLike c in
    let k = for_counters (check_ctr add_sample 0 tb_end) num_counters 0 s in
    let same = λ (j : ℕ) (le : 0 ≤ j) (lt : j < num_counters). stop-counter c w j lt in
    let (alike, counter) =
      check-counter add_sample tb_end c w i s small like (stop-counter c w i small) in
    let control = check-control add_sample tb_end c w i s small like in
    let ring = check-ring add_sample tb_end c w num_counters 0 s refl like same in
    let wired = IsLike-IsWired c k alike w in
    let a : counter_addr k i ≡ counter_addr c i =
      ap (λ (m : OpMsrs). (get_or m.counters i no_msr).addr) alike.msrs in
    let b : control_addr k i ≡ control_addr c i =
      ap (λ (m : OpMsrs). (get_or m.controls i no_msr).addr) alike.msrs in
    let started = athlon_start tb_start k in
    (
      start-ring tb_start k
          ∙ ring
          ∙ ap (log_overflows add_sample tb_end c num_counters 0) (stop-ring c),
      ap started.file (sym a) ∙ start-counter k wired i small tb_start ∙ ap k.file a ∙ counter,
      ap started.file (sym b)
          ∙ (start-control k wired i small tb_start).value
          ∙ ap₂ (λ (r : List ℕ) (v : OpSavedMsr). if get_or r i 0 == 0 then v else activate v)
              alike.reset (ap k.file b ∙ control ∙ (stop-control c w i small).value),
      refl,
      refl,
    )
