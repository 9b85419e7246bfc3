-- ===== src/X86/Athlon/Sees.antt =====
-- A register of a CPU through the loops of x86/op_model_athlon.c: one round writes it, the others leave it.
use rrprofile.Prelude.{ℕ, ◌<◌, ◌≡◌, ◌≢◌, arith, ◌==◌, if◌then◌else◌, get_or, inl, inr, Bool-cases}
use rrprofile.X86.{OpSavedMsr, ctrl_set_active, ctrl_set_inactive}
use rrprofile.X86.Ppro.{Cpu, control_addr, counter_addr, ctr_write}
use rrprofile.X86.Athlon.{num_counters, on_halves, start_ctr}

-- the four counters and the four control registers are eight registers
pub record IsWired (c : Cpu) : Type 0 where
  pub counters_ne : (i j : ℕ) → i < j → j < num_counters → counter_addr c i ≢ counter_addr c j
  pub controls_ne : (i j : ℕ) → i < j → j < num_counters → control_addr c i ≢ control_addr c j
  pub apart : (i j : ℕ) → i < num_counters → j < num_counters → counter_addr c i ≢ control_addr c j

-- what a round of `athlon_start` and a round of `athlon_stop` do to a control register
abbrev pub activate : OpSavedMsr → OpSavedMsr
activate value = record value { low = ctrl_set_active value.low }

abbrev pub deactivate : OpSavedMsr → OpSavedMsr
deactivate value = record value { low = ctrl_set_inactive value.low }

-- `c` has the addresses and the reset values of `o`, and holds `v` at the address `a`.
pub record Sees (o : Cpu) (a : ℕ) (v : OpSavedMsr) (c : Cpu) : Type 0 where
  pub msrs : c.msrs ≡ o.msrs
  pub reset : c.reset_value ≡ o.reset_value
  pub value : c.file a ≡ v

module _ (o : Cpu) (a : ℕ) (v : OpSavedMsr) where
  pub on_halves-other :
      (f : OpSavedMsr → OpSavedMsr) (i : ℕ) (c : Cpu)
      → a ≢ control_addr o i
      → Sees o a v c
      → Sees o a v (on_halves f i c)
  on_halves-other f i c other s = record {
    msrs = s.msrs;
    reset = s.reset;
    value = ground (arith, s.msrs, s.value);
  }

  pub ctr_write-other :
      (l i : ℕ) (c : Cpu) → a ≢ counter_addr o i → Sees o a v c → Sees o a v (ctr_write l i c)
  ctr_write-other l i c other s = record {
    msrs = s.msrs;
    reset = s.reset;
    value = ground (arith, s.msrs, s.value);
  }

  pub start_ctr-other :
      (i : ℕ) (c : Cpu) → a ≢ control_addr o i → Sees o a v c → Sees o a v (start_ctr i c)
  unfolding start_ctr
  start_ctr-other i c other s = elim (Bool-cases (get_or c.reset_value i 0 == 0)) [
    | inl idle ↦ rw idle s
    | inr busy ↦ rw busy (on_halves-other activate i c other s)
  ]

module _ (o : Cpu) (i : ℕ) (v : OpSavedMsr) where
  pub on_halves-own :
      (f : OpSavedMsr → OpSavedMsr) (c : Cpu)
      → Sees o (control_addr o i) v c
      → Sees o (control_addr o i) (f v) (on_halves f i c)
  on_halves-own f c s = record {
    msrs = s.msrs;
    reset = s.reset;
    value = ground (arith, s.msrs, s.value);
  }

  pub start_ctr-own :
      (c : Cpu)
      → Sees o (control_addr o i) v c
      → Sees o
          (control_addr o i)
          (if get_or o.reset_value i 0 == 0 then v else activate v)
          (start_ctr i c)
  unfolding start_ctr
  start_ctr-own c s = record {
    msrs = ground (arith, s.msrs);
    reset = ground (arith, s.reset);
    value = ground (arith, s.msrs, s.value, s.reset);
  }
