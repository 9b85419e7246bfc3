-- ===== src/X86/P4/Control.antt =====
-- `p4_start` and `p4_stop` of x86/op_model_p4.c: the CCCRs of a hyper-thread.
use rrprofile.Prelude.{
  for_counters-keeps, for_counters_at, ℕ, ◌<◌, ◌≡◌, ◌≢◌, refl, sym, arith, if◌then◌else◌, get_or,
  ltb, ◌==◌, inl, inr, Bool-cases,
}
use rrprofile.X86.{OpSavedMsr}
use rrprofile.X86.Ppro.{Cpu}
use rrprofile.X86.P4.{
  counter_at, cccr_at, on_low, cccr_set_enable, cccr_set_disable, start_ctr, p4_start, p4_stop,
}
use rrprofile.X86.P4.Tables.{P4Msrs}

-- what a round of `p4_start` and a round of `p4_stop` do to a CCCR
abbrev pub activate : OpSavedMsr → OpSavedMsr
activate value = record value { low = cccr_set_enable value.low }

abbrev pub deactivate : OpSavedMsr → OpSavedMsr
deactivate value = record value { low = cccr_set_disable value.low }

module _ (m : P4Msrs) (n stag : ℕ) where
  -- the counters and the CCCRs of the thread are different registers
  pub record IsWired : Type 0 where
    pub counters_ne : (i j : ℕ) → i < j → j < n → counter_at m n stag i ≢ counter_at m n stag j
    pub cccrs_ne : (i j : ℕ) → i < j → j < n → cccr_at m n stag i ≢ cccr_at m n stag j
    pub apart : (i j : ℕ) → i < n → j < n → counter_at m n stag i ≢ cccr_at m n stag j

  -- `c` has the reset values of `o`, and holds `v` at the address `a`.
  pub record Holds (o : Cpu) (a : ℕ) (v : OpSavedMsr) (c : Cpu) : Type 0 where
    pub reset : c.reset_value ≡ o.reset_value
    pub value : c.file a ≡ v

  pub on_low-other :
      (f : ℕ → ℕ) (o : Cpu) (a b : ℕ) (v : OpSavedMsr) (c : Cpu)
      → a ≢ b
      → Holds o a v c
      → Holds o a v (on_low f b c)
  on_low-other f o a b v c ne h = record { reset = h.reset; value = ground (arith, h.value) }

  pub on_low-own :
      (f : ℕ → ℕ) (o : Cpu) (a : ℕ) (v : OpSavedMsr) (c : Cpu)
      → Holds o a v c
      → Holds o a (record v { low = f v.low }) (on_low f a c)
  on_low-own f o a v c h = record { reset = h.reset; value = ground (arith, h.value) }

  pub start_ctr-other :
      (o : Cpu) (a i : ℕ) (v : OpSavedMsr) (c : Cpu)
      → a ≢ cccr_at m n stag i
      → Holds o a v c
      → Holds o a v (start_ctr m n stag i c)
  unfolding start_ctr
  start_ctr-other o a i v c ne h = elim (Bool-cases (get_or c.reset_value i 0 == 0)) [
    | inl idle ↦ rw idle h
    | inr busy ↦ rw busy (on_low-other cccr_set_enable o a (cccr_at m n stag i) v c ne h)
  ]

  pub start_ctr-own :
      (o : Cpu) (i : ℕ) (v : OpSavedMsr) (c : Cpu)
      → Holds o (cccr_at m n stag i) v c
      → Holds o
          (cccr_at m n stag i)
          (if get_or o.reset_value i 0 == 0 then v else activate v)
          (start_ctr m n stag i c)
  unfolding start_ctr
  start_ctr-own o i v c h = record {
    reset = ground (arith, h.reset);
    value = ground (arith, h.reset, h.value);
  }

  pub counters_apart :
      IsWired
      → (i k : ℕ) → i < n
      → k < n
      → i ≢ k
      → (counter_at m n stag i ≢ counter_at m n stag k) × (cccr_at m n stag i ≢ cccr_at m n stag k)
  counters_apart w i k small max ne = elim (Bool-cases (ltb i k)) [
    | inl less ↦
        let lt : i < k = ground (arith, less) in (w.counters_ne i k lt max, w.cccrs_ne i k lt max)
    | inr more ↦
        let lt : k < i = ground (arith, more, ne) in
        ((λ e. w.counters_ne k i lt small (sym e)), (λ e. w.cccrs_ne k i lt small (sym e)))
  ]

  module _ (o : Cpu) (w : IsWired) (i : ℕ) (small : i < n) where
    pub stop-cccr :
        Holds o (cccr_at m n stag i) (deactivate (o.file (cccr_at m n stag i))) (p4_stop m n stag o)
    unfolding p4_stop
    stop-cccr =
        let a = cccr_at m n stag i in
        let v = o.file a in
        for_counters_at (λ j. on_low cccr_set_disable (cccr_at m n stag j)) n (Holds o a v)
          (Holds o a (deactivate v)) i small (λ c h. on_low-own cccr_set_disable o a v c h)
          (λ k c lt h.
            on_low-other cccr_set_disable o a (cccr_at m n stag k) v c
              (λ e. w.cccrs_ne k i lt small (sym e)) h)
          (λ k c lt max h.
            on_low-other cccr_set_disable o a (cccr_at m n stag k) (deactivate v) c
              (w.cccrs_ne i k lt max) h)
          n 0 o (omega arith) (inl (omega arith, record { reset = refl; value = refl }))

    pub stop-counter :
        Holds o (counter_at m n stag i) (o.file (counter_at m n stag i)) (p4_stop m n stag o)
    unfolding p4_stop
    stop-counter =
        let a = counter_at m n stag i in
        for_counters-keeps (λ j. on_low cccr_set_disable (cccr_at m n stag j)) n
          (Holds o a (o.file a))
          (λ k c max h.
            on_low-other cccr_set_disable o a (cccr_at m n stag k) (o.file a) c
              (w.apart i k small max) h)
          n 0 o (omega arith) (record { reset = refl; value = refl })

    pub start-cccr :
        (tb : ℕ)
        → Holds o
            (cccr_at m n stag i)
            (let v = o.file (cccr_at m n stag i) in
              if get_or o.reset_value i 0 == 0 then v else activate v)
            (p4_start m n stag tb o)
    unfolding p4_start
    start-cccr tb =
        let a = cccr_at m n stag i in
        let v = o.file a in
        for_counters_at (start_ctr m n stag) n (Holds o a v)
          (Holds o a (if get_or o.reset_value i 0 == 0 then v else activate v)) i small
          (start_ctr-own o i v)
          (λ k c lt h. start_ctr-other o a k v c (λ e. w.cccrs_ne k i lt small (sym e)) h)
          (λ k c lt max h. start_ctr-other o a k _ c (w.cccrs_ne i k lt max) h) n 0
          (record o { start_timestamp = tb }) (omega arith)
          (inl (omega arith, record { reset = refl; value = refl }))

    pub start-counter :
        (tb : ℕ)
        → Holds o (counter_at m n stag i) (o.file (counter_at m n stag i)) (p4_start m n stag tb o)
    unfolding p4_start
    start-counter tb =
        let a = counter_at m n stag i in
        for_counters-keeps (start_ctr m n stag) n (Holds o a (o.file a))
          (λ k c max h. start_ctr-other o a k (o.file a) c (w.apart i k small max) h) n 0
          (record o { start_timestamp = tb }) (omega arith) (record { reset = refl; value = refl })

  pub stop-ring : (o : Cpu) → (p4_stop m n stag o).ring ≡ o.ring
  unfolding p4_stop
  stop-ring o =
      for_counters-keeps (λ j. on_low cccr_set_disable (cccr_at m n stag j)) n
        (λ c. c.ring ≡ o.ring) (λ k c max h. h) n 0 o (omega arith) refl

  pub start-ring : (tb : ℕ) (o : Cpu) → (p4_start m n stag tb o).ring ≡ o.ring
  unfolding p4_start start_ctr
  start-ring tb o =
      for_counters-keeps (start_ctr m n stag) n (λ c. c.ring ≡ o.ring)
        (λ k c max h. ground (arith, h)) n 0 (record o { start_timestamp = tb }) (omega arith) refl
