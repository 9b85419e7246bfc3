-- ===== src/X86/P4/Setup/Event.antt =====
-- `pmc_setup_one_p4_counter` of x86/op_model_p4.c: what it selects.
use rrprofile.Prelude.{
  ℕ, ◌+◌, ◌-◌, ◌*◌, ◌%◌, ◌^◌, ◌<◌, ◌≤◌, ◌≡◌, ◌≢◌, refl, ap, sym, subst, ◌∙◌, arith, Bool, true,
  false, ◌==◌, not, ltb, ◌&&◌, ◌||◌, ==_iff, ◌⊎◌, inl, inr, Bool-cases, List, get_or,
}
use rrprofile.Bits.{bit, bit-zero, bit-bit_and, bit-bit_or, holds_below, holds_below_at}
use rrprofile.Bits.Fields.{shifted, bit-shifted, bit-halved}
use rrprofile.X86.{OpCounterConfig, no_config}
use rrprofile.X86.Ppro.{Cpu}
use rrprofile.X86.P4.{no_event, cccr_at, on_low}
use rrprofile.X86.P4.Tables.{P4Msrs, P4EventBinding, EscrBinding, p4_events}
use rrprofile.X86.P4.Setup.{num_events, program_escr, program_cccr, pmc_setup_one_p4_counter, bound}
use rrprofile.X86.P4.Fill.Owned.{documented}

-- the bits of the masks that are below the fields
escr_table : holds_below 6 (λ k. bit k 64 == 0) ≡ true
unfolding holds_below
escr_table = refl

mask_table : holds_below 16 (λ k. bit k 0x400000 == 0) ≡ true
unfolding holds_below
mask_table = refl

cccr_table :
    holds_below 3
      (λ k. bit k 0x1c018 == 0 && (bit k 24 == 0 && (bit k (2 ^ 13) == 0 && bit k (2 ^ 14) == 0)))
    ≡ true
unfolding holds_below
cccr_table = refl

module _ (stag : ℕ) (config : OpCounterConfig) (ev : P4EventBinding) where
  -- the parts of the ESCR, with the event at bit 25 and the unit mask at bit 9
  escr-select :
      (k escr : ℕ)
      → k < 6
      → bit (25 + k) (program_escr stag config ev escr) ≡ bit k (ev.event_select % 2 ^ 6)
  unfolding program_escr
  escr-select k escr h =
      let clear = bit-halved 25 k 0x80000003 64 refl in
      let none = (==_iff _ _).0 (holds_below_at 6 _ k h escr_table) in
      let usr = bit-halved 25 k ((config.user % 2) * 2 ^ 2) 0 (omega arith) in
      let os = bit-halved 25 k ((config.kernel % 2) * 2 ^ 3) 0 (omega arith) in
      let usr' = bit-halved 25 k (config.user % 2) 0 (omega arith) in
      let os' = bit-halved 25 k ((config.kernel % 2) * 2) 0 (omega arith) in
      let sel =
        bit-halved 25 k ((ev.event_select % 2 ^ 6) * 2 ^ 25) (ev.event_select % 2 ^ 6)
          (omega arith) in
      let mask = bit-halved 25 k ((config.unit_mask % 2 ^ 16) * 2 ^ 9) 0 (omega arith) in
      let zero_bit = bit-zero k in
      elim (Bool-cases (stag == 0)) [
        | inl even ↦
            simp (even, bit-bit_or, bit-bit_and)
              (omega (arith, clear, none, usr, os, sel, mask, zero_bit))
        | inr odd ↦
            simp (odd, bit-bit_or, bit-bit_and)
              (omega (arith, clear, none, usr', os', sel, mask, zero_bit))
      ]

  escr-mask :
      (k escr : ℕ)
      → k < 16
      → bit (9 + k) (program_escr stag config ev escr) ≡ bit k (config.unit_mask % 2 ^ 16)
  unfolding program_escr
  escr-mask k escr h =
      let clear = bit-halved 9 k 0x80000003 0x400000 refl in
      let none = (==_iff _ _).0 (holds_below_at 16 _ k h mask_table) in
      let usr = bit-halved 9 k ((config.user % 2) * 2 ^ 2) 0 (omega arith) in
      let os = bit-halved 9 k ((config.kernel % 2) * 2 ^ 3) 0 (omega arith) in
      let usr' = bit-halved 9 k (config.user % 2) 0 (omega arith) in
      let os' = bit-halved 9 k ((config.kernel % 2) * 2) 0 (omega arith) in
      let sel =
        bit-halved 9 k ((ev.event_select % 2 ^ 6) * 2 ^ 25) (shifted 16 (ev.event_select % 2 ^ 6))
          (omega arith) in
      let low = bit-shifted 16 k (ev.event_select % 2 ^ 6) h in
      let mask =
        bit-halved 9 k ((config.unit_mask % 2 ^ 16) * 2 ^ 9) (config.unit_mask % 2 ^ 16)
          (omega arith) in
      let zero_bit = bit-zero k in
      elim (Bool-cases (stag == 0)) [
        | inl even ↦
            simp (even, bit-bit_or, bit-bit_and)
              (omega (arith, clear, none, usr, os, sel, low, mask, zero_bit))
        | inr odd ↦
            simp (odd, bit-bit_or, bit-bit_and)
              (omega (arith, clear, none, usr', os', sel, low, mask, zero_bit))
      ]

  -- the ESCR's number at bit 13 of the CCCR
  cccr-select :
      (k cccr : ℕ)
      → k < 3
      → bit (13 + k) (program_cccr stag ev cccr) ≡ bit k (ev.escr_select % 2 ^ 3)
  unfolding program_cccr
  cccr-select k cccr h =
      let clear = bit-halved 13 k 0x38030fff 0x1c018 refl in
      let required = bit-halved 13 k 0x00030000 24 refl in
      let pmi = bit-halved 13 k (2 ^ 26) (2 ^ 13) refl in
      let pmi' = bit-halved 13 k (2 ^ 27) (2 ^ 14) refl in
      let table = holds_below_at 3 _ k h cccr_table in
      let none : (bit k 0x1c018 ≡ 0)
          × (bit k 24 ≡ 0)
          × (bit k (2 ^ 13) ≡ 0)
          × (bit k (2 ^ 14) ≡ 0) =
        ground (arith, table) in
      let sel =
        bit-halved 13 k ((ev.escr_select % 2 ^ 3) * 2 ^ 13) (ev.escr_select % 2 ^ 3)
          (omega arith) in
      elim (Bool-cases (stag == 0)) [
        | inl even ↦
            simp (even, bit-bit_or, bit-bit_and) (omega (arith, clear, required, pmi, none, sel))
        | inr odd ↦
            simp (odd, bit-bit_or, bit-bit_and) (omega (arith, clear, required, pmi', none, sel))
      ]

-- The binding `b` is the first one of the event that has the counter.
abbrev pub IsBinding : P4Msrs → (n stag ctr : ℕ) → P4EventBinding → EscrBinding → Type 0
IsBinding m n stag ctr ev b =
    (b ≡ ev.first) × (bound m n stag b ctr ≡ true)
    ⊎ (b ≡ ev.second) × (bound m n stag ev.first ctr ≡ false) × (bound m n stag b ctr ≡ true)

two_writes :
    (f g : ℕ → ℕ) (x y a : ℕ) (c : Cpu)
    → x ≢ y
    → a ≢ x
    → a ≢ y
    → let r = on_low g y (on_low f x c) in
      ((r.file x).low ≡ f (c.file x).low)
      × ((r.file y).low ≡ g (c.file y).low)
      × (r.file a ≡ c.file a)
two_writes f g x y a c ne nx ny = ground arith

module _ (m : P4Msrs) (n stag : ℕ) (configs : List OpCounterConfig) (ctr : ℕ) (c : Cpu) where
  chosen :
      (b : EscrBinding)
      → let config = get_or configs ctr no_config in
        let ev = get_or (p4_events m) (config.event - 1) no_event in
        0 < config.event
        → config.event ≤ num_events
        → IsBinding m n stag ctr ev b
        → pmc_setup_one_p4_counter m n stag configs ctr c
          ≡ on_low
              (program_cccr stag ev)
              (cccr_at m n stag ctr)
              (on_low (program_escr stag config ev) b.escr_address c)
  unfolding pmc_setup_one_p4_counter
  chosen b lo hi (inl (e, has)) =
      let config = get_or configs ctr no_config in
      let ev = get_or (p4_events m) (config.event - 1) no_event in
      let in_range : (config.event == 0 || ltb num_events config.event) ≡ false =
        ground (arith, lo, hi) in
      let first : bound m n stag ev.first ctr ≡ true =
        ap (λ (b : EscrBinding). bound m n stag b ctr) (sym e) ∙ has in
      simp (in_range, first)
        (ap
          (λ (b : EscrBinding).
            on_low (program_cccr stag ev) (cccr_at m n stag ctr)
              (on_low (program_escr stag config ev) b.escr_address c))
          (sym e))
  chosen b lo hi (inr (e, no_first, has)) =
      let config = get_or configs ctr no_config in
      let ev = get_or (p4_events m) (config.event - 1) no_event in
      let in_range : (config.event == 0 || ltb num_events config.event) ≡ false =
        ground (arith, lo, hi) in
      let second : bound m n stag ev.second ctr ≡ true =
        ap (λ (b : EscrBinding). bound m n stag b ctr) (sym e) ∙ has in
      simp (in_range, no_first, second)
        (ap
          (λ (b : EscrBinding).
            on_low (program_cccr stag ev) (cccr_at m n stag ctr)
              (on_low (program_escr stag config ev) b.escr_address c))
          (sym e))

  -- For an event code of the table and the binding of the event to the counter, at an ESCR that is not
  -- the counter's CCCR: the ESCR selects the event in bits 25 to 30 and the unit mask in bits 9 to 24,
  -- the CCCR selects the ESCR in bits 13 to 15, and no other register is changed.
  pub pmc_setup_lem :
      (b : EscrBinding) (j k l a : ℕ)
      → let config = get_or configs ctr no_config in
        let ev = get_or (p4_events m) (config.event - 1) no_event in
        let r = pmc_setup_one_p4_counter m n stag configs ctr c in
        0 < config.event
        → config.event ≤ num_events
        → IsBinding m n stag ctr ev b
        → b.escr_address ≢ cccr_at m n stag ctr
        → j < 6
        → k < 16
        → l < 3
        → a ≢ b.escr_address
        → a ≢ cccr_at m n stag ctr
        → (bit (25 + j) (r.file b.escr_address).low ≡ bit j (ev.event_select % 2 ^ 6))
          × (bit (9 + k) (r.file b.escr_address).low ≡ bit k (config.unit_mask % 2 ^ 16))
          × (bit (13 + l) (r.file (cccr_at m n stag ctr)).low ≡ bit l (ev.escr_select % 2 ^ 3))
          × (r.file a ≡ c.file a)
  pmc_setup_lem b j k l a lo hi binding apart hj hk hl ne ne' =
      let config = get_or configs ctr no_config in
      let ev = get_or (p4_events m) (config.event - 1) no_event in
      let e = chosen b lo hi binding in
      let select = escr-select stag config ev j (c.file b.escr_address).low hj in
      let mask = escr-mask stag config ev k (c.file b.escr_address).low hk in
      let cccr = cccr_at m n stag ctr in
      let escr = cccr-select stag config ev l (c.file cccr).low hl in
      let (first, second, others) =
        two_writes (program_escr stag config ev) (program_cccr stag ev) b.escr_address cccr a c
          apart ne ne' in
      rw e (
        ap (bit (25 + j)) first ∙ select,
        ap (bit (9 + k)) first ∙ mask,
        ap (bit (13 + l)) second ∙ escr,
        others,
      )

-- the ESCR of a binding is one of the thread's, if the thread has the binding's counter
abbrev is_split : (stag ctr : ℕ) → EscrBinding → Bool
is_split stag ctr b = not (bound documented 4 stag b ctr) || b.escr_address % 2 == stag

split_table :
    holds_below 39 (λ e. holds_below 4 (λ ctr. holds_below 2 (λ stag.
      is_split stag ctr (get_or (p4_events documented) e no_event).first
      && is_split stag ctr (get_or (p4_events documented) e no_event).second)))
    ≡ true
unfolding holds_below
split_table = refl

and-both : (a b : Bool) → (a && b) ≡ true → (a ≡ true) × (b ≡ true)
and-both a b h = ground (arith, h)

documented-parity :
    (e ctr stag : ℕ) (b : EscrBinding)
    → e < num_events
    → ctr < 4
    → stag < 2
    → (b ≡ (get_or (p4_events documented) e no_event).first)
      ⊎ (b ≡ (get_or (p4_events documented) e no_event).second)
    → bound documented 4 stag b ctr ≡ true
    → b.escr_address % 2 ≡ stag
documented-parity e ctr stag b he hc hs one has =
    let ev = get_or (p4_events documented) e no_event in
    let at_ctr = holds_below_at 4 _ ctr hc (holds_below_at 39 _ e he split_table) in
    let (first, second) =
      and-both (is_split stag ctr ev.first) (is_split stag ctr ev.second)
        (holds_below_at 2 _ stag hs at_ctr) in
    let own : is_split stag ctr b ≡ true = elim one [
      | inl e ↦ ap (is_split stag ctr) e ∙ first
      | inr e ↦ ap (is_split stag ctr) e ∙ second
    ] in
    (==_iff (b.escr_address % 2) stag).0
      (ap (λ (t : Bool). not t || b.escr_address % 2 == stag) (sym has) ∙ own)

-- With the addresses that the kernel documents: whichever of the two bindings of an event of the table
-- has a counter of a hyper-thread, its ESCR has the parity of the thread. So two threads of a core
-- never program the same ESCR.
pub escr-parity :
    (m : P4Msrs) (e ctr stag : ℕ) (b : EscrBinding)
    → m ≡ documented
    → e < num_events
    → ctr < 4
    → stag < 2
    → let ev = get_or (p4_events m) e no_event in
      (b ≡ ev.first) ⊎ (b ≡ ev.second) → bound m 4 stag b ctr ≡ true → b.escr_address % 2 ≡ stag
escr-parity m e ctr stag b doc he hc hs =
    subst
      (λ (m : P4Msrs).
        (b ≡ (get_or (p4_events m) e no_event).first)
          ⊎ (b ≡ (get_or (p4_events m) e no_event).second)
        → bound m 4 stag b ctr ≡ true
        → b.escr_address % 2 ≡ stag)
      (sym doc) (documented-parity e ctr stag b he hc hs)
