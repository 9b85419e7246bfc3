-- ===== src/PowerPc/Rs64/Start.antt =====
-- `rs64_start` of powerpc/op_model_rs64.c: every counter gets its event and its first value.
use rrprofile.Prelude.{
  ℕ, zero, suc, ◌-◌, ◌%◌, ◌^◌, ◌<◌, ◌≤◌, ◌≡◌, ◌≢◌, refl, ap, ◌∙◌, arith, List, true, not, ◌||◌,
  ◌==◌, ltb, leb, if◌then◌else◌, get_or, set, length, length-set, get_or-set_self, get_or-set_ne,
  uint_mod, for_counters, for_counters_at, Bool-cases, inl, inr,
}
use Prim.Native.Nat.{bit_and}
use rrprofile.Bits.{bit, bit_small, holds_below, holds_below_at}
use rrprofile.Bits.Shift.{bit-mod}
use rrprofile.PowerPc.{PpcCounterConfig, PpcCpu, PpcShared, PpcMasks, no_ppc_config, set_pmm}
use rrprofile.PowerPc.Words.{bit-clear}
use rrprofile.PowerPc.Rounds.{pmc_at}
use rrprofile.PowerPc.Rs64.{ctrl_shift, ctrl_read, ctrl_write, start_ctr, rs64_start}
use rrprofile.PowerPc.Rs64.Fields.{ctrl_width, inside, ctrl_write-bit}

-- No bit of a register is in the fields of two counters, and those of `MMCR0` lie below bit 13.
apart_table :
    holds_below 8 (λ i. holds_below 8 (λ o. holds_below 32 (λ k.
      (i == o) || not (inside i k) || not (inside o k) || (if ltb i 2 then leb 2 o else ltb o 2))))
    ≡ true
unfolding holds_below
apart_table = refl

apart_lem :
    (i o k : ℕ)
    → i < 8
    → o < 8
    → k < 32
    → ((i == o) || not (inside i k) || not (inside o k) || (if ltb i 2 then leb 2 o else ltb o 2))
      ≡ true
apart_lem i o k hi ho hk =
    holds_below_at 32 _ k hk (holds_below_at 8 _ o ho (holds_below_at 8 _ i hi apart_table))

-- A write to another counter's field keeps the bits of this one's.
ctrl_write-other :
    (i o val k : ℕ) (c : PpcCpu)
    → i < 8
    → o < 8
    → k < 32
    → i ≢ o
    → inside i k ≡ true
    → val < 2 ^ ctrl_width o
    → bit k (ctrl_read i (ctrl_write o val c)) ≡ bit k (ctrl_read i c)
unfolding ctrl_write
ctrl_write-other i o val k c hi ho hk ne here small =
    let table = apart_lem i o k hi ho hk in
    let write = ctrl_write-bit o val k c ho hk small in ground (arith, table, write)

low_field : (i k : ℕ) → i < 2 → inside i k ≡ true → k < 13
low_field zero k h here = ground (arith, here)
low_field (suc zero) k h here = ground (arith, here)
low_field (suc (suc i)) k h here = absurd (omega arith)

-- The events of the enabled counters fit their fields.
unfoldable pub Fits : List PpcCounterConfig → Type 0
Fits ctr =
    (i : ℕ)
    → i < 8
    → let config = get_or ctr i no_ppc_config in
      config.enabled ≢ 0 → config.event < 2 ^ ctrl_width i

module _ (g : PpcShared) (ctr : List PpcCounterConfig) (fits : Fits ctr) (i k : ℕ) (hi : i < 8)
    (hk : k < 32) (here : inside i k ≡ true) where
  -- the bit of the counter's own event, if it is enabled, in place of the one that was there
  abbrev field_bit : ℕ → ℕ
  field_bit old =
      let config = get_or ctr i no_ppc_config in
      if config.enabled == 0 then old else bit (k - ctrl_shift i) config.event

  start_ctr-own :
      (c : PpcCpu) → bit k (ctrl_read i (start_ctr g ctr i c)) ≡ field_bit (bit k (ctrl_read i c))
  unfolding start_ctr Fits
  start_ctr-own c =
      let config = get_or ctr i no_ppc_config in
      elim (Bool-cases (config.enabled == 0)) [
        | inl e ↦ ground (arith, e)
        | inr e ↦ ground (
          arith,
          e,
          ctrl_write-bit i config.event k
              (record c { pmc = set c.pmc i (get_or g.reset_value i 0 % uint_mod) }) hi hk
              (fits i hi (ground (arith, e))),
        )
      ]

  start_ctr-other :
      (o : ℕ) (c : PpcCpu)
      → o < 8
      → i ≢ o
      → bit k (ctrl_read i (start_ctr g ctr o c)) ≡ bit k (ctrl_read i c)
  unfolding start_ctr Fits
  start_ctr-other o c ho ne =
      let config = get_or ctr o no_ppc_config in
      elim (Bool-cases (config.enabled == 0)) [
        | inl e ↦ ground (arith, e)
        | inr e ↦ ground (
          arith,
          e,
          ctrl_write-other i o config.event k
              (record c { pmc = set c.pmc o (get_or g.reset_value o 0 % uint_mod) }) hi ho hk ne
              here (fits o ho (ground (arith, e))),
        )
      ]

module _ (g : PpcShared) (ctr : List PpcCounterConfig) where
  abbrev first_value : ℕ → ℕ
  first_value i =
      if (get_or ctr i no_ppc_config).enabled == 0 then 0 else get_or g.reset_value i 0 % uint_mod

  start_ctr-pmc_own :
      (i : ℕ) (c : PpcCpu) → i < length c.pmc → pmc_at (start_ctr g ctr i c) i ≡ first_value i
  unfolding start_ctr ctrl_write
  start_ctr-pmc_own i c lt = ground (
    arith,
    get_or-set_self c.pmc i 0 0 lt,
    get_or-set_self c.pmc i (get_or g.reset_value i 0 % uint_mod) 0 lt,
  )

  start_ctr-pmc_other : (i j : ℕ) (c : PpcCpu) → i ≢ j → pmc_at (start_ctr g ctr i c) j ≡ pmc_at c j
  unfolding start_ctr ctrl_write
  start_ctr-pmc_other i j c ne = ground (
    arith,
    get_or-set_ne c.pmc 0 0 ne,
    get_or-set_ne c.pmc (get_or g.reset_value i 0 % uint_mod) 0 ne,
  )

  start_ctr-length : (i : ℕ) (c : PpcCpu) → length (start_ctr g ctr i c).pmc ≡ length c.pmc
  unfolding start_ctr ctrl_write
  start_ctr-length i c =
      ground (arith, length-set c.pmc i 0, length-set c.pmc i (get_or g.reset_value i 0 % uint_mod))

  abbrev started : ℕ → PpcCpu → PpcCpu
  started n c = for_counters (start_ctr g ctr) n 0 c

  started-pmc :
      (n i : ℕ) (c : PpcCpu) → i < n → n ≤ length c.pmc → pmc_at (started n c) i ≡ first_value i
  started-pmc n i c lt le =
      for_counters_at (start_ctr g ctr) n (λ s. length s.pmc ≡ length c.pmc)
        (λ s. pmc_at s i ≡ first_value i) i lt (λ s l. start_ctr-pmc_own i s (omega (arith, l)))
        (λ k s less l. start_ctr-length k s ∙ l)
        (λ k s more _ e. start_ctr-pmc_other k i s (λ q. absurd (omega (arith, q))) ∙ e) n 0 c
        (omega arith) (inl (omega arith, refl))

  module _ (fits : Fits ctr) where
    started-event :
        (n i k : ℕ) (c : PpcCpu) (lt : i < n) (le : n ≤ 8) (hk : k < 32) (here : inside i k ≡ true)
        → bit k (ctrl_read i (started n c))
          ≡ field_bit g ctr fits i k (omega arith) hk here (bit k (ctrl_read i c))
    started-event n i k c lt le hk here =
        let hi : i < 8 = omega arith in
        for_counters_at (start_ctr g ctr) n (λ s. bit k (ctrl_read i s) ≡ bit k (ctrl_read i c))
          (λ s. bit k (ctrl_read i s) ≡ field_bit g ctr fits i k hi hk here (bit k (ctrl_read i c)))
          i lt
          (λ s e.
            start_ctr-own g ctr fits i k hi hk here s ∙ ap (field_bit g ctr fits i k hi hk here) e)
          (λ o s less e.
            start_ctr-other g ctr fits i k hi hk here o s (omega arith)
              (λ q. absurd (omega (arith, q)))
            ∙ e)
          (λ o s more max e.
            start_ctr-other g ctr fits i k hi hk here o s (omega arith)
              (λ q. absurd (omega (arith, q)))
            ∙ e)
          n 0 c (omega arith) (inl (omega arith, refl))

    -- For at most eight counters, all of which the CPU has, events that fit their fields, and a mask of
    -- the freeze bit that is a word above the fields of `MMCR0`: after `rs64_start` the field of an
    -- enabled counter holds its event, and that of any other counter what it held; an enabled counter
    -- holds its reset value as an unsigned int, and any other counter 0; and the freeze bit is clear.
    pub rs64_start_lem :
        (b : PpcMasks) (c : PpcCpu) (i k f : ℕ)
        → g.num_counters ≤ 8
        → g.num_counters ≤ length c.pmc
        → b.fc < uint_mod
        → ((j : ℕ) → j < 13 → bit j b.fc ≡ 0)
        → i < g.num_counters
        → k < 32
        → inside i k ≡ true
        → f < 32
        → bit f b.fc ≡ 1
        → let r = rs64_start b ctr g c in
          let config = get_or ctr i no_ppc_config in
          (bit k (ctrl_read i r) ≡ (
            if config.enabled == 0
            then bit k (ctrl_read i c)
            else bit (k - ctrl_shift i) config.event))
          × (pmc_at r i ≡ first_value i)
          × (bit f r.mmcr0 ≡ 0)
    unfolding rs64_start
    rs64_start_lem b c i k f few many word high lt hk here hf e =
        let s = started g.num_counters (set_pmm b c) in
        let cleared = bit_and (s.mmcr0 % uint_mod) (uint_mod - 1 - b.fc) in
        let event = started-event g.num_counters i k (set_pmm b c) lt few hk here in
        let kept = bit-clear k (s.mmcr0 % uint_mod) b.fc hk word in
        let cut = bit-mod 32 k cleared hk in
        let small = bit_small k (s.mmcr0 % uint_mod) in
        (
          elim (Bool-cases (ltb i 2)) [
            | inl q ↦
                let low = low_field i k (ground (arith, q)) here in
                ground (arith, event, kept, cut, small, high k low, q)
            | inr q ↦ ground (arith, event, q)
          ],
          started-pmc g.num_counters i (set_pmm b c) lt many,
          omega (arith, bit-clear f (s.mmcr0 % uint_mod) b.fc hf word, e),
        )
