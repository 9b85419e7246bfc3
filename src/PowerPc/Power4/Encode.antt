-- ===== src/PowerPc/Power4/Encode.antt =====
-- What `power4_reg_setup` of powerpc/op_model_power4.c puts into the control registers, against the table
-- of their fields.
use rrprofile.Prelude.{
  ℕ, zero, suc, ◌+◌, ◌/◌, ◌%◌, ◌^◌, ◌<◌, ◌≤◌, ◌-◌, ◌≡◌, refl, ap, ◌∙◌, arith, List, [], ◌∷◌, map,
  true, ◌==◌, ==_iff, if◌then◌else◌, get_or, for_counters, latest, for_counters-latest, uint_mod,
}
use Prim.Native.Nat.{min, max}
use rrprofile.Bits.{bit, bit_small, bit-bit_and, bit-bit_or, holds_below, holds_below_at}
use rrprofile.Bits.Shift.{bit-mod}
use rrprofile.PowerPc.{PpcCounterConfig, OpSystemConfig, PpcShared, PpcMasks, no_ppc_config}
use rrprofile.PowerPc.Words.{
  FieldSpec, no_field, Matches, ◌⊗◌, fields_at, apart, nobody, place, or_all, alone, bit-clear,
}
use rrprofile.PowerPc.Power4.{
  set_unit, set_lane, Muxes, no_muxes, unit_select, unit_value, byte_lane_select, byte_lane_value,
  set_muxes, ctr_event, ctr_addr_sel, mmcr0_selects, mmcr1_selects, fill, disable_unless,
  power4_reg_setup,
}

module _ (ctr : List PpcCounterConfig) where
  abbrev pub config : ℕ → PpcCounterConfig
  config i = get_or ctr i no_ppc_config

  -- the event of a counter, or event 8, which counts nothing, where it is not enabled
  abbrev pub event : ℕ → ℕ
  event i = if (config i).enabled == 0 then 8 else (config i).event

  abbrev pub lane : ℕ → ℕ
  lane i = (config i).event / 2 ^ 5

  -- what the last counter that selects unit `u`, or byte lane `u`, asks of it
  abbrev pub unit : ℕ → ℕ
  unit u = latest (λ i. unit_select (config i) == u) (λ i. unit_value (config i)) 8

  abbrev pub byte_lane : ℕ → ℕ
  byte_lane u = latest (λ i. byte_lane_select (config i) == u) (λ i. byte_lane_value (config i)) 8

  -- the fields of `MMCR1`
  abbrev pub mmcr1_fields : List FieldSpec
  mmcr1_fields =
      record { first = 27; width = 5; holds = event 2 }
      ∷ record { first = 22; width = 5; holds = event 3 }
      ∷ record { first = 17; width = 5; holds = event 4 }
      ∷ record { first = 12; width = 5; holds = event 5 }
      ∷ record { first = 7; width = 5; holds = event 6 }
      ∷ record { first = 2; width = 5; holds = event 7 }
      ∷ record { first = 39; width = 1; holds = lane 0 }
      ∷ record { first = 38; width = 1; holds = lane 1 }
      ∷ record { first = 33; width = 1; holds = lane 2 }
      ∷ record { first = 32; width = 1; holds = lane 3 }
      ∷ record { first = 36; width = 1; holds = lane 4 }
      ∷ record { first = 37; width = 1; holds = lane 5 }
      ∷ record { first = 34; width = 1; holds = lane 6 }
      ∷ record { first = 35; width = 1; holds = lane 7 }
      ∷ record { first = 62; width = 2; holds = unit 1 }
      ∷ record { first = 59; width = 2; holds = unit 2 }
      ∷ record { first = 53; width = 2; holds = unit 3 }
      ∷ record { first = 50; width = 2; holds = byte_lane 1 }
      ∷ record { first = 48; width = 2; holds = byte_lane 2 }
      ∷ record { first = 46; width = 2; holds = byte_lane 3 }
      ∷ record { first = 44; width = 2; holds = byte_lane 4 }
      ∷ record { first = 0; width = 2; holds = unit 4 }
      ∷ []

  abbrev muxes : Muxes
  muxes = for_counters (set_muxes ctr) 8 0 no_muxes

  -- the collected values, by unit and by byte lane
  unit_at :
      (read : Muxes → ℕ) (u : ℕ)
      → ((k : ℕ) (m : Muxes)
          → read (set_muxes ctr k m)
            ≡ (if unit_select (config k) == u then unit_value (config k) else read m))
      → read no_muxes ≡ 0
      → read muxes ≡ unit u
  unit_at read u writes none =
      for_counters-latest (set_muxes ctr) read (λ i. unit_select (config i) == u)
        (λ i. unit_value (config i)) writes 8 no_muxes none

  byte_lane_at :
      (read : Muxes → ℕ) (u : ℕ)
      → ((k : ℕ) (m : Muxes)
          → read (set_muxes ctr k m)
            ≡ (if byte_lane_select (config k) == u then byte_lane_value (config k) else read m))
      → read no_muxes ≡ 0
      → read muxes ≡ byte_lane u
  byte_lane_at read u writes none =
      for_counters-latest (set_muxes ctr) read (λ i. byte_lane_select (config i) == u)
        (λ i. byte_lane_value (config i)) writes 8 no_muxes none

  muxes_lem :
      ((muxes.ttm0 ≡ unit 1) × (muxes.ttm1 ≡ unit 2) × (muxes.ttm3 ≡ unit 3) × (muxes.spc ≡ unit 4))
      × (muxes.dbg0 ≡ byte_lane 1)
      × (muxes.dbg1 ≡ byte_lane 2)
      × (muxes.dbg2 ≡ byte_lane 3)
      × (muxes.dbg3 ≡ byte_lane 4)
  unfolding set_muxes set_unit set_lane
  muxes_lem = (
    (
      unit_at (λ m. m.ttm0) 1 (λ k m. ground arith) refl,
      unit_at (λ m. m.ttm1) 2 (λ k m. ground arith) refl,
      unit_at (λ m. m.ttm3) 3 (λ k m. ground arith) refl,
      unit_at (λ m. m.spc) 4 (λ k m. ground arith) refl,
    ),
    byte_lane_at (λ m. m.dbg0) 1 (λ k m. ground arith) refl,
    byte_lane_at (λ m. m.dbg1) 2 (λ k m. ground arith) refl,
    byte_lane_at (λ m. m.dbg2) 3 (λ k m. ground arith) refl,
    byte_lane_at (λ m. m.dbg3) 4 (λ k m. ground arith) refl,
  )

  -- The masks of an event and of a lane keep the bits of the field.
  event_bits : (i j : ℕ) → j < 5 → bit j (ctr_event (config i)) ≡ bit j (event i)
  unfolding holds_below
  event_bits i j h =
      let mask = (==_iff _ _).0 (holds_below_at 5 (λ j. bit j 0x1F == 1) j h refl) in
      let cut = bit-bit_and j (config i).event 0x1F in ground (arith, bit_small j (config i).event)

  lane_bits : (i j : ℕ) → j < 1 → bit j (ctr_addr_sel (config i)) ≡ bit j (lane i)
  lane_bits i zero h = bit-bit_and 0 (lane i) 1 ∙ omega arith
  lane_bits i (suc j) h = absurd (omega arith)

  mmcr1-Matches :
      Matches (mmcr1_selects (fill ctr_event 8 ctr) (fill ctr_addr_sel 8 ctr) muxes) mmcr1_fields
  unfolding Matches
  mmcr1-Matches =
      let ((a, b, c, d), e, f, g, h) = muxes_lem in
      (refl, event_bits 2)
      ⊗ (refl, event_bits 3)
      ⊗ (refl, event_bits 4)
      ⊗ (refl, event_bits 5)
      ⊗ (refl, event_bits 6)
      ⊗ (refl, event_bits 7)
      ⊗ (refl, lane_bits 0)
      ⊗ (refl, lane_bits 1)
      ⊗ (refl, lane_bits 2)
      ⊗ (refl, lane_bits 3)
      ⊗ (refl, lane_bits 4)
      ⊗ (refl, lane_bits 5)
      ⊗ (refl, lane_bits 6)
      ⊗ (refl, lane_bits 7)
      ⊗ (refl, λ j lt. ap (bit j) a)
      ⊗ (refl, λ j lt. ap (bit j) b)
      ⊗ (refl, λ j lt. ap (bit j) c)
      ⊗ (refl, λ j lt. ap (bit j) e)
      ⊗ (refl, λ j lt. ap (bit j) f)
      ⊗ (refl, λ j lt. ap (bit j) g)
      ⊗ (refl, λ j lt. ap (bit j) h)
      ⊗ (refl, λ j lt. ap (bit j) d)
      ⊗ refl

  disjoint :
      apart (mmcr1_selects (fill ctr_event 8 ctr) (fill ctr_addr_sel 8 ctr) muxes) mmcr1_fields
      ≡ true
  unfolding apart holds_below alone nobody
  disjoint = refl

  -- For a processor of eight counters, whatever their configuration, `power4_reg_setup` puts into each
  -- of the 22 fields of `MMCR1` the bits that the table asks for: the event of each of the counters 3 to
  -- 8 (event 8 where it is not enabled), the adder lane of all eight, and for each unit and each byte
  -- lane the value of the last counter that selects it, or 0.
  pub mmcr1_lem :
      (b : PpcMasks) (sys : OpSystemConfig) (g : PpcShared) (i j : ℕ)
      → let f = get_or mmcr1_fields i no_field in
        i < 22
        → j < f.width
        → bit (f.first + j) (power4_reg_setup b 8 ctr sys g).mmcr1_val ≡ bit j f.holds
  unfolding power4_reg_setup
  mmcr1_lem b sys g i j lt h = fields_at _ mmcr1_fields mmcr1-Matches disjoint i j lt h

  -- the fields of `MMCR0`
  abbrev mmcr0_fields : List FieldSpec
  mmcr0_fields =
      record { first = 8; width = 5; holds = event 0 }
      ∷ record { first = 1; width = 5; holds = event 1 }
      ∷ []

  mmcr0-Matches : Matches (mmcr0_selects (fill ctr_event 8 ctr)) mmcr0_fields
  unfolding Matches
  mmcr0-Matches = (refl, event_bits 0) ⊗ (refl, event_bits 1) ⊗ refl

  mmcr0_disjoint : apart (mmcr0_selects (fill ctr_event 8 ctr)) mmcr0_fields ≡ true
  unfolding apart holds_below alone nobody
  mmcr0_disjoint = refl

  -- the event fields lie below bit 13
  mmcr0_below : (i : ℕ) → i < 2 → let f = get_or mmcr0_fields i no_field in f.first + f.width ≤ 13
  mmcr0_below zero h = omega arith
  mmcr0_below (suc zero) h = omega arith
  mmcr0_below (suc (suc i)) h = absurd (omega arith)

-- The two masks that stop the counting in the kernel and in user space are words without a common bit,
-- and without a bit of an event field.
pub record IsDisabling (b : PpcMasks) : Type 0 where
  pub kernel_small : b.kernel_disable < uint_mod
  pub problem_small : b.problem_disable < uint_mod
  pub kernel_high : (k : ℕ) → k < 13 → bit k b.kernel_disable ≡ 0
  pub problem_high : (k : ℕ) → k < 13 → bit k b.problem_disable ≡ 0
  pub exclusive : (k : ℕ) → k < 32 → bit k b.kernel_disable + bit k b.problem_disable ≤ 1

bit-disable_unless :
    (flag mask x k : ℕ)
    → k < 32
    → mask < uint_mod
    → bit k (disable_unless flag mask x)
      ≡ (if flag == 0 then max (bit k x) (bit k mask) else min (bit k x) (1 - bit k mask))
bit-disable_unless flag mask x k h lt = ground (arith, bit-bit_or k x mask, bit-clear k x mask h lt)

-- the bits once both flags have been looked at
disabled :
    (b : PpcMasks) (sys : OpSystemConfig) (x : ℕ)
    → IsDisabling b
    → (k : ℕ) → k < 32
    → let kernel =
        if sys.enable_kernel == 0
        then max (bit k x) (bit k b.kernel_disable)
        else min (bit k x) (1 - bit k b.kernel_disable) in
      bit k (
        disable_unless sys.enable_user b.problem_disable
          (disable_unless sys.enable_kernel b.kernel_disable x))
      ≡ (if sys.enable_user == 0
          then max kernel (bit k b.problem_disable)
          else min kernel (1 - bit k b.problem_disable))
disabled b sys x d k lt =
    let first = bit-disable_unless sys.enable_kernel b.kernel_disable x k lt d.kernel_small in
    let second =
      bit-disable_unless sys.enable_user b.problem_disable
        (disable_unless sys.enable_kernel b.kernel_disable x) k lt d.problem_small in
    ground (arith, first, second)

-- For a processor of eight counters whose masks disable as they should, whatever the configuration:
-- `power4_reg_setup` puts into both event fields of `MMCR0` the bits of the event of the first and of
-- the second counter (event 8 where it is not enabled); it sets the bits that stop the counting in the
-- kernel, and in user space, exactly where that is not enabled.
pub mmcr0_lem :
    (ctr : List PpcCounterConfig) (b : PpcMasks) (sys : OpSystemConfig) (g : PpcShared)
    (i j kernel user : ℕ)
    → IsDisabling b
    → i < 2
    → let f = get_or (mmcr0_fields ctr) i no_field in
      j < f.width
      → kernel < 32
      → bit kernel b.kernel_disable ≡ 1
      → user < 32
      → bit user b.problem_disable ≡ 1
      → let mmcr0 = (power4_reg_setup b 8 ctr sys g).mmcr0_val in
        (bit (f.first + j) mmcr0 ≡ bit j f.holds)
        × (bit kernel mmcr0 ≡ (if sys.enable_kernel == 0 then 1 else 0))
        × (bit user mmcr0 ≡ (if sys.enable_user == 0 then 1 else 0))
unfolding power4_reg_setup
mmcr0_lem ctr b sys g i j kernel user d lt within hk kernel_bit hu user_bit =
    let selected = or_all 0 (map place (mmcr0_selects (fill ctr_event 8 ctr))) in
    let f = get_or (mmcr0_fields ctr) i no_field in
    let low = mmcr0_below ctr i lt in
    let k = f.first + j in
    let field =
      fields_at _ (mmcr0_fields ctr) (mmcr0-Matches ctr) (mmcr0_disjoint ctr) i j lt within in
    let cut = bit-mod 32 k selected (omega (arith, low)) in
    let at = disabled b sys (selected % uint_mod) d in
    (
      ground (
        arith,
        field,
        cut,
        at k (omega (arith, low)),
        d.kernel_high k (omega (arith, low)),
        d.problem_high k (omega (arith, low)),
        bit_small j f.holds,
      ),
      ground (
        arith,
        at kernel hk,
        bit_small kernel (selected % uint_mod),
        d.exclusive kernel hk,
        kernel_bit,
      ),
      ground
          (arith, at user hu, bit_small user (selected % uint_mod), d.exclusive user hu, user_bit),
    )
