-- ===== src/X86/Adapt.antt =====
-- The counts of `nmi_adapt` of x86/nmi_int.c: all of them are multiplied by the decay factor, or none is.
use rrprofile.Prelude.{
  ℕ, ◌*◌, ◌/◌, ◌%◌, ◌^◌, ◌≤◌, ◌<◌, ◌≡◌, ◌≢◌, refl, ap, ap₂, arith, List, [], ◌∷◌, Bool, false, ◌==◌,
  not, ◌&&◌, ◌||◌, leb, if◌then◌else◌, ulong_mod, Bool-cases, inl, inr, ◌⊎◌, map,
}
use Prim.Native.Nat.{bit_and}
use rrprofile.Codes.{adapt_decay_factor}
use rrprofile.X86.{OpCounterConfig, ctr_value, ctr_overflowed}
use rrprofile.Bits.{bit, bit-bit_and}

-- `maxCounterValue`
abbrev pub max_counter_value : ℕ
max_counter_value = 0x7fffffff / adapt_decay_factor

-- the first loop: some enabled counter can no longer be decayed
unfoldable pub at_limit : List OpCounterConfig → Bool
at_limit [] = false
at_limit (c ∷ cs) = not (c.enabled == 0) && leb max_counter_value c.count || at_limit cs

-- the body of the second loop
unfoldable pub decay : OpCounterConfig → OpCounterConfig
decay c =
    if c.enabled == 0 then c else record c { count = (c.count * adapt_decay_factor) % ulong_mod }

-- the two loops of `nmi_adapt`: the configuration after them, and what `nmi_adapt` returns then
unfoldable pub decay_counts : List OpCounterConfig → List OpCounterConfig × ℕ
unfolding at_limit decay
decay_counts cs = if at_limit cs then (cs, 0) else (map decay cs, 1)

-- An enabled counter counts at least one event and fewer than 2 ^ 31.
abbrev pub IsCountable : OpCounterConfig → Type 0
IsCountable c = c.enabled ≢ 0 → (0 < c.count) × (c.count < 2 ^ 31)

abbrev pub AllCountable : List OpCounterConfig → Type 0
AllCountable [] = Unit {0}
AllCountable (c ∷ cs) = IsCountable c × AllCountable cs

decay-AllCountable :
    (cs : List OpCounterConfig)
    → at_limit cs ≡ false
    → AllCountable cs
    → AllCountable (map decay cs)
unfolding at_limit decay
decay-AllCountable [] limit h = tt
decay-AllCountable (c ∷ cs) limit h = (ground arith, decay-AllCountable cs (ground arith) h.1)

-- `decay_counts` keeps every enabled count positive and below 2 ^ 31.
pub decay_counts-AllCountable :
    (cs : List OpCounterConfig) → AllCountable cs → AllCountable (decay_counts cs).0
unfolding decay_counts
decay_counts-AllCountable cs h = elim (Bool-cases (at_limit cs)) [
  | inl limit ↦ rw limit h
  | inr free ↦ rw free (decay-AllCountable cs free h)
]

-- A counter that starts from the negated count of a countable event has its top bit set, so that it
-- does not count as overflowed.
top_bit : (n : ℕ) → 2 ^ 31 ≤ n → n < 2 ^ 32 → bit 31 n ≡ 1
top_bit n lo hi = omega arith

pub ctr_value_armed : (l : ℕ) → 0 < l → l < 2 ^ 31 → ctr_overflowed (ctr_value l).low ≡ false
ctr_value_armed l pos small =
    let n = (ctr_value l).low in
    let top : bit 31 (bit_and n (2 ^ 31)) ≡ 1 =
      rw (bit-bit_and 31 n (2 ^ 31), top_bit n (omega arith) (omega arith)) refl in
    elim (Bool-cases (bit_and n (2 ^ 31) == 0)) [
      | inl z ↦
          let zero_and : bit_and n (2 ^ 31) ≡ 0 = ground arith in
          absurd (omega (arith, top, ap (bit 31) zero_and))
      | inr nz ↦ nz
    ]

-- Every enabled counter, loaded with its count, starts without a false overflow.
abbrev pub AllArmed : List OpCounterConfig → Type 0
AllArmed [] = Unit {0}
AllArmed (c ∷ cs) = (c.enabled ≢ 0 → ctr_overflowed (ctr_value c.count).low ≡ false) × AllArmed cs

AllCountable-AllArmed : (cs : List OpCounterConfig) → AllCountable cs → AllArmed cs
AllCountable-AllArmed [] h = tt
AllCountable-AllArmed (c ∷ cs) h =
    (λ on. ctr_value_armed c.count (h.0 on).0 (h.0 on).1, AllCountable-AllArmed cs h.1)

-- the configuration with each enabled count ten times as large
abbrev pub tenfold : OpCounterConfig → OpCounterConfig
tenfold c = record c { count = if c.enabled == 0 then c.count else c.count * adapt_decay_factor }

decay-tenfold : (cs : List OpCounterConfig) → at_limit cs ≡ false → map decay cs ≡ map tenfold cs
unfolding at_limit decay
decay-tenfold [] limit = refl
decay-tenfold (c ∷ cs) limit = ap₂ ◌∷◌ (ground arith) (decay-tenfold cs (ground arith))

-- For counts that are positive and below 2 ^ 31 at every enabled counter: the loops of `nmi_adapt` either
-- change nothing and it returns 0, or multiply every enabled count by ten, exactly and without wrapping,
-- and it returns 1; in both cases the counts stay in that range, and each enabled counter that is loaded
-- with its count starts without counting as overflowed.
pub decay_counts_lem :
    (cs : List OpCounterConfig)
    → AllCountable cs
    → ((decay_counts cs ≡ (cs, 0)) ⊎ (decay_counts cs ≡ (map tenfold cs, 1)))
      × AllCountable (decay_counts cs).0
      × AllArmed (decay_counts cs).0
unfolding decay_counts
decay_counts_lem cs h = (
  elim (Bool-cases (at_limit cs)) [
    | inl limit ↦ rw limit (inl refl)
    | inr free ↦ rw free (inr (ap (λ ds. (ds, 1)) (decay-tenfold cs free)))
  ],
  decay_counts-AllCountable cs h,
  AllCountable-AllArmed (decay_counts cs).0 (decay_counts-AllCountable cs h),
)
