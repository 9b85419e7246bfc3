-- ===== src/X86/P4/Fill/Owned.antt =====
-- Which registers `p4_fill_in_addresses` of x86/op_model_p4.c hands to a thread.
use rrprofile.Prelude.{
  ℕ, zero, suc, ◌+◌, ◌%◌, ◌<◌, ◌≤◌, ◌≡◌, ◌≢◌, refl, ap, sym, subst, ◌∙◌, arith, List, [], ◌∷◌,
  length, ◌++◌, Bool, true, false, ◌==◌, leb, ◌&&◌, ◌||◌, if◌then◌else◌, get_or, ◌⊎◌, inl, inr,
  Bool-cases,
}
use rrprofile.X86.{OpMsr, OpMsrs, no_msr}
use rrprofile.X86.P4.Tables.{P4Msrs}
use rrprofile.X86.P4.Fill.{fill_range, fill_one, fill_controls, p4_fill_in_addresses}
use rrprofile.X86.P4.Fill.Puts.{put_all, put_all-at}

-- The addresses that the kernel's asm/msr-index.h documents.
abbrev pub documented : P4Msrs
documented = record {
  bpu_cccr0 = 0x360;
  bpu_cccr1 = 0x361;
  bpu_cccr2 = 0x362;
  bpu_cccr3 = 0x363;
  ms_cccr0 = 0x364;
  ms_cccr1 = 0x365;
  ms_cccr2 = 0x366;
  ms_cccr3 = 0x367;
  flame_cccr0 = 0x368;
  flame_cccr1 = 0x369;
  flame_cccr2 = 0x36a;
  flame_cccr3 = 0x36b;
  iq_cccr0 = 0x36c;
  iq_cccr1 = 0x36d;
  iq_cccr2 = 0x36e;
  iq_cccr3 = 0x36f;
  iq_cccr4 = 0x370;
  iq_cccr5 = 0x371;
  bpu_perfctr0 = 0x300;
  ms_perfctr0 = 0x304;
  flame_perfctr0 = 0x308;
  iq_perfctr4 = 0x310;
  bpu_perfctr2 = 0x302;
  ms_perfctr2 = 0x306;
  flame_perfctr2 = 0x30a;
  iq_perfctr5 = 0x311;
  cru_escr3 = 0x3cd;
  cru_escr2 = 0x3cc;
  cru_escr1 = 0x3b9;
  cru_escr0 = 0x3b8;
  tc_escr1 = 0x3c5;
  tc_escr0 = 0x3c4;
  bpu_escr1 = 0x3b3;
  bpu_escr0 = 0x3b2;
  itlb_escr1 = 0x3b7;
  itlb_escr0 = 0x3b6;
  dac_escr1 = 0x3a9;
  dac_escr0 = 0x3a8;
  saat_escr1 = 0x3af;
  saat_escr0 = 0x3ae;
  mob_escr1 = 0x3ab;
  mob_escr0 = 0x3aa;
  pmh_escr1 = 0x3ad;
  pmh_escr0 = 0x3ac;
  bsu_escr1 = 0x3a1;
  bsu_escr0 = 0x3a0;
  fsb_escr0 = 0x3a2;
  fsb_escr1 = 0x3a3;
  firm_escr1 = 0x3a5;
  firm_escr0 = 0x3a4;
  ms_escr1 = 0x3c1;
  ms_escr0 = 0x3c0;
  rat_escr1 = 0x3bd;
  rat_escr0 = 0x3bc;
  tbpu_escr1 = 0x3c3;
  tbpu_escr0 = 0x3c2;
  iq_escr0 = 0x3ba;
  iq_escr1 = 0x3bb;
  ssu_escr0 = 0x3be;
  ix_escr0 = 0x3c8;
  cru_escr4 = 0x3e0;
  cru_escr5 = 0x3e1;
}

-- what `num_controls` is in `op_p4_spec` and in `op_p4_ht2_spec`
abbrev pub num_controls : (smp_num_siblings : ℕ) → ℕ
num_controls smp_num_siblings = if smp_num_siblings == 2 then 32 else 63

abbrev run : (first count inc : ℕ) → List ℕ
run first zero inc = []
run first (suc n) inc = first ∷ run (first + inc) n inc

-- the control registers of one of two hyper-threads, and those of a CPU that has no other
abbrev half : (stag reused : ℕ) → List ℕ
half zero reused =
    run 0x360 9 2
    ++ (run 0x3a0 13 2
        ++ (reused ∷ run 0x3bc 2 2 ++ (run 0x3c0 3 2 ++ (run 0x3c8 3 2 ++ (0x3e0 ∷ [])))))
half (suc n) reused =
    run 0x361 9 2
    ++ (run 0x3a1 13 2
        ++ (reused ∷ run 0x3bd 1 2 ++ (run 0x3c1 3 2 ++ (run 0x3c9 3 2 ++ (0x3e1 ∷ 0x3e1 ∷ [])))))

abbrev whole : (reused : ℕ) → List ℕ
whole reused =
    run 0x360 18 1
    ++ (run 0x3a0 26 1
        ++ (run reused 2 1
            ++ (run 0x3bc 3 1 ++ (run 0x3c0 6 1 ++ (run 0x3c8 6 1 ++ (0x3e1 ∷ 0x3e0 ∷ []))))))

-- The register that stands for `MSR_P4_IQ_ESCR0`, which newer models lack.
abbrev reused : (x86_model : ℕ) → ℕ
reused x86_model = if leb 3 x86_model then 0x3a0 else 0x3ba

module _ (rs : List OpMsr) (x86_model : ℕ) where
  fill_even :
      fill_controls documented 2 0 x86_model rs ≡ (32, put_all (half 0 (reused x86_model)) 0 rs)
  unfolding fill_controls fill_range fill_one put_all
  fill_even = elim (Bool-cases (leb 3 x86_model)) [ inl e ↦ rw e refl | inr e ↦ rw e refl ]

  fill_odd :
      fill_controls documented 2 1 x86_model rs ≡ (32, put_all (half 1 (reused x86_model + 1)) 0 rs)
  unfolding fill_controls fill_range fill_one put_all
  fill_odd = elim (Bool-cases (leb 3 x86_model)) [ inl e ↦ rw e refl | inr e ↦ rw e refl ]

  fill_whole :
      (smp_num_siblings : ℕ)
      → (smp_num_siblings == 2) ≡ false
      → fill_controls documented smp_num_siblings 0 x86_model rs
        ≡ (63, put_all (whole (reused x86_model)) 0 rs)
  unfolding fill_controls fill_range fill_one put_all
  fill_whole smp_num_siblings ne = elim (Bool-cases (leb 3 x86_model)) [
    | inl e ↦ rw (ne, e) refl
    | inr e ↦ rw (ne, e) refl
  ]

abbrev pub IsWithin : (low high : ℕ) → ℕ → Type 0
IsWithin low high a = (low ≤ a) × (a ≤ high)

-- the addresses of the CCCRs and of the ESCRs in asm/msr-index.h: 18 CCCRs, and the ESCRs in four
-- ranges without a gap
abbrev is_control : ℕ → Bool
is_control a =
    (leb 0x360 a && leb a 0x371)
    || (leb 0x3a0 a && leb a 0x3be)
    || (leb 0x3c0 a && leb a 0x3c5)
    || (leb 0x3c8 a && leb a 0x3cd)
    || (leb 0x3e0 a && leb a 0x3e1)

abbrev pub IsControl : ℕ → Type 0
IsControl a =
    IsWithin 0x360 0x371 a
    ⊎ (IsWithin 0x3a0 0x3be a
        ⊎ (IsWithin 0x3c0 0x3c5 a ⊎ (IsWithin 0x3c8 0x3cd a ⊎ IsWithin 0x3e0 0x3e1 a)))

all_of : (ℕ → Bool) → List ℕ → Bool
all_of p [] = true
all_of p (a ∷ l) = p a && all_of p l

all_of-at :
    (p : ℕ → Bool) (l : List ℕ) (k : ℕ) → all_of p l ≡ true → k < length l → p (get_or l k 0) ≡ true
unfolding all_of
all_of-at p [] k h lt = absurd (omega arith)
all_of-at p (a ∷ l) zero h lt = ground (arith, h)
all_of-at p (a ∷ l) (suc k) h lt = all_of-at p l k (ground (arith, h)) (omega arith)

is_control-IsControl : (a : ℕ) → is_control a ≡ true → IsControl a
is_control-IsControl a h = ground (arith, h)

-- an entry of one of the lists, as a control register
module _ (p : ℕ → Bool) (l : List ℕ) (rs : List OpMsr) (k : ℕ) where
  entry :
      all_of p l ≡ true
      → k < length l
      → length l ≤ length rs
      → p (get_or (put_all l 0 rs) k no_msr).addr ≡ true
  entry h lt fits =
      ap p (
        ap (λ (j : ℕ). (get_or (put_all l 0 rs) j no_msr).addr) (omega arith)
        ∙ put_all-at l 0 k rs lt (omega arith))
      ∙ all_of-at p l k h lt

-- a control register of the thread `stag`
abbrev is_own : (stag : ℕ) → ℕ → Bool
is_own stag a = is_control a && a % 2 == stag

half_own :
    (x86_model : ℕ)
    → (all_of (is_own 0) (half 0 (reused x86_model)) ≡ true)
      × (all_of (is_own 1) (half 1 (reused x86_model + 1)) ≡ true)
      × (all_of is_control (whole (reused x86_model)) ≡ true)
unfolding all_of
half_own x86_model = elim (Bool-cases (leb 3 x86_model)) [
  | inl e ↦ rw e (refl, refl, refl)
  | inr e ↦ rw e (refl, refl, refl)
]

-- What holds of the entry `k` after `fill_controls`: the loops end at the last entry, and the entry is
-- a control register, on a hyper-thread one of its parity.
abbrev pub IsOwned : (smp_num_siblings stag : ℕ) → ℕ × List OpMsr → ℕ → Type 0
IsOwned smp_num_siblings stag (i, rs) k =
    let a = (get_or rs k no_msr).addr in
    (i ≡ num_controls smp_num_siblings) × IsControl a × ((a % 2 ≡ stag) ⊎ (smp_num_siblings ≢ 2))

half-IsOwned :
    (stag : ℕ) (l : List ℕ) (rs : List OpMsr) (k : ℕ)
    → all_of (is_own stag) l ≡ true
    → length l ≡ 32
    → length rs ≡ 32
    → k < 32
    → IsOwned 2 stag (32, put_all l 0 rs) k
half-IsOwned stag l rs k own size fits lt =
    let a = (get_or (put_all l 0 rs) k no_msr).addr in
    let e = entry (is_own stag) l rs k own (omega arith) (omega arith) in
    let parity : a % 2 ≡ stag = ground (arith, e) in
    let control : is_control a ≡ true = ground (arith, e) in
    (refl, is_control-IsControl a control, inl parity)

size_half :
    (x86_model : ℕ)
    → (length (half 0 (reused x86_model)) ≡ 32)
      × (length (half 1 (reused x86_model + 1)) ≡ 32)
      × (length (whole (reused x86_model)) ≡ 63)
size_half x86_model = (refl, refl, refl)

controls-IsOwned :
    (smp_num_siblings stag x86_model k : ℕ) (rs : List OpMsr)
    → (stag ≡ 0) ⊎ (stag ≡ 1) × (smp_num_siblings ≡ 2)
    → length rs ≡ num_controls smp_num_siblings
    → k < num_controls smp_num_siblings
    → IsOwned smp_num_siblings stag (fill_controls documented smp_num_siblings stag x86_model rs) k
controls-IsOwned n stag x86_model k rs (inr (odd, two)) fits lt =
    rw (odd, two, fill_odd rs x86_model)
      (half-IsOwned 1 (half 1 (reused x86_model + 1)) rs k (half_own x86_model).1 refl
        (ground (arith, fits, two)) (ground (arith, lt, two)))
controls-IsOwned n stag x86_model k rs (inl even) fits lt = elim (Bool-cases (n == 2)) [
  | inl two ↦
      let e : n ≡ 2 = ground (arith, two) in
      rw (even, e, fill_even rs x86_model)
        (half-IsOwned 0 (half 0 (reused x86_model)) rs k (half_own x86_model).0 refl
          (ground (arith, fits, e)) (ground (arith, lt, e)))
  | inr single ↦
      let l = whole (reused x86_model) in
      let a = (get_or (put_all l 0 rs) k no_msr).addr in
      let control =
        entry is_control l rs k (half_own x86_model).2 (ground (arith, lt, single))
          (ground (arith, fits, single)) in
      rw (even, fill_whole rs x86_model n single)
        ((
          ground (arith, single),
          is_control-IsControl a control,
          inr (λ e. ground (arith, single, e)),
        ))
]

-- With the addresses that the kernel documents, on an even or odd hyper-thread (`stag` 0 or 1) or on a CPU
-- that has no other thread (`stag` 0), and with room for `num_controls` control registers:
-- `p4_fill_in_addresses` gives an address to exactly these, writing past none of them, each the
-- address of a CCCR or of an ESCR; and a hyper-thread gets only registers of its own parity, so that
-- no two threads of a core save and restore the same one.
pub p4_fill_in-IsOwned :
    (m : P4Msrs) (smp_num_siblings stag x86_model k : ℕ) (msrs : OpMsrs)
    → m ≡ documented
    → (stag ≡ 0) ⊎ (stag ≡ 1) × (smp_num_siblings ≡ 2)
    → length msrs.controls ≡ num_controls smp_num_siblings
    → k < num_controls smp_num_siblings
    → IsOwned smp_num_siblings stag
        (
          (fill_controls m smp_num_siblings stag x86_model msrs.controls).0,
          (p4_fill_in_addresses m smp_num_siblings stag x86_model msrs).controls,
        )
        k
unfolding p4_fill_in_addresses
p4_fill_in-IsOwned m n stag x86_model k msrs doc thread fits lt =
    subst (λ (m : P4Msrs). IsOwned n stag (fill_controls m n stag x86_model msrs.controls) k)
      (sym doc) (controls-IsOwned n stag x86_model k msrs.controls thread fits lt)
