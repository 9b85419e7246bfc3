-- ===== src/PowerPc/Rs64/Fields.antt =====
-- The event fields that `ctrl_write` of powerpc/op_model_rs64.c writes.
use rrprofile.Prelude.{
  ℕ, ◌+◌, ◌-◌, ◌%◌, ◌^◌, ◌<◌, ◌≡◌, refl, ap, arith, [], ◌∷◌, Bool, true, ◌&&◌, ◌==◌, ==_iff, ltb,
  leb, if◌then◌else◌, get_or, uint_mod, Bool-cases, inl, inr,
}
use Prim.Native.Nat.{bit_and, bit_or}
use rrprofile.Bits.{bit, bit_small, bit-bit_or, holds_below, holds_below_at}
use rrprofile.Bits.Fields.{shifted, bit-shifted}
use rrprofile.Bits.Shift.{bit-mod, bit-high, bit-shifted_high}
use rrprofile.PowerPc.{PpcCpu}
use rrprofile.PowerPc.Words.{bit-clear}
use rrprofile.PowerPc.Rs64.{ctrl_shift, ctrl_mask, ctrl_read, ctrl_write}

-- the number of bits of a counter's event
abbrev pub ctrl_width : ℕ → ℕ
ctrl_width i = get_or (7 ∷ 6 ∷ 5 ∷ 5 ∷ 5 ∷ 5 ∷ 5 ∷ 4 ∷ []) i 0

-- Bit `k` of its register is in the field of counter `i`.
abbrev pub inside : ℕ → ℕ → Bool
inside i k = leb (ctrl_shift i) k && ltb k (ctrl_shift i + ctrl_width i)

mask_table :
    holds_below 8 (λ i.
      ltb (shifted (ctrl_shift i) (ctrl_mask i)) uint_mod
      && holds_below 32
          (λ k. bit k (shifted (ctrl_shift i) (ctrl_mask i)) == (if inside i k then 1 else 0)))
    ≡ true
unfolding holds_below
mask_table = refl

mask_lem :
    (i k : ℕ)
    → i < 8
    → k < 32
    → (shifted (ctrl_shift i) (ctrl_mask i) < uint_mod)
      × (bit k (shifted (ctrl_shift i) (ctrl_mask i)) ≡ (if inside i k then 1 else 0))
mask_lem i k h lt =
    let row = holds_below_at 8 _ i h mask_table in
    let cell =
      holds_below_at 32
        (λ k. bit k (shifted (ctrl_shift i) (ctrl_mask i)) == (if inside i k then 1 else 0)) k lt
        (ground (arith, row)) in
    (ground (arith, row), (==_iff _ _).0 cell)

-- the bits of a value that is shifted into the field
moved :
    (s w val k : ℕ)
    → k < 32
    → val < 2 ^ w
    → bit k (shifted s (val % uint_mod) % uint_mod)
      ≡ (if leb s k && ltb k (s + w) then bit (k - s) val else 0)
moved s w val k lt small =
    let cut = bit-mod 32 k (shifted s (val % uint_mod)) lt in
    elim (Bool-cases (leb s k)) [
      | inl e ↦
          let at : s + (k - s) ≡ k = ground (arith, e) in
          let here = ap (λ (i : ℕ). bit i (shifted s (val % uint_mod))) at in
          let high = bit-shifted_high s (k - s) (val % uint_mod) in
          let word = bit-mod 32 (k - s) val (omega arith) in
          elim (Bool-cases (ltb k (s + w))) [
            | inl f ↦ ground (arith, cut, here, high, word, e, f)
            | inr f ↦
                let none = bit-high w (k - s) val small (ground (arith, e, f)) in
                ground (arith, cut, here, high, word, none, e, f)
          ]
      | inr e ↦
          let none = bit-shifted s k (val % uint_mod) (ground (arith, e)) in
          ground (arith, cut, none, e)
    ]

-- For one of the eight counters and a value that fits its field, `ctrl_write` puts the bits of the value
-- into the field, and keeps every other bit of that register.
pub ctrl_write-bit :
    (i val k : ℕ) (c : PpcCpu)
    → i < 8
    → k < 32
    → val < 2 ^ ctrl_width i
    → bit k (ctrl_read i (ctrl_write i val c))
      ≡ (if inside i k then bit (k - ctrl_shift i) val else bit k (ctrl_read i c))
unfolding ctrl_write
ctrl_write-bit i val k c h lt small =
    let (word, mask) = mask_lem i k h lt in
    let value = moved (ctrl_shift i) (ctrl_width i) val k lt small in
    let field = shifted (ctrl_shift i) (ctrl_mask i) in
    let kept = bit-clear k (ctrl_read i c) field lt word in
    let both =
      bit-bit_or k (bit_and (ctrl_read i c) (uint_mod - 1 - field))
        (shifted (ctrl_shift i) (val % uint_mod) % uint_mod) in
    let read =
      bit-mod 32 k
        (bit_or (bit_and (ctrl_read i c) (uint_mod - 1 - field))
          (shifted (ctrl_shift i) (val % uint_mod) % uint_mod))
        lt in
    ground (
      arith,
      mask,
      value,
      kept,
      both,
      read,
      bit_small k (ctrl_read i c),
      bit_small (k - ctrl_shift i) val,
    )
