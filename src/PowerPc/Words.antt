-- ===== src/PowerPc/Words.antt =====
-- Fields of a control register that are put together with `|`, each shifted to its place and cut out by
-- its mask.
use rrprofile.Prelude.{
  ℕ, zero, suc, ◌+◌, ◌-◌, ◌/◌, ◌%◌, ◌^◌, ◌<◌, ◌≡◌, refl, sym, subst, ltb, ap, ◌∙◌, arith, List, [],
  ◌∷◌, map, Bool, true, false, ◌==◌, ◌&&◌, get_or, length, ulong_mod, uint_mod,
}
use native.Mathlib.Nat.{two-pow-succ}
use Prim.Native.Nat.{bit_and, bit_or, min}
use rrprofile.Bits.{bit, bit-zero, bit_small, bit-bit_and, bit-bit_or, holds_below, holds_below_at}
use rrprofile.Bits.Fields.{shifted}
use rrprofile.Bits.Shift.{bit-shifted_high, bit-mod}

-- a value, how far it is shifted, and the mask of its field
pub record Select : Type 0 where
  pub value : ℕ
  pub shift : ℕ
  pub mask : ℕ

abbrev pub no_select : Select
no_select = record { value = 0; shift = 0; mask = 0 }

-- `(value << shift) & mask` on an unsigned long
abbrev pub place : Select → ℕ
place f = bit_and (shifted f.shift f.value % ulong_mod) f.mask

-- `acc | x | …`, from the left
abbrev pub or_all : ℕ → List ℕ → ℕ
or_all acc [] = acc
or_all acc (x ∷ xs) = or_all (bit_or acc x) xs

-- Bit `k` belongs to no mask of the list.
unfoldable pub nobody : ℕ → List Select → Bool
nobody k [] = true
nobody k (f ∷ fs) = (bit k f.mask == 0) && nobody k fs

-- Bit `k` belongs to mask `i` alone.
unfoldable pub alone : ℕ → ℕ → List Select → Bool
unfolding nobody
alone k i [] = false
alone k zero (f ∷ fs) = (bit k f.mask == 1) && nobody k fs
alone k (suc i) (f ∷ fs) = (bit k f.mask == 0) && alone k i fs

place-outside : (k : ℕ) (f : Select) → bit k f.mask ≡ 0 → bit k (place f) ≡ 0
place-outside k f h = bit-bit_and k (shifted f.shift f.value % ulong_mod) f.mask ∙ omega (arith, h)

place-inside :
    (j : ℕ) (f : Select)
    → f.shift + j < 64
    → bit (f.shift + j) f.mask ≡ 1
    → bit (f.shift + j) (place f) ≡ bit j f.value
place-inside j f lt h =
    let moved : bit (f.shift + j) (shifted f.shift f.value % ulong_mod) ≡ bit j f.value =
      bit-mod 64 (f.shift + j) _ lt ∙ bit-shifted_high f.shift j f.value in
    bit-bit_and (f.shift + j) (shifted f.shift f.value % ulong_mod) f.mask
    ∙ omega (arith, h, moved, bit_small j f.value)

or_all-nobody :
    (k acc : ℕ) (fs : List Select)
    → nobody k fs ≡ true
    → bit k (or_all acc (map place fs)) ≡ bit k acc
unfolding nobody
or_all-nobody k acc [] h = refl
or_all-nobody k acc (f ∷ fs) h =
    let off = place-outside k f (ground arith) in
    or_all-nobody k (bit_or acc (place f)) fs (ground arith)
    ∙ bit-bit_or k acc (place f)
    ∙ omega (arith, off)

-- A field whose bit `j` belongs to it alone holds bit `j` of its value.
pub or_all-alone :
    (i j acc : ℕ) (fs : List Select)
    → let f = get_or fs i no_select in
      let k = f.shift + j in
      k < 64
      → bit k acc ≡ 0
      → alone k i fs ≡ true
      → bit k (or_all acc (map place fs)) ≡ bit j f.value
unfolding alone
or_all-alone i j acc [] lt clear h = ground arith
or_all-alone zero j acc (f ∷ fs) lt clear h =
    let on = place-inside j f lt (ground arith) in
    or_all-nobody (f.shift + j) (bit_or acc (place f)) fs (ground arith)
    ∙ bit-bit_or (f.shift + j) acc (place f)
    ∙ omega (arith, on, clear)
or_all-alone (suc i) j acc (f ∷ fs) lt clear h =
    let k = (get_or fs i no_select).shift + j in
    let off = place-outside k f (ground arith) in
    or_all-alone i j (bit_or acc (place f)) fs lt
      (bit-bit_or k acc (place f) ∙ omega (arith, off, clear)) (ground arith)

-- a field of a register: its first bit, its width, and the value it is to hold
pub record FieldSpec : Type 0 where
  pub first : ℕ
  pub width : ℕ
  pub holds : ℕ

abbrev pub no_field : FieldSpec
no_field = record { first = 0; width = 0; holds = 0 }

-- Each value agrees with what its field is to hold, on the bits of the field.
unfoldable pub Matches : List Select → List FieldSpec → Type 0
Matches (f ∷ fs) (s ∷ ss) =
    ((f.shift ≡ s.first) × ((j : ℕ) → j < s.width → bit j f.value ≡ bit j s.holds)) × Matches fs ss
Matches fs ss = length fs ≡ length ss

-- a field that matches, before those that do
infixr 5 ◌⊗◌
abbrev pub ◌⊗◌ : {A B : Type 0} → A → B → A × B
a ⊗ b = (a, b)

Matches-at :
    (fs : List Select) (ss : List FieldSpec) (i j : ℕ)
    → Matches fs ss
    → let f = get_or fs i no_select in
      let s = get_or ss i no_field in
      j < s.width → (f.shift ≡ s.first) × (bit j f.value ≡ bit j s.holds)
unfolding Matches
Matches-at [] [] i j h lt = absurd (omega arith)
Matches-at [] (s ∷ ss) i j h lt = absurd (omega (arith, h))
Matches-at (f ∷ fs) [] i j h lt = absurd (omega arith)
Matches-at (f ∷ fs) (s ∷ ss) zero j ((p, q), h) lt = (p, q j lt)
Matches-at (f ∷ fs) (s ∷ ss) (suc i) j (_, h) lt = Matches-at fs ss i j h lt

-- Each bit of each field is one of a word, and belongs to the mask of that field alone.
unfoldable pub apart : List Select → List FieldSpec → Bool
unfolding alone
apart fs ss = holds_below (length ss) (λ i.
    let s = get_or ss i no_field in
    holds_below s.width (λ j. ltb (s.first + j) 64 && alone (s.first + j) i fs))

-- What is or-ed together from fields that are apart holds the bits of each of them.
pub fields_at :
    (fs : List Select) (ss : List FieldSpec)
    → Matches fs ss
    → apart fs ss ≡ true
    → (i j : ℕ)
    → let s = get_or ss i no_field in
      i < length ss → j < s.width → bit (s.first + j) (or_all 0 (map place fs)) ≡ bit j s.holds
unfolding apart
fields_at fs ss h table i j lt within =
    let s = get_or ss i no_field in
    let (moved, same) = Matches-at fs ss i j h within in
    let row = holds_below_at _ _ i lt table in
    let cell =
      holds_below_at s.width (λ j. ltb (s.first + j) 64 && alone (s.first + j) i fs) j within row in
    ap (λ (k : ℕ). bit (k + j) (or_all 0 (map place fs))) (sym moved)
    ∙ or_all-alone i j 0 fs (ground (arith, moved)) (bit-zero ((get_or fs i no_select).shift + j))
        (subst (λ (k : ℕ). alone (k + j) i fs ≡ true) (sym moved) (ground arith))
    ∙ same

-- The complement of a word has the other bits.
complement : (n k m : ℕ) → k < n → m < 2 ^ n → bit k (2 ^ n - 1 - m) ≡ 1 - bit k m
complement zero k m h lt = absurd (omega arith)
complement (suc n) zero m h lt = omega (arith, two-pow-succ n)
complement (suc n) (suc k) m h lt =
    let half : (2 ^ suc n - 1 - m) / 2 ≡ 2 ^ n - 1 - m / 2 = omega (arith, two-pow-succ n) in
    ap (bit k) half ∙ complement n k (m / 2) (omega arith) (omega (arith, two-pow-succ n))

pub bit-clear :
    (k x m : ℕ)
    → k < 32
    → m < uint_mod
    → bit k (bit_and x (uint_mod - 1 - m)) ≡ min (bit k x) (1 - bit k m)
bit-clear k x m h lt =
    bit-bit_and k x (uint_mod - 1 - m) ∙ ap (min (bit k x)) (complement 32 k m h lt)
