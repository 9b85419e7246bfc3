-- ===== src/X86/P4/Fill/Puts.antt =====
-- The loops of `p4_fill_in_addresses` of x86/op_model_p4.c: their fuel, and a run of assignments.
use rrprofile.Prelude.{
  ℕ, zero, suc, ◌+◌, ◌<◌, ◌≤◌, ◌≡◌, ◌≢◌, refl, ap, ◌∙◌, arith, List, [], ◌∷◌, length, Bool, false,
  get_or, inl, inr, Bool-cases, length-set, get_or-set_self, get_or-set_ne,
}
use rrprofile.X86.{OpMsr, no_msr}
use rrprofile.X86.P4.Fill.{put_addr, fill_range}

-- Fuel that reaches the first address that ends the loop is enough: any other such fuel does the same.
fill_range_enough :
    (within : ℕ → Bool) (inc end f g addr : ℕ) (s : ℕ × List OpMsr)
    → ((a : ℕ) → end ≤ a → within a ≡ false)
    → 0 < inc
    → end ≤ addr + f
    → end ≤ addr + g
    → fill_range f within inc addr s ≡ fill_range g within inc addr s
unfolding fill_range
fill_range_enough within inc end zero zero addr s ends pos h k = refl
fill_range_enough within inc end zero (suc g) addr (i, rs) ends pos h k =
    rw (ends addr (omega arith)) refl
fill_range_enough within inc end (suc f) zero addr (i, rs) ends pos h k =
    rw (ends addr (omega arith)) refl
fill_range_enough within inc end (suc f) (suc g) addr (i, rs) ends pos h k =
    elim (Bool-cases (within addr)) [
      | inl goes ↦ rw goes (
          fill_range_enough within inc end f g (addr + inc) (i + 1, put_addr rs i addr) ends pos
            (omega arith) (omega arith))
      | inr stops ↦ rw stops refl
    ]

-- the addresses in the entries from `i` on
unfoldable pub put_all : List ℕ → ℕ → List OpMsr → List OpMsr
put_all [] i rs = rs
put_all (a ∷ rest) i rs = put_all rest (i + 1) (put_addr rs i a)

length-put_addr : (rs : List OpMsr) (i a : ℕ) → length (put_addr rs i a) ≡ length rs
unfolding put_addr
length-put_addr rs i a = length-set rs i _

put_addr-own :
    (rs : List OpMsr) (i a : ℕ) → i < length rs → (get_or (put_addr rs i a) i no_msr).addr ≡ a
unfolding put_addr
put_addr-own rs i a h = ap (λ (r : OpMsr). r.addr) (get_or-set_self rs i _ no_msr h)

put_addr-other :
    (rs : List OpMsr) (i k a : ℕ) → i ≢ k → get_or (put_addr rs i a) k no_msr ≡ get_or rs k no_msr
unfolding put_addr
put_addr-other rs i k a h = get_or-set_ne rs _ no_msr h

-- the entries below `i` are left alone, and the others get their addresses
put_all-before :
    (l : List ℕ) (i k : ℕ) (rs : List OpMsr)
    → k < i
    → get_or (put_all l i rs) k no_msr ≡ get_or rs k no_msr
unfolding put_all
put_all-before [] i k rs h = refl
put_all-before (a ∷ l) i k rs h =
    put_all-before l (i + 1) k (put_addr rs i a) (omega arith)
    ∙ put_addr-other rs i k a (omega arith)

pub put_all-at :
    (l : List ℕ) (i k : ℕ) (rs : List OpMsr)
    → k < length l
    → i + length l ≤ length rs
    → (get_or (put_all l i rs) (i + k) no_msr).addr ≡ get_or l k 0
unfolding put_all
put_all-at [] i k rs h fits = absurd (omega arith)
put_all-at (a ∷ l) i zero rs h fits =
    ap (λ (j : ℕ). (get_or (put_all l (i + 1) (put_addr rs i a)) j no_msr).addr) (omega arith)
    ∙ (ap (λ (r : OpMsr). r.addr) (put_all-before l (i + 1) i (put_addr rs i a) (omega arith))
        ∙ put_addr-own rs i a (omega arith))
put_all-at (a ∷ l) i (suc k) rs h fits =
    ap (λ (j : ℕ). (get_or (put_all l (i + 1) (put_addr rs i a)) j no_msr).addr) (omega arith)
    ∙ put_all-at l (i + 1) k (put_addr rs i a) (omega arith) (omega (arith, length-put_addr rs i a))
