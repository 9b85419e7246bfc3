-- ===== src/Bits/Shift.antt =====
-- Shifts and truncations of words, bit by bit.
use rrprofile.Prelude.{ℕ, zero, suc, ◌+◌, ◌*◌, ◌/◌, ◌%◌, ◌^◌, ◌<◌, ◌≤◌, ◌≡◌, sym, ap, ◌∙◌, arith}
use native.Mathlib.Nat.{mul-add-mod_self_left, mod-eq_of_lt, mod-lt, div-add-mod, two-pow-succ}
use rrprofile.Bits.{bit, bit-zero}
use rrprofile.Bits.Fields.{shifted}

pub bit-shifted_high : (s j x : ℕ) → bit (s + j) (shifted s x) ≡ bit j x
bit-shifted_high zero j x = let p : 0 + j ≡ j = omega arith in ap (λ (i : ℕ). bit i x) p
bit-shifted_high (suc s) j x =
    let p : suc s + j ≡ suc (s + j) = omega arith in
    let half : shifted s x * 2 / 2 ≡ shifted s x = omega arith in
    ap (λ (i : ℕ). bit i (shifted (suc s) x)) p ∙ ap (bit (s + j)) half ∙ bit-shifted_high s j x

-- The remainder by an even number keeps the lowest bit.
half-mod : (p q r x : ℕ) → r < p → p * q + r ≡ x / 2 → x % (p + p) ≡ x % 2 + 2 * r
half-mod p q r x lt e =
    let parts : (p + p) * q + (x % 2 + 2 * r) ≡ x = ground arith in
    ap (λ (y : ℕ). y % (p + p)) (sym parts)
    ∙ mul-add-mod_self_left (p + p) q (x % 2 + 2 * r)
    ∙ mod-eq_of_lt (omega arith)

pow_pos : (n : ℕ) → 0 < 2 ^ n
pow_pos zero = omega arith
pow_pos (suc n) = let h = pow_pos n in omega (arith, two-pow-succ n)

mod-pow : (n x : ℕ) → x % 2 ^ suc n ≡ x % 2 + 2 * (x / 2 % 2 ^ n)
mod-pow n x =
    ap (λ (m : ℕ). x % m) (two-pow-succ n)
    ∙ half-mod (2 ^ n) (x / 2 / 2 ^ n) (x / 2 % 2 ^ n) x (mod-lt (x / 2) (pow_pos n))
        (div-add-mod (x / 2) (2 ^ n))

-- A truncation keeps the bits below its width.
pub bit-mod : (n k x : ℕ) → k < n → bit k (x % 2 ^ n) ≡ bit k x
bit-mod zero k x h = absurd (omega arith)
bit-mod (suc n) zero x h = omega (arith, mod-pow n x)
bit-mod (suc n) (suc k) x h =
    let half : x % 2 ^ suc n / 2 ≡ x / 2 % 2 ^ n = omega (arith, mod-pow n x) in
    ap (bit k) half ∙ bit-mod n k (x / 2) (omega arith)

-- A number below a power of two has no bit from there on.
pub bit-high : (n j x : ℕ) → x < 2 ^ n → n ≤ j → bit j x ≡ 0
bit-high zero j x lt h = let p : x ≡ 0 = omega arith in ap (bit j) p ∙ bit-zero j
bit-high (suc n) zero x lt h = absurd (omega arith)
bit-high (suc n) (suc j) x lt h = bit-high n j (x / 2) (omega (arith, two-pow-succ n)) (omega arith)
