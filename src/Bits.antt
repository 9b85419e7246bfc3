-- ===== src/Bits.antt =====
-- Single bits of `x & m` and `x | m`: both are a recursion on the digits, so that one law on digits
-- gives the law on bits for either.
pub mod Fields
pub mod Shift
use Prim.Native.Nat.{bit_and, bit_or, digits, bit_and-bitwise, bit_or-bitwise, min, max}
use rrprofile.Prelude.{
  ℕ, zero, suc, ◌-◌, ◌/◌, ◌%◌, ◌^◌, ◌≤◌, ◌<◌, ◌≡◌, refl, ap, ◌∙◌, arith, Bool, true, ◌&&◌, ◌==◌,
  ==_iff, if◌then◌else◌,
}

-- bit `k` of a number
abbrev pub bit : ℕ → ℕ → ℕ
bit zero x = x % 2
bit (suc k) x = bit k (x / 2)

pub bit_small : (k x : ℕ) → bit k x ≤ 1
bit_small zero x = omega arith
bit_small (suc k) x = bit_small k (x / 2)

pub bit-zero : (k : ℕ) → bit k 0 ≡ 0
bit-zero zero = refl
bit-zero (suc k) = bit-zero k

-- An operation on digits that keeps them digits, and what is done once the first number is used up.
module _ (rest : ℕ → ℕ) (op : ℕ → ℕ → ℕ) (op_small : (x y : ℕ) → x ≤ 1 → y ≤ 1 → op x y ≤ 1)
    (bit-rest : (k b : ℕ) → bit k (rest b) ≡ op 0 (bit k b)) where
  rest-at : (k b : ℕ) → bit k (rest b) ≡ op (bit k 0) (bit k b)
  rest-at k b = rw (bit-zero k) (bit-rest k b)

  bit-digits :
      (k fuel a b : ℕ) → a ≤ fuel → bit k (digits rest op fuel a b) ≡ op (bit k a) (bit k b)
  bit-digits k zero zero b h = rest-at k b
  bit-digits k zero (suc a) b h = absurd (omega arith)
  bit-digits k (suc fuel) zero b h = rest-at k b
  bit-digits zero (suc fuel) (suc a) b h =
      let small = op_small (suc a % 2) (b % 2) (omega arith) (omega arith) in omega arith
  bit-digits (suc k) (suc fuel) (suc a) b h =
      let small = op_small (suc a % 2) (b % 2) (omega arith) (omega arith) in
      let deeper = bit-digits k fuel (suc a / 2) (b / 2) (omega arith) in
      let halved : digits rest op (suc fuel) (suc a) b / 2
          ≡ digits rest op fuel (suc a / 2) (b / 2) =
        omega arith in
      ap (bit k) halved ∙ deeper

pub bit-bit_and : (k a b : ℕ) → bit k (bit_and a b) ≡ min (bit k a) (bit k b)
bit-bit_and k a b =
    ap (bit k) (bit_and-bitwise a b)
    ∙ bit-digits (λ b. zero) min (λ x y p q. omega arith) (λ k b. bit-zero k ∙ omega arith) k a a b
        (omega arith)

pub bit-bit_or : (k a b : ℕ) → bit k (bit_or a b) ≡ max (bit k a) (bit k b)
bit-bit_or k a b =
    ap (bit k) (bit_or-bitwise a b)
    ∙ bit-digits (λ b. b) max (λ x y p q. omega arith) (λ k b. omega arith) k a a b (omega arith)

-- A test that holds of every number below a bound, found by running it on each.
unfoldable pub holds_below : ℕ → (ℕ → Bool) → Bool
holds_below zero p = true
holds_below (suc n) p = p n && holds_below n p

pub holds_below_at : (n : ℕ) (p : ℕ → Bool) (x : ℕ) → x < n → holds_below n p ≡ true → p x ≡ true
unfolding holds_below
holds_below_at zero p x lt h = absurd (omega arith)
holds_below_at (suc n) p x lt h = ground (arith, holds_below_at n p x)

-- the bits of 2 ^ 22 and of its complement in 32 bits
active_table : holds_below 32 (λ k. bit k (2 ^ 22) == (if k == 22 then 1 else 0)) ≡ true
unfolding holds_below
active_table = refl

inactive_table :
    holds_below 32 (λ k. bit k (2 ^ 32 - 1 - 2 ^ 22) == (if k == 22 then 0 else 1)) ≡ true
unfolding holds_below
inactive_table = refl

-- Setting bit 22 of a 32-bit value sets that bit alone, and clearing it clears that bit alone.
pub bit-set_22 : (k n : ℕ) → k < 32 → bit k (bit_or n (2 ^ 22)) ≡ (if k == 22 then 1 else bit k n)
bit-set_22 k n h =
    let mask = (==_iff _ _).0 (holds_below_at 32 _ k h active_table) in
    rw (bit-bit_or k n (2 ^ 22), mask) (ground (arith, bit_small k n))

pub bit-clear_22 :
    (k n : ℕ) → k < 32 → bit k (bit_and n (2 ^ 32 - 1 - 2 ^ 22)) ≡ (if k == 22 then 0 else bit k n)
bit-clear_22 k n h =
    let mask = (==_iff _ _).0 (holds_below_at 32 _ k h inactive_table) in
    rw (bit-bit_and k n (2 ^ 32 - 1 - 2 ^ 22), mask) (ground (arith, bit_small k n))
