-- ===== src/Bits/Fields.antt =====
-- Single bits and the fields that they make up.
use rrprofile.Prelude.{ℕ, zero, suc, ◌+◌, ◌*◌, ◌/◌, ◌%◌, ◌^◌, ◌<◌, ◌≡◌, ap, ◌∙◌, arith}
use rrprofile.Bits.{bit}

-- Multiples of 2 ^ 8 have no bit below bit 8.
pub bit-multiple : (k n m : ℕ) → k < 8 → n ≡ m * 2 ^ 8 → bit k n ≡ 0
bit-multiple zero n m h e = omega arith
bit-multiple (suc zero) n m h e = omega arith
bit-multiple (suc (suc zero)) n m h e = omega arith
bit-multiple (suc (suc (suc zero))) n m h e = omega arith
bit-multiple (suc (suc (suc (suc zero)))) n m h e = omega arith
bit-multiple (suc (suc (suc (suc (suc zero))))) n m h e = omega arith
bit-multiple (suc (suc (suc (suc (suc (suc zero)))))) n m h e = omega arith
bit-multiple (suc (suc (suc (suc (suc (suc (suc zero))))))) n m h e = omega arith
bit-multiple (suc (suc (suc (suc (suc (suc (suc (suc k)))))))) n m h e = absurd (omega arith)

-- The remainder by 2 ^ 8 keeps the bits below bit 8.
pub bit-low : (k n : ℕ) → k < 8 → bit k (n % 2 ^ 8) ≡ bit k n
bit-low zero n h = omega arith
bit-low (suc zero) n h = omega arith
bit-low (suc (suc zero)) n h = omega arith
bit-low (suc (suc (suc zero))) n h = omega arith
bit-low (suc (suc (suc (suc zero)))) n h = omega arith
bit-low (suc (suc (suc (suc (suc zero))))) n h = omega arith
bit-low (suc (suc (suc (suc (suc (suc zero)))))) n h = omega arith
bit-low (suc (suc (suc (suc (suc (suc (suc zero))))))) n h = omega arith
bit-low (suc (suc (suc (suc (suc (suc (suc (suc k)))))))) n h = absurd (omega arith)

-- bits 8 to 11 as a number of four bits
pub bit-middle : (k n : ℕ) → k < 4 → bit k (n / 2 ^ 8 % 2 ^ 4) ≡ bit (8 + k) n
bit-middle zero n h = omega arith
bit-middle (suc zero) n h = omega arith
bit-middle (suc (suc zero)) n h = omega arith
bit-middle (suc (suc (suc zero))) n h = omega arith
bit-middle (suc (suc (suc (suc k)))) n h = absurd (omega arith)

-- A field of eight bits, and one of four, from its bits.
pub low_byte : (x y : ℕ) → ((k : ℕ) → k < 8 → bit k x ≡ bit k y) → x % 2 ^ 8 ≡ y % 2 ^ 8
low_byte x y h = omega (
  arith,
  h 0 (omega arith),
  h 1 (omega arith),
  h 2 (omega arith),
  h 3 (omega arith),
  h 4 (omega arith),
  h 5 (omega arith),
  h 6 (omega arith),
  h 7 (omega arith),
)

pub low_nibble :
    (x y : ℕ) → ((k : ℕ) → k < 4 → bit k x ≡ bit (8 + k) y) → x % 2 ^ 4 ≡ y / 2 ^ 8 % 2 ^ 4
low_nibble x y h =
    omega (arith, h 0 (omega arith), h 1 (omega arith), h 2 (omega arith), h 3 (omega arith))

-- a number with `j` zeros appended, which has no bit below bit `j`
abbrev pub shifted : ℕ → ℕ → ℕ
shifted zero x = x
shifted (suc j) x = shifted j x * 2

pub bit-shifted : (j k x : ℕ) → k < j → bit k (shifted j x) ≡ 0
bit-shifted zero k x h = absurd (omega arith)
bit-shifted (suc j) zero x h = omega arith
bit-shifted (suc j) (suc k) x h = ap (bit k) (omega arith) ∙ bit-shifted j k x (omega arith)

-- what is left of a number after `j` halvings, whose bit `k` is bit `j + k` of the number
abbrev pub halved : ℕ → ℕ → ℕ
halved zero x = x
halved (suc j) x = halved j (x / 2)

pub bit-halved : (j k x y : ℕ) → halved j x ≡ y → bit (j + k) x ≡ bit k y
bit-halved zero k x y e =
    let p : 0 + k ≡ k = omega arith in ap (λ (i : ℕ). bit i x) p ∙ ap (bit k) e
bit-halved (suc j) k x y e =
    let p : suc j + k ≡ suc (j + k) = omega arith in
    ap (λ (i : ℕ). bit i x) p ∙ bit-halved j k (x / 2) y e
