-- ===== src/Prelude/Loops.antt =====
-- Loops over the counters of a processor: what the rounds keep, and what one of them does to what the
-- others keep.
use Prim.Native.Nat.{ℕ, zero, suc, ◌+◌, ◌≤◌, ◌<◌}
use mathlib.Core.Path.{◌≡◌, ap, ◌∙◌, subst}
use mathlib.Core.Logic.{◌⊎◌, inl, inr}
use native.Mathlib.Omega.{arith}
use rrprofile.Prelude.Tests.{◌==◌, Bool-cases, if◌then◌else◌}
use mathlib.Core.Bool.{Bool}

-- A loop over the counters, from `i` on, with the rounds that are left.
abbrev pub for_counters {ℓ} : {S : Type ℓ} → (ℕ → S → S) → ℕ → ℕ → S → S
for_counters body zero i c = c
for_counters body (suc n) i c = for_counters body n (i + 1) (body i c)

-- the value at the last number below `n` that passes the test, and 0 if none does
abbrev pub latest : (ℕ → Bool) → (ℕ → ℕ) → ℕ → ℕ
latest p value zero = 0
latest p value (suc n) = if p n then value n else latest p value n

module _ {S : Type 0} (body : ℕ → S → S) where
  for_counters-last :
      (n i : ℕ) (s : S) → for_counters body (suc n) i s ≡ body (i + n) (for_counters body n i s)
  for_counters-last zero i s = ap (λ (k : ℕ). body k s) (omega arith)
  for_counters-last (suc n) i s =
      let p : i + 1 + n ≡ i + suc n = omega arith in
      for_counters-last n (i + 1) (body i s)
      ∙ ap (λ (k : ℕ). body k (for_counters body (suc n) i s)) p

  -- What a round overwrites when its counter passes a test is, after the loop, what the last such
  -- counter has written.
  pub for_counters-latest :
      (read : S → ℕ) (p : ℕ → Bool) (value : ℕ → ℕ)
      → ((k : ℕ) (s : S) → read (body k s) ≡ (if p k then value k else read s))
      → (n : ℕ) (s : S) → read s ≡ 0
      → read (for_counters body n 0 s) ≡ latest p value n
  for_counters-latest read p value writes zero s h = h
  for_counters-latest read p value writes (suc n) s h =
      let q : 0 + n ≡ n = omega arith in
      ap read (for_counters-last n 0 s)
      ∙ ap (λ (k : ℕ). read (body k (for_counters body n 0 s))) q
      ∙ writes n (for_counters body n 0 s)
      ∙ ap (λ (r : ℕ). if p n then value n else r) (for_counters-latest read p value writes n s h)

module _ {S : Type 0} (body : ℕ → S → S) (m : ℕ) where
  -- What every round keeps holds after the loop.
  pub for_counters-keeps :
      (Kept : S → Type 0)
      → ((k : ℕ) (c : S) → k < m → Kept c → Kept (body k c))
      → (n i : ℕ) (c : S) → i + n ≡ m
      → Kept c
      → Kept (for_counters body n i c)
  for_counters-keeps Kept keeps zero i c h kept = kept
  for_counters-keeps Kept keeps (suc n) i c h kept =
      for_counters-keeps Kept keeps n (i + 1) (body i c) (omega arith)
        (keeps i c (omega arith) kept)

  module _ (Before After : S → Type 0) (j : ℕ) (within : j < m)
      (write : (c : S) → Before c → After (body j c))
      (before : (k : ℕ) (c : S) → k < j → Before c → Before (body k c))
      (after : (k : ℕ) (c : S) → j < k → k < m → After c → After (body k c)) where
    -- Round `j` makes the one of the other; the rounds before and after it keep them.
    pub for_counters_at :
        (n i : ℕ) (c : S)
        → i + n ≡ m
        → (i ≤ j) × Before c ⊎ (j < i) × After c
        → After (for_counters body n i c)
    for_counters_at zero i c h (inl (le, b)) = absurd (omega arith)
    for_counters_at zero i c h (inr (lt, a)) = a
    for_counters_at (suc n) i c h (inr (lt, a)) =
        for_counters_at n (i + 1) (body i c) (omega arith)
          (inr (omega arith, after i c lt (omega arith) a))
    for_counters_at (suc n) i c h (inl (le, b)) =
        for_counters_at n (i + 1) (body i c) (omega arith) (elim (Bool-cases (i == j)) [
          | inl e ↦
              let same : j ≡ i = ground (arith, e) in
              inr (omega arith, subst (λ (k : ℕ). After (body k c)) same (write c b))
          | inr e ↦ let less : i < j = ground (arith, e) in inl (omega arith, before i c less b)
        ])
