-- ===== src/PowerPc/Rounds.antt =====
-- The loop of an interrupt handler of powerpc/ over the counters, whatever the model does in a round.
use rrprofile.Prelude.{
  ℕ, zero, suc, ◌+◌, ◌<◌, ◌≤◌, ◌≡◌, ◌≢◌, refl, ap, ap₂, ◌∙◌, arith, Bool, if◌then◌else◌, get_or,
  length, for_counters, for_counters_at, inl,
}
use rrprofile.CpuBuffer.{OprofileCpuBuffer}
use rrprofile.PowerPc.{PpcCpu}

abbrev pub pmc_at : PpcCpu → ℕ → ℕ
pmc_at c i = get_or c.pmc i 0

-- what is logged for the counters from `i` on, in their order: for each whose value passes its test
abbrev pub log_counters :
    (p : ℕ → ℕ → Bool) (log : ℕ → OprofileCpuBuffer → OprofileCpuBuffer) (c : PpcCpu) (n i : ℕ)
    → OprofileCpuBuffer
    → OprofileCpuBuffer
log_counters p log c zero i ring = ring
log_counters p log c (suc n) i ring =
    log_counters p log c n (i + 1) (if p i (pmc_at c i) then log i ring else ring)

-- A round changes its own counter by `f`, and the log by `log` when the counter's value passes `p`.
pub record IsRound (body : ℕ → PpcCpu → PpcCpu) (f : ℕ → ℕ → ℕ) (p : ℕ → ℕ → Bool)
    (log : (start i : ℕ) → OprofileCpuBuffer → OprofileCpuBuffer) : Type 0 where
  pub own : (i : ℕ) (c : PpcCpu) → i < length c.pmc → pmc_at (body i c) i ≡ f i (pmc_at c i)
  pub other : (i j : ℕ) (c : PpcCpu) → i ≢ j → pmc_at (body i c) j ≡ pmc_at c j
  pub counters : (i : ℕ) (c : PpcCpu) → length (body i c).pmc ≡ length c.pmc
  pub start : (i : ℕ) (c : PpcCpu) → (body i c).start_timestamp ≡ c.start_timestamp
  pub ring :
      (i : ℕ) (c : PpcCpu)
      → (body i c).ring ≡ (if p i (pmc_at c i) then log c.start_timestamp i c.ring else c.ring)
  pub mmcr0 : (i : ℕ) (c : PpcCpu) → (body i c).mmcr0 ≡ c.mmcr0

module _ {body : ℕ → PpcCpu → PpcCpu} {f : ℕ → ℕ → ℕ} {p : ℕ → ℕ → Bool}
    {log : (start i : ℕ) → OprofileCpuBuffer → OprofileCpuBuffer} (r : IsRound body f p log) where
  pub rounds-pmc :
      (n j : ℕ) (c : PpcCpu)
      → j < n
      → n ≤ length c.pmc
      → pmc_at (for_counters body n 0 c) j ≡ f j (pmc_at c j)
  rounds-pmc n j c lt le =
      for_counters_at body n (λ s. (length s.pmc ≡ length c.pmc) × (pmc_at s j ≡ pmc_at c j))
        (λ s. pmc_at s j ≡ f j (pmc_at c j)) j lt
        (λ s (l, e). r.own j s (omega (arith, l)) ∙ ap (f j) e)
        (λ k s less (l, e).
          (r.counters k s ∙ l, r.other k j s (λ q. absurd (omega (arith, q))) ∙ e))
        (λ k s more _ e. r.other k j s (λ q. absurd (omega (arith, q))) ∙ e) n 0 c (omega arith)
        (inl (omega arith, (refl, refl)))

  -- The rounds from `i` on see in their counters what `o` has there.
  rounds-ring_from :
      (o : PpcCpu) (n i : ℕ) (c : PpcCpu)
      → c.start_timestamp ≡ o.start_timestamp
      → ((j : ℕ) → i ≤ j → pmc_at c j ≡ pmc_at o j)
      → (for_counters body n i c).ring ≡ log_counters p (log o.start_timestamp) o n i c.ring
  rounds-ring_from o zero i c start same = refl
  rounds-ring_from o (suc n) i c start same =
      rounds-ring_from o n (i + 1) (body i c) (r.start i c ∙ start)
        (λ j le. r.other i j c (λ q. absurd (omega (arith, q))) ∙ same j (omega arith))
      ∙ ap (log_counters p (log o.start_timestamp) o n (i + 1)) (
          r.ring i c
          ∙ ap₂ (λ v s. if p i v then log s i c.ring else c.ring) (same i (omega arith)) start)

  pub rounds-ring :
      (n : ℕ) (c : PpcCpu)
      → (for_counters body n 0 c).ring ≡ log_counters p (log c.start_timestamp) c n 0 c.ring
  rounds-ring n c = rounds-ring_from c n 0 c refl (λ j le. refl)

  pub rounds-mmcr0 : (n i : ℕ) (c : PpcCpu) → (for_counters body n i c).mmcr0 ≡ c.mmcr0
  rounds-mmcr0 zero i c = refl
  rounds-mmcr0 (suc n) i c = rounds-mmcr0 n (i + 1) (body i c) ∙ r.mmcr0 i c
