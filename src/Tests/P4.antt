-- ===== src/Tests/P4.antt =====
-- Instances for the Pentium 4: the odd thread of a core, with the kernel's addresses.
use rrprofile.Prelude.{
  ℕ, ◌+◌, ◌%◌, ◌<◌, ◌≡◌, ◌≢◌, refl, arith, List, [], ◌∷◌, Bool, true, not, ◌||◌, ◌==◌, ltb, inr,
  replicate, get_or,
}
use rrprofile.CpuBuffer.{OprofileCpuBuffer}
use rrprofile.X86.{OpMsrs, OpCounterConfig, no_msr, no_config, ctr_value}
use rrprofile.Bits.{bit, holds_below, holds_below_at}
use rrprofile.X86.Ppro.{Cpu}
use rrprofile.X86.P4.{no_event, counter_at, cccr_at, p4_check_ctrs}
use rrprofile.X86.P4.Tables.{EscrBinding, p4_events}
use rrprofile.X86.P4.Fill.{fill_controls, p4_fill_in_addresses}
use rrprofile.X86.P4.Fill.Owned.{documented, IsOwned, p4_fill_in-IsOwned}
use rrprofile.X86.P4.Control.{IsWired, activate}
use rrprofile.X86.P4.Check.{log_due, checked_cccr, p4_check_ctrs_lem}
use rrprofile.X86.P4.Setup.{pmc_setup_one_p4_counter}
use rrprofile.X86.P4.Setup.Event.{escr-parity, pmc_setup_lem}
use rrprofile.Tests.X86.{file}
use rrprofile.Tests.Data.{ring}

abbrev p4_msrs : OpMsrs
p4_msrs = record { counters = replicate 4 no_msr; controls = replicate 32 no_msr }

p4_fill_in-IsOwned_example :
    IsOwned 2 1
      (
        (fill_controls documented 2 1 3 p4_msrs.controls).0,
        (p4_fill_in_addresses documented 2 1 3 p4_msrs).controls,
      )
      31
p4_fill_in-IsOwned_example =
    p4_fill_in-IsOwned documented 2 1 3 31 p4_msrs refl (inr (refl, refl)) refl (omega arith)

abbrev differ : (i j a b : ℕ) → Bool
differ i j a b = not (ltb i j) || not (a == b)

abbrev ctr : ℕ → ℕ
ctr i = counter_at documented 4 1 i

abbrev cccr : ℕ → ℕ
cccr i = cccr_at documented 4 1 i

counters_table : holds_below 4 (λ i. holds_below 4 (λ j. differ i j (ctr i) (ctr j))) ≡ true
unfolding holds_below
counters_table = refl

cccrs_table : holds_below 4 (λ i. holds_below 4 (λ j. differ i j (cccr i) (cccr j))) ≡ true
unfolding holds_below
cccrs_table = refl

apart_table : holds_below 4 (λ i. holds_below 4 (λ j. not (ctr i == cccr j))) ≡ true
unfolding holds_below
apart_table = refl

two_below :
    (p : ℕ → ℕ → Bool) (i j : ℕ)
    → holds_below 4 (λ i. holds_below 4 (λ j. p i j)) ≡ true
    → i < 4
    → j < 4
    → p i j ≡ true
two_below p i j h lt lt' = holds_below_at 4 _ j lt' (holds_below_at 4 _ i lt h)

differ-ne : (i j a b : ℕ) → i < j → differ i j a b ≡ true → a ≢ b
differ-ne i j a b lt h e = ground (arith, h, e)

test-ne : (a b : ℕ) → not (a == b) ≡ true → a ≢ b
test-ne a b h e = ground (arith, h, e)

thread-IsWired : IsWired documented 4 1
thread-IsWired = record {
  counters_ne = λ i j lt max.
      differ-ne i j (ctr i) (ctr j) lt
        (two_below (λ i j. differ i j (ctr i) (ctr j)) i j counters_table (omega arith) max);
  cccrs_ne = λ i j lt max.
      differ-ne i j (cccr i) (cccr j) lt
        (two_below (λ i j. differ i j (cccr i) (cccr j)) i j cccrs_table (omega arith) max);
  apart = λ i j p q.
      test-ne (ctr i) (cccr j) (two_below (λ i j. not (ctr i == cccr j)) i j apart_table p q);
}

abbrev thread : Cpu
thread = record {
  file = file;
  msrs = p4_msrs;
  lvtpc = 0;
  reset_value = 3000 ∷ 0 ∷ 0 ∷ 0 ∷ [];
  start_timestamp = 5;
  ring = ring;
}

abbrev no_sample_added : ℕ → OprofileCpuBuffer → OprofileCpuBuffer
no_sample_added event b = b

abbrev clock : ℕ → ℕ
clock i = 30 + i

p4_check_ctrs_lem_example :
    let r = p4_check_ctrs documented 4 1 no_sample_added 65536 21 clock 40 41 thread in
    (r.0.ring ≡ log_due documented 4 1 no_sample_added 21 clock thread 4 0 ring)
    × (r.0.file (counter_at documented 4 1 0) ≡ ctr_value 3000)
    × (r.0.file (cccr_at documented 4 1 0) ≡ activate (checked_cccr documented 4 1 thread 0))
    × (r.0.start_timestamp ≡ 41)
    × (r.1 ≡ 1)
p4_check_ctrs_lem_example =
    p4_check_ctrs_lem documented 4 1 no_sample_added 65536 21 clock thread thread-IsWired 40 41 0
      (omega arith)

-- UOP_TYPE, the 37th event, at the fourth counter of the odd thread
abbrev configs : List OpCounterConfig
configs =
    no_config
    ∷ no_config
    ∷ no_config
    ∷ record no_config { enabled = 1; count = 3000; event = 37; unit_mask = 6 }
    ∷ []

abbrev rat : EscrBinding
rat = (get_or (p4_events documented) 36 no_event).second

pmc_setup_lem_example :
    let r = pmc_setup_one_p4_counter documented 4 1 configs 3 thread in
    (bit (25 + 1) (r.file 0x3bd).low ≡ 1)
    × (bit (9 + 2) (r.file 0x3bd).low ≡ 1)
    × (bit (13 + 1) (r.file 0x371).low ≡ 1)
    × (r.file 7 ≡ file 7)
pmc_setup_lem_example =
    pmc_setup_lem documented 4 1 configs 3 thread rat 1 2 1 7 (omega arith) (omega arith)
      (inr (refl, refl, refl)) (omega arith) (omega arith) (omega arith) (omega arith) (omega arith)
      (omega arith)

-- the second event of the microcode's counters, on the odd thread
escr-parity_example : (get_or (p4_events documented) 2 no_event).second.escr_address % 2 ≡ 1
escr-parity_example =
    escr-parity documented 2 1 1 (get_or (p4_events documented) 2 no_event).second refl
      (omega arith) (omega arith) (omega arith) (inr refl) refl
