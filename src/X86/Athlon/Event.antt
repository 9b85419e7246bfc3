-- ===== src/X86/Athlon/Event.antt =====
-- `athlon_setup_ctrs` of x86/op_model_athlon.c: what it programs into the registers of a counter.
use rrprofile.Prelude.{
  for_counters, for_counters-keeps, for_counters_at, ℕ, zero, suc, ◌+◌, ◌*◌, ◌%◌, ◌^◌, ◌<◌, ◌≡◌,
  ◌≢◌, refl, ap, sym, ◌∙◌, arith, if◌then◌else◌, get_or, List, ◌==◌, inl, inr, uint_mod, Bool-cases,
  false, ◌⊎◌,
}
use rrprofile.X86.{OpSavedMsr, OpCounterConfig, no_config, ctr_value, ctr_overflowed}
use rrprofile.Bits.{bit, bit-bit_and, bit-bit_or}
use rrprofile.Bits.Fields.{bit-multiple, bit-low, bit-middle, low_byte, low_nibble}
use rrprofile.X86.Ppro.{Cpu, control_addr, counter_addr, ctr_write}
use rrprofile.X86.Athlon.{num_counters, clear, configure, setup_ctr, athlon_setup_ctrs, on_halves}
use rrprofile.X86.Athlon.Sees.{IsWired, Sees, on_halves-own, on_halves-other, ctr_write-other}

-- `c` has the addresses of `o`, and holds `v` at the address `a`.
abbrev Holds : (o : Cpu) (a : ℕ) (v : OpSavedMsr) (c : Cpu) → Type 0
Holds o a v c = (c.msrs ≡ o.msrs) × (c.file a ≡ v)

-- what the last loop makes of a counter's control register, and of its counter
abbrev pub programmed : OpCounterConfig → OpSavedMsr → OpSavedMsr
programmed config v = if config.enabled == 0 then v else configure config v

abbrev pub loaded : OpCounterConfig → OpSavedMsr
loaded config = if config.enabled == 0 then ctr_value 1 else ctr_value config.count

module _ (configs : List OpCounterConfig) (o : Cpu) where
  setup_ctr-control :
      (i : ℕ) (v : OpSavedMsr) (c : Cpu)
      → counter_addr o i ≢ control_addr o i
      → Holds o (control_addr o i) v c
      → Holds o
          (control_addr o i)
          (programmed (get_or configs i no_config) v)
          (setup_ctr configs i c)
  unfolding setup_ctr
  setup_ctr-control i v c apart h = (ground (arith, h.0), ground (arith, h.0, h.1))

  setup_ctr-counter :
      (i : ℕ) (c : Cpu)
      → counter_addr o i ≢ control_addr o i
      → Holds o (counter_addr o i) (ctr_value 1) c
      → Holds o (counter_addr o i) (loaded (get_or configs i no_config)) (setup_ctr configs i c)
  unfolding setup_ctr
  setup_ctr-counter i c apart h = (ground (arith, h.0), ground (arith, h.0, h.1))

  setup_ctr-other :
      (a i : ℕ) (v : OpSavedMsr) (c : Cpu)
      → a ≢ counter_addr o i
      → a ≢ control_addr o i
      → Holds o a v c
      → Holds o a v (setup_ctr configs i c)
  unfolding setup_ctr
  setup_ctr-other a i v c counter control h = (ground (arith, h.0), ground (arith, h.0, h.1))

  module _ (w : IsWired o) (i : ℕ) (small : i < num_counters) where
    cleared : Cpu
    cleared = for_counters (on_halves clear) num_counters 0 o

    cleared-control : Sees o (control_addr o i) (clear (o.file (control_addr o i))) cleared
    unfolding cleared
    cleared-control =
        let a = control_addr o i in
        let v = o.file a in
        for_counters_at (on_halves clear) num_counters (Sees o a v) (Sees o a (clear v)) i small
          (on_halves-own o i v clear)
          (λ k c lt s. on_halves-other o a v clear k c (λ e. w.controls_ne k i lt small (sym e)) s)
          (λ k c lt max s. on_halves-other o a _ clear k c (w.controls_ne i k lt max) s)
          num_counters 0 o refl
          (inl (omega arith, record { msrs = refl; reset = refl; value = refl }))

    setup-control :
        Holds o
          (control_addr o i)
          (programmed (get_or configs i no_config) (clear (o.file (control_addr o i))))
          (athlon_setup_ctrs configs o)
    unfolding athlon_setup_ctrs cleared
    setup-control =
        let a = control_addr o i in
        let v = clear (o.file a) in
        let first = cleared-control in
        let second =
          for_counters-keeps (ctr_write 1) num_counters (Sees o a v)
            (λ k c max s. ctr_write-other o a v 1 k c (λ e. w.apart k i max small (sym e)) s)
            num_counters 0 cleared refl first in
        for_counters_at (setup_ctr configs) num_counters (Holds o a v)
          (Holds o a (programmed (get_or configs i no_config) v)) i small
          (λ c h. setup_ctr-control i v c (w.apart i i small small) h)
          (λ k c lt h.
            setup_ctr-other a k v c (λ e. w.apart k i (omega arith) small (sym e))
              (λ e. w.controls_ne k i lt small (sym e)) h)
          (λ k c lt max h.
            setup_ctr-other a k _ c (λ e. w.apart k i max small (sym e)) (w.controls_ne i k lt max)
              h)
          num_counters 0 (for_counters (ctr_write 1) num_counters 0 cleared) refl
          (inl (omega arith, (second.msrs, second.value)))

    setup-counter :
        Holds o
          (counter_addr o i)
          (loaded (get_or configs i no_config))
          (athlon_setup_ctrs configs o)
    unfolding athlon_setup_ctrs cleared
    setup-counter =
        let a = counter_addr o i in
        let primed =
          for_counters_at (ctr_write 1) num_counters (λ c. c.msrs ≡ o.msrs)
            (Holds o a (ctr_value 1)) i small (λ c m. (m, ground (arith, m))) (λ k c lt m. m)
            (λ k c lt max h. (h.0, ground (arith, h.0, h.1, w.counters_ne i k lt max))) num_counters
            0 cleared refl (inl (omega arith, refl)) in
        for_counters_at (setup_ctr configs) num_counters (Holds o a (ctr_value 1))
          (Holds o a (loaded (get_or configs i no_config))) i small
          (λ c h. setup_ctr-counter i c (w.apart i i small small) h)
          (λ k c lt h.
            setup_ctr-other a k _ c (λ e. w.counters_ne k i lt small (sym e))
              (w.apart i k small (omega arith)) h)
          (λ k c lt max h.
            setup_ctr-other a k _ c (w.counters_ne i k lt max) (w.apart i k small max) h)
          num_counters 0 (for_counters (ctr_write 1) num_counters 0 cleared) refl
          (inl (omega arith, primed))

-- the event that a control register selects: eight bits of its lower half, then four of its upper half
abbrev pub event_of : OpSavedMsr → ℕ
event_of v = v.low % 2 ^ 8 + (v.high % 2 ^ 4) * 2 ^ 8

configure-low :
    (config : OpCounterConfig) (v : OpSavedMsr) (k : ℕ)
    → k < 8
    → bit k (configure config (clear v)).low ≡ bit k config.event
unfolding configure
configure-low config v k h =
    let mask = bit-multiple k (2 ^ 21) (2 ^ 13) h (omega arith) in
    let enable = bit-multiple k (2 ^ 20) (2 ^ 12) h (omega arith) in
    let user =
      bit-multiple k ((config.user % 2) * 2 ^ 16) ((config.user % 2) * 2 ^ 8) h (omega arith) in
    let kern =
      bit-multiple k ((config.kernel % 2) * 2 ^ 17) ((config.kernel % 2) * 2 ^ 9) h (omega arith) in
    let unit_mask =
      bit-multiple k ((config.unit_mask * 2 ^ 8) % uint_mod) (config.unit_mask % 2 ^ 24) h
        (omega arith) in
    simp (bit-bit_or, bit-bit_and)
      (omega (arith, mask, enable, user, kern, unit_mask, bit-low k config.event h))

bit-mask : (k : ℕ) → k < 4 → bit k 0xfffffcf0 ≡ 0
bit-mask zero h = refl
bit-mask (suc zero) h = refl
bit-mask (suc (suc zero)) h = refl
bit-mask (suc (suc (suc zero))) h = refl
bit-mask (suc (suc (suc (suc k)))) h = absurd (omega arith)

configure-high :
    (config : OpCounterConfig) (v : OpSavedMsr) (k : ℕ)
    → k < 4
    → bit k (configure config (clear v)).high ≡ bit (8 + k) config.event
unfolding configure
configure-high config v k h =
    let mask : bit k 0xfffffcf0 ≡ 0 = bit-mask k h in
    let none = bit-multiple k 0 0 (omega arith) refl in
    simp (bit-bit_or, bit-bit_and) (omega (arith, mask, none, bit-middle k config.event h))

configure-event :
    (config : OpCounterConfig) (v : OpSavedMsr)
    → event_of (configure config (clear v)) ≡ config.event % 2 ^ 12
configure-event config v = omega (
  arith,
  low_byte _ config.event (configure-low config v),
  low_nibble _ config.event (configure-high config v),
)

-- On a CPU whose registers are wired apart, `athlon_setup_ctrs` programs each counter as it is configured:
-- the control register of an enabled counter selects the low twelve bits of its event, the top four
-- of them in the upper half, and its counter is loaded with the negated count; the control register
-- of any other counter is cleared, and its counter is loaded with a value that does not count as
-- overflowed.
pub athlon_setup_ctrs_lem :
    (configs : List OpCounterConfig) (i : ℕ) (c : Cpu)
    → i < num_counters
    → IsWired c
    → let config = get_or configs i no_config in
      let r = athlon_setup_ctrs configs c in
      ((config.enabled ≢ 0)
        × (event_of (r.file (control_addr c i)) ≡ config.event % 2 ^ 12)
        × (r.file (counter_addr c i) ≡ ctr_value config.count))
      ⊎ ((config.enabled ≡ 0)
          × (r.file (control_addr c i) ≡ clear (c.file (control_addr c i)))
          × (r.file (counter_addr c i) ≡ ctr_value 1)
          × (ctr_overflowed (ctr_value 1).low ≡ false))
athlon_setup_ctrs_lem configs i c small w =
    let config = get_or configs i no_config in
    let control = (setup-control configs c w i small).1 in
    let counter = (setup-counter configs c w i small).1 in
    elim (Bool-cases (config.enabled == 0)) [
      | inl off ↦ inr (ground (arith, off), control ∙ simp off refl, counter ∙ simp off refl, refl)
      | inr on ↦ inl (
        (λ e. ground (arith, on, e)),
        ap event_of (control ∙ simp on refl) ∙ configure-event config (c.file (control_addr c i)),
        counter ∙ simp on refl,
      )
    ]
