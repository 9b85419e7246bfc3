-- ===== src/X86/Select.antt =====
-- Which counters a processor has: `p4_init`, `ppro_init` and `op_nmi_init` of x86/nmi_int.c. What
-- CPUID says is an argument.
use rrprofile.Prelude.{
  ℕ, ◌+◌, ◌*◌, ◌/◌, ◌%◌, ◌^◌, ◌≡◌, ◌≢◌, arith, List, [], ◌∷◌, Bool, true, false, not, ◌==◌, ◌&&◌,
  ◌||◌, ltb, if◌then◌else◌, Option, none, some, ◌⊎◌, inl, inr, Bool-cases, Option-cases,
}
use Prim.Native.String.{String}
use rrprofile.Codes.{enodev}

-- the vtables `op_ppro_spec`, `op_p4_spec`, `op_p4_ht2_spec`, `op_athlon_spec`, `op_arch_perfmon_spec`
pub data OpModel : Type 0 where
  ppro p4 p4_ht2 athlon arch_perfmon : OpModel

pub data Vendor : Type 0 where
  amd intel other_vendor : Vendor

-- what the driver asks of the processor, and its module parameters
pub record Processor : Type 0 where
  pub vendor : Vendor
  pub family : ℕ
  pub model : ℕ
  pub cpuid_level : ℕ
  pub cpuid_eax_1 : ℕ
  pub cpuid_eax_10 : ℕ
  pub has_apic : Bool
  pub smp_num_siblings : ℕ
  pub p4force : Bool
  pub force_arch_perfmon : Bool

-- The vtable and the name that were chosen; none if `cpu_type` is still NULL.
abbrev pub Choice : Type 0
Choice = Option (OpModel × String)

abbrev pub among : ℕ → List ℕ → Bool
among m [] = false
among m (n ∷ ns) = m == n || among m ns

-- `p4_init`, as built with CONFIG_SMP
unfoldable pub p4_init : Processor → Choice
p4_init p =
    if not p.p4force && (ltb 6 p.model || p.model == 5)
    then none
    else if p.smp_num_siblings == 1
    then some (p4, "i386/p4")
    else if p.smp_num_siblings == 2
    then some (p4_ht2, "i386/p4-ht")
    else none

-- the model number of `ppro_init`, a `__u8`
unfoldable pub ppro_model : ℕ → ℕ
ppro_model eax = ((eax / 2 ^ 4) % 16 + (eax / 2 ^ 16) % 16 * 2 ^ 4) % 2 ^ 8

-- the `switch` of `ppro_init`
unfoldable pub ppro_table : ℕ → Choice
ppro_table m =
    if among m (0 ∷ 1 ∷ 2 ∷ [])
    then some (ppro, "i386/ppro")
    else if among m (3 ∷ 4 ∷ 5 ∷ [])
    then some (ppro, "i386/pii")
    else if among m (6 ∷ 7 ∷ 8 ∷ [])
    then some (ppro, "i386/piii")
    else if m == 9
    then some (ppro, "i386/p6_mobile")
    else if among m (10 ∷ 11 ∷ 12 ∷ 13 ∷ 21 ∷ [])
    then some (ppro, "i386/p6")
    else if m == 14
    then some (ppro, "i386/core")
    else if among m (15 ∷ 22 ∷ 23 ∷ 29 ∷ [])
    then some (ppro, "i386/core_2")
    else if among m (28 ∷ 38 ∷ 39 ∷ 54 ∷ [])
    then some (ppro, "i386/atom")
    else if among m (26 ∷ 30 ∷ 31 ∷ 46 ∷ [])
    then some (arch_perfmon, "i386/nehalem")
    else if among m (37 ∷ 44 ∷ 47 ∷ [])
    then some (arch_perfmon, "i386/westmere")
    else if among m (42 ∷ 45 ∷ 58 ∷ 60 ∷ 62 ∷ 63 ∷ 69 ∷ 70 ∷ 71 ∷ [])
    then some (arch_perfmon, "i386/westmere")
    else none

-- `rr_cpu_has_arch_perfmon`
unfoldable pub has_arch_perfmon : Processor → Bool
has_arch_perfmon p =
    ltb 9 p.cpuid_level
    && not (p.cpuid_eax_10 % 2 ^ 8 == 0)
    && ltb 1 ((p.cpuid_eax_10 / 2 ^ 8) % 2 ^ 8)

unfoldable pub ppro_init : Processor → Choice
unfolding ppro_table
ppro_init p =
    if p.force_arch_perfmon && has_arch_perfmon p
    then none
    else ppro_table (ppro_model p.cpuid_eax_1)

unfoldable pub athlon_family : ℕ → Choice
athlon_family family =
    if family == 6
    then some (athlon, "i386/athlon")
    else if family == 0xf
    then some (athlon, "x86_64/athlon64")
    else if family == 0x10
    then some (athlon, "x86-64/family10")
    else if family == 0x11
    then some (athlon, "x86-64/family11h")
    else if family == 0x12
    then some (athlon, "x86-64/family12h")
    else if family == 0x14
    then some (athlon, "x86-64/family14h")
    else if family == 0x15
    then some (athlon, "x86-64/family15h")
    else none

unfoldable pub intel_family : Processor → Choice
intel_family p = if p.family == 0xf then p4_init p else if p.family == 6 then ppro_init p else none

-- `or_arch c` is `c`, or the architectural counters where there are any
abbrev pub or_arch : Bool → Choice → Choice
or_arch arch (some c) = some c
or_arch arch none = if arch then some (arch_perfmon, "i386/arch_perfmon") else none

-- the `switch (vendor)` of `op_nmi_init`; none is its `-ENODEV`
unfoldable pub choose : Processor → Vendor → Choice
choose p amd = athlon_family p.family
choose p intel = or_arch (has_arch_perfmon p) (intel_family p)
choose p other_vendor = none

-- `op_nmi_init`: the choice with which `*ops` is filled in (none if it is left alone), and the result.
-- `init` is what `model->init(ops)` returns; a vtable without one returns 0 here.
unfoldable pub op_nmi_init : (init : OpModel → ℕ) → Processor → Choice × ℕ
op_nmi_init init p =
    if not p.has_apic
    then (none, enodev)
    else elim (choose p p.vendor) [ none ↦ (none, enodev) | some c ↦ (some c, init c.0) ]

-- `op_nmi_init` either leaves `*ops` alone and returns ENODEV, or fills it in for a model and returns
-- what that model's `init` returns.
pub op_nmi_init_lem :
    (init : OpModel → ℕ) (p : Processor)
    → let r = op_nmi_init init p in
      ((r.0 ≡ none) × (r.1 ≡ enodev)) ⊎ ((c : OpModel × String) × (r.0 ≡ some c) × (r.1 ≡ init c.0))
unfolding op_nmi_init
op_nmi_init_lem init p = elim (Bool-cases p.has_apic) [
  | inl apic ↦ elim (Option-cases (choose p p.vendor)) [
    | inl e ↦ inl (ground arith)
    | inr (c, e) ↦ inr (c, ground arith, ground arith)
  ]
  | inr without ↦ inl (ground arith)
]

-- An Intel processor with an APIC and architectural counters is always given a model, whatever its
-- family and model number.
pub arch_perfmon_supported :
    (init : OpModel → ℕ) (p : Processor)
    → p.vendor ≡ intel
    → p.has_apic ≡ true
    → has_arch_perfmon p ≡ true
    → (op_nmi_init init p).0 ≢ none
unfolding op_nmi_init choose
arch_perfmon_supported init p v apic arch = ground arith
