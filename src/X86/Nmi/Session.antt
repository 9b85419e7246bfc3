-- ===== src/X86/Nmi/Session.antt =====
-- What a session of the NMI handler leaves behind (x86/nmi_int.c).
use rrprofile.Prelude.{
  ℕ, ◌+◌, ◌≡◌, ◌≢◌, refl, ap, ◌∙◌, arith, List, [], ◌∷◌, true, ◌==◌, ◌||◌, Option, ◌⊎◌, inl, inr,
  Bool-cases, Option-cases,
}
use rrprofile.X86.{
  MsrFile, OpMsrs, OpMsr, OpCounterConfig, nmi_cpu_save_registers, nmi_restore_registers,
}
use rrprofile.X86.Save.{uses, restore-save_registers}
use rrprofile.X86.Ppro.{Cpu}
use rrprofile.X86.Nmi.{
  OpX86ModelSpec, NmiCpu, Nmi, optional, nmi_save_registers, nmi_cpu_setup, nmi_cpu_shutdown,
  nmi_setup, allocate_msrs, allocate_from, free_msrs, free_cpu_msrs,
}

-- A step of the driver on a CPU that leaves `cpu_msrs` and the saved vector alone, as all do between
-- setup and shutdown.
record IsCalm (f : NmiCpu → NmiCpu) : Type 0 where
  pub msrs : (c : NmiCpu) → (f c).cpu.msrs ≡ c.cpu.msrs
  pub saved : (c : NmiCpu) → (f c).saved_lvtpc ≡ c.saved_lvtpc

-- A callback of the model that leaves `cpu_msrs` (a pointer to const) and the interrupt's vector alone.
pub record IsConst (f : Cpu → Cpu) : Type 0 where
  pub msrs : (c : Cpu) → (f c).msrs ≡ c.msrs
  pub lvtpc : (c : Cpu) → (f c).lvtpc ≡ c.lvtpc

-- `nmi_cpu_shutdown` gives every register that is used the value that was saved, and gives back the
-- vector that was saved.
pub nmi_cpu_shutdown_lem :
    (model : OpX86ModelSpec) (c : NmiCpu) (msrs : OpMsrs) (file : MsrFile) (a : ℕ)
    → IsConst (optional model.shutdown)
    → c.cpu.msrs ≡ nmi_cpu_save_registers file msrs
    → uses a msrs.counters || uses a msrs.controls ≡ true
    → let back = nmi_cpu_shutdown model c in
      (back.cpu.file a ≡ file a) × (back.cpu.lvtpc ≡ c.saved_lvtpc)
unfolding nmi_cpu_shutdown
nmi_cpu_shutdown_lem model c msrs file a shut kept used =
    let unhooked : Cpu = record c.cpu { lvtpc = c.saved_lvtpc } in
    let down = optional model.shutdown unhooked in
    let same : down.msrs ≡ nmi_cpu_save_registers file msrs = shut.msrs unhooked ∙ kept in
    let restored : nmi_restore_registers (nmi_cpu_save_registers file msrs) down.file a ≡ file a =
      restore-save_registers a file down.file msrs ∙ rw used refl in
    (ap (λ m. nmi_restore_registers m down.file a) same ∙ restored, shut.lvtpc unhooked)

-- For a model whose `setup_ctrs` and `shutdown` leave `cpu_msrs` and the interrupt's vector alone, and
-- whatever steps come between that leave `cpu_msrs` and the saved vector alone: `nmi_cpu_shutdown` on a
-- CPU gives every register that the model uses the value that it had when `nmi_save_registers` and
-- `nmi_cpu_setup` took it over, and gives back the interrupt's vector.
nmi_session_restores :
    (model : OpX86ModelSpec) (apic_dm_nmi : ℕ) (configs : List OpCounterConfig)
    (work : NmiCpu → NmiCpu) (c : NmiCpu) (a : ℕ)
    → IsConst (model.setup_ctrs configs)
    → IsConst (optional model.shutdown)
    → IsCalm work
    → let msrs = model.fill_in_addresses c.cpu.msrs in
      uses a msrs.counters || uses a msrs.controls ≡ true
      → let taken = nmi_cpu_setup model apic_dm_nmi configs (nmi_save_registers model c) in
        let back = nmi_cpu_shutdown model (work taken) in
        (back.cpu.file a ≡ c.cpu.file a) × (back.cpu.lvtpc ≡ c.cpu.lvtpc)
unfolding nmi_cpu_setup nmi_save_registers
nmi_session_restores model dm configs work c a setup shut calm used =
    let saved = nmi_save_registers model c in
    let taken = nmi_cpu_setup model dm configs saved in
    let (file, lvtpc) =
      nmi_cpu_shutdown_lem model (work taken) (model.fill_in_addresses c.cpu.msrs) c.cpu.file a shut
        (calm.msrs taken ∙ setup.msrs saved.cpu) used in
    (file, lvtpc ∙ calm.saved taken ∙ setup.lvtpc saved.cpu)

-- What was allocated is freed, and nothing else has changed.
pub allocate_from-freed :
    (model : OpX86ModelSpec) (kmalloc : ℕ → ℕ → Option (List OpMsr)) (i : ℕ) (cs : List NmiCpu)
    → free_msrs (allocate_from model kmalloc i cs).0 ≡ free_msrs cs
unfolding allocate_from free_msrs
allocate_from-freed model kmalloc i [] = refl
allocate_from-freed model kmalloc i (c ∷ cs) =
    let rest = allocate_from-freed model kmalloc (i + 1) cs in
    elim (Option-cases (kmalloc i model.num_counters)) [
      | inl none_left ↦ rw (none_left, allocate_from) refl
      | inr counters ↦ elim (Option-cases (kmalloc i model.num_controls)) [
        | inl none_left ↦ rw (counters.1, none_left, allocate_from) refl
        | inr controls ↦
            rw (counters.1, controls.1, allocate_from) (ap (λ r. free_cpu_msrs c ∷ r) rest)
      ]
    ]

-- With the handler not enabled before: `nmi_setup` either returns 0 and enables the handler while the
-- counters do not run, or returns an error and has freed all that it had allocated, with nothing in any
-- register changed and the handler still not enabled.
pub nmi_setup_lem :
    (model : OpX86ModelSpec) (kmalloc : ℕ → ℕ → Option (List OpMsr)) (registered apic_dm_nmi : ℕ)
    (s : Nmi)
    → s.nmi_enabled ≡ 0
    → let r = nmi_setup model kmalloc registered apic_dm_nmi s in
      ((r.1 ≡ 0) × (r.0.nmi_enabled ≡ 1) × (r.0.ctr_running ≡ 0))
      ⊎ ((r.1 ≢ 0) × (r.0.nmi_enabled ≡ 0) × (r.0.cpus ≡ free_msrs s.cpus))
unfolding nmi_setup allocate_msrs
nmi_setup_lem model kmalloc registered dm s off =
    let freed = allocate_from-freed model kmalloc 0 s.cpus in
    elim (Bool-cases (allocate_from model kmalloc 0 s.cpus).1) [
      | inl all ↦ rw all (elim (Bool-cases (registered == 0)) [
        | inl fine ↦ rw fine (inl (refl, refl, refl))
        | inr failed ↦
            let error : registered ≢ 0 = ground arith in rw failed (inr (error, refl, freed))
      ])
      | inr some_failed ↦ rw some_failed (inr (omega arith, off, freed))
    ]
