-- ===== src/X86/Nmi/Reach/Restored.antt =====
-- A session of the NMI handler on all CPUs, from `nmi_setup` to `nmi_shutdown`, gives the registers back.
use rrprofile.Prelude.{
  ℕ, zero, suc, ◌<◌, ◌≡◌, refl, sym, ap, ◌∙◌, arith, List, [], ◌∷◌, Bool, true, ◌==◌, ◌||◌, get_or,
  length, Option, inl, inr, Bool-cases, if◌then◌else◌,
}
use rrprofile.X86.{OpMsr, OpMsrs, MsrFile, nmi_cpu_save_registers}
use rrprofile.X86.Save.{uses}
use rrprofile.X86.Nmi.{
  OpX86ModelSpec, NmiCpu, Nmi, on_each_cpu, allocate_msrs, allocate_from, free_msrs,
  nmi_save_registers, nmi_cpu_setup, nmi_cpu_shutdown, nmi_setup, nmi_shutdown,
}
use rrprofile.X86.Nmi.Session.{nmi_cpu_shutdown_lem, allocate_from-freed}
use rrprofile.X86.Nmi.Reach.{
  IsModel, Reach, IsTaken, Reach-IsTaken, length-on_each_cpu, on_each_cpu_at,
}

-- what of a CPU neither allocating nor freeing its arrays touches
record IsAlike (c d : NmiCpu) : Type 0 where
  online : d.online ≡ c.online
  file : d.cpu.file ≡ c.cpu.file
  lvtpc : d.cpu.lvtpc ≡ c.cpu.lvtpc

free_msrs-IsAlike :
    (none : NmiCpu) (cs : List NmiCpu) (i : ℕ)
    → i < length cs
    → IsAlike (get_or cs i none) (get_or (free_msrs cs) i none)
unfolding free_msrs
free_msrs-IsAlike none [] i lt = absurd (omega arith)
free_msrs-IsAlike none (c ∷ cs) zero lt = record { online = refl; file = refl; lvtpc = refl }
free_msrs-IsAlike none (c ∷ cs) (suc i) lt = free_msrs-IsAlike none cs i (omega arith)

length-free_msrs : (cs : List NmiCpu) → length (free_msrs cs) ≡ length cs
unfolding free_msrs
length-free_msrs [] = refl
length-free_msrs (c ∷ cs) = ap suc (length-free_msrs cs)

module _ (model : OpX86ModelSpec) (kmalloc : ℕ → ℕ → Option (List OpMsr)) (none : NmiCpu)
    (s : Nmi) where
  abbrev allocated : List NmiCpu
  allocated = (allocate_from model kmalloc 0 s.cpus).0

  length-allocated : length allocated ≡ length s.cpus
  length-allocated =
      sym (length-free_msrs allocated)
      ∙ ap length (allocate_from-freed model kmalloc 0 s.cpus)
      ∙ length-free_msrs s.cpus

  allocated-IsAlike :
      (i : ℕ) → i < length s.cpus → IsAlike (get_or s.cpus i none) (get_or allocated i none)
  allocated-IsAlike i lt =
      let freed =
        ap (λ (cs : List NmiCpu). get_or cs i none) (allocate_from-freed model kmalloc 0 s.cpus) in
      let a = free_msrs-IsAlike none allocated i (omega (arith, length-allocated)) in
      let b = free_msrs-IsAlike none s.cpus i lt in
      record {
        online = sym a.online ∙ ap (λ (c : NmiCpu). c.online) freed ∙ b.online;
        file = sym a.file ∙ ap (λ (c : NmiCpu). c.cpu.file) freed ∙ b.file;
        lvtpc = sym a.lvtpc ∙ ap (λ (c : NmiCpu). c.cpu.lvtpc) freed ∙ b.lvtpc;
      }

  -- A setup that returns 0 has saved and programmed every CPU that is online.
  nmi_setup-cpus :
      (registered apic_dm_nmi : ℕ)
      → (nmi_setup model kmalloc registered apic_dm_nmi s).1 ≡ 0
      → (nmi_setup model kmalloc registered apic_dm_nmi s).0.cpus
        ≡ on_each_cpu
            (nmi_cpu_setup model apic_dm_nmi s.counter_config)
            (on_each_cpu (nmi_save_registers model) allocated)
  unfolding nmi_setup allocate_msrs
  nmi_setup-cpus registered dm = elim (Bool-cases (allocate_from model kmalloc 0 s.cpus).1) [
    | inl all ↦ elim (Bool-cases (registered == 0)) [
      | inl fine ↦ rw (all, fine) (λ e. refl)
      | inr failed ↦ rw (all, failed) (λ e. ground (arith, e, failed))
    ]
    | inr some_failed ↦ rw some_failed (λ e. absurd (omega (arith, e)))
  ]

  module _ (m : IsModel model) (registered apic_dm_nmi i : ℕ) where
    abbrev wired : OpMsrs
    wired = model.fill_in_addresses (get_or allocated i none).cpu.msrs

    setup-IsTaken :
        i < length s.cpus
        → (get_or s.cpus i none).online ≡ true
        → (nmi_setup model kmalloc registered apic_dm_nmi s).1 ≡ 0
        → let c = get_or s.cpus i none in
          IsTaken none
            (length s.cpus)
            i
            (nmi_cpu_save_registers c.cpu.file wired)
            c.cpu.lvtpc
            (nmi_setup model kmalloc registered apic_dm_nmi s).0.cpus
    unfolding nmi_save_registers nmi_cpu_setup
    setup-IsTaken lt on fine =
        let a = get_or allocated i none in
        let alike = allocated-IsAlike i lt in
        let saved = on_each_cpu (nmi_save_registers model) allocated in
        let first : get_or saved i none ≡ nmi_save_registers model a =
          on_each_cpu_at (nmi_save_registers model) none allocated i
            (omega (arith, length-allocated, lt))
          ∙ ap (λ (o : Bool). if o then nmi_save_registers model a else a) (alike.online ∙ on) in
        let program = nmi_cpu_setup model apic_dm_nmi s.counter_config in
        let long = length-on_each_cpu (nmi_save_registers model) allocated ∙ length-allocated in
        let second : get_or (on_each_cpu program saved) i none
            ≡ program (nmi_save_registers model a) =
          on_each_cpu_at program none saved i (omega (arith, long, lt))
          ∙ ap (λ (c : NmiCpu). if c.online then program c else c) first
          ∙ ap
              (λ (o : Bool).
                if o then program (nmi_save_registers model a) else nmi_save_registers model a)
              (alike.online ∙ on) in
        let at =
          ap (λ (cs : List NmiCpu). get_or cs i none) (nmi_setup-cpus registered apic_dm_nmi fine)
          ∙ second in
        let const = m.setup s.counter_config in
        record {
          size =
              ap length (nmi_setup-cpus registered apic_dm_nmi fine)
              ∙ length-on_each_cpu program saved
              ∙ long;
          online = ap (λ (c : NmiCpu). c.online) at ∙ alike.online ∙ on;
          msrs =
              ap (λ (c : NmiCpu). c.cpu.msrs) at
              ∙ const.msrs (nmi_save_registers model a).cpu
              ∙ ap (λ (f : MsrFile). nmi_cpu_save_registers f wired) alike.file;
          saved =
              ap (λ (c : NmiCpu). c.saved_lvtpc) at
              ∙ const.lvtpc (nmi_save_registers model a).cpu
              ∙ alike.lvtpc;
        }

    -- For a model that keeps its promises: once `nmi_setup` has returned 0, whatever starts, stops,
    -- suspends, resumes, adaptations, new configurations and interrupts follow, `nmi_shutdown` gives every
    -- register that the model uses on a CPU that is online, and the interrupt's vector there, the value
    -- that it had before `nmi_setup`.
    pub nmi_shutdown_restores :
        (poll_idle a : ℕ) (t : Nmi)
        → i < length s.cpus
        → (get_or s.cpus i none).online ≡ true
        → uses a wired.counters || uses a wired.controls ≡ true
        → (nmi_setup model kmalloc registered apic_dm_nmi s).1 ≡ 0
        → Reach model none (nmi_setup model kmalloc registered apic_dm_nmi s).0 t
        → let back = get_or (nmi_shutdown model poll_idle t).cpus i none in
          let c = get_or s.cpus i none in
          (back.cpu.file a ≡ c.cpu.file a) × (back.cpu.lvtpc ≡ c.cpu.lvtpc)
    unfolding nmi_shutdown
    nmi_shutdown_restores poll_idle a t lt on used fine reach =
        let c = get_or s.cpus i none in
        let taken =
          Reach-IsTaken none (length s.cpus) i lt (nmi_cpu_save_registers c.cpu.file wired)
            c.cpu.lvtpc model m reach (setup-IsTaken lt on fine) in
        let d = get_or t.cpus i none in
        let down = on_each_cpu (nmi_cpu_shutdown model) t.cpus in
        let within : i < length down =
          omega (arith, length-on_each_cpu (nmi_cpu_shutdown model) t.cpus, taken.size, lt) in
        let at : get_or down i none ≡ nmi_cpu_shutdown model d =
          on_each_cpu_at (nmi_cpu_shutdown model) none t.cpus i (omega (arith, taken.size, lt))
          ∙ ap (λ (o : Bool). if o then nmi_cpu_shutdown model d else d) taken.online in
        let freed = free_msrs-IsAlike none down i within in
        let (file, lvtpc) =
          nmi_cpu_shutdown_lem model d wired c.cpu.file a m.shutdown taken.msrs used in
        (
          ap (λ (f : MsrFile). f a) freed.file ∙ ap (λ (c : NmiCpu). c.cpu.file a) at ∙ file,
          freed.lvtpc ∙ ap (λ (c : NmiCpu). c.cpu.lvtpc) at ∙ lvtpc ∙ taken.saved,
        )
