-- ===== src/X86/Nmi/Reach.antt =====
-- What the NMI handler can come to between setup and shutdown (x86/nmi_int.c): the steps that the driver,
-- the power management and the interrupts make, and what every one of them keeps on each CPU. The set of
-- CPUs that are online does not change.
pub mod Restored
use rrprofile.Prelude.{
  ℕ, zero, suc, ◌<◌, ◌≡◌, ◌≢◌, refl, ap, ◌∙◌, arith, List, [], ◌∷◌, Bool, true, ◌==◌, if◌then◌else◌,
  get_or, set, length, length-set, get_or-set_self, get_or-set_ne, sym, Option, inl, inr,
  Bool-cases,
}
use rrprofile.X86.{OpMsrs, OpCounterConfig}
use rrprofile.X86.Ppro.{Cpu}
use rrprofile.X86.Adapt.{decay_counts}
use rrprofile.X86.Nmi.{
  OpX86ModelSpec, NmiCpu, Nmi, on_each_cpu, on_cpu, optional, nmi_cpu_start, nmi_cpu_stop,
  nmi_cpu_adapt, nmi_start, nmi_stop, nmi_suspend, nmi_resume, nmi_adapt, profile_exceptions_notify,
}
use rrprofile.X86.Nmi.Session.{IsConst}

-- What a model promises: `cpu_msrs` is a pointer to const for its callbacks, and neither `setup_ctrs` nor
-- `shutdown` touches the interrupt's vector.
pub record IsModel (model : OpX86ModelSpec) : Type 0 where
  pub setup : (configs : List OpCounterConfig) → IsConst (model.setup_ctrs configs)
  pub shutdown : IsConst (optional model.shutdown)
  pub check :
      (tb_end tb_start tb_last : ℕ) (c : Cpu)
      → (model.check_ctrs tb_end tb_start tb_last c).0.msrs ≡ c.msrs
  pub start : (tb : ℕ) (c : Cpu) → (model.start tb c).msrs ≡ c.msrs
  pub stop : (c : Cpu) → (model.stop c).msrs ≡ c.msrs

module _ (model : OpX86ModelSpec) (none : NmiCpu) where
  -- `profile_exceptions_notify` on CPU `i`
  abbrev notify : (i tb_end tb_start tb_last : ℕ) → Nmi → Nmi
  notify i tb_end tb_start tb_last s = record s {
    cpus = set s.cpus i (
        on_cpu
          (λ c.
            (profile_exceptions_notify model tb_end tb_start tb_last s.ctr_running s.nmi_enabled
              c).0)
          (get_or s.cpus i none));
  }

  pub data Step (s : Nmi) : Nmi → Type 0 where
    starts :
        (poll_idle tb_add tb_start : ℕ) → Step s (nmi_start model poll_idle tb_add tb_start s).0
    stops : (poll_idle tb : ℕ) → Step s (nmi_stop model poll_idle tb s)
    suspends : (poll_idle tb : ℕ) → Step s (nmi_suspend model poll_idle tb s)
    resumes :
        (poll_idle tb_add tb_start : ℕ) → Step s (nmi_resume model poll_idle tb_add tb_start s)
    adapts : Step s (nmi_adapt model s).0
    configures : (configs : List OpCounterConfig) → Step s (record s { counter_config = configs })
    interrupts :
        (i tb_end tb_start tb_last : ℕ)
        → i < length s.cpus
        → Step s (notify i tb_end tb_start tb_last s)

  pub data Reach (s : Nmi) : Nmi → Type 0 where
    here : Reach s s
    next : {t u : Nmi} → Reach s t → Step t u → Reach s u

-- CPU `i` is one of `n`, online, with these `cpu_msrs` and this saved vector.
pub record IsTaken (none : NmiCpu) (n i : ℕ) (wired : OpMsrs) (vector : ℕ) (cs : List NmiCpu)
    : Type 0 where
  pub size : length cs ≡ n
  pub online : (get_or cs i none).online ≡ true
  pub msrs : (get_or cs i none).cpu.msrs ≡ wired
  pub saved : (get_or cs i none).saved_lvtpc ≡ vector

pub length-on_each_cpu :
    (f : NmiCpu → NmiCpu) (cs : List NmiCpu) → length (on_each_cpu f cs) ≡ length cs
length-on_each_cpu f [] = refl
length-on_each_cpu f (c ∷ cs) = ap suc (length-on_each_cpu f cs)

pub on_each_cpu_at :
    (f : NmiCpu → NmiCpu) (none : NmiCpu) (cs : List NmiCpu) (i : ℕ)
    → i < length cs
    → get_or (on_each_cpu f cs) i none ≡ (let c = get_or cs i none in if c.online then f c else c)
on_each_cpu_at f none [] i lt = absurd (omega arith)
on_each_cpu_at f none (c ∷ cs) zero lt = refl
on_each_cpu_at f none (c ∷ cs) (suc i) lt = on_each_cpu_at f none cs i (omega arith)

module _ (none : NmiCpu) (n i : ℕ) (small : i < n) (msrs : OpMsrs) (lvtpc : ℕ) where
  abbrev Taken : List NmiCpu → Type 0
  Taken = IsTaken none n i msrs lvtpc

  -- A function that leaves `cpu_msrs` and the saved vector alone, on every CPU that is online.
  each-IsTaken :
      (f : NmiCpu → NmiCpu) (cs : List NmiCpu)
      → ((c : NmiCpu) → (f c).cpu.msrs ≡ c.cpu.msrs)
      → ((c : NmiCpu) → (f c).saved_lvtpc ≡ c.saved_lvtpc)
      → ((c : NmiCpu) → (f c).online ≡ c.online)
      → Taken cs
      → Taken (on_each_cpu f cs)
  each-IsTaken f cs keeps_msrs keeps_saved keeps_online t =
      let c = get_or cs i none in
      let here = on_each_cpu_at f none cs i (omega (arith, t.size)) in
      let changed : get_or (on_each_cpu f cs) i none ≡ f c =
        here ∙ ap (λ (o : Bool). if o then f c else c) t.online in
      record {
        size = length-on_each_cpu f cs ∙ t.size;
        online = ap (λ (c : NmiCpu). c.online) changed ∙ keeps_online c ∙ t.online;
        msrs = ap (λ (c : NmiCpu). c.cpu.msrs) changed ∙ keeps_msrs c ∙ t.msrs;
        saved = ap (λ (c : NmiCpu). c.saved_lvtpc) changed ∙ keeps_saved c ∙ t.saved;
      }

  module _ (model : OpX86ModelSpec) (m : IsModel model) where
    start-IsTaken :
        (poll_idle tb_add tb_start : ℕ) (s : Nmi)
        → Taken s.cpus
        → Taken (nmi_start model poll_idle tb_add tb_start s).0.cpus
    unfolding nmi_start nmi_cpu_start
    start-IsTaken poll_idle tb_add tb_start s t =
        let each =
          each-IsTaken (nmi_cpu_start model tb_add tb_start) s.cpus (λ c. m.start tb_start _)
            (λ c. refl) (λ c. refl) t in
        elim (Bool-cases (s.idle.poll_idle_enabled == 0)) [
          | inl off ↦ rw off each
          | inr on ↦ rw on each
        ]

    stop-IsTaken :
        (poll_idle tb : ℕ) (s : Nmi) → Taken s.cpus → Taken (nmi_stop model poll_idle tb s).cpus
    unfolding nmi_stop nmi_cpu_stop
    stop-IsTaken poll_idle tb s t =
        each-IsTaken (nmi_cpu_stop model tb) s.cpus (λ c. m.stop c.cpu) (λ c. refl) (λ c. refl) t

    abbrev notified : (a b c running enabled : ℕ) → Cpu → Cpu
    notified a b c running enabled u = (profile_exceptions_notify model a b c running enabled u).0

    notify-msrs :
        (a b c running enabled : ℕ) (u : Cpu)
        → (profile_exceptions_notify model a b c running enabled u).0.msrs ≡ u.msrs
    unfolding profile_exceptions_notify
    notify-msrs a b c running enabled u = elim (Bool-cases (running == 0)) [
      | inr on ↦ rw on (m.check a b c u)
      | inl off ↦ elim (Bool-cases (enabled == 0)) [
        | inl gone ↦ rw (off, gone) refl
        | inr there ↦ rw (off, there) (m.stop u)
      ]
    ]

    notify-IsTaken :
        (j tb_end tb_start tb_last : ℕ) (s : Nmi)
        → j < length s.cpus
        → Taken s.cpus
        → Taken (notify model none j tb_end tb_start tb_last s).cpus
    notify-IsTaken j tb_end tb_start tb_last s lt t =
        let v =
          on_cpu (notified tb_end tb_start tb_last s.ctr_running s.nmi_enabled)
            (get_or s.cpus j none) in
        let long = length-set s.cpus j v ∙ t.size in
        elim (Bool-cases (j == i)) [
          | inl same ↦
              let e : j ≡ i = ground (arith, same) in
              let own : get_or (set s.cpus j v) i none ≡ v =
                ap (λ (k : ℕ). get_or (set s.cpus j v) k none) (sym e)
                ∙ get_or-set_self s.cpus j v none lt in
              let old : get_or s.cpus j none ≡ get_or s.cpus i none =
                ap (λ (k : ℕ). get_or s.cpus k none) e in
              record {
                size = long;
                online =
                    ap (λ (c : NmiCpu). c.online) (own)
                    ∙ ap (λ (c : NmiCpu). c.online) old
                    ∙ t.online;
                msrs =
                    ap (λ (c : NmiCpu). c.cpu.msrs) own
                    ∙ notify-msrs tb_end tb_start tb_last s.ctr_running s.nmi_enabled
                        (get_or s.cpus j none).cpu
                    ∙ ap (λ (c : NmiCpu). c.cpu.msrs) old
                    ∙ t.msrs;
                saved =
                    ap (λ (c : NmiCpu). c.saved_lvtpc) own
                    ∙ ap (λ (c : NmiCpu). c.saved_lvtpc) old
                    ∙ t.saved;
              }
          | inr differ ↦
              let ne : j ≢ i = ground (arith, differ) in
              let kept : get_or (set s.cpus j v) i none ≡ get_or s.cpus i none =
                get_or-set_ne s.cpus v none ne in
              record {
                size = long;
                online = ap (λ (c : NmiCpu). c.online) kept ∙ t.online;
                msrs = ap (λ (c : NmiCpu). c.cpu.msrs) kept ∙ t.msrs;
                saved = ap (λ (c : NmiCpu). c.saved_lvtpc) kept ∙ t.saved;
              }
        ]

    Step-IsTaken : {s s' : Nmi} → Step model none s s' → Taken s.cpus → Taken s'.cpus
    unfolding nmi_suspend nmi_resume nmi_adapt nmi_cpu_adapt
    Step-IsTaken {s = s} (starts p a b) t = start-IsTaken p a b s t
    Step-IsTaken {s = s} (stops p b) t = stop-IsTaken p b s t
    Step-IsTaken {s = s} (suspends p b) t = elim (Bool-cases (s.nmi_enabled == 1)) [
      | inl on ↦ rw on (stop-IsTaken p b s t)
      | inr off ↦ rw off t
    ]
    Step-IsTaken {s = s} (resumes p a b) t = elim (Bool-cases (s.nmi_enabled == 1)) [
      | inl on ↦ rw on (start-IsTaken p a b s t)
      | inr off ↦ rw off t
    ]
    Step-IsTaken {s = s} adapts t =
        let (configs, changed) = decay_counts s.counter_config in
        elim (Bool-cases (changed == 0)) [
          | inl same ↦ rw same t
          | inr other ↦ rw other (
              each-IsTaken (nmi_cpu_adapt model configs) s.cpus (λ c. (m.setup configs).msrs c.cpu)
                (λ c. refl) (λ c. refl) t)
        ]
    Step-IsTaken {s = s} (configures configs) t = t
    Step-IsTaken {s = s} (interrupts j a b c lt) t = notify-IsTaken j a b c s lt t

    pub Reach-IsTaken : {s s' : Nmi} → Reach model none s s' → Taken s.cpus → Taken s'.cpus
    Reach-IsTaken here t = t
    Reach-IsTaken (next r step) t = Step-IsTaken step (Reach-IsTaken r t)
