-- ===== src/X86/Nmi.antt =====
-- x86/nmi_int.c: the life cycle of the NMI handler on all CPUs. `on_each_cpu` runs its function on the
-- CPUs that are online, one after another; the locks around it have no counterpart.
pub mod Session
pub mod Models
pub mod Reach
pub mod Suspend
use rrprofile.Prelude.{
  ℕ, ◌+◌, List, [], ◌∷◌, Bool, true, false, not, ◌==◌, if◌then◌else◌, Option, none, some, map,
}
use rrprofile.Codes.{enomem}
use rrprofile.CpuBuffer.{oprofile_add_start, oprofile_add_stop}
use rrprofile.X86.{OpMsr, OpMsrs, OpCounterConfig, nmi_cpu_save_registers, nmi_restore_registers}
use rrprofile.X86.Ppro.{Cpu}
use rrprofile.X86.Adapt.{decay_counts}
use rrprofile.X86.Idle.{PollIdle, enable_poll_idle, disable_poll_idle}

-- `struct op_x86_model_spec`, but for `init` and `exit`. Results of `oprofile_get_tb()` are arguments.
pub record OpX86ModelSpec : Type 0 where
  pub num_counters : ℕ
  pub num_controls : ℕ
  pub fill_in_addresses : OpMsrs → OpMsrs
  pub setup_ctrs : List OpCounterConfig → Cpu → Cpu
  pub check_ctrs : (tb_end tb_start tb_last : ℕ) → Cpu → Cpu × ℕ
  pub start : (tb : ℕ) → Cpu → Cpu
  pub stop : Cpu → Cpu
  pub shutdown : Option (Cpu → Cpu)

-- A possible CPU: whether it is online, its registers and `cpu_msrs`, the error vector of its APIC, and
-- `saved_lvtpc`.
pub record NmiCpu : Type 0 where
  pub online : Bool
  pub cpu : Cpu
  pub lvterr : ℕ
  pub saved_lvtpc : ℕ

-- The driver's state; `counter_config` has the entries of the model's counters.
pub record Nmi : Type 0 where
  pub cpus : List NmiCpu
  pub counter_config : List OpCounterConfig
  pub ctr_running : ℕ
  pub nmi_enabled : ℕ
  pub idle : PollIdle

abbrev pub on_each_cpu : (NmiCpu → NmiCpu) → List NmiCpu → List NmiCpu
on_each_cpu f [] = []
on_each_cpu f (c ∷ cs) = (if c.online then f c else c) ∷ on_each_cpu f cs

abbrev pub on_cpu : (Cpu → Cpu) → NmiCpu → NmiCpu
on_cpu f c = record c { cpu = f c.cpu }

abbrev pub with_msrs : OpMsrs → NmiCpu → NmiCpu
with_msrs msrs = on_cpu (λ c. record c { msrs = msrs })

-- a callback of the model that it may lack
abbrev pub optional : Option (Cpu → Cpu) → Cpu → Cpu
optional none c = c
optional (some f) c = f c

-- the body of the loop of `free_msrs`
abbrev pub free_cpu_msrs : NmiCpu → NmiCpu
free_cpu_msrs = with_msrs (record { counters = []; controls = [] })

unfoldable pub free_msrs : List NmiCpu → List NmiCpu
free_msrs cs = map free_cpu_msrs cs

module _ (model : OpX86ModelSpec) where
  -- `kmalloc` of an array of that many registers for the CPU with that number; what it holds is not set.
  module _ (kmalloc : ℕ → ℕ → Option (List OpMsr)) where
    -- The loop of `allocate_msrs` from CPU `i` on; the flag is `success`.
    unfoldable pub allocate_from : ℕ → List NmiCpu → List NmiCpu × Bool
    allocate_from i [] = ([], true)
    allocate_from i (c ∷ cs) = elim (kmalloc i model.num_counters) [
      | none ↦ (with_msrs (record c.cpu.msrs { counters = [] }) c ∷ cs, false)
      | some counters ↦ elim (kmalloc i model.num_controls) [
        | none ↦ (with_msrs (record { counters = counters; controls = [] }) c ∷ cs, false)
        | some controls ↦
            let (rest, success) = allocate_from (i + 1) cs in
            (with_msrs (record { counters = counters; controls = controls }) c ∷ rest, success)
      ]
    ]

    unfoldable pub allocate_msrs : List NmiCpu → List NmiCpu × Bool
    allocate_msrs cs =
        let (cs', success) = allocate_from 0 cs in
        if success then (cs', true) else (free_msrs cs', false)

  unfoldable pub nmi_save_registers : NmiCpu → NmiCpu
  nmi_save_registers c =
      with_msrs (nmi_cpu_save_registers c.cpu.file (model.fill_in_addresses c.cpu.msrs)) c

  -- `apic_dm_nmi` is the kernel's `APIC_DM_NMI`.
  unfoldable pub nmi_cpu_setup : (apic_dm_nmi : ℕ) → List OpCounterConfig → NmiCpu → NmiCpu
  nmi_cpu_setup apic_dm_nmi configs c =
      let programmed = model.setup_ctrs configs c.cpu in
      record c { saved_lvtpc = programmed.lvtpc; cpu = record programmed { lvtpc = apic_dm_nmi } }

  -- `registered` is what `register_nmi_handler` returns.
  unfoldable pub nmi_setup :
      (kmalloc : ℕ → ℕ → Option (List OpMsr)) → (registered apic_dm_nmi : ℕ) → Nmi → Nmi × ℕ
  nmi_setup kmalloc registered apic_dm_nmi s =
      let (cs, success) = allocate_msrs kmalloc s.cpus in
      if not success
      then (record s { cpus = cs }, enomem)
      else (let quiet = record s { cpus = cs; nmi_enabled = 0; ctr_running = 0 } in
          if not (registered == 0)
          then (record quiet { cpus = free_msrs cs }, registered)
          else (let saved = on_each_cpu nmi_save_registers cs in
              let programmed = on_each_cpu (nmi_cpu_setup apic_dm_nmi s.counter_config) saved in
              (record quiet { cpus = programmed; nmi_enabled = 1 }, 0)))

  -- The writes to the error vector mask it and then write back what was read from it.
  unfoldable pub nmi_cpu_shutdown : NmiCpu → NmiCpu
  nmi_cpu_shutdown c =
      let v = c.lvterr in
      let unhooked = record c.cpu { lvtpc = c.saved_lvtpc } in
      let down = optional model.shutdown unhooked in
      record c {
        lvterr = v;
        cpu = record down { file = nmi_restore_registers down.msrs down.file };
      }

  -- `poll_idle` is the address of the routine that polls.
  unfoldable pub nmi_shutdown : (poll_idle : ℕ) → Nmi → Nmi
  nmi_shutdown poll_idle s = record s {
    idle = disable_poll_idle poll_idle s.idle;
    nmi_enabled = 0;
    cpus = free_msrs (on_each_cpu nmi_cpu_shutdown s.cpus);
  }

  unfoldable pub nmi_cpu_start : (tb_add tb_start : ℕ) → NmiCpu → NmiCpu
  nmi_cpu_start tb_add tb_start =
      on_cpu (λ c. model.start tb_start (record c { ring = oprofile_add_start c.ring tb_add }))

  unfoldable pub nmi_start : (poll_idle tb_add tb_start : ℕ) → Nmi → Nmi × ℕ
  nmi_start poll_idle tb_add tb_start s =
      let started = record s {
        ctr_running = 1;
        cpus = on_each_cpu (nmi_cpu_start tb_add tb_start) s.cpus;
      } in
      (
        if started.idle.poll_idle_enabled == 0
            then started
            else record started { idle = enable_poll_idle poll_idle started.idle },
        0,
      )

  unfoldable pub nmi_cpu_stop : (tb : ℕ) → NmiCpu → NmiCpu
  nmi_cpu_stop tb = on_cpu (λ c.
      let stopped = model.stop c in record stopped { ring = oprofile_add_stop stopped.ring tb })

  -- Each CPU that is online calls `disable_poll_idle`.
  abbrev pub disable_each : (poll_idle : ℕ) → List NmiCpu → PollIdle → PollIdle
  disable_each poll_idle [] idle = idle
  disable_each poll_idle (c ∷ cs) idle =
      disable_each poll_idle cs (if c.online then disable_poll_idle poll_idle idle else idle)

  unfoldable pub nmi_stop : (poll_idle tb : ℕ) → Nmi → Nmi
  nmi_stop poll_idle tb s = record s {
    cpus = on_each_cpu (nmi_cpu_stop tb) s.cpus;
    idle = disable_each poll_idle s.cpus s.idle;
    ctr_running = 0;
  }

  unfoldable pub nmi_suspend : (poll_idle tb : ℕ) → Nmi → Nmi
  nmi_suspend poll_idle tb s = if s.nmi_enabled == 1 then nmi_stop poll_idle tb s else s

  unfoldable pub nmi_resume : (poll_idle tb_add tb_start : ℕ) → Nmi → Nmi
  nmi_resume poll_idle tb_add tb_start s =
      if s.nmi_enabled == 1 then (nmi_start poll_idle tb_add tb_start s).0 else s

  unfoldable pub nmi_cpu_adapt : List OpCounterConfig → NmiCpu → NmiCpu
  nmi_cpu_adapt configs = on_cpu (model.setup_ctrs configs)

  unfoldable pub nmi_adapt : Nmi → Nmi × ℕ
  nmi_adapt s =
      let (configs, changed) = decay_counts s.counter_config in
      if changed == 0 then (s, 0) else (
        record s { counter_config = configs; cpus = on_each_cpu (nmi_cpu_adapt configs) s.cpus },
        1,
      )

  -- `profile_exceptions_notify` on one CPU; the flag is true for `NMI_HANDLED`.
  unfoldable pub profile_exceptions_notify :
      (tb_end tb_start tb_last ctr_running nmi_enabled : ℕ) → Cpu → Cpu × Bool
  profile_exceptions_notify tb_end tb_start tb_last ctr_running nmi_enabled c =
      if not (ctr_running == 0)
      then ((model.check_ctrs tb_end tb_start tb_last c).0, true)
      else if nmi_enabled == 0
      then (c, false)
      else (model.stop c, true)
