-- ===== src/Tests/Nmi.antt =====
-- Instances for the NMI handler and idle polling, with the P6 counters as the model.
use rrprofile.Prelude.{
  arith, get_or, ℕ, ◌≡◌, ◌≢◌, refl, List, [], ◌∷◌, true, false, Option, some, ◌⊎◌, ◌||◌,
}
use rrprofile.CpuBuffer.{OprofileCpuBuffer}
use rrprofile.X86.{OpMsr, OpMsrs, MsrFile, OpCounterConfig, no_register, no_config}
use rrprofile.X86.Save.{uses}
use rrprofile.X86.Ppro.{Cpu, ppro_fill_in_addresses}
use rrprofile.X86.Idle.{own}
use rrprofile.X86.Nmi.{
  OpX86ModelSpec, NmiCpu, Nmi, free_msrs, nmi_setup, nmi_suspend, nmi_resume, nmi_start, nmi_stop,
  nmi_shutdown, allocate_from, allocate_msrs,
}
use rrprofile.X86.Nmi.Session.{nmi_setup_lem}
use rrprofile.X86.Nmi.Suspend.{IsPaused, nmi_resume-nmi_suspend}
use rrprofile.X86.Nmi.Reach.{Reach, here, next, starts, stops, configures}
use rrprofile.X86.Nmi.Reach.Restored.{nmi_shutdown_restores}
use rrprofile.X86.Nmi.Models.{op_ppro_spec, op_ppro_spec-IsModel}
use rrprofile.Tests.Data.{ring}

abbrev no_sample_added : ℕ → OprofileCpuBuffer → OprofileCpuBuffer
no_sample_added event b = b

abbrev model : OpX86ModelSpec
model = op_ppro_spec no_sample_added 65536 193 194 390 391

-- two registers that nothing has been stored in
abbrev kmalloc : ℕ → ℕ → Option (List OpMsr)
kmalloc i n =
    some (record { addr = 7; saved = no_register } ∷ record { addr = 7; saved = no_register } ∷ [])

abbrev fresh_msrs : OpMsrs
fresh_msrs = record {
  counters =
      record { addr = 7; saved = no_register } ∷ record { addr = 7; saved = no_register } ∷ [];
  controls =
      record { addr = 7; saved = no_register } ∷ record { addr = 7; saved = no_register } ∷ [];
}

abbrev file : MsrFile
file a = record { high = 0; low = a }

abbrev configs : List OpCounterConfig
configs = record no_config { enabled = 1; count = 1000 } ∷ no_config ∷ []

abbrev nmi_cpu : NmiCpu
nmi_cpu = record {
  online = true;
  cpu = record {
    file = file;
    msrs = fresh_msrs;
    lvtpc = 65536;
    reset_value = 0 ∷ 0 ∷ [];
    start_timestamp = 0;
    ring = ring;
  };
  lvterr = 254;
  saved_lvtpc = 0;
}

abbrev nmi : Nmi
nmi = record {
  cpus = nmi_cpu ∷ record nmi_cpu { online = false } ∷ [];
  counter_config = configs;
  ctr_running = 0;
  nmi_enabled = 0;
  idle = own 4352 4096 true true 1;
}

abbrev set_up : Nmi
set_up = (nmi_setup model kmalloc 0 1024 nmi).0

set_up_fine : (nmi_setup model kmalloc 0 1024 nmi).1 ≡ 0
unfolding nmi_setup allocate_msrs allocate_from
set_up_fine = refl

abbrev started : Nmi
started = (nmi_start model 4352 7 8 set_up).0

abbrev stopped : Nmi
stopped = nmi_stop model 4352 9 (record started { counter_config = [] })

run : Reach model nmi_cpu set_up stopped
run = next (next (next here (starts 4352 7 8)) (configures [])) (stops 4352 9)

control_used :
    let msrs =
      model.fill_in_addresses
        (get_or (allocate_from model kmalloc 0 nmi.cpus).0 0 nmi_cpu).cpu.msrs in
    uses 390 msrs.counters || uses 390 msrs.controls ≡ true
unfolding op_ppro_spec ppro_fill_in_addresses allocate_from
control_used = refl

nmi_shutdown_restores_example :
    let back = get_or (nmi_shutdown model 4352 stopped).cpus 0 nmi_cpu in
    (back.cpu.file 390 ≡ record { high = 0; low = 390 }) × (back.cpu.lvtpc ≡ 65536)
nmi_shutdown_restores_example =
    nmi_shutdown_restores model kmalloc nmi_cpu nmi
      (op_ppro_spec-IsModel no_sample_added 65536 193 194 390 391) 0 1024 0 4352 390 stopped
      (omega arith) refl control_used set_up_fine run

nmi_setup_lem_example :
    let r = nmi_setup model kmalloc 0 1024 nmi in
    ((r.1 ≡ 0) × (r.0.nmi_enabled ≡ 1) × (r.0.ctr_running ≡ 0))
    ⊎ ((r.1 ≢ 0) × (r.0.nmi_enabled ≡ 0) × (r.0.cpus ≡ free_msrs nmi.cpus))
nmi_setup_lem_example = nmi_setup_lem model kmalloc 0 1024 nmi refl

-- a handler that is enabled, on registers that have their addresses
abbrev wired_msrs : OpMsrs
wired_msrs = record {
  counters =
      record { addr = 193; saved = no_register } ∷ record { addr = 194; saved = no_register } ∷ [];
  controls =
      record { addr = 390; saved = no_register } ∷ record { addr = 391; saved = no_register } ∷ [];
}

abbrev live : Nmi
live = record nmi {
  nmi_enabled = 1;
  cpus = record nmi_cpu { cpu = record nmi_cpu.cpu { msrs = wired_msrs } } ∷ [];
}

nmi_resume-nmi_suspend_example :
    let paused = nmi_suspend model 4352 9 live in
    let up = nmi_resume model 4352 10 11 paused in
    let cpu : Nmi → Cpu = λ (t : Nmi). (get_or t.cpus 0 nmi_cpu).cpu in
    ((live.nmi_enabled ≡ 1)
      × (paused.ctr_running ≡ 0)
      × (up.ctr_running ≡ 1)
      × IsPaused 22 391 9 10 11 (cpu live) (cpu paused) (cpu up))
    ⊎ ((live.nmi_enabled ≢ 1) × (paused ≡ live) × (up ≡ live))
unfolding op_ppro_spec
nmi_resume-nmi_suspend_example =
    nmi_resume-nmi_suspend no_sample_added 65536 193 194 390 391 4352 9 10 11 0 22 391 nmi_cpu live
      (omega arith) refl (omega arith) (omega arith)
