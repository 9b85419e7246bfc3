-- ===== src/Tests/X86.antt =====
-- Instances for the x86 drivers.
use rrprofile.Prelude.{ℕ, ◌≡◌, arith, List, [], ◌∷◌, map, ◌⊎◌, true, false}
use rrprofile.CpuBuffer.{OprofileCpuBuffer, oprofile_add_sample_start, oprofile_add_sample_stop}
use rrprofile.X86.{
  MsrFile, OpMsr, OpMsrs, OpCounterConfig, no_register, no_config, ctr_value, ctrl_set_active,
  ctrl_set_inactive,
}
use rrprofile.X86.Adapt.{decay_counts, AllCountable, AllArmed, tenfold, decay_counts_lem}
use rrprofile.X86.Ppro.{Cpu, ppro_check_ctrs}
use rrprofile.X86.Ppro.Overflow.{IsWired, check_ctrs_lem}
use rrprofile.X86.Select.{OpModel, intel, Processor}
use rrprofile.Tests.Data.{ring}

abbrev pub reg : ℕ → OpMsr
reg a = record { addr = a; saved = no_register }

abbrev msrs : OpMsrs
msrs = record { counters = reg 193 ∷ reg 194 ∷ []; controls = reg 390 ∷ reg 0 ∷ [] }

-- every register holds its own address
abbrev pub file : MsrFile
file a = record { high = 0; low = a }

abbrev cleared : MsrFile
cleared a = no_register

abbrev configs : List OpCounterConfig
configs = record no_config { enabled = 1; count = 1000 } ∷ no_config ∷ []

abbrev cpu : Cpu
cpu = record {
  file = file;
  msrs = msrs;
  lvtpc = 0;
  reset_value = 1000 ∷ 0 ∷ [];
  start_timestamp = 5;
  ring = ring;
}

cpu-IsWired : IsWired cpu
cpu-IsWired = record { counters_ne = omega arith; first_ne = omega arith; second_ne = omega arith }

-- logs nothing
abbrev no_sample_added : ℕ → OprofileCpuBuffer → OprofileCpuBuffer
no_sample_added event b = b

abbrev nehalem : Processor
nehalem = record {
  vendor = intel;
  family = 6;
  model = 26;
  cpuid_level = 11;
  cpuid_eax_1 = 0x106a5;
  cpuid_eax_10 = 0x7300403;
  has_apic = true;
  smp_num_siblings = 2;
  p4force = false;
  force_arch_perfmon = false;
}

abbrev ready : OpModel → ℕ
ready model = 0

configs-AllCountable : AllCountable configs
configs-AllCountable = ground arith

decay_counts_lem_example :
    ((decay_counts configs ≡ (configs, 0)) ⊎ (decay_counts configs ≡ (map tenfold configs, 1)))
    × AllCountable (decay_counts configs).0
    × AllArmed (decay_counts configs).0
decay_counts_lem_example = decay_counts_lem configs configs-AllCountable

check_ctrs_lem_example :
    let r = ppro_check_ctrs no_sample_added 65536 21 22 23 cpu in
    (r.0.ring
      ≡ oprofile_add_sample_stop
          (oprofile_add_sample_start
            (oprofile_add_sample_stop (oprofile_add_sample_start ring 5) 21)
            5)
          21)
    × (r.0.file 193 ≡ ctr_value 1000)
    × (r.0.file 194 ≡ ctr_value 0)
    × ((r.0.file 390).low ≡ ctrl_set_active (ctrl_set_inactive 390))
    × (r.0.start_timestamp ≡ 23)
    × (r.1 ≡ 1)
check_ctrs_lem_example = check_ctrs_lem no_sample_added 65536 21 22 23 cpu cpu-IsWired
