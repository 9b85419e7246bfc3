-- ===== src/PowerPc/Common.antt =====
-- powerpc/common.c: the driver's callbacks, which program, start and stop the counters of all CPUs, on
-- kernels from 2.6.16 on. `on_each_cpu` runs its function on one CPU after another.
pub mod Setup
pub mod TimeBase
pub mod Session
use rrprofile.Prelude.{
  ℕ, ◌/◌, List, [], ◌∷◌, Bool, true, false, not, ◌==◌, if◌then◌else◌, Option, none, some,
}
use rrprofile.Codes.{enodev}
use rrprofile.CpuBuffer.{OprofileCpuBuffer, oprofile_add_start, oprofile_add_stop}
use rrprofile.PowerPc.{PpcCounterConfig, OpSystemConfig, PpcCpu, PpcShared, PpcMasks}
use rrprofile.PowerPc.Power4.{power4_reg_setup}
use rrprofile.PowerPc.Power4.Run.{
  PpcKernel, is_kernel_addr, power4_cpu_setup, power4_start, power4_stop, power4_handle_interrupt,
}
use rrprofile.PowerPc.Rs64.{
  rs64_reg_setup, rs64_cpu_setup, rs64_start, rs64_stop, rs64_handle_interrupt,
}
use rrprofile.PowerPc.Fsl7450.{
  PmcSel, fsl7450_reg_setup, fsl7450_cpu_setup, fsl7450_start, fsl7450_stop,
  fsl7450_handle_interrupt,
}

-- `struct op_powerpc_model`. Results of `oprofile_get_tb()` are arguments.
pub record OpPowerpcModel : Type 0 where
  pub reg_setup : List PpcCounterConfig → OpSystemConfig → ℕ → PpcShared → PpcShared
  pub cpu_setup : PpcShared → PpcCpu → PpcCpu
  pub start : (tb : ℕ) → List PpcCounterConfig → PpcShared × PpcCpu → PpcShared × PpcCpu
  pub stop : PpcShared × PpcCpu → PpcShared × PpcCpu
  pub handle_interrupt : (tb_end tb_start : ℕ) → List PpcCounterConfig → PpcShared → PpcCpu → PpcCpu
  pub num_counters : ℕ

-- the variables of common.c and of the model's file, and the CPUs that are online
pub record Ppc : Type 0 where
  pub model : OpPowerpcModel
  pub ctr : List PpcCounterConfig
  pub sys : OpSystemConfig
  pub shared : PpcShared
  pub cpus : List PpcCpu

abbrev pub on_each_cpu :
    (PpcShared × PpcCpu → PpcShared × PpcCpu) → PpcShared → List PpcCpu → PpcShared × List PpcCpu
on_each_cpu f g [] = (g, [])
on_each_cpu f g (c ∷ cs) =
    let (g1, c1) = f (g, c) in let (g2, cs2) = on_each_cpu f g1 cs in (g2, c1 ∷ cs2)

abbrev pub on_cpus : (PpcShared × PpcCpu → PpcShared × PpcCpu) → Ppc → Ppc
on_cpus f s = let (g, cs) = on_each_cpu f s.shared s.cpus in record s { shared = g; cpus = cs }

-- the body of the interrupt handler
op_handle_interrupt : (tb_end tb_start : ℕ) → Ppc → PpcCpu → PpcCpu
op_handle_interrupt tb_end tb_start s c = s.model.handle_interrupt tb_end tb_start s.ctr s.shared c

-- `reserved` is what the kernel's `reserve_pmc_hardware` returns.
unfoldable pub op_powerpc_setup : (reserved : ℕ) → Ppc → Ppc × ℕ
op_powerpc_setup reserved s =
    if not (reserved == 0)
    then (s, reserved)
    else (let g = s.model.reg_setup s.ctr s.sys s.model.num_counters s.shared in
        (on_cpus (λ (g, c). (g, s.model.cpu_setup g c)) (record s { shared = g }), 0))

-- `tb` gives the two results of `oprofile_get_tb()` on a CPU: that of `oprofile_add_start`, and that of
-- the model.
unfoldable pub op_powerpc_cpu_start :
    (tb : PpcCpu → ℕ × ℕ)
    → OpPowerpcModel
    → List PpcCounterConfig
    → PpcShared × PpcCpu
    → PpcShared × PpcCpu
op_powerpc_cpu_start tb m ctr (g, c) =
    m.start (tb c).1 ctr (g, record c { ring = oprofile_add_start c.ring (tb c).0 })

unfoldable pub op_powerpc_start : (tb : PpcCpu → ℕ × ℕ) → Ppc → Ppc × ℕ
unfolding op_powerpc_cpu_start
op_powerpc_start tb s = (on_cpus (op_powerpc_cpu_start tb s.model s.ctr) s, 0)

-- `tb` is what `oprofile_get_tb()` returns on a CPU once it has stopped.
unfoldable pub op_powerpc_cpu_stop :
    (tb : PpcCpu → ℕ) → OpPowerpcModel → PpcShared × PpcCpu → PpcShared × PpcCpu
op_powerpc_cpu_stop tb m gc =
    let (g, c) = m.stop gc in (g, record c { ring = oprofile_add_stop c.ring (tb c) })

unfoldable pub op_powerpc_stop : (tb : PpcCpu → ℕ) → Ppc → Ppc
unfolding op_powerpc_cpu_stop
op_powerpc_stop tb s = on_cpus (op_powerpc_cpu_stop tb s.model) s

-- what `op_powerpc_create_files` does beside creating files: by default both are profiled
op_powerpc_create_files : Ppc → Ppc
op_powerpc_create_files s = record s { sys = record s.sys { enable_kernel = 1; enable_user = 1 } }

-- `cur_cpu_spec->oprofile_type`: the kernel's `PPC_OPROFILE_` constants, and the others
pub data PpcOprofileType : Type 0 where
  rs64 : PpcOprofileType
  power4 : PpcOprofileType
  g4 : PpcOprofileType
  other : PpcOprofileType

module _ (b : PpcMasks)
    (add_ext_sample : (pc i is_kernel : ℕ) → OprofileCpuBuffer → OprofileCpuBuffer)
    (num_pmcs : ℕ) where
  unfoldable pub op_model_power4 : (must_set_sample : Bool) → PpcKernel → OpPowerpcModel
  op_model_power4 must_set_sample k = record {
    reg_setup = λ ctr sys num_ctrs. power4_reg_setup b num_pmcs ctr sys;
    cpu_setup = power4_cpu_setup b must_set_sample;
    start = power4_start b num_pmcs;
    stop = power4_stop b;
    handle_interrupt = power4_handle_interrupt add_ext_sample b k num_pmcs;
    num_counters = num_pmcs;
  }

  unfoldable pub op_model_rs64 : (has_mmcra : Bool) → (is_kernel_addr : ℕ → Bool) → OpPowerpcModel
  op_model_rs64 has_mmcra is_kernel_addr = record {
    reg_setup = λ ctr sys num_ctrs. rs64_reg_setup num_ctrs ctr;
    cpu_setup = λ g. rs64_cpu_setup b has_mmcra;
    start = λ tb ctr (g, c). (g, rs64_start b ctr g c);
    stop = λ (g, c). (g, rs64_stop b c);
    handle_interrupt = λ tb_end tb_start. rs64_handle_interrupt add_ext_sample b is_kernel_addr;
    num_counters = num_pmcs;
  }

  unfoldable pub op_model_7450 : PmcSel → (is_kernel_addr : ℕ → Bool) → OpPowerpcModel
  op_model_7450 sel is_kernel_addr = record {
    reg_setup = λ ctr sys num_ctrs. fsl7450_reg_setup b sel ctr sys;
    cpu_setup = fsl7450_cpu_setup b;
    start = λ tb. fsl7450_start b;
    stop = fsl7450_stop b;
    handle_interrupt = λ tb_end tb_start. fsl7450_handle_interrupt add_ext_sample b is_kernel_addr;
    num_counters = num_pmcs;
  }

  -- the model of a type; there is none for another type, and no assignment of one
  unfoldable pub model_of :
      PmcSel
      → (must_set_sample has_mmcra : Bool) → PpcKernel
      → PpcOprofileType
      → Option OpPowerpcModel
  unfolding op_model_power4 op_model_rs64 op_model_7450
  model_of sel must has k rs64 = some (op_model_rs64 has (is_kernel_addr k))
  model_of sel must has k power4 = some (op_model_power4 must k)
  model_of sel must has k g4 = some (op_model_7450 sel (is_kernel_addr k))
  model_of sel must has k other = none

-- What `oprofile_arch_init` assigns: the model, and `ops->cpu_type` and the callbacks where they are
-- assigned; `cpu_khz`.
pub record PpcInit : Type 0 where
  pub model : Option PpcOprofileType
  pub num_counters : ℕ
  pub cpu_type : Bool
  pub callbacks : Bool
  pub cpu_khz : ℕ

-- `ppc64` is `CONFIG_PPC64`, and `CONFIG_FSL_BOOKE` is not defined; `cpu_type` says whether
-- `cur_cpu_spec` names one, and `clock` is the property of the node of the CPU, where there is one.
unfoldable pub oprofile_arch_init :
    (ppc64 cpu_type : Bool)
    → PpcOprofileType
    → (num_pmcs : ℕ) → (clock : Option ℕ) → PpcInit
    → PpcInit × ℕ
oprofile_arch_init ppc64 cpu_type type num_pmcs clock s =
    if not cpu_type then (s, enodev) else elim (supported ppc64 type) [
      | none ↦ (s, enodev)
      | some m ↦ (
        record {
          model = some m;
          num_counters = num_pmcs;
          cpu_type = true;
          callbacks = true;
          cpu_khz = khz clock s.cpu_khz;
        },
        0,
      )
    ]
  where
    supported : Bool → PpcOprofileType → Option PpcOprofileType
    supported true rs64 = some rs64
    supported true power4 = some power4
    supported false g4 = some g4
    supported p t = none

    khz : Option ℕ → ℕ → ℕ
    khz (some hz) old = hz / 1000
    khz none old = old
