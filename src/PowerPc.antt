-- ===== src/PowerPc.antt =====
-- powerpc/oprofile_impl.h: what the processors of powerpc/ share. A special purpose register that the
-- driver uses is a field of the CPU, `mfspr` and `mtspr` read and assign it; the masks of
-- `MMCR0`, which asm/reg.h defines, are arguments.
pub mod Words
pub mod Rounds
pub mod Power4
pub mod Rs64
pub mod Fsl7450
pub mod Common
pub mod Backtrace
use rrprofile.Prelude.{
  ℕ, ◌-◌, ◌%◌, List, Bool, ◌==◌, if◌then◌else◌, get_or, set, uint_mod, leb, sub_ulong, ◌^◌,
}
use Prim.Native.Nat.{bit_and, bit_or}
use rrprofile.CpuBuffer.{OprofileCpuBuffer}

-- `struct op_counter_config`
pub record PpcCounterConfig : Type 0 where
  pub valid : ℕ
  pub enabled : ℕ
  pub event : ℕ
  pub count : ℕ
  pub kernel : ℕ
  pub user : ℕ
  pub unit_mask : ℕ

-- `struct op_system_config`
pub record OpSystemConfig : Type 0 where
  pub mmcr0 : ℕ
  pub mmcr1 : ℕ
  pub mmcra : ℕ
  pub enable_kernel : ℕ
  pub enable_user : ℕ

abbrev pub no_ppc_config : PpcCounterConfig
no_ppc_config = record {
  valid = 0;
  enabled = 0;
  event = 0;
  count = 0;
  kernel = 0;
  user = 0;
  unit_mask = 0;
}

-- the registers of a CPU, `PMC1` to `PMC8` in `pmc`, with its `start_timestamp` and its buffer
pub record PpcCpu : Type 0 where
  pub pmc : List ℕ
  pub mmcr0 : ℕ
  pub mmcr1 : ℕ
  pub mmcr2 : ℕ
  pub mmcra : ℕ
  pub siar : ℕ
  pub msr : ℕ
  pub start_timestamp : ℕ
  pub ring : OprofileCpuBuffer

-- the variables of a model's file that all CPUs share
pub record PpcShared : Type 0 where
  pub reset_value : List ℕ
  pub mmcr0_val : ℕ
  pub mmcr1_val : ℕ
  pub mmcr2_val : ℕ
  pub mmcra_val : ℕ
  pub num_counters : ℕ
  pub oprofile_running : ℕ

-- the masks `MMCR0_FC`, … and `MSR_PMM`, `MMCRA_SAMPLE_ENABLE`
pub record PpcMasks : Type 0 where
  pub fc : ℕ
  pub fcs : ℕ
  pub fcp : ℕ
  pub fcm0 : ℕ
  pub fcm1 : ℕ
  pub pmxe : ℕ
  pub fcece : ℕ
  pub pmc1ce : ℕ
  pub pmcjce : ℕ
  pub pmcnce : ℕ
  pub pmao : ℕ
  pub kernel_disable : ℕ
  pub problem_disable : ℕ
  pub pmm : ℕ
  pub sample_enable : ℕ

-- The default of a read past the last counter is the result that the code gives for it.
abbrev pub ctr_read : ℕ → PpcCpu → ℕ
ctr_read i c = get_or c.pmc i 0 % uint_mod

-- `val` is an unsigned int; a write past the last counter does nothing.
abbrev pub ctr_write : ℕ → ℕ → PpcCpu → PpcCpu
ctr_write i val c = record c { pmc = set c.pmc i (val % uint_mod) }

-- `val < 0` of the `int` that `ctr_read` is assigned to
abbrev pub is_negative : ℕ → Bool
is_negative val = leb (2 ^ 31) val

-- `x & ~mask` of an unsigned int
abbrev pub clear_mask : ℕ → ℕ → ℕ
clear_mask x mask = bit_and x (uint_mod - 1 - mask)

-- `mtmsrd(mfmsr() | MSR_PMM)`
abbrev pub set_pmm : PpcMasks → PpcCpu → PpcCpu
set_pmm b c = record c { msr = bit_or c.msr b.pmm }

-- a change of `MMCR0`, which the code reads into an unsigned int
abbrev pub on_mmcr0 : (ℕ → ℕ) → PpcCpu → PpcCpu
on_mmcr0 f c = record c { mmcr0 = f (c.mmcr0 % uint_mod) }

-- `0x80000000UL - ctr[i].count`
abbrev pub reset_of : PpcCounterConfig → ℕ
reset_of config = sub_ulong (2 ^ 31) config.count
