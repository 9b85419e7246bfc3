-- ===== src/Tests/PowerPc.antt =====
-- The properties of powerpc/ at concrete inputs.
use rrprofile.Prelude.{
  if◌then◌else◌, Option, none, ltb, ℕ, zero, suc, ◌+◌, ◌-◌, ◌^◌, ◌<◌, ◌≤◌, ◌≡◌, ◌≢◌, ◌⊎◌, refl,
  arith, List, [], ◌∷◌, Bool, true, false, ◌==◌, leb, get_or, some,
}
use Prim.Native.Nat.{min}
use rrprofile.CpuBuffer.{
  OprofileCpuBuffer, oprofile_add_sample_start, oprofile_add_sample_stop, oprofile_add_stop,
}
use rrprofile.Bits.{bit, holds_below, holds_below_at}
use rrprofile.PowerPc.{PpcCounterConfig, OpSystemConfig, PpcCpu, PpcShared, PpcMasks, no_ppc_config}
use rrprofile.PowerPc.Rounds.{pmc_at}
use rrprofile.PowerPc.Power4.{power4_reg_setup}
use rrprofile.PowerPc.Power4.Encode.{IsDisabling, mmcr0_lem}
use rrprofile.PowerPc.Power4.Run.{PpcKernel, is_kernel_addr, power4_handle_interrupt}
use rrprofile.PowerPc.Power4.Run.Interrupt.{power4_handle_interrupt_lem}
use rrprofile.PowerPc.Rs64.{ctrl_read, rs64_start}
use rrprofile.PowerPc.Rs64.Start.{Fits, rs64_start_lem}
use rrprofile.PowerPc.Fsl7450.{PmcSel}
use rrprofile.PowerPc.Common.{
  Ppc, OpPowerpcModel, g4, op_powerpc_setup, op_powerpc_start, op_powerpc_stop, op_model_power4,
  op_model_7450, model_of,
}
use rrprofile.PowerPc.Common.Session.{IsFreezing, start_stop_lem}
use rrprofile.PowerPc.Common.Setup.{power4_setup_lem}
use rrprofile.PowerPc.Common.TimeBase.{oprofile_get_tb, oprofile_get_tb_lem}
use rrprofile.PowerPc.Backtrace.{op_powerpc_backtrace, kernel_getsp, user_getsp64, user_getsp32}
use rrprofile.PowerPc.Backtrace.Frames.{op_powerpc_backtrace_lem}
use rrprofile.Tests.Data.{ring}

-- the masks of a kernel's asm/reg.h
abbrev masks : PpcMasks
masks = record {
  fc = 2 ^ 31;
  fcs = 2 ^ 30;
  fcp = 2 ^ 29;
  fcm0 = 2 ^ 27;
  fcm1 = 2 ^ 28;
  pmxe = 2 ^ 26;
  fcece = 2 ^ 25;
  pmc1ce = 2 ^ 15;
  pmcjce = 2 ^ 14;
  pmcnce = 2 ^ 14;
  pmao = 2 ^ 7;
  kernel_disable = 2 ^ 30;
  problem_disable = 2 ^ 29;
  pmm = 4;
  sample_enable = 1;
}

abbrev cycles : PpcCounterConfig
cycles = record no_ppc_config { enabled = 1; event = 15; count = 100000; unit_mask = 0x1223 }

abbrev counters : List PpcCounterConfig
counters = cycles ∷ cycles ∷ cycles ∷ []

abbrev sys : OpSystemConfig
sys = record { mmcr0 = 0; mmcr1 = 0; mmcra = 0; enable_kernel = 1; enable_user = 0 }

abbrev shared : PpcShared
shared = record {
  reset_value = 0x7ffe7960 ∷ 0x7ffe7960 ∷ 0x7ffe7960 ∷ 0 ∷ 0 ∷ 0 ∷ 0 ∷ 0 ∷ [];
  mmcr0_val = 0;
  mmcr1_val = 0;
  mmcr2_val = 0;
  mmcra_val = 0;
  num_counters = 8;
  oprofile_running = 1;
}

-- the second counter has overflowed
abbrev cpu : PpcCpu
cpu = record {
  pmc = 12 ∷ 2 ^ 31 ∷ 14 ∷ 0 ∷ 0 ∷ 0 ∷ 0 ∷ 0 ∷ [];
  mmcr0 = 2 ^ 31 + 2 ^ 7 + 6;
  mmcr1 = 0;
  mmcr2 = 0;
  mmcra = 0;
  siar = 0x10000;
  msr = 0;
  start_timestamp = 5;
  ring = ring;
}

abbrev kernel : PpcKernel
kernel = record {
  oprofile_mmcra_sihv = 0;
  oprofile_mmcra_sipr = 0;
  lpar = false;
  hypervisor_bucket = 0;
  rtas_bucket = 0;
  kernel_unknown_bucket = 0;
  rtas_base = 0;
  rtas_size = 0;
  kernelbase = 0xc000000000000000;
  va = λ x. x;
}

abbrev nothing_added : (pc i is_kernel : ℕ) → OprofileCpuBuffer → OprofileCpuBuffer
nothing_added pc i is_kernel b = b

abbrev ppc : Ppc
ppc = record {
  model = op_model_power4 masks nothing_added 8 true kernel;
  ctr = counters;
  sys = sys;
  shared = shared;
  cpus = cpu ∷ cpu ∷ [];
}

-- no bit below bit 13, told by running through them
low_table : (m : ℕ) → holds_below 13 (λ k. bit k m == 0) ≡ true → (k : ℕ) → k < 13 → bit k m ≡ 0
low_table m table k lt = ground (arith, holds_below_at 13 (λ k. bit k m == 0) k lt table)

-- the value 2 of the unit that the three counters select
power4_setup_lem_example :
    let r = op_powerpc_setup 0 ppc in
    let c = get_or r.0.cpus 1 cpu in
    ((◌≢◌ {A = ℕ} 0 0) × (r ≡ (ppc, 0)))
    ⊎ (◌≡◌ {A = ℕ} 0 0) × (r.1 ≡ 0) × (bit 63 c.mmcr1 ≡ 1) × (bit 15 c.mmcr0 ≡ 1)
unfolding power4_reg_setup
power4_setup_lem_example =
    power4_setup_lem masks nothing_added true kernel ppc 0 1 14 1 15 cpu (omega arith) (omega arith)
      (omega arith) (omega arith)

exclusive_table : holds_below 32 (λ k. leb (bit k (2 ^ 30) + bit k (2 ^ 29)) 1) ≡ true
unfolding holds_below
exclusive_table = refl

masks-IsDisabling : IsDisabling masks
unfolding holds_below
masks-IsDisabling = record {
  kernel_small = omega arith;
  problem_small = omega arith;
  kernel_high = low_table (2 ^ 30) refl;
  problem_high = low_table (2 ^ 29) refl;
  exclusive = λ k lt. ground (
    arith,
    holds_below_at 32 (λ k. leb (bit k (2 ^ 30) + bit k (2 ^ 29)) 1) k lt exclusive_table,
  );
}

mmcr0_lem_example :
    let mmcr0 = (power4_reg_setup masks 8 counters sys shared).mmcr0_val in
    (bit 11 mmcr0 ≡ 1) × (bit 30 mmcr0 ≡ 0) × (bit 29 mmcr0 ≡ 1)
mmcr0_lem_example =
    mmcr0_lem counters masks sys shared 0 3 30 29 masks-IsDisabling (omega arith) (omega arith)
      (omega arith) refl (omega arith) refl

power4_handle_interrupt_lem_example :
    let r = power4_handle_interrupt nothing_added masks kernel 8 21 22 counters shared cpu in
    (r.ring ≡ oprofile_add_sample_stop (oprofile_add_sample_start ring 5) 21)
    × (pmc_at r 1 ≡ 0x7ffe7960)
    × (bit 31 r.mmcr0 ≡ 0)
    × (r.start_timestamp ≡ 22)
power4_handle_interrupt_lem_example =
    power4_handle_interrupt_lem nothing_added shared counters masks kernel 8 21 22 1 31 cpu
      (omega arith) (omega arith) (omega arith) (omega arith) (omega arith)

counters-Fits : Fits counters
unfolding Fits
counters-Fits zero lt on = omega arith
counters-Fits (suc zero) lt on = omega arith
counters-Fits (suc (suc zero)) lt on = omega arith
counters-Fits (suc (suc (suc i))) lt on = absurd (on refl)

fc_high : (k : ℕ) → k < 13 → bit k masks.fc ≡ 0
unfolding holds_below
fc_high = low_table (2 ^ 31) refl

rs64_start_lem_example :
    let r = rs64_start masks counters shared cpu in
    (bit 9 (ctrl_read 0 r) ≡ 1) × (pmc_at r 0 ≡ 0x7ffe7960) × (bit 31 r.mmcr0 ≡ 0)
rs64_start_lem_example =
    rs64_start_lem shared counters counters-Fits masks cpu 0 9 31 (omega arith) (omega arith)
      (omega arith) fc_high (omega arith) (omega arith) refl (omega arith) refl

kernel_addr : ℕ → Bool
kernel_addr a = leb 0xc0000000 a

-- the time base has just gone into its second upper count
abbrev time : ℕ → ℕ
time n = min (2 ^ 32 + n - 1) (2 ^ 33)

oprofile_get_tb_lem_example :
    (m : ℕ) × (last : ℕ) × (0 ≤ m)
    × (m < last)
    × (oprofile_get_tb time (2 ^ 32) 0 ≡ some (time m, last))
oprofile_get_tb_lem_example =
    oprofile_get_tb_lem time (2 ^ 32) 0 (λ m. omega arith) (λ m. omega arith) (omega arith)

masks-IsFreezing : IsFreezing masks 31
masks-IsFreezing = record {
  within = omega arith;
  freeze = refl;
  silent = refl;
  fc_small = omega arith;
  fcm0_small = omega arith;
  interrupt_small = omega arith;
}

abbrev selects : PmcSel
selects = record {
  pmc1sel = 0x1fc0;
  pmc2sel = 0x3f;
  pmc3sel = 0xf8000000;
  pmc4sel = 0x7c00000;
  pmc5sel = 0x3e0000;
  pmc6sel = 0x1f800;
}

abbrev model : OpPowerpcModel
model = op_model_7450 masks nothing_added 6 selects (is_kernel_addr kernel)

start_stop_lem_example :
    let s = record ppc { model = model } in
    let stopped = get_or (op_powerpc_stop (λ c. 9) s).cpus 1 cpu in
    (bit 31 stopped.mmcr0 ≡ 1)
    × (stopped.pmc ≡ cpu.pmc)
    × ((tb : ℕ) × (stopped.ring ≡ oprofile_add_stop ring tb))
    × (bit 31 (get_or (op_powerpc_start (λ c. (7, 8)) s).0.cpus 1 cpu).mmcr0 ≡ 0)
unfolding model_of
start_stop_lem_example =
    start_stop_lem masks 31 masks-IsFreezing nothing_added 6 selects true true kernel g4 model
      (λ c. (7, 8)) (λ c. 9) ppc 1 cpu refl (omega arith)

-- a frame every 100 bytes up to 400, which returns to 7 above itself
abbrev frames : ℕ → Option (ℕ × ℕ)
frames sp = if leb sp 400 then some (sp + 100, sp + 7) else none

op_powerpc_backtrace_lem_example :
    op_powerpc_backtrace
      (kernel_getsp (ltb 0) (λ sp. 0) (λ sp. sp) kernel_addr)
      (user_getsp64 (λ sp size. true) frames frames)
      (user_getsp32 (λ sp size. true) frames frames)
      false
      (record { gpr1 = 100; link = 9; user_mode = true })
      5
    ≡ 9 ∷ 307 ∷ 407 ∷ []
op_powerpc_backtrace_lem_example =
    op_powerpc_backtrace_lem (λ sp size. true) frames frames (ltb 0) (λ sp. 0) (λ sp. sp)
      kernel_addr false (record { gpr1 = 100; link = 9; user_mode = true }) 5 (omega arith)
