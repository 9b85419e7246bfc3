-- ===== src/Tests/Athlon.antt =====
-- Instances for the Athlon counters and for the walk over the stack.
use rrprofile.Prelude.{
  ℕ, ◌+◌, ◌<◌, ◌≡◌, ◌≢◌, arith, List, [], ◌∷◌, Bool, true, false, ◌⊎◌, none, some, Option, leb,
  if◌then◌else◌,
}
use rrprofile.CpuBuffer.{OprofileCpuBuffer}
use rrprofile.X86.{OpCounterConfig, no_config, ctr_value, ctr_overflowed}
use rrprofile.X86.Ppro.{Cpu, control_addr, counter_addr}
use rrprofile.X86.Athlon.{athlon_setup_ctrs, athlon_check_ctrs, clear}
use rrprofile.X86.Athlon.Sees.{IsWired, activate, deactivate}
use rrprofile.X86.Athlon.Event.{event_of, athlon_setup_ctrs_lem}
use rrprofile.X86.Athlon.Check.{log_overflows, athlon_check_ctrs_lem}
use rrprofile.X86.Backtrace.{FrameHead, PtRegs, x86_backtrace}
use rrprofile.X86.Backtrace.Chain.{IsTrace, OnStack, IsReadable, return_of, x86_backtrace-IsTrace}
use rrprofile.Tests.X86.{reg, file}
use rrprofile.Tests.Data.{ring}

-- a K7: counters at 0xc0010004, control registers at 0xc0010000
abbrev athlon : Cpu
athlon = record {
  file = file;
  msrs = record {
    counters = reg 0xc0010004 ∷ reg 0xc0010005 ∷ reg 0xc0010006 ∷ reg 0xc0010007 ∷ [];
    controls = reg 0xc0010000 ∷ reg 0xc0010001 ∷ reg 0xc0010002 ∷ reg 0xc0010003 ∷ [];
  };
  lvtpc = 0;
  reset_value = 0 ∷ 5000 ∷ 0 ∷ 0 ∷ [];
  start_timestamp = 5;
  ring = ring;
}

addrs :
    (i : ℕ)
    → i < 4
    → (counter_addr athlon i ≡ 0xc0010004 + i) × (control_addr athlon i ≡ 0xc0010000 + i)
addrs i small = ground arith

athlon-IsWired : IsWired athlon
athlon-IsWired = record {
  counters_ne = λ i j lt max e. omega (arith, addrs i (omega arith), addrs j max, e);
  controls_ne = λ i j lt max e. omega (arith, addrs i (omega arith), addrs j max, e);
  apart = λ i j p q e. omega (arith, addrs i p, addrs j q, e);
}

-- an event of twelve bits at counter 1
abbrev configs : List OpCounterConfig
configs = no_config ∷ record no_config { enabled = 1; count = 5000; event = 0x1e3 } ∷ []

athlon_setup_ctrs_lem_example :
    let r = athlon_setup_ctrs configs athlon in
    ((◌≢◌ {A = ℕ} 1 0)
      × (event_of (r.file 0xc0010001) ≡ 0x1e3)
      × (r.file 0xc0010005 ≡ ctr_value 5000))
    ⊎ ((◌≡◌ {A = ℕ} 1 0)
        × (r.file 0xc0010001 ≡ clear (file 0xc0010001))
        × (r.file 0xc0010005 ≡ ctr_value 1)
        × (ctr_overflowed (ctr_value 1).low ≡ false))
athlon_setup_ctrs_lem_example = athlon_setup_ctrs_lem configs 1 athlon (omega arith) athlon-IsWired

abbrev no_sample_added : ℕ → OprofileCpuBuffer → OprofileCpuBuffer
no_sample_added event b = b

athlon_check_ctrs_lem_example :
    let r = athlon_check_ctrs no_sample_added 21 22 23 athlon in
    (r.0.ring ≡ log_overflows no_sample_added 21 athlon 4 0 ring)
    × (r.0.file 0xc0010005
        ≡ (if ctr_overflowed 0xc0010005 then ctr_value 5000 else file 0xc0010005))
    × (r.0.file 0xc0010001 ≡ activate (deactivate (file 0xc0010001)))
    × (r.0.start_timestamp ≡ 23)
    × (r.1 ≡ 1)
athlon_check_ctrs_lem_example =
    athlon_check_ctrs_lem no_sample_added 21 22 23 1 athlon (omega arith) athlon-IsWired

-- every frame returns to 7 above itself, and the next is 100 above
abbrev frames : ℕ → FrameHead
frames a = record { ebp = a + 100; ret = a + 7 }

abbrev any_access : ℕ → ℕ → Bool
any_access a size = true

-- user memory ends at 4300
abbrev user_frames : ℕ → Option FrameHead
user_frames a = if leb a 4300 then some (frames a) else none

abbrev user_regs : PtRegs
user_regs = record { user_mode = true; frame_pointer = 4096; kernel_stack_pointer = 0 }

x86_backtrace-IsTrace_example :
    ((◌≡◌ {A = Bool} true false)
      × IsTrace
          (λ h. (frames h).ret)
          (OnStack 8192 user_regs)
          0
          5
          (x86_backtrace 8192 frames any_access user_frames user_frames true user_regs 5))
    ⊎ ((◌≡◌ {A = Bool} true true)
        × IsTrace
            (return_of user_frames)
            (IsReadable any_access user_frames 16)
            0
            5
            (x86_backtrace 8192 frames any_access user_frames user_frames true user_regs 5))
x86_backtrace-IsTrace_example =
    x86_backtrace-IsTrace 8192 frames any_access user_frames user_frames true user_regs 5
