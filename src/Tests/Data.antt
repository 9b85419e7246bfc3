-- ===== src/Tests/Data.antt =====
-- Small buffers and calls on which the code is run.
use rrprofile.Prelude.{ℕ, ◌+◌, List, [], ◌∷◌, replicate, minus_one, none}
use rrprofile.CpuBuffer.{OprofileCpuBuffer, TaskStruct, no_sample}
use rrprofile.Stats.{OprofileStats}
use rrprofile.EventBuffer.{EventBuffer}
use rrprofile.Attribution.{Call, Context}

-- an idle ring of 16 slots, after a reset
abbrev pub ring : OprofileCpuBuffer
ring = record {
  head_pos = 14;
  tail_pos = 14;
  buffer_size = 16;
  last_task = 0;
  last_is_kernel = minus_one;
  tracing = 0;
  buffer = replicate 16 no_sample;
  sample_received = 0;
  sample_lost_overflow = 0;
  backtrace_aborted = 0;
  sample_invalid_eip = 0;
  cpu = 1;
  work = none;
}

-- a ring of 4 slots that holds nothing, so that three are free
abbrev pub small_ring : OprofileCpuBuffer
small_ring = record ring {
  head_pos = 1;
  tail_pos = 1;
  buffer_size = 4;
  buffer = replicate 4 no_sample;
}

-- a ring of 4 slots with three entries, so that none is free
abbrev pub full_ring : OprofileCpuBuffer
full_ring = record small_ring { head_pos = 0 }

abbrev pub task : TaskStruct
task = record { addr = 4096; tgid = 70; pid = 71 }

abbrev pub no_stats : OprofileStats
no_stats = record {
  sample_lost_no_mm = 0;
  sample_lost_no_mapping = 0;
  bt_lost_no_mapping = 0;
  event_lost_overflow = 0;
}

abbrev pub log : EventBuffer
log = record {
  event_buffer = replicate 40 0;
  buffer_size = 40;
  buffer_watershed = 8;
  buffer_pos = 0;
  buffer_ready = 0;
  buffer_dump = 0;
  buffer_opened = 1;
  buffer_wait = 0;
  stats = no_stats;
}

-- a log with two words of room
abbrev pub short_log : EventBuffer
short_log = record log {
  event_buffer = 5 ∷ 0 ∷ 0 ∷ [];
  buffer_size = 3;
  buffer_watershed = 1;
  buffer_pos = 1;
}

-- three calls, by two tasks in both modes
abbrev pub calls : List Call
calls =
    record { task = 4096; pc = 11; is_kernel = 0; event = 2 }
    ∷ record { task = 4096; pc = 12; is_kernel = 5; event = 3 }
    ∷ record { task = 8192; pc = 13; is_kernel = 1; event = 2 }
    ∷ []

abbrev pub tgid_of : ℕ → ℕ
tgid_of a = a + 1

abbrev pub pid_of : ℕ → ℕ
pid_of a = a + 2

abbrev pub context : Context
context = record { cpu = 9; kernel = 9; tgid = 9; tid = 9 }
