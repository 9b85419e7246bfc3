-- ===== src/Tests/Driver.antt =====
-- Instances for the buffers' allocation and the driver's life cycle, on a machine whose state is a
-- number: 1 while it counts.
use rrprofile.Prelude.{
  zero, suc, ℕ, ◌+◌, ◌*◌, ◌/◌, ◌^◌, ◌<◌, ulong_mod, ◌≡◌, ◌≢◌, refl, arith, List, [], ◌∷◌, replicate,
  length, Option, none, some, ◌⊎◌, ◌↔◌, length-replicate, true, false,
}
use rrprofile.Codes.{enomem}
use rrprofile.CpuBuffer.{OpSample, no_sample}
use rrprofile.EventBuffer.{EventBuffer, alloc_event_buffer, event_buffer_read, sleeps}
use rrprofile.EventBuffer.Log.{IsLog, recorded, add_entries, fault_stalls}
use rrprofile.CpuBuffers.{alloc_cpu_buffers, wq_sync_buffer}
use rrprofile.CpuBuffers.Work.{work_of, wq_sync_buffer_lem}
use rrprofile.BufferSync.{Buffers, oprofile_put_buff}
use rrprofile.BufferSync.Put.{oprofile_put_buff_lem}
use rrprofile.Oprof.Files.{UserWrite, ulong_write_file, depth_write, timer_write}
use rrprofile.CpuBuffer.Window.{entries}
use rrprofile.Oprof.Drained.{AllRings, ring_of, oprofile_stop_lem}
use rrprofile.Oprof.Frozen.{IsRefused, started_refuses}
use rrprofile.CpuBuffers.Alloc.{AllCpus, IsFresh, IsFreed, alloc_cpu_buffers_lem}
use rrprofile.Oprof.{
  Driver, Machine, OprofileOperations, oprofile_setup, oprofile_start, oprofile_stop,
}
use rrprofile.Oprof.Lifecycle.{IsUp, IsDown, oprofile_start_iff}
use rrprofile.Oprof.Setup.{alloc_event_buffer_iff, oprofile_setup_lem}
use rrprofile.Tests.Data.{ring, log, short_log}

-- allocators that never fail, of words of 8 bytes and of entries of 24
abbrev pub vmalloc : ℕ → Option (List ℕ)
vmalloc n = some (replicate (n / 8) 0)

abbrev pub vmalloc_node : ℕ → ℕ → Option (List OpSample)
vmalloc_node i n = some (replicate (n / 24) no_sample)

pub vmalloc-sized : (n : ℕ) (a : List ℕ) → vmalloc n ≡ some a → length a ≡ n / 8
vmalloc-sized n a e = ground (arith, length-replicate {A = ℕ} (n / 8) 0)

vmalloc_node-sized : (i n : ℕ) (a : List OpSample) → vmalloc_node i n ≡ some a → length a ≡ n / 24
vmalloc_node-sized i n a e = ground (arith, length-replicate (n / 24) no_sample)

abbrev pub start : Machine ℕ → Machine ℕ × ℕ
start m = (record m { arch = 1 }, 0)

abbrev pub stop : Machine ℕ → Machine ℕ
stop m = record m { arch = 0 }

abbrev pub ops : OprofileOperations ℕ
ops = record {
  setup = none;
  shutdown = some stop;
  start = start;
  stop = stop;
  sync_start = none;
  sync_stop = none;
  adapt = none;
  backtrace = false;
  cpu_type = true;
}

abbrev pub driver : Driver ℕ
driver = record {
  buffers = record {
    event = record log { event_buffer = [] };
    cpu_buffer = ring ∷ record ring { cpu = 0 } ∷ [];
    marked_cpus = 0 ∷ 0 ∷ [];
    work_enabled = 0;
    online = 0 ∷ 1 ∷ [];
  };
  arch = 0;
  oprofile_ops = ops;
  arch_ops = ops;
  timer_ops = ops;
  oprofile_started = 0;
  is_setup = 0;
  oprofile_backtrace_depth = 0;
  oprofile_timer_count = 0;
  oprofile_adapt_value = 1;
  oprofile_buffer_size = 40;
  oprofile_cpu_buffer_size = 16;
  oprofile_buffer_watershed = 8;
}

abbrev running : Driver ℕ
running = record driver { oprofile_started = 1; is_setup = 1; arch = 1 }

alloc_cpu_buffers_lem_example :
    let (bs, err) = alloc_cpu_buffers vmalloc_node 16 (ring ∷ ring ∷ []) in
    ((err ≡ 0) × AllCpus (IsFresh 16) 0 bs) ⊎ ((err ≡ enomem) × AllCpus IsFreed 0 bs)
alloc_cpu_buffers_lem_example =
    alloc_cpu_buffers_lem vmalloc_node vmalloc_node-sized 16 (ring ∷ ring ∷ []) (omega arith)
      (omega arith)

-- a log that is ready and not read yet
abbrev unread : EventBuffer
unread = record short_log { buffer_ready = 1; buffer_pos = 2 }

unread-IsLog : IsLog unread
unread-IsLog = ground arith

fault_stalls_example :
    let e' = (event_buffer_read unread 24 0 false true).0 in
    (recorded e' ≡ recorded unread)
    × ((event_buffer_read (add_entries e' (7 ∷ 8 ∷ [])) 24 0 false false).1 ≡ sleeps)
fault_stalls_example =
    fault_stalls unread (7 ∷ 8 ∷ []) 24 unread-IsLog (omega arith) (omega arith) refl (omega arith)

-- a size whose bytes an unsigned long does not count: the array has one word
alloc_event_buffer_iff_example :
    let e' = (alloc_event_buffer vmalloc (2 ^ 61 + 1) 8 driver.buffers.event).0 in
    (length e'.event_buffer ≡ e'.buffer_size) ↔ ((2 ^ 61 + 1) * 8 < ulong_mod)
unfolding alloc_event_buffer
alloc_event_buffer_iff_example =
    alloc_event_buffer_iff vmalloc vmalloc-sized (2 ^ 61 + 1) 8 driver.buffers.event (omega arith)
      refl

oprofile_setup_lem_example :
    IsUp (oprofile_setup vmalloc vmalloc_node 250 driver)
    ⊎ IsDown (oprofile_setup vmalloc vmalloc_node 250 driver)
oprofile_setup_lem_example =
    oprofile_setup_lem vmalloc vmalloc-sized vmalloc_node 250 driver refl refl refl refl
      (omega arith)

oprofile_start_iff_example :
    ((oprofile_start running).1 ≡ 0) ↔ ((oprofile_start running).0.oprofile_started ≢ 0)
oprofile_start_iff_example = oprofile_start_iff running (λ h. omega arith)

-- a write of one byte, whose value is 49
abbrev pub one_byte : UserWrite
one_byte = record { count = 1; offset = 0; user = some (49 ∷ []); stack = 0 }

abbrev first : List ℕ → ℕ
first [] = 0
first (x ∷ xs) = x

abbrev assign_size : ℕ → Driver ℕ → Driver ℕ
assign_size val d = record d { oprofile_buffer_size = val }

started_refuses_example :
    IsRefused running (ulong_write_file first assign_size one_byte running)
    × IsRefused running (depth_write first one_byte running)
    × IsRefused running (timer_write first one_byte running)
started_refuses_example = started_refuses first assign_size one_byte running (omega arith)

oprofile_put_buff_lem_example :
    oprofile_put_buff short_log (4 ∷ 5 ∷ 6 ∷ []) 2 1 3 ≡ some (add_entries short_log (6 ∷ 4 ∷ []))
oprofile_put_buff_lem_example =
    oprofile_put_buff_lem short_log (4 ∷ 5 ∷ 6 ∷ []) 2 1 3 (omega arith) (omega arith) (omega arith)

-- the buffers of CPU 0 and CPU 1, with the work enabled
abbrev enabled : Buffers
enabled = record driver.buffers {
  work_enabled = 1;
  cpu_buffer = record ring { cpu = 0 } ∷ ring ∷ [];
}

wq_sync_buffer_lem_example : work_of (wq_sync_buffer 250 0 1 enabled).cpu_buffer 1 ≡ some 25
wq_sync_buffer_lem_example = wq_sync_buffer_lem 250 0 1 enabled (omega arith) refl

running-AllRings : AllRings running.buffers.cpu_buffer
running-AllRings zero h = ground arith
running-AllRings (suc zero) h = ground arith
running-AllRings (suc (suc i)) h = absurd (omega arith)

oprofile_stop_lem_example :
    (entries (ring_of (oprofile_stop running).buffers.cpu_buffer 1) ≡ [])
    × ((oprofile_stop running).oprofile_started ≡ 0)
oprofile_stop_lem_example =
    oprofile_stop_lem running 1 (omega arith) running-AllRings (omega arith) refl
