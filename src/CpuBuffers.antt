-- ===== src/CpuBuffers.antt =====
-- The functions of driver/cpu_buffer.c over all CPU buffers: allocation, and the delayed work that
-- drains each of them. The kernel's timer and its work queue are not run here: a work that is pending
-- is the field `work` of its buffer, and `wq_sync_buffer` is what the kernel calls when it is due.
pub mod Alloc
pub mod Work
use rrprofile.Prelude.{
  ℕ, ◌+◌, ◌*◌, ◌/◌, ◌%◌, List, [], ◌∷◌, map, Bool, true, false, not, ◌==◌, ◌&&◌, if◌then◌else◌,
  get_or, set, Option, none, some, minus_one, ulong_mod,
}
use rrprofile.Codes.{enomem}
use rrprofile.CpuBuffer.{OprofileCpuBuffer, OpSample}
use rrprofile.BufferSync.{Buffers, sync_buffer, cpu_isset, no_buffer}

-- the body of the loop of `free_cpu_buffers`
unfoldable pub free_cpu_buffer : OprofileCpuBuffer → OprofileCpuBuffer
free_cpu_buffer b = record b { buffer = [] }

unfoldable pub free_cpu_buffers : List OprofileCpuBuffer → List OprofileCpuBuffer
free_cpu_buffers cpus = map free_cpu_buffer cpus

-- what `alloc_cpu_buffers` stores for CPU `i`; `INIT_DELAYED_WORK` makes the work idle
unfoldable pub init_cpu_buffer : ℕ → ℕ → List OpSample → OprofileCpuBuffer
init_cpu_buffer i size array = record {
  head_pos = 0;
  tail_pos = 0;
  buffer_size = size;
  last_task = 0;
  last_is_kernel = minus_one;
  tracing = 0;
  buffer = array;
  sample_received = 0;
  sample_lost_overflow = 0;
  backtrace_aborted = 0;
  sample_invalid_eip = 0;
  cpu = i;
  work = none;
}

-- `vmalloc_node` is the kernel's: for a CPU's node and a number of bytes, the entries of the array that it
-- returns, or none. An entry of the ring has 24 bytes, which are counted modulo 2 ^ 64.
module _ (vmalloc_node : ℕ → ℕ → Option (List OpSample)) where
  -- The loop from CPU `i` on; the flag is false if it left by `goto fail`.
  unfoldable pub alloc_from : ℕ → ℕ → List OprofileCpuBuffer → List OprofileCpuBuffer × Bool
  alloc_from i size [] = ([], true)
  alloc_from i size (b ∷ bs) = elim (vmalloc_node i ((size * 24) % ulong_mod)) [
    | none ↦ (record b { buffer = [] } ∷ bs, false)
    | some array ↦
        let (rest, done) = alloc_from (i + 1) size bs in (init_cpu_buffer i size array ∷ rest, done)
  ]

  unfoldable pub alloc_cpu_buffers : ℕ → List OprofileCpuBuffer → List OprofileCpuBuffer × ℕ
  alloc_cpu_buffers size cpus =
      let (bs, done) = alloc_from 0 size cpus in
      if done then (bs, 0) else (free_cpu_buffers bs, enomem)

-- A work that is pending already keeps its time.
abbrev pub schedule : ℕ → OprofileCpuBuffer → OprofileCpuBuffer
schedule delay b = elim b.work [ none ↦ record b { work = some delay } | some _ ↦ b ]

abbrev pub cancel : OprofileCpuBuffer → OprofileCpuBuffer
cancel b = record b { work = none }

-- a loop over the CPUs that are online
abbrev pub for_each :
    List ℕ
    → (ℕ → OprofileCpuBuffer → OprofileCpuBuffer)
    → List OprofileCpuBuffer
    → List OprofileCpuBuffer
for_each [] f cpus = cpus
for_each (i ∷ online) f cpus = for_each online f (set cpus i (f i (get_or cpus i no_buffer)))

module _ (hz : ℕ) where
  -- `DEFAULT_TIMER_EXPIRE`
  abbrev pub default_timer_expire : ℕ
  default_timer_expire = hz / 10

  unfoldable pub start_cpu_work : Buffers → Buffers
  start_cpu_work g = record g {
    work_enabled = 1;
    cpu_buffer = for_each g.online (λ i. schedule (default_timer_expire + i)) g.cpu_buffer;
  }

  -- the end of `wq_sync_buffer`: the work is not added again when the driver is shutting down
  unfoldable pub reschedule : ℕ → Buffers → Buffers
  reschedule cpu g = if g.work_enabled == 0 then g else record g {
    cpu_buffer =
        set g.cpu_buffer cpu (schedule default_timer_expire (get_or g.cpu_buffer cpu no_buffer));
  }

  -- `wq_sync_buffer` once the work is taken; `own` is the CPU that the buffer carries
  unfoldable pub run_work : (processor cpu own : ℕ) → Buffers → Buffers
  run_work processor cpu own taken =
      if not (own == processor) && not (cpu_isset own taken.online)
      then taken
      else reschedule cpu (sync_buffer taken own)

  -- `wq_sync_buffer` for the buffer of `cpu`, run on the processor `processor`. The work is no longer
  -- pending when the kernel runs it.
  unfoldable pub wq_sync_buffer : (processor cpu : ℕ) → Buffers → Buffers
  wq_sync_buffer processor cpu g =
      let here = get_or g.cpu_buffer cpu no_buffer in
      run_work processor cpu here.cpu (record g { cpu_buffer = set g.cpu_buffer cpu (cancel here) })

-- With every work cancelled and none running, `flush_scheduled_work` has nothing to wait for.
unfoldable pub end_cpu_work : Buffers → Buffers
end_cpu_work g = record g {
  work_enabled = 0;
  cpu_buffer = for_each g.online (λ i. cancel) g.cpu_buffer;
}
