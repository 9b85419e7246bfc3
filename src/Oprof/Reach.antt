-- ===== src/Oprof/Reach.antt =====
-- What the driver can come to: the steps that user space, the interrupts and the delayed work make on
-- it (driver/oprof.c, driver/oprofile_files.c, driver/event_buffer.c, driver/cpu_buffer.c), and what
-- holds after any run of them.
pub mod Kept
pub mod Handlers
pub mod Sound
pub mod Loaded
use rrprofile.Prelude.{
  ℕ, ◌*◌, ◌<◌, ◌≤◌, ◌≡◌, ◌≢◌, refl, ◌∙◌, arith, List, Bool, true, false, ◌==◌, Option, none, some,
  ◌⊎◌, inl, inr, length, not, ◌&&◌, get_or, set, ulong_mod, Bool-cases,
}
use rrprofile.CpuBuffer.{OpSample}
use rrprofile.EventBuffer.{EventBuffer, event_buffer_read, wake_up_buffer_waiter}
use rrprofile.BufferSync.{Buffers, sync_buffer, no_buffer, cpu_isset}
use rrprofile.BufferSync.Kept.{IsOpenLog, sync_buffer-IsOpenLog}
use rrprofile.CpuBuffers.{cancel, wq_sync_buffer, run_work, reschedule}
use rrprofile.Oprof.{
  Driver, Machine, machine, with_machine, on_event, on_buffers, oprofile_start, oprofile_stop,
  oprofile_adapt, oprofile_set_ulong, oprofile_set_oprofile_timer_count,
}
use rrprofile.Oprof.Session.{event_buffer_open, event_buffer_release}
use rrprofile.Oprof.Init.{create_files_defaults}
use rrprofile.Oprof.Files.{
  UserWrite, oprofilefs_ulong_from_user, with_number, ulong_write_file, depth_write, enable,
  enable_write, timer_write, dump_write, adapt_write,
}
use rrprofile.Oprof.Phase.{
  IsGeneric, IsClosed, IsOpen, SameConfig, IsOpenLog-flags, oprofile_start-IsOpen,
  oprofile_stop-IsOpen, oprofile_adapt-IsOpen,
}
use rrprofile.Oprof.Phase.Begins.{event_buffer_open_lem}
use rrprofile.Oprof.Phase.Ends.{event_buffer_release-IsClosed}

-- the assignments of the files `buffer_size`, `buffer_watershed` and `cpu_buffer_size`
abbrev pub set_buffer_size : {A : Type 0} → ℕ → Driver A → Driver A
set_buffer_size val d = record d { oprofile_buffer_size = val }

abbrev pub set_buffer_watershed : {A : Type 0} → ℕ → Driver A → Driver A
set_buffer_watershed val d = record d { oprofile_buffer_watershed = val }

abbrev pub set_cpu_buffer_size : {A : Type 0} → ℕ → Driver A → Driver A
set_cpu_buffer_size val d = record d { oprofile_cpu_buffer_size = val }

module _ {A : Type 0} (vmalloc : ℕ → Option (List ℕ))
    (vmalloc_node : ℕ → ℕ → Option (List OpSample)) (hz : ℕ) (simple_strtoul : List ℕ → ℕ) where
  -- One step. The device is opened with an `oprofile_buffer_size` whose 8 bytes a word an unsigned long
  -- counts. `release` and `read` are called on an open device only; the delayed work runs only while
  -- `work_enabled` is not 0, since `end_cpu_work` cancels it and waits for it; an interrupt does what it likes to the rings and to the
  -- state of the architecture; the stack of a handler holds an unsigned long. The file system is
  -- mounted while none of its files is open.
  pub data Step (d : Driver A) : Driver A → Type 0 where
    mounts : d.buffers.event.buffer_opened ≡ 0 → Step d (create_files_defaults d)
    opens :
        (capable : Bool)
        → d.oprofile_buffer_size * 8 < ulong_mod
        → Step d (event_buffer_open vmalloc vmalloc_node hz capable d).0
    releases : d.buffers.event.buffer_opened ≢ 0 → Step d (event_buffer_release d)
    reads :
        (count offset : ℕ) (signal unmapped : Bool)
        → d.buffers.event.buffer_opened ≢ 0
        → Step d (on_event (λ e. (event_buffer_read e count offset signal unmapped).0) d)
    dumps : (w : UserWrite) → Step d (dump_write w d).0
    enables : (w : UserWrite) → Step d (enable_write simple_strtoul w d).0
    adapts : (w : UserWrite) → Step d (adapt_write w d).0
    times : (w : UserWrite) → Step d (timer_write simple_strtoul w d).0
    deepens : (w : UserWrite) → Step d (depth_write simple_strtoul w d).0
    sizes :
        (w : UserWrite)
        → w.stack < ulong_mod
        → Step d (ulong_write_file simple_strtoul set_buffer_size w d).0
    watersheds :
        (w : UserWrite) → Step d (ulong_write_file simple_strtoul set_buffer_watershed w d).0
    cpu_sizes : (w : UserWrite) → Step d (ulong_write_file simple_strtoul set_cpu_buffer_size w d).0
    works :
        (processor cpu : ℕ)
        → d.buffers.work_enabled ≢ 0
        → Step d (on_buffers (wq_sync_buffer hz processor cpu) d)
    interrupts : (f : Machine A → Machine A) → Step d (with_machine d (f (machine d)))

  pub data Reach (s : Driver A) : Driver A → Type 0 where
    here : Reach s s
    next : {t u : Driver A} → Reach s t → Step t u → Reach s u

-- The driver is in one of its phases, with callbacks that leave the synchronisation to it, and a size
-- that an unsigned long holds.
pub record IsSound {A : Type 0} (d : Driver A) : Type 0 where
  pub ops : IsGeneric d.oprofile_ops
  pub arch : IsGeneric d.arch_ops
  pub timer : IsGeneric d.timer_ops
  pub small : d.oprofile_buffer_size < ulong_mod
  pub phase : IsClosed 0 d ⊎ IsOpen d
