-- ===== src/Oprof/Phase/Ends.antt =====
-- The end of a session: `oprofile_shutdown` of driver/oprof.c and `event_buffer_release` of
-- driver/event_buffer.c.
use rrprofile.Prelude.{◌≡◌, refl, arith, Option, none, some}
use rrprofile.EventBuffer.{free_event_buffer}
use rrprofile.CpuBuffers.{end_cpu_work}
use rrprofile.Oprof.{Driver, Machine, run_optional, oprofile_shutdown, shutdown_post}
use rrprofile.Oprof.Session.{event_buffer_release}
use rrprofile.Oprof.Phase.{
  IsGeneric, IsClosed, IsOpen, SameConfig, same_config, oprofile_stop-IsOpen,
}

module _ {A : Type 0} where
  -- What the architecture's `shutdown` leaves alone.
  run_optional-SameConfig :
      (o : Option (Machine A → Machine A)) (d : Driver A)
      → SameConfig d (run_optional o d)
        × ((run_optional o d).oprofile_started ≡ d.oprofile_started)
        × ((run_optional o d).buffers.work_enabled ≡ d.buffers.work_enabled)
  run_optional-SameConfig none d = (same_config d, refl, refl)
  run_optional-SameConfig (some f) d =
      (record { ops = refl; arch = refl; timer = refl; size = refl }, refl, refl)

  pub event_buffer_release-IsClosed :
      (d : Driver A)
      → IsGeneric d.oprofile_ops
      → IsOpen d
      → IsClosed 0 (event_buffer_release d) × SameConfig d (event_buffer_release d)
  unfolding event_buffer_release oprofile_shutdown shutdown_post free_event_buffer end_cpu_work
  event_buffer_release-IsClosed d generic h =
      ground (arith, oprofile_stop-IsOpen d h, run_optional-SameConfig d.oprofile_ops.shutdown)
