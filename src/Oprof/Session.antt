-- ===== src/Oprof/Session.antt =====
-- `event_buffer_open` and `event_buffer_release` of driver/event_buffer.c: a session of the daemon.
use rrprofile.Prelude.{ℕ, List, Bool, not, ◌==◌, if◌then◌else◌, Option}
use rrprofile.Codes.{eperm, ebusy}
use rrprofile.CpuBuffer.{OpSample}
use rrprofile.Oprof.{Driver, on_event, oprofile_setup, oprofile_stop, oprofile_shutdown}

module _ {A : Type 0} where
  abbrev pub set_opened : ℕ → Driver A → Driver A
  set_opened flag = on_event (λ e. record e { buffer_opened = flag })

  module _ (vmalloc : ℕ → Option (List ℕ)) (vmalloc_node : ℕ → ℕ → Option (List OpSample))
      (hz : ℕ) where
    -- `capable` is `capable(CAP_SYS_ADMIN)`
    unfoldable pub event_buffer_open : (capable : Bool) → Driver A → Driver A × ℕ
    event_buffer_open capable d =
        if not capable
        then (d, eperm)
        else if not (d.buffers.event.buffer_opened == 0)
        then (d, ebusy)
        else (let (d', err) = oprofile_setup vmalloc vmalloc_node hz (set_opened 1 d) in
            if err == 0 then (d', 0) else (set_opened 0 d', err))

  unfoldable pub event_buffer_release : Driver A → Driver A
  event_buffer_release d =
      let closed = oprofile_shutdown (oprofile_stop d) in
      on_event (λ e. record e { buffer_pos = 0; buffer_ready = 0; buffer_opened = 0 }) closed
