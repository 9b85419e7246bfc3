-- ===== src/EventBuffer.antt =====
-- driver/event_buffer.c and event_buffer.h: the buffer that the daemon reads. `event_buffer_open`
-- and `event_buffer_release`, which start and stop the driver, are in `Oprof.Session`.
-- `buffer_sem` has no counterpart: a function that holds it is one step.
pub mod Log
use rrprofile.Prelude.{
  ℕ, ◌*◌, ◌≤◌, List, [], ◌∷◌, Bool, true, false, Option, none, some, ltb, leb, ◌==◌, not, ◌||◌,
  ◌&&◌, if◌then◌else◌, set, take, add_ulong, sub_ulong, ulong_mod, ◌%◌,
}
use rrprofile.Codes.{einval, enomem, eintr, eagain, efault, Ssize, bytes, error}
use rrprofile.Stats.{OprofileStats, inc_event_lost_overflow}

-- The variables of event_buffer.c, with the statistics that it counts. `event_buffer` is [] for
-- NULL; `buffer_wait` counts the calls of `wake_up(&buffer_wait)`.
pub record EventBuffer : Type 0 where
  pub event_buffer : List ℕ
  pub buffer_size : ℕ
  pub buffer_watershed : ℕ
  pub buffer_pos : ℕ
  pub buffer_ready : ℕ
  pub buffer_dump : ℕ
  pub buffer_opened : ℕ
  pub buffer_wait : ℕ
  pub stats : OprofileStats

unfoldable pub add_event_entry : EventBuffer → ℕ → EventBuffer
add_event_entry e value =
    if e.buffer_pos == e.buffer_size
    then record e { stats = inc_event_lost_overflow e.stats }
    else (let pos = add_ulong e.buffer_pos 1 in
        let written = record e {
          event_buffer = set e.event_buffer e.buffer_pos value;
          buffer_pos = pos;
        } in
        if pos == sub_ulong e.buffer_size e.buffer_watershed
        then record written { buffer_ready = 1; buffer_wait = add_ulong e.buffer_wait 1 }
        else written)

unfoldable pub wake_up_buffer_waiter : EventBuffer → EventBuffer
wake_up_buffer_waiter e = record e {
  buffer_ready = 1;
  buffer_dump = 1;
  buffer_wait = add_ulong e.buffer_wait 1;
}

-- `vmalloc` is the kernel's: for a number of bytes, the words of the array that it returns, or none. The
-- sizes are `oprofile_buffer_size` and `oprofile_buffer_watershed`; the bytes of the words are counted
-- modulo 2 ^ 64.
unfoldable pub alloc_event_buffer :
    (vmalloc : ℕ → Option (List ℕ)) (oprofile_buffer_size oprofile_buffer_watershed : ℕ)
    → EventBuffer
    → EventBuffer × ℕ
alloc_event_buffer vmalloc size watershed e =
    let sized = record e { buffer_size = size; buffer_watershed = watershed } in
    if leb size watershed then (sized, einval) else elim (vmalloc ((size * 8) % ulong_mod)) [
      | none ↦ (record sized { event_buffer = [] }, enomem)
      | some array ↦ (record sized { event_buffer = array }, 0)
    ]

unfoldable pub free_event_buffer : EventBuffer → EventBuffer
free_event_buffer e = record e { event_buffer = [] }

-- What a call of `read` comes to: it sleeps in `wait_event_interruptible`, or it returns.
pub data Read : Type 0 where
  sleeps : Read
  returns : Ssize → List ℕ → Read

-- `event_buffer_read`: `count` and `offset` are the caller's, `signal` says that a signal is pending,
-- and `unmapped` is the result of `copy_to_user`. With a value returned stand the words copied.
unfoldable pub event_buffer_read :
    EventBuffer → (count offset : ℕ) → (signal unmapped : Bool) → EventBuffer × Read
event_buffer_read e count offset signal unmapped =
    if not (count == (e.buffer_size * 8) % ulong_mod) || not (offset == 0)
    then (e, returns (error einval) [])
    else if e.buffer_dump == 0 && e.buffer_ready == 0 && not signal
    then (e, sleeps)
    else if signal
    then (e, returns (error eintr) [])
    else if e.buffer_ready == 0
    then (e, returns (error eagain) [])
    else (let cleared = record e { buffer_ready = 0 } in
        if unmapped then (cleared, returns (error efault) []) else (
          record cleared { buffer_pos = 0 },
          returns (bytes ((e.buffer_pos * 8) % ulong_mod)) (take e.buffer_pos e.event_buffer),
        ))

unfoldable pub event_buffer_write : EventBuffer → (count : ℕ) → EventBuffer × Ssize
unfolding wake_up_buffer_waiter
event_buffer_write e count = (wake_up_buffer_waiter e, bytes count)
