-- ===== src/Tests/Buffers.antt =====
-- The buffers: driver/cpu_buffer.c, driver/buffer_sync.c and driver/event_buffer.c.
use rrprofile.Prelude.{◌-◌, ◌≡◌, ◌≢◌, refl, arith, [], ◌∷◌, ◌++◌, map, length, take, false, add_int}
use rrprofile.CpuBuffer.{nr_available_slots, add_sample}
use rrprofile.CpuBuffer.Window.{IsRing, entries}
use rrprofile.CpuBuffer.Append.{Appends, add_sample-Appends}
use rrprofile.CpuBuffer.Logging.{
  sample, Notes, record_of, logged, log_result, log_sample-Notes, log_sample-overrun,
}
use rrprofile.EventBuffer.{add_event_entry, event_buffer_read, sleeps}
use rrprofile.EventBuffer.Log.{
  IsLog, recorded, room, add_entries, recorded-add_entries, event_buffer_read-add_entries,
}
use rrprofile.BufferSync.{drain, sb_buffer_start}
use rrprofile.BufferSync.Loop.{sync_entries, start_of, drained, drain_lem}
use rrprofile.BufferSync.Transcript.{message, aborted, drain-recorded}
use rrprofile.Attribution.{ready, decode, log_all, seen}
use rrprofile.Attribution.RoundTrip.{decode-drain}
use rrprofile.Tests.Data.{
  ring, small_ring, full_ring, task, log, short_log, calls, tgid_of, pid_of, context,
}

ring-IsRing : IsRing ring
ring-IsRing = omega arith

log-IsLog : IsLog log
log-IsLog = ground arith

short_log-IsLog : IsLog short_log
short_log-IsLog = ground arith

add_sample-Appends_example : Appends ring (add_sample ring 3 4 5) (sample 3 4 5 ∷ [])
add_sample-Appends_example = add_sample-Appends ring 3 4 5 ring-IsRing (omega arith)

log_sample-Notes_example :
    (log_result task ring 11 1 2 ≡ 1)
    × Notes ring (logged task ring 11 1 2) (record_of task ring 11 1 2) 1 4096
unfolding nr_available_slots
log_sample-Notes_example =
    log_sample-Notes task ring 11 1 2 ring-IsRing (omega arith) (omega arith) (omega arith)

log_sample-overrun_example :
    (log_result task small_ring 11 1 2 ≡ 1) × (entries (logged task small_ring 11 1 2) ≡ [])
unfolding nr_available_slots
log_sample-overrun_example =
    log_sample-overrun task small_ring 11 1 2 (omega arith) (omega arith) refl (omega arith)
      (omega arith)

recorded-add_entries_example :
    (recorded (add_entries short_log (6 ∷ 7 ∷ 8 ∷ [])) ≡ 5 ∷ 6 ∷ 7 ∷ [])
    × (add_int (add_entries short_log (6 ∷ 7 ∷ 8 ∷ [])).stats.event_lost_overflow 0 ≡ 1)
recorded-add_entries_example = recorded-add_entries short_log (6 ∷ 7 ∷ 8 ∷ []) short_log-IsLog

event_buffer_read-add_entries_example :
    (event_buffer_read (add_entries short_log (6 ∷ [])) 24 0 false false).1 ≢ sleeps
unfolding add_event_entry
event_buffer_read-add_entries_example =
    event_buffer_read-add_entries short_log (6 ∷ []) 24 false short_log-IsLog
      (λ h. absurd (omega arith)) (omega arith)

drain_lem_example :
    drain 1 log full_ring
    ≡ ((sync_entries (start_of 1 log) (entries full_ring)).event, drained full_ring)
drain_lem_example = drain_lem 1 log full_ring (omega arith)

drain-recorded_example :
    let e' = (drain 1 log full_ring).0 in
    let sent = message 1 (entries full_ring) in
    IsLog e'
    × (recorded e' ≡ recorded log ++ take (room log) sent)
    × (add_int e'.stats.event_lost_overflow 0
        ≡ add_int log.stats.event_lost_overflow (length sent - room log))
    × (add_int e'.stats.bt_lost_no_mapping 0
        ≡ add_int log.stats.bt_lost_no_mapping (aborted sb_buffer_start (entries full_ring)))
drain-recorded_example = drain-recorded 1 log full_ring (omega arith) log-IsLog

decode-drain_example :
    decode ready context (recorded (drain 1 log (log_all tgid_of pid_of ring calls)).0)
    ≡ map (seen tgid_of pid_of 1) calls
unfolding nr_available_slots
decode-drain_example =
    decode-drain tgid_of pid_of 1 log ring context calls log-IsLog ring-IsRing refl refl refl refl
      (omega arith) (omega arith) (omega arith)
