-- ===== src/BufferSync.antt =====
-- driver/buffer_sync.c, as built with RRPROFILE: a CPU buffer is drained into the event buffer.
-- An `unsigned long` has 8 bytes. `sync_buffer` counts its rounds in an `unsigned int`, which agrees
-- with the count of slots as long as that is below 2 ^ 32.
pub mod Loop
pub mod Transcript
pub mod Put
pub mod Kept
use rrprofile.Prelude.{
  ℕ, zero, suc, ◌+◌, ◌-◌, ◌^◌, ◌≤◌, List, [], ◌∷◌, Bool, true, false, ltb, leb, ◌==◌, not, ◌||◌,
  ◌&&◌, if◌then◌else◌, get_or, set, add_ulong, sub_ulong, Option, none, some,
}
use rrprofile.Codes.{
  escape_code, ctx_switch_code, cpu_switch_code, kernel_enter_switch_code, kernel_exit_switch_code,
  trace_begin_code, rr_cpu_sampling_begin_timestamp_code, rr_cpu_sampling_end_timestamp_code,
  rr_sample_begin_timestamp_code, rr_sample_end_timestamp_code, cpu_is_kernel, cpu_trace_begin,
  rr_cpu_ctx_tgid, rr_cpu_ctx_tid, rr_cpu_sampling_start_timestamp, rr_cpu_sampling_stop_timestamp,
  rr_cpu_sample_start_timestamp, rr_cpu_sample_stop_timestamp,
}
use rrprofile.CpuBuffer.{OprofileCpuBuffer, OpSample, no_sample, cpu_buffer_reset}
use rrprofile.Stats.{inc_bt_lost_no_mapping}
use rrprofile.EventBuffer.{EventBuffer, add_event_entry}

unfoldable pub add_cpu_switch : EventBuffer → ℕ → EventBuffer
add_cpu_switch e i =
    add_event_entry (add_event_entry (add_event_entry e escape_code) cpu_switch_code) i

unfoldable pub add_kernel_ctx_switch : EventBuffer → ℕ → EventBuffer
add_kernel_ctx_switch e in_kernel =
    let escaped = add_event_entry e escape_code in
    if in_kernel == 0
    then add_event_entry escaped kernel_exit_switch_code
    else add_event_entry escaped kernel_enter_switch_code

unfoldable pub add_user_ctx_switch_rr : EventBuffer → ℕ → ℕ → EventBuffer
add_user_ctx_switch_rr e tgid tid =
    add_event_entry
      (add_event_entry (add_event_entry (add_event_entry e escape_code) ctx_switch_code) tid) tgid

unfoldable pub add_trace_begin : EventBuffer → EventBuffer
add_trace_begin e = add_event_entry (add_event_entry e escape_code) trace_begin_code

unfoldable pub add_sample_entry : EventBuffer → ℕ → ℕ → EventBuffer
add_sample_entry e offset event = add_event_entry (add_event_entry e offset) event

-- `add_sample` of buffer_sync.c: a sample with a NULL program counter is skipped.
unfoldable pub add_sample : EventBuffer → OpSample → EventBuffer × ℕ
add_sample e s = if s.eip == 0 then (e, 0) else (add_sample_entry e s.eip s.event, 1)

unfoldable pub is_code : ℕ → Bool
is_code val = val == escape_code

-- The slots between the tail and the head; the notes for switching are reset.
unfoldable pub get_slots : OprofileCpuBuffer → OprofileCpuBuffer × ℕ
get_slots b = (
  cpu_buffer_reset b,
  if leb tail head then sub_ulong head tail else add_ulong head (sub_ulong b.buffer_size tail),
)
  where
    open b use {head_pos as head, tail_pos as tail}

unfoldable pub increment_tail : OprofileCpuBuffer → OprofileCpuBuffer
increment_tail b =
    let new_tail = add_ulong b.tail_pos 1 in
    if ltb new_tail b.buffer_size
    then record b { tail_pos = new_tail }
    else record b { tail_pos = 0 }

-- `sync_buffer_state`, in its order
pub data SyncBufferState : Type 0 where
  sb_bt_ignore sb_buffer_start sb_bt_start sb_sample_start : SyncBufferState

-- `state >= sb_bt_start`
abbrev pub past_start : SyncBufferState → Bool
past_start sb_bt_ignore = false
past_start sb_buffer_start = false
past_start _ = true

-- `if (state == sb_buffer_start) state = sb_sample_start;`
abbrev pub leave_buffer_start : SyncBufferState → SyncBufferState
leave_buffer_start sb_buffer_start = sb_sample_start
leave_buffer_start state = state

abbrev pub is_bt_start : SyncBufferState → Bool
is_bt_start sb_bt_start = true
is_bt_start _ = false

-- The local variables of `sync_buffer`, with the event buffer that it fills.
pub record Sync : Type 0 where
  pub state : SyncBufferState
  pub in_kernel : ℕ
  pub tgid : ℕ
  pub tid : ℕ
  pub event : EventBuffer

-- an escaped time stamp, where `sizeof(unsigned long) == 8`
unfoldable pub add_timestamp : EventBuffer → ℕ → ℕ → EventBuffer
add_timestamp e code timestamp =
    add_event_entry (add_event_entry (add_event_entry e escape_code) code) timestamp

-- the branch of the loop for an entry with an escape code
unfoldable pub sync_code : Sync → OpSample → Sync
sync_code y s =
    if leb s.event cpu_is_kernel
    then record y {
      in_kernel = s.event;
      state = leave_buffer_start y.state;
      event = add_kernel_ctx_switch y.event s.event;
    }
    else if s.event == cpu_trace_begin
    then record y { state = sb_bt_start; event = add_trace_begin y.event }
    else if s.event == rr_cpu_ctx_tgid
    then record y { tgid = s.timestamp }
    else if s.event == rr_cpu_ctx_tid
    then record y { tid = s.timestamp; event = add_user_ctx_switch_rr y.event y.tgid s.timestamp }
    else if s.event == rr_cpu_sampling_start_timestamp
    then record y { event = add_timestamp y.event rr_cpu_sampling_begin_timestamp_code s.timestamp }
    else if s.event == rr_cpu_sampling_stop_timestamp
    then record y { event = add_timestamp y.event rr_cpu_sampling_end_timestamp_code s.timestamp }
    else if s.event == rr_cpu_sample_start_timestamp
    then record y { event = add_timestamp y.event rr_sample_begin_timestamp_code s.timestamp }
    else if s.event == rr_cpu_sample_stop_timestamp
    then record y { event = add_timestamp y.event rr_sample_end_timestamp_code s.timestamp }
    else y

-- the branch for a sample
unfoldable pub sync_sample : Sync → OpSample → Sync
sync_sample y s =
    if past_start y.state
    then (let (event, added) = add_sample y.event s in
        if added == 0 && is_bt_start y.state
        then record y {
          state = sb_bt_ignore;
          event = record event { stats = inc_bt_lost_no_mapping event.stats };
        }
        else record y { event = event })
    else y

-- the body of the loop, but for `increment_tail`
unfoldable pub sync_entry : Sync → OpSample → Sync
sync_entry y s = if is_code s.eip then sync_code y s else sync_sample y s

-- the loop, with the rounds that are left; `i` of the C code, an unsigned int, never reaches a count of
-- slots above 2 ^ 32, for which the C loop would not end
unfoldable pub sync_loop : ℕ → Sync → OprofileCpuBuffer → Sync × OprofileCpuBuffer
sync_loop zero y b = (y, b)
sync_loop (suc n) y b =
    sync_loop n (sync_entry y (get_or b.buffer b.tail_pos no_sample)) (increment_tail b)

-- `sync_buffer` up to `mark_done`, on the buffer of `cpu`
unfoldable pub drain : ℕ → EventBuffer → OprofileCpuBuffer → EventBuffer × OprofileCpuBuffer
drain cpu e b =
    let (b', available) = get_slots b in
    let start : Sync = record {
      state = sb_buffer_start;
      in_kernel = 1;
      tgid = 0;
      tid = 0;
      event = add_cpu_switch e cpu;
    } in
    let (y, b'') = sync_loop available start b' in (y.event, b'')

-- A `cpumask_t` is the list of its members.
abbrev pub cpu_isset : ℕ → List ℕ → Bool
cpu_isset i [] = false
cpu_isset i (j ∷ mask) = i == j || cpu_isset i mask

-- the loop of `mark_done`: all of the online CPUs are marked
unfoldable pub all_marked : List ℕ → List ℕ → Bool
all_marked [] mask = true
all_marked (i ∷ online) mask = cpu_isset i mask && all_marked online mask

unfoldable pub mark_done : (online marked : List ℕ) → ℕ → List ℕ
mark_done online marked cpu =
    let marked' = cpu ∷ marked in if all_marked online marked' then [] else marked'

-- The event buffer, the array `cpu_buffer` of all possible CPUs, `marked_cpus` and `work_enabled`,
-- with the CPUs that are online.
pub record Buffers : Type 0 where
  pub event : EventBuffer
  pub cpu_buffer : List OprofileCpuBuffer
  pub marked_cpus : List ℕ
  pub work_enabled : ℕ
  pub online : List ℕ

abbrev pub no_buffer : OprofileCpuBuffer
no_buffer = record {
  head_pos = 0;
  tail_pos = 0;
  buffer_size = 0;
  last_task = 0;
  last_is_kernel = 0;
  tracing = 0;
  buffer = [];
  sample_received = 0;
  sample_lost_overflow = 0;
  backtrace_aborted = 0;
  sample_invalid_eip = 0;
  cpu = 0;
  work = none;
}

unfoldable pub sync_buffer : Buffers → ℕ → Buffers
sync_buffer g cpu =
    let (e, b) = drain cpu g.event (get_or g.cpu_buffer cpu no_buffer) in
    record g {
      event = e;
      cpu_buffer = set g.cpu_buffer cpu b;
      marked_cpus = mark_done g.online g.marked_cpus cpu;
    }

abbrev int_max : ℕ
int_max = 2 ^ 31 - 1

-- The loop of `oprofile_put_buff`, on fuel. `i` is an int that is compared as the word that it converts
-- to; the result is none where the C code has no defined one, since `i++` overflows, or `i` has been
-- negative from the start and is used as an index.
unfoldable pub put_buff_from : ℕ → EventBuffer → List ℕ → (i stop max : ℕ) → Option EventBuffer
put_buff_from zero e buf i stop max = if i == stop then some e else none
put_buff_from (suc fuel) e buf i stop max =
    let i' = if leb max (i + 1) then 0 else i + 1 in
    let rest = put_buff_from fuel (add_event_entry e (get_or buf i 0)) buf i' stop max in
    if i == stop then some e else if leb int_max i then none else rest

unfoldable pub oprofile_put_buff : EventBuffer → List ℕ → (start stop max : ℕ) → Option EventBuffer
unfolding put_buff_from
oprofile_put_buff e buf start stop max = put_buff_from max e buf start stop max
