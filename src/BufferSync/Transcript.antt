-- ===== src/BufferSync/Transcript.antt =====
-- The words that `sync_buffer` of driver/buffer_sync.c adds to the event buffer, as a function of the
-- entries alone.
use rrprofile.Prelude.{
  ℕ, zero, suc, ◌+◌, ◌-◌, ◌≡◌, refl, sym, ap, ◌∙◌, arith, List, [], ◌∷◌, ◌++◌, leb, ◌==◌, not, ◌&&◌,
  if◌then◌else◌, length, take, add_int, Bool-cases, inl, inr,
}
use rrprofile.Codes.{
  escape_code, ctx_switch_code, cpu_switch_code, kernel_enter_switch_code, kernel_exit_switch_code,
  trace_begin_code, rr_cpu_sampling_begin_timestamp_code, rr_cpu_sampling_end_timestamp_code,
  rr_sample_begin_timestamp_code, rr_sample_end_timestamp_code, cpu_is_kernel, cpu_trace_begin,
  rr_cpu_ctx_tgid, rr_cpu_ctx_tid, rr_cpu_sampling_start_timestamp, rr_cpu_sampling_stop_timestamp,
  rr_cpu_sample_start_timestamp, rr_cpu_sample_stop_timestamp,
}
use rrprofile.CpuBuffer.{OprofileCpuBuffer, OpSample}
use rrprofile.CpuBuffer.Window.{IsRing, entries}
use rrprofile.Stats.{inc_bt_lost_no_mapping}
use rrprofile.EventBuffer.{EventBuffer, add_event_entry}
use rrprofile.EventBuffer.Log.{
  IsLog, add_entries-IsLog, add_entries-SameFrame, recorded, room, add_entries, add_entries-append,
  recorded-add_entries,
}
use rrprofile.BufferSync.{
  Sync, SyncBufferState, sb_bt_ignore, sb_buffer_start, sb_bt_start, past_start, leave_buffer_start,
  is_bt_start, is_code, sync_entry, sync_code, sync_sample, add_sample, add_sample_entry,
  add_timestamp, add_kernel_ctx_switch, add_user_ctx_switch_rr, add_trace_begin, add_cpu_switch,
  drain,
}
use rrprofile.BufferSync.Loop.{sync_entries, start_of, drain_lem}

-- the two words after the escape of a note, or more; none for a note that is not known
abbrev pub code_words : ℕ → OpSample → List ℕ
code_words tgid s =
    if leb s.event cpu_is_kernel
    then escape_code
      ∷ (if s.event == 0 then kernel_exit_switch_code else kernel_enter_switch_code)
      ∷ []
    else if s.event == cpu_trace_begin
    then escape_code ∷ trace_begin_code ∷ []
    else if s.event == rr_cpu_ctx_tgid
    then []
    else if s.event == rr_cpu_ctx_tid
    then escape_code ∷ ctx_switch_code ∷ s.timestamp ∷ tgid ∷ []
    else if s.event == rr_cpu_sampling_start_timestamp
    then escape_code ∷ rr_cpu_sampling_begin_timestamp_code ∷ s.timestamp ∷ []
    else if s.event == rr_cpu_sampling_stop_timestamp
    then escape_code ∷ rr_cpu_sampling_end_timestamp_code ∷ s.timestamp ∷ []
    else if s.event == rr_cpu_sample_start_timestamp
    then escape_code ∷ rr_sample_begin_timestamp_code ∷ s.timestamp ∷ []
    else if s.event == rr_cpu_sample_stop_timestamp
    then escape_code ∷ rr_sample_end_timestamp_code ∷ s.timestamp ∷ []
    else []

abbrev pub sample_words : SyncBufferState → OpSample → List ℕ
sample_words state s = if past_start state && not (s.eip == 0) then s.eip ∷ s.event ∷ [] else []

abbrev pub words : SyncBufferState → ℕ → OpSample → List ℕ
words state tgid s = if s.eip == escape_code then code_words tgid s else sample_words state s

abbrev pub code_state : SyncBufferState → OpSample → SyncBufferState
code_state state s =
    if leb s.event cpu_is_kernel
    then leave_buffer_start state
    else if s.event == cpu_trace_begin
    then sb_bt_start
    else state

-- a trace that is ignored from here on, since this entry is NULL
abbrev pub ends : SyncBufferState → OpSample → ℕ
ends state s = if s.eip == 0 && is_bt_start state then 1 else 0

abbrev pub next_state : SyncBufferState → OpSample → SyncBufferState
next_state state s =
    if s.eip == escape_code
    then code_state state s
    else if ends state s == 0
    then state
    else sb_bt_ignore

abbrev pub next_tgid : ℕ → OpSample → ℕ
next_tgid tgid s =
    if s.eip == escape_code
    then (if s.event == rr_cpu_ctx_tgid then s.timestamp else tgid)
    else tgid

-- the words for the entries in order
abbrev pub transcript : SyncBufferState → ℕ → List OpSample → List ℕ
transcript state tgid [] = []
transcript state tgid (s ∷ ss) =
    words state tgid s ++ transcript (next_state state s) (next_tgid tgid s) ss

-- the traces that end at a NULL entry
abbrev pub aborted : SyncBufferState → List OpSample → ℕ
aborted state [] = 0
aborted state (s ∷ ss) =
    (if s.eip == escape_code then 0 else ends state s) + aborted (next_state state s) ss

-- `n` more traces are counted as lost
abbrev pub bump : EventBuffer → EventBuffer
bump e = record e { stats = inc_bt_lost_no_mapping e.stats }

abbrev pub bumps : ℕ → EventBuffer → EventBuffer
bumps zero e = e
bumps (suc n) e = bumps n (bump e)

-- The counters are no part of the log.
add_event_entry-bump :
    (e : EventBuffer) (v : ℕ) → add_event_entry (bump e) v ≡ bump (add_event_entry e v)
unfolding add_event_entry
add_event_entry-bump e v = ground arith

add_entries-bump :
    (e : EventBuffer) (vs : List ℕ) → add_entries (bump e) vs ≡ bump (add_entries e vs)
add_entries-bump e [] = refl
add_entries-bump e (v ∷ vs) =
    ap (λ f. add_entries f vs) (add_event_entry-bump e v)
    ∙ add_entries-bump (add_event_entry e v) vs

-- One round, as an operation on the log.
sync_code_lem :
    (y : Sync) (s : OpSample)
    → let z = sync_code y s in
      (z.event ≡ add_entries y.event (code_words y.tgid s))
      × (z.state ≡ code_state y.state s)
      × (z.tgid ≡ (if s.event == rr_cpu_ctx_tgid then s.timestamp else y.tgid))
unfolding sync_code add_timestamp add_kernel_ctx_switch add_user_ctx_switch_rr add_trace_begin
sync_code_lem y s = ground arith

sync_sample_lem :
    (y : Sync) (s : OpSample)
    → let z = sync_sample y s in
      (z.event ≡ bumps (ends y.state s) (add_entries y.event (sample_words y.state s)))
      × (z.state ≡ (if ends y.state s == 0 then y.state else sb_bt_ignore))
      × (z.tgid ≡ y.tgid)
unfolding sync_sample add_sample add_sample_entry
sync_sample_lem y s = ground arith

pub sync_entry_lem :
    (y : Sync) (s : OpSample)
    → let z = sync_entry y s in
      let ended = if s.eip == escape_code then 0 else ends y.state s in
      (z.event ≡ bumps ended (add_entries y.event (words y.state y.tgid s)))
      × (z.state ≡ next_state y.state s)
      × (z.tgid ≡ next_tgid y.tgid s)
unfolding sync_entry is_code
sync_entry_lem y s = elim (Bool-cases (s.eip == escape_code)) [
  | inl code ↦ rw code (sync_code_lem y s)
  | inr plain ↦ rw plain (sync_sample_lem y s)
]

bumps-bumps : (m n : ℕ) (e : EventBuffer) → bumps m (bumps n e) ≡ bumps (n + m) e
bumps-bumps m zero e = let none_first : m ≡ 0 + m = omega arith in ap (λ k. bumps k e) none_first
bumps-bumps m (suc n) e =
    let one_more : suc (n + m) ≡ suc n + m = omega arith in
    bumps-bumps m n (bump e) ∙ ap (λ k. bumps k e) one_more

add_entries-bumps :
    (n : ℕ) (e : EventBuffer) (vs : List ℕ)
    → add_entries (bumps n e) vs ≡ bumps n (add_entries e vs)
add_entries-bumps zero e vs = refl
add_entries-bumps (suc n) e vs =
    add_entries-bumps n (bump e) vs ∙ ap (bumps n) (add_entries-bump e vs)

pub sync_entries_lem :
    (y : Sync) (ss : List OpSample)
    → (sync_entries y ss).event
      ≡ bumps (aborted y.state ss) (add_entries y.event (transcript y.state y.tgid ss))
sync_entries_lem y [] = refl
sync_entries_lem y (s ∷ ss) =
    let (event, state, tgid) = sync_entry_lem y s in
    let rest = transcript (next_state y.state s) (next_tgid y.tgid s) ss in
    let ended = if s.eip == escape_code then 0 else ends y.state s in
    let later = aborted (next_state y.state s) ss in
    let before = add_entries y.event (words y.state y.tgid s) in
    sync_entries_lem (sync_entry y s) ss
    ∙ (λ i. bumps (aborted (state i) ss) (add_entries (event i) (transcript (state i) (tgid i) ss)))
    ∙ ap (bumps later) (add_entries-bumps ended before rest)
    ∙ bumps-bumps later ended (add_entries before rest)
    ∙ ap (bumps (ended + later)) (sym (add_entries-append y.event (words y.state y.tgid s) rest))

bumps-recorded : (n : ℕ) (e : EventBuffer) → recorded (bumps n e) ≡ recorded e
bumps-recorded zero e = refl
bumps-recorded (suc n) e = bumps-recorded n (bump e)

pub bumps-IsLog : (n : ℕ) (e : EventBuffer) → IsLog e → IsLog (bumps n e)
bumps-IsLog zero e h = h
bumps-IsLog (suc n) e h =
    bumps-IsLog n (bump e)
      (record { storage = h.storage; pos_in = h.pos_in; shed = h.shed; small = h.small })

bumps-stats :
    (n : ℕ) (e : EventBuffer)
    → ((bumps n e).stats.event_lost_overflow ≡ e.stats.event_lost_overflow)
      × (add_int (bumps n e).stats.bt_lost_no_mapping 0 ≡ add_int e.stats.bt_lost_no_mapping n)
bumps-stats zero e = (refl, refl)
bumps-stats (suc n) e = let (p, q) = bumps-stats n (bump e) in (p, omega (arith, q))

-- all that one drain of the CPU buffer of `cpu` says
abbrev pub message : ℕ → List OpSample → List ℕ
message cpu ss = escape_code ∷ cpu_switch_code ∷ cpu ∷ transcript sb_buffer_start 0 ss

drain-event :
    (cpu : ℕ) (e : EventBuffer) (b : OprofileCpuBuffer)
    → IsRing b
    → (drain cpu e b).0
      ≡ bumps (aborted sb_buffer_start (entries b)) (add_entries e (message cpu (entries b)))
unfolding add_cpu_switch
drain-event cpu e b v =
    ap (λ r. r.0) (drain_lem cpu e b v) ∙ sync_entries_lem (start_of cpu e) (entries b)

-- `sync_buffer` keeps the log well formed, records the message for its entries as far as there is
-- room, counts (modulo 2 ^ 32) each word beyond as lost, and counts, modulo 2 ^ 32 too, each trace that a
-- NULL sample follows before the next trace begins, once for all such samples.
pub drain-recorded :
    (cpu : ℕ) (e : EventBuffer) (b : OprofileCpuBuffer)
    → IsRing b
    → IsLog e
    → let e' = (drain cpu e b).0 in
      let sent = message cpu (entries b) in
      IsLog e'
      × (recorded e' ≡ recorded e ++ take (room e) sent)
      × (add_int e'.stats.event_lost_overflow 0
          ≡ add_int e.stats.event_lost_overflow (length sent - room e))
      × (add_int e'.stats.bt_lost_no_mapping 0
          ≡ add_int e.stats.bt_lost_no_mapping (aborted sb_buffer_start (entries b)))
drain-recorded cpu e b v h =
    let sent = message cpu (entries b) in
    let n = aborted sb_buffer_start (entries b) in
    let f = add_entries e sent in
    let (kept, lost) = recorded-add_entries e sent h in
    let (same, more) = bumps-stats n f in
    rw (drain-event cpu e b v) (
      bumps-IsLog n f (add_entries-IsLog e sent h),
      bumps-recorded n f ∙ kept,
      omega (arith, same, lost),
      more ∙ ap (λ c. add_int c n) (add_entries-SameFrame e sent).bt_lost,
    )
