-- ===== src/Attribution/RoundTrip.antt =====
-- From `log_sample` through `sync_buffer` to the daemon and back: each sample is attributed to its
-- CPU, mode, process and thread.
use rrprofile.Prelude.{
  ℕ, ◌+◌, ◌≤◌, ◌≡◌, ◌≢◌, refl, sym, ap, ap₂, ◌∙◌, arith, List, [], ◌∷◌, ◌++◌, length, map, ◌==◌,
  if◌then◌else◌, true, minus_one, subst, take, take_of_le,
}
use mathlib.Core.List.{append_assoc}
use rrprofile.Codes.{escape_code}
use rrprofile.CpuBuffer.{OprofileCpuBuffer, OpSample, TaskStruct, truth, nr_available_slots}
use rrprofile.CpuBuffer.Window.{IsRing, entries}
use rrprofile.CpuBuffer.Logging.{sample, kernel_note, task_note}
use rrprofile.EventBuffer.{EventBuffer}
use rrprofile.EventBuffer.Log.{IsLog, recorded, room}
use rrprofile.BufferSync.{
  SyncBufferState, sb_buffer_start, sb_sample_start, past_start, leave_buffer_start, drain,
}
use rrprofile.BufferSync.Transcript.{transcript, message, drain-recorded}
use rrprofile.Attribution.{
  Call, Context, ready, decode, see, task_at, log_all, seen, IsPlain, AllPlain,
}
use rrprofile.Attribution.Trail.{trail, log_all-Appends}

-- The reader's mode and the daemon's kernel flag agree with the last mode noted, if there is one.
record KnowsMode (st : SyncBufferState) (k : ℕ) (c : Context) : Type 0 where
  started : leave_buffer_start st ≡ sb_sample_start
  mode : k ≢ minus_one → (past_start st ≡ true) × (c.kernel ≡ k)

decode-kernel_note :
    (st : SyncBufferState) (tg k x : ℕ) (c : Context) (ss : List OpSample)
    → KnowsMode st k c
    → decode ready c (transcript st tg (kernel_note k (truth x) ++ ss))
      ≡ decode ready (record c { kernel = truth x }) (transcript sb_sample_start tg ss)
decode-kernel_note st tg k x c ss h = ground arith

decode-task_note :
    (tg t : ℕ) (task : TaskStruct) (c : Context) (ss : List OpSample)
    → (t ≡ task.addr → (c.tgid ≡ task.tgid) × (c.tid ≡ task.pid))
    → decode ready c (transcript sb_sample_start tg (task_note t task ++ ss))
      ≡ decode ready
          (record c { tgid = task.tgid; tid = task.pid })
          (transcript sb_sample_start (if t == task.addr then tg else task.tgid) ss)
decode-task_note tg t task c ss h = ground arith

decode-sample :
    (tg pc event : ℕ) (c : Context) (ss : List OpSample)
    → pc ≢ escape_code
    → pc ≢ 0
    → decode ready c (transcript sb_sample_start tg (sample pc event 0 ∷ ss))
      ≡ see c pc event ∷ decode ready c (transcript sb_sample_start tg ss)
decode-sample tg pc event c ss legal counted = ground arith

module _ (tgid pid : ℕ → ℕ) where
  -- The daemon's identifiers are those of the last task noted, if there is one.
  abbrev KnowsTask : ℕ → Context → Type 0
  KnowsTask t c = t ≢ 0 → (c.tgid ≡ tgid t) × (c.tid ≡ pid t)

  -- One call: the daemon sees it, and knows its mode and its task from then on.
  decode-call :
      (st : SyncBufferState) (tg k t : ℕ) (c : Context) (x : Call) (ss : List OpSample)
      → KnowsMode st k c
      → KnowsTask t c
      → IsPlain x
      → let task = task_at tgid pid x.task in
        let k' = truth x.is_kernel in
        let c' : Context = record {
          cpu = c.cpu;
          kernel = k';
          tgid = tgid x.task;
          tid = pid x.task;
        } in
        decode ready c (
          transcript st tg ((kernel_note k k' ++ task_note t task) ++ (sample x.pc x.event 0 ∷ ss)))
        ≡ seen tgid pid c.cpu x
          ∷ decode ready c'
              (transcript sb_sample_start (if t == x.task then tg else tgid x.task) ss)
  decode-call st tg k t c x ss mode known plain =
      let task = task_at tgid pid x.task in
      let k' = truth x.is_kernel in
      let more = sample x.pc x.event 0 ∷ ss in
      let c' : Context = record {
        cpu = c.cpu;
        kernel = k';
        tgid = tgid x.task;
        tid = pid x.task;
      } in
      let tg' = if t == x.task then tg else tgid x.task in
      let same : t ≡ x.task → (c.tgid ≡ tgid x.task) × (c.tid ≡ pid x.task) = λ e.
        subst (λ a. (c.tgid ≡ tgid a) × (c.tid ≡ pid a)) e
          (known (λ z. plain.task_set (sym e ∙ z))) in
      rw (append_assoc (kernel_note k k') (task_note t task) more) (
        decode-kernel_note st tg k x.is_kernel c (task_note t task ++ more) mode
        ∙ decode-task_note tg t task (record c { kernel = k' }) more same
        ∙ decode-sample tg' x.pc x.event c' ss plain.legal plain.counted)

  decode-trail :
      (st : SyncBufferState) (tg k t : ℕ) (c : Context) (xs : List Call)
      → KnowsMode st k c
      → KnowsTask t c
      → AllPlain xs
      → decode ready c (transcript st tg (trail tgid pid k t xs)) ≡ map (seen tgid pid c.cpu) xs
  decode-trail st tg k t c [] mode known plain = refl
  decode-trail st tg k t c (x ∷ xs) mode known plain =
      let k' = truth x.is_kernel in
      let c' : Context = record {
        cpu = c.cpu;
        kernel = k';
        tgid = tgid x.task;
        tid = pid x.task;
      } in
      let tg' = if t == x.task then tg else tgid x.task in
      let later : KnowsMode sb_sample_start k' c' = record {
        started = refl;
        mode = λ _. (refl, refl);
      } in
      decode-call st tg k t c x (trail tgid pid k' x.task xs) mode known plain.0
      ∙ ap (λ r. seen tgid pid c.cpu x ∷ r)
          (decode-trail sb_sample_start tg' k' x.task c' xs later (λ _. (refl, refl)) plain.1)

  -- Take an empty ring, with the notes reset as `sync_buffer` leaves them, and an empty event buffer.
  -- After any calls of `log_sample` for which there is room in the ring (with two slots to spare), and
  -- a `sync_buffer` for whose words there is room in the event buffer, the daemon reads exactly those
  -- calls back, in order: each program counter and event with the CPU, the mode, the process and the
  -- thread of its call. It needs no context from before.
  pub decode-drain :
      (cpu : ℕ) (e : EventBuffer) (b : OprofileCpuBuffer) (c : Context) (xs : List Call)
      → IsLog e
      → IsRing b
      → recorded e ≡ []
      → entries b ≡ []
      → b.last_is_kernel ≡ minus_one
      → b.last_task ≡ 0
      → AllPlain xs
      → length (trail tgid pid minus_one 0 xs) + 2 ≤ nr_available_slots b
      → length (message cpu (trail tgid pid minus_one 0 xs)) ≤ room e
      → decode ready c (recorded (drain cpu e (log_all tgid pid b xs)).0)
        ≡ map (seen tgid pid cpu) xs
  decode-drain cpu e b c xs log ring clear idle mode task plain fits fits' =
      let ss = trail tgid pid minus_one 0 xs in
      let same : trail tgid pid b.last_is_kernel b.last_task xs ≡ ss =
        λ i. trail tgid pid (mode i) (task i) xs in
      let logged = log_all-Appends tgid pid b xs ring plain (omega (arith, ap length same)) in
      let held : entries (log_all tgid pid b xs) ≡ ss = logged.contents ∙ ap₂ ◌++◌ idle same in
      let known : KnowsMode sb_buffer_start minus_one (record c { cpu = cpu }) = record {
        started = refl;
        mode = λ p. absurd (p refl);
      } in
      let sent = (drain-recorded cpu e (log_all tgid pid b xs) logged.ring log).1 in
      ap (decode ready c) (
        sent
        ∙ ap₂ ◌++◌ clear (
            ap (λ t. take (room e) (message cpu t)) held
            ∙ take_of_le (room e) (message cpu ss) fits'))
      ∙ decode-trail sb_buffer_start 0 minus_one 0 (record c { cpu = cpu }) xs known
          (λ p. absurd (p refl)) plain
