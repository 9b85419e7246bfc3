-- ===== src/CpuBuffer/Logging.antt =====
-- What `log_sample` of driver/cpu_buffer.c puts into the ring: notes of what has switched since the
-- last sample, then the sample.
use rrprofile.Prelude.{
  ℕ, ◌+◌, ◌≤◌, ◌<◌, ◌≡◌, ◌≢◌, refl, arith, ◌∙◌, ap, List, [], ◌∷◌, ◌++◌, ◌==◌, if◌then◌else◌,
  length, length-append, Bool-cases, inl, inr, add_ulong,
}
use rrprofile.Codes.{escape_code, rr_cpu_ctx_tgid, rr_cpu_ctx_tid}
use rrprofile.CpuBuffer.{
  OprofileCpuBuffer, OpSample, TaskStruct, nr_available_slots, add_sample, note_kernel_switch,
  note_task_switch, truth, log_sample, add_code, add_code_ctx_rr,
}
use rrprofile.CpuBuffer.Window.{
  IsRing, used, entries, nr_available_slots-add-used, add_sample-frame,
}
use rrprofile.CpuBuffer.Append.{
  Appends, add_sample-Appends, Appends-refl, Appends-trans, add_sample-overrun,
}

abbrev pub sample : ℕ → ℕ → ℕ → OpSample
sample pc event timestamp = record { eip = pc; event = event; timestamp = timestamp }

-- the note of a switch to mode `k`, when the last mode noted is `last`
abbrev pub kernel_note : ℕ → ℕ → List OpSample
kernel_note last k = if last == k then [] else sample escape_code k 0 ∷ []

abbrev pub task_note : ℕ → TaskStruct → List OpSample
task_note last task =
    if last == task.addr
    then []
    else sample escape_code rr_cpu_ctx_tgid task.tgid
      ∷ sample escape_code rr_cpu_ctx_tid task.pid
      ∷ []

abbrev pub notes : OprofileCpuBuffer → TaskStruct → ℕ → List OpSample
notes b task k = kernel_note b.last_is_kernel k ++ task_note b.last_task task

-- the buffer with other notes and another count of samples
abbrev pub noted : OprofileCpuBuffer → ℕ → ℕ → ℕ → OprofileCpuBuffer
noted b k t n = record b { last_is_kernel = k; last_task = t; sample_received = n }

-- The notes and the counter are no part of the ring.
noted-IsRing : (b : OprofileCpuBuffer) (k t n : ℕ) → IsRing b → IsRing (noted b k t n)
noted-IsRing b k t n v = record {
  storage = v.storage;
  small = v.small;
  head_in = v.head_in;
  tail_in = v.tail_in;
}

Appends-noted :
    (b : OprofileCpuBuffer) (k t n : ℕ) {c : OprofileCpuBuffer} {ss : List OpSample}
    → Appends (noted b k t n) c ss
    → Appends b c ss
Appends-noted b k t n p = record {
  ring = p.ring;
  contents = p.contents;
  count = p.count;
  size = p.size;
  tail = p.tail;
}

-- `c` is `b` with the entries `ss` appended, the mode `k` and the task `t` being the last noted.
pub record Notes (b c : OprofileCpuBuffer) (ss : List OpSample) (k t : ℕ) : Type 0 where
  pub appends : Appends b c ss
  pub mode : c.last_is_kernel ≡ k
  pub task : c.last_task ≡ t

note_kernel_switch-Notes :
    (b : OprofileCpuBuffer) (k : ℕ)
    → IsRing b
    → used b + length (kernel_note b.last_is_kernel k) < b.buffer_size
    → Notes b (note_kernel_switch b k) (kernel_note b.last_is_kernel k) k b.last_task
unfolding note_kernel_switch add_code
note_kernel_switch-Notes b k v h = elim (Bool-cases (b.last_is_kernel == k)) [
  | inl same ↦ rw same (record { appends = Appends-refl b v; mode = ground arith; task = refl })
  | inr new ↦
      let c : OprofileCpuBuffer = noted b k b.last_task b.sample_received in
      let ring = noted-IsRing b k b.last_task b.sample_received v in
      let p = add_sample-Appends c escape_code k 0 ring (ground arith) in
      let frame = add_sample-frame c escape_code k 0 in
      rw new (record {
        appends = Appends-noted b k b.last_task b.sample_received p;
        mode = frame.3;
        task = frame.2;
      })
]

note_task_switch-Notes :
    (b : OprofileCpuBuffer) (task : TaskStruct)
    → IsRing b
    → used b + length (task_note b.last_task task) < b.buffer_size
    → Notes b (note_task_switch b task) (task_note b.last_task task) b.last_is_kernel task.addr
unfolding note_task_switch add_code_ctx_rr
note_task_switch-Notes b task v h = elim (Bool-cases (b.last_task == task.addr)) [
  | inl same ↦ rw same (record { appends = Appends-refl b v; mode = refl; task = ground arith })
  | inr new ↦
      let c : OprofileCpuBuffer = noted b b.last_is_kernel task.addr b.sample_received in
      let ring = noted-IsRing b b.last_is_kernel task.addr b.sample_received v in
      let d : OprofileCpuBuffer = add_sample c escape_code rr_cpu_ctx_tgid task.tgid in
      let p = add_sample-Appends c escape_code rr_cpu_ctx_tgid task.tgid ring (ground arith) in
      let q = add_sample-Appends d escape_code rr_cpu_ctx_tid task.pid p.ring (ground arith) in
      let fp = add_sample-frame c escape_code rr_cpu_ctx_tgid task.tgid in
      let fq = add_sample-frame d escape_code rr_cpu_ctx_tid task.pid in
      rw new (record {
        appends = Appends-noted b b.last_is_kernel task.addr b.sample_received (Appends-trans p q);
        mode = fq.3 ∙ fp.3;
        task = fq.2 ∙ fp.2;
      })
]

module _ (task : TaskStruct) (b : OprofileCpuBuffer) (pc is_kernel event : ℕ) where
  -- the ring after `log_sample`, and what it returns
  abbrev pub logged : OprofileCpuBuffer
  logged = (log_sample task b pc is_kernel event).0

  abbrev pub log_result : ℕ
  log_result = (log_sample task b pc is_kernel event).1

  -- everything that a sample in mode `is_kernel` of `task` takes
  abbrev pub record_of : List OpSample
  record_of = notes b task (truth is_kernel) ++ (sample pc event 0 ∷ [])

  abbrev received : OprofileCpuBuffer
  received = noted b b.last_is_kernel b.last_task (add_ulong b.sample_received 1)

  abbrev in_mode : OprofileCpuBuffer
  in_mode = note_kernel_switch received (truth is_kernel)

  abbrev in_task : OprofileCpuBuffer
  in_task = note_task_switch in_mode task

  -- Past the two checks, the notes and the sample are written.
  log_sample_accepts :
      pc ≢ escape_code
      → 3 ≤ nr_available_slots b
      → log_sample task b pc is_kernel event ≡ (add_sample in_task pc event 0, 1)
  unfolding log_sample nr_available_slots
  log_sample_accepts legal three = ground arith

  -- The notes of `log_sample`, written with a slot left for the sample.
  in_task-Notes :
      IsRing b
      → length (notes b task (truth is_kernel)) ≤ nr_available_slots b
      → Notes b in_task (notes b task (truth is_kernel)) (truth is_kernel) task.addr
  in_task-Notes v room =
      let ring = noted-IsRing b b.last_is_kernel b.last_task (add_ulong b.sample_received 1) v in
      let free = nr_available_slots-add-used b v in
      let parts =
        length-append (kernel_note b.last_is_kernel (truth is_kernel))
          (task_note b.last_task task) in
      let p = note_kernel_switch-Notes received (truth is_kernel) ring (omega arith) in
      let same : task_note in_mode.last_task task ≡ task_note b.last_task task =
        ap (λ t. task_note t task) p.task in
      let grown = p.appends.count in
      let size = p.appends.size in
      let q = note_task_switch-Notes in_mode task p.appends.ring (rw same (omega arith)) in
      record {
        appends = rw (← same) (
            Appends-noted b b.last_is_kernel b.last_task (add_ulong b.sample_received 1)
              (Appends-trans p.appends q.appends));
        mode = q.mode ∙ p.mode;
        task = q.task;
      }

  -- If the program counter is not the escape code, three slots are free, and the notes and the
  -- sample fit, then `log_sample` returns 1 and appends exactly the notes that are due and the
  -- sample; the mode and the task of the sample are the last noted.
  pub log_sample-Notes :
      IsRing b
      → pc ≢ escape_code
      → 3 ≤ nr_available_slots b
      → length record_of ≤ nr_available_slots b
      → (log_result ≡ 1) × Notes b logged record_of (truth is_kernel) task.addr
  log_sample-Notes v legal three room =
      let free = nr_available_slots-add-used b v in
      let total = length-append (notes b task (truth is_kernel)) (sample pc event 0 ∷ []) in
      let n = in_task-Notes v (omega arith) in
      let count = n.appends.count in
      let size = n.appends.size in
      let p = add_sample-Appends in_task pc event 0 n.appends.ring (omega arith) in
      let frame = add_sample-frame in_task pc event 0 in
      rw (log_sample_accepts legal three, log_result, logged)
        (
          refl,
          record {
            appends = Appends-trans n.appends p;
            mode = frame.3 ∙ n.mode;
            task = frame.2 ∙ n.task;
          },
        )

  -- With exactly three free slots and a switch of both mode and task, `log_sample` still returns 1,
  -- but the fourth write moves the head onto the tail: the ring then holds nothing at all, neither
  -- the sample nor what was there before.
  pub log_sample-overrun :
      IsRing b
      → pc ≢ escape_code
      → nr_available_slots b ≡ 3
      → b.last_is_kernel ≢ truth is_kernel
      → b.last_task ≢ task.addr
      → (log_result ≡ 1) × (entries logged ≡ [])
  log_sample-overrun v legal three mode switched =
      let free = nr_available_slots-add-used b v in
      let three_notes : length (notes b task (truth is_kernel)) ≡ 3 = ground arith in
      let n = in_task-Notes v (omega arith) in
      let full : used in_task + 1 ≡ in_task.buffer_size =
        omega (arith, n.appends.count, n.appends.size) in
      rw (log_sample_accepts legal (omega arith), log_result, logged)
        (refl, add_sample-overrun in_task pc event 0 n.appends.ring full)
