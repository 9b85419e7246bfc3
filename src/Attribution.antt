-- ===== src/Attribution.antt =====
-- What the daemon learns: a reading of the words of the event buffer, by the format that oprofile.h
-- describes, against the calls of `log_sample` (driver/cpu_buffer.c) that were made. This module has
-- the two sides; the children prove that they agree.
pub mod Trail
pub mod RoundTrip
use rrprofile.Prelude.{
  ℕ, ◌+◌, ◌≡◌, ◌≢◌, List, [], ◌∷◌, ◌++◌, map, length, ◌==◌, if◌then◌else◌, minus_one,
}
use rrprofile.Codes.{
  escape_code, ctx_switch_code, cpu_switch_code, kernel_enter_switch_code, kernel_exit_switch_code,
}
use rrprofile.CpuBuffer.{OprofileCpuBuffer, TaskStruct, truth, log_sample}

-- a call of `log_sample`, for the task at an address
pub record Call : Type 0 where
  pub task : ℕ
  pub pc : ℕ
  pub is_kernel : ℕ
  pub event : ℕ

-- a sample as the daemon understands it
pub record Seen : Type 0 where
  pub on_cpu : ℕ
  pub in_kernel : ℕ
  pub of_tgid : ℕ
  pub of_tid : ℕ
  pub at_pc : ℕ
  pub for_event : ℕ

-- What the next word is: the start of an entry, a code, an argument, or the event of a sample.
pub data Mode : Type 0 where
  ready escaped want_cpu want_tid skip : Mode
  want_tgid : ℕ → Mode
  want_event : ℕ → Mode

-- the context that the notes have set
pub record Context : Type 0 where
  pub cpu : ℕ
  pub kernel : ℕ
  pub tgid : ℕ
  pub tid : ℕ

abbrev pub after_escape : ℕ → Mode
after_escape code =
    if code == cpu_switch_code
    then want_cpu
    else if code == ctx_switch_code
    then want_tid
    else if code == kernel_enter_switch_code
    then ready
    else if code == kernel_exit_switch_code
    then ready
    else skip

abbrev pub kernel_of : ℕ → ℕ → ℕ
kernel_of code kernel =
    if code == kernel_enter_switch_code
    then 1
    else if code == kernel_exit_switch_code
    then 0
    else kernel

abbrev pub see : Context → ℕ → ℕ → Seen
see c pc event = record {
  on_cpu = c.cpu;
  in_kernel = c.kernel;
  of_tgid = c.tgid;
  of_tid = c.tid;
  at_pc = pc;
  for_event = event;
}

-- The samples in a run of words. Time stamps and the sampling interval, which are a code with one
-- argument, are skipped.
abbrev pub decode : Mode → Context → List ℕ → List Seen
decode mode c [] = []
decode ready c (v ∷ vs) = decode (if v == escape_code then escaped else want_event v) c vs
decode escaped c (v ∷ vs) = decode (after_escape v) (record c { kernel = kernel_of v c.kernel }) vs
decode want_cpu c (v ∷ vs) = decode ready (record c { cpu = v }) vs
decode want_tid c (v ∷ vs) = decode (want_tgid v) c vs
decode skip c (v ∷ vs) = decode ready c vs
decode (want_tgid tid) c (v ∷ vs) = decode ready (record c { tid = tid; tgid = v }) vs
decode (want_event pc) c (v ∷ vs) = see c pc v ∷ decode ready c vs

-- `tgid` and `pid` are the fields of the task at an address, which do not change meanwhile.
module _ (tgid pid : ℕ → ℕ) where
  abbrev pub task_at : ℕ → TaskStruct
  task_at a = record { addr = a; tgid = tgid a; pid = pid a }

  -- the calls in order, on one CPU buffer
  abbrev pub log_all : OprofileCpuBuffer → List Call → OprofileCpuBuffer
  log_all b [] = b
  log_all b (x ∷ xs) = log_all (log_sample (task_at x.task) b x.pc x.is_kernel x.event).0 xs

  -- what the daemon should see of a call
  abbrev pub seen : ℕ → Call → Seen
  seen cpu x = record {
    on_cpu = cpu;
    in_kernel = truth x.is_kernel;
    of_tgid = tgid x.task;
    of_tid = pid x.task;
    at_pc = x.pc;
    for_event = x.event;
  }

-- A call that can be told from a note and from an empty task: the program counter is neither the
-- escape code nor NULL, and the task is not NULL.
pub record IsPlain (x : Call) : Type 0 where
  pub legal : x.pc ≢ escape_code
  pub counted : x.pc ≢ 0
  pub task_set : x.task ≢ 0

abbrev pub AllPlain : List Call → Type 0
AllPlain [] = Unit {0}
AllPlain (x ∷ xs) = IsPlain x × AllPlain xs
