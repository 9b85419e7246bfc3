-- ===== src/CpuBuffer.antt =====
-- driver/cpu_buffer.c and cpu_buffer.h: the ring of each CPU into which samples are logged.
-- A function that writes through `cpu_buf` takes the buffer and returns it. The memory barriers
-- `wmb` and `rmb` have no counterpart: each call here is one uninterrupted step.
pub mod Window
pub mod Append
pub mod Logging
use rrprofile.Prelude.{
  ℕ, Bool, true, false, not, List, [], ◌∷◌, ltb, ◌==◌, if◌then◌else◌, set, add_ulong, sub_ulong,
  minus_one, Option, none, some,
}
use rrprofile.Codes.{
  escape_code, cpu_trace_begin, rr_cpu_ctx_tgid, rr_cpu_ctx_tid, rr_cpu_sampling_start_timestamp,
  rr_cpu_sampling_stop_timestamp, rr_cpu_sample_start_timestamp, rr_cpu_sample_stop_timestamp,
}

-- `struct op_sample`
pub record OpSample : Type 0 where
  pub eip : ℕ
  pub event : ℕ
  pub timestamp : ℕ

-- What the buffer reads of `struct task_struct`: its address, and the two identifiers.
pub record TaskStruct : Type 0 where
  pub addr : ℕ
  pub tgid : ℕ
  pub pid : ℕ

-- `struct oprofile_cpu_buffer`. `last_task` is an address, 0 for NULL; `last_is_kernel` and `cpu`
-- are ints; `buffer` is [] for NULL; `work` is the delay of the pending work, if it is pending.
pub record OprofileCpuBuffer : Type 0 where
  pub head_pos : ℕ
  pub tail_pos : ℕ
  pub buffer_size : ℕ
  pub last_task : ℕ
  pub last_is_kernel : ℕ
  pub tracing : ℕ
  pub buffer : List OpSample
  pub sample_received : ℕ
  pub sample_lost_overflow : ℕ
  pub backtrace_aborted : ℕ
  pub sample_invalid_eip : ℕ
  pub cpu : ℕ
  pub work : Option ℕ

abbrev pub no_sample : OpSample
no_sample = record { eip = 0; event = 0; timestamp = 0 }

-- `oprofile_cpu_buffer_inc_smpl_lost`, on the buffer of the running CPU
unfoldable pub oprofile_cpu_buffer_inc_smpl_lost : OprofileCpuBuffer → OprofileCpuBuffer
oprofile_cpu_buffer_inc_smpl_lost b = record b {
  sample_lost_overflow = add_ulong b.sample_lost_overflow 1;
}

unfoldable pub cpu_buffer_reset : OprofileCpuBuffer → OprofileCpuBuffer
cpu_buffer_reset b = record b { last_is_kernel = minus_one; last_task = 0 }

unfoldable pub nr_available_slots : OprofileCpuBuffer → ℕ
nr_available_slots b =
    if ltb head tail
    then sub_ulong (sub_ulong tail head) 1
    else sub_ulong (add_ulong tail (sub_ulong b.buffer_size head)) 1
  where
    open b use {head_pos as head, tail_pos as tail}

unfoldable pub increment_head : OprofileCpuBuffer → OprofileCpuBuffer
increment_head b =
    let new_head = add_ulong b.head_pos 1 in
    if ltb new_head b.buffer_size
    then record b { head_pos = new_head }
    else record b { head_pos = 0 }

-- `add_sample` of cpu_buffer.c
unfoldable pub add_sample : OprofileCpuBuffer → ℕ → ℕ → ℕ → OprofileCpuBuffer
unfolding increment_head
add_sample b pc event timestamp =
    increment_head (record b { buffer = set b.buffer b.head_pos entry })
  where
    entry : OpSample
    entry = record { eip = pc; event = event; timestamp = timestamp }

unfoldable pub add_code : OprofileCpuBuffer → ℕ → OprofileCpuBuffer
add_code b value = add_sample b escape_code value 0

unfoldable pub add_code_ctx_rr : OprofileCpuBuffer → ℕ → ℕ → OprofileCpuBuffer
add_code_ctx_rr b tgid tid =
    add_sample (add_sample b escape_code rr_cpu_ctx_tgid tgid) escape_code rr_cpu_ctx_tid tid

-- The two notes of `log_sample`: a switch between user and kernel mode, and a switch of the task.
unfoldable pub note_kernel_switch : OprofileCpuBuffer → ℕ → OprofileCpuBuffer
note_kernel_switch b is_kernel =
    if b.last_is_kernel == is_kernel
    then b
    else add_code (record b { last_is_kernel = is_kernel }) is_kernel

unfoldable pub note_task_switch : OprofileCpuBuffer → TaskStruct → OprofileCpuBuffer
note_task_switch b task =
    if b.last_task == task.addr
    then b
    else add_code_ctx_rr (record b { last_task = task.addr }) task.tgid task.pid

-- `!!x` of an int
abbrev pub truth : ℕ → ℕ
truth x = if x == 0 then 0 else 1

-- `log_sample`, with `current` as an argument; the result is the C function's.
unfoldable pub log_sample : TaskStruct → OprofileCpuBuffer → ℕ → ℕ → ℕ → OprofileCpuBuffer × ℕ
log_sample current b₀ pc is_kernel event =
    let b = record b₀ { sample_received = add_ulong b₀.sample_received 1 } in
    if pc == escape_code
    then (record b { sample_invalid_eip = add_ulong b.sample_invalid_eip 1 }, 0)
    else if ltb (nr_available_slots b) 3
    then (record b { sample_lost_overflow = add_ulong b.sample_lost_overflow 1 }, 0)
    else (
      add_sample (note_task_switch (note_kernel_switch b (truth is_kernel)) current) pc event 0,
      1,
    )

unfoldable pub oprofile_begin_trace : OprofileCpuBuffer → OprofileCpuBuffer × ℕ
oprofile_begin_trace b =
    if ltb (nr_available_slots b) 4
    then (record b { sample_lost_overflow = add_ulong b.sample_lost_overflow 1 }, 0)
    else (let c = add_code b cpu_trace_begin in record c { tracing = 1 }, 1)

unfoldable pub oprofile_end_trace : OprofileCpuBuffer → OprofileCpuBuffer
oprofile_end_trace b = record b { tracing = 0 }

unfoldable pub oprofile_add_pc : TaskStruct → OprofileCpuBuffer → ℕ → ℕ → ℕ → OprofileCpuBuffer
oprofile_add_pc current b pc is_kernel event = (log_sample current b pc is_kernel event).0

unfoldable pub oprofile_add_trace : OprofileCpuBuffer → ℕ → OprofileCpuBuffer
oprofile_add_trace b pc =
    if b.tracing == 0
    then b
    else if ltb (nr_available_slots b) 1
    then record b { tracing = 0; sample_lost_overflow = add_ulong b.sample_lost_overflow 1 }
    else if pc == escape_code
    then record b { tracing = 0; backtrace_aborted = add_ulong b.backtrace_aborted 1 }
    else add_sample b pc 0 0

-- The four time stamps; `tb` is what `oprofile_get_tb()` returns.
unfoldable pub oprofile_add_start : OprofileCpuBuffer → ℕ → OprofileCpuBuffer
oprofile_add_start b tb = add_sample b escape_code rr_cpu_sampling_start_timestamp tb

unfoldable pub oprofile_add_stop : OprofileCpuBuffer → ℕ → OprofileCpuBuffer
oprofile_add_stop b tb = add_sample b escape_code rr_cpu_sampling_stop_timestamp tb

unfoldable pub oprofile_add_sample_start : OprofileCpuBuffer → ℕ → OprofileCpuBuffer
oprofile_add_sample_start b timestamp =
    add_sample b escape_code rr_cpu_sample_start_timestamp timestamp

unfoldable pub oprofile_add_sample_stop : OprofileCpuBuffer → ℕ → OprofileCpuBuffer
oprofile_add_sample_stop b timestamp =
    add_sample b escape_code rr_cpu_sample_stop_timestamp timestamp

-- The calls of `oprofile_add_trace` that a backtrace makes, in order.
unfoldable pub add_traces : OprofileCpuBuffer → List ℕ → OprofileCpuBuffer
add_traces b [] = b
add_traces b (pc ∷ pcs) = add_traces (oprofile_add_trace b pc) pcs

-- The state of the interrupted context is the kernel's: `user_mode` and `instruction_pointer` are
-- its macros. A backtrace callback is the list of the addresses that it hands to
-- `oprofile_add_trace`, which is all that it does to the buffer.
module _ {PtRegs : Type 0} (user_mode : PtRegs → Bool) (instruction_pointer : PtRegs → ℕ) where
  -- `backtrace_depth` is `oprofile_backtrace_depth`, `backtrace` is `oprofile_ops.backtrace`, and
  -- `regs` is none for NULL.
  unfoldable pub oprofile_add_ext_sample :
      (backtrace : Option (Option PtRegs → ℕ → List ℕ)) (backtrace_depth : ℕ)
      → TaskStruct
      → OprofileCpuBuffer
      → ℕ
      → Option PtRegs
      → ℕ
      → ℕ
      → OprofileCpuBuffer
  oprofile_add_ext_sample none depth current b pc regs event is_kernel =
      (log_sample current b pc is_kernel event).0
  oprofile_add_ext_sample (some backtrace) depth current b pc regs event is_kernel =
      if depth == 0
      then (log_sample current b pc is_kernel event).0
      else (let (begun, ok) = oprofile_begin_trace b in
          if ok == 0
          then begun
          else (let (logged, kept) = log_sample current begun pc is_kernel event in
              oprofile_end_trace
                (if kept == 0 then logged else add_traces logged (backtrace regs depth))))

  unfoldable pub oprofile_add_sample :
      (backtrace : Option (Option PtRegs → ℕ → List ℕ)) (backtrace_depth : ℕ)
      → TaskStruct
      → OprofileCpuBuffer
      → Option PtRegs
      → ℕ
      → OprofileCpuBuffer
  oprofile_add_sample backtrace depth current b none event =
      oprofile_add_ext_sample backtrace depth current b escape_code none event 0
  oprofile_add_sample backtrace depth current b (some regs) event =
      oprofile_add_ext_sample backtrace depth current b (instruction_pointer regs) (some regs) event
        (if not (user_mode regs) then 1 else 0)
