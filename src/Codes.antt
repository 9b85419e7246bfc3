-- ===== src/Codes.antt =====
-- The codes of the two buffers: oprofile.h (event buffer) and driver/cpu_buffer.h (CPU buffer), and
-- the error numbers that the driver returns.
use rrprofile.Prelude.{ℕ, ◌-◌, ◌^◌}

-- `ESCAPE_CODE`, `~0UL`
abbrev pub escape_code : ℕ
escape_code = 2 ^ 64 - 1

abbrev pub ctx_switch_code : ℕ
ctx_switch_code = 1

abbrev pub cpu_switch_code : ℕ
cpu_switch_code = 2

abbrev pub kernel_enter_switch_code : ℕ
kernel_enter_switch_code = 4

abbrev pub kernel_exit_switch_code : ℕ
kernel_exit_switch_code = 5

abbrev pub trace_begin_code : ℕ
trace_begin_code = 8

abbrev pub rr_cpu_sampling_begin_timestamp_code : ℕ
rr_cpu_sampling_begin_timestamp_code = 100

abbrev pub rr_cpu_sampling_end_timestamp_code : ℕ
rr_cpu_sampling_end_timestamp_code = 101

abbrev pub rr_sample_begin_timestamp_code : ℕ
rr_sample_begin_timestamp_code = 102

abbrev pub rr_sample_end_timestamp_code : ℕ
rr_sample_end_timestamp_code = 103

abbrev pub rr_adapt_sampling_interval_code : ℕ
rr_adapt_sampling_interval_code = 104

abbrev pub adapt_decay_factor : ℕ
adapt_decay_factor = 10

abbrev pub cpu_is_kernel : ℕ
cpu_is_kernel = 1

abbrev pub cpu_trace_begin : ℕ
cpu_trace_begin = 2

abbrev pub rr_cpu_ctx_tgid : ℕ
rr_cpu_ctx_tgid = 100

abbrev pub rr_cpu_ctx_tid : ℕ
rr_cpu_ctx_tid = 101

abbrev pub rr_cpu_sampling_start_timestamp : ℕ
rr_cpu_sampling_start_timestamp = 102

abbrev pub rr_cpu_sampling_stop_timestamp : ℕ
rr_cpu_sampling_stop_timestamp = 103

abbrev pub rr_cpu_sample_start_timestamp : ℕ
rr_cpu_sample_start_timestamp = 104

abbrev pub rr_cpu_sample_stop_timestamp : ℕ
rr_cpu_sample_stop_timestamp = 105

-- A function that returns an `int` error returns its bit pattern: 0, or 2 ^ 32 less the number.
abbrev pub eperm : ℕ
eperm = 2 ^ 32 - 1

abbrev pub eintr : ℕ
eintr = 2 ^ 32 - 4

abbrev pub eagain : ℕ
eagain = 2 ^ 32 - 11

abbrev pub enomem : ℕ
enomem = 2 ^ 32 - 12

abbrev pub efault : ℕ
efault = 2 ^ 32 - 14

abbrev pub ebusy : ℕ
ebusy = 2 ^ 32 - 16

abbrev pub enodev : ℕ
enodev = 2 ^ 32 - 19

abbrev pub einval : ℕ
einval = 2 ^ 32 - 22

-- What a `read` or `write` of a file returns: the number of bytes, or an error.
pub data Ssize : Type 0 where
  bytes : ℕ → Ssize
  error : ℕ → Ssize
