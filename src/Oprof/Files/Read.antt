-- ===== src/Oprof/Files/Read.antt =====
-- The read handlers of driver/oprofile_files.c, and the switch of the debug output. What a handler gives to
-- `simple_read_from_buffer` is its result: the text, and how much of it there is.
pub mod RoundTrip
use rrprofile.Prelude.{ℕ, List, Bool, not, ◌==◌, if◌then◌else◌, Option, none, some, length}
use rrprofile.Codes.{einval, Ssize, bytes, error}
use rrprofile.Oprof.{Driver}
use rrprofile.Oprof.Files.{UserWrite, oprofilefs_ulong_to_user, oprofilefs_ulong_from_user}

-- `print` is `snprintf` of "%lu\n", as for `oprofilefs_ulong_to_user`.
module _ (print : ℕ → List ℕ) where
  module _ {A : Type 0} where
    -- `ulong_read_file`; the number that the file stands for is given by a function
    unfoldable pub ulong_read_file : (value : Driver A → ℕ) → Driver A → List ℕ × ℕ
    unfolding oprofilefs_ulong_to_user
    ulong_read_file value d = oprofilefs_ulong_to_user print (value d)

    unfoldable pub depth_read : Driver A → List ℕ × ℕ
    unfolding oprofilefs_ulong_to_user
    depth_read d = oprofilefs_ulong_to_user print d.oprofile_backtrace_depth

    unfoldable pub enable_read : Driver A → List ℕ × ℕ
    unfolding oprofilefs_ulong_to_user
    enable_read d = oprofilefs_ulong_to_user print d.oprofile_started

    unfoldable pub timer_read : Driver A → List ℕ × ℕ
    unfolding oprofilefs_ulong_to_user
    timer_read d = oprofilefs_ulong_to_user print d.oprofile_timer_count

    unfoldable pub adapt_read : Driver A → List ℕ × ℕ
    unfolding oprofilefs_ulong_to_user
    adapt_read d = oprofilefs_ulong_to_user print d.oprofile_adapt_value

  -- the size of a pointer of a 64-bit kernel
  pointer_size_read : List ℕ × ℕ
  pointer_size_read = oprofilefs_ulong_to_user print 8

  -- the kernel's `CONFIG_HZ` and `USER_HZ`
  timer_freq_read : (config_hz : ℕ) → List ℕ × ℕ
  timer_freq_read config_hz = oprofilefs_ulong_to_user print config_hz

  user_freq_read : (user_hz : ℕ) → List ℕ × ℕ
  user_freq_read user_hz = oprofilefs_ulong_to_user print user_hz

  -- `policy` is the maximal frequency of what `cpufreq_cpu_get(0)` returns.
  cpu_khz_read : (cpu_khz : ℕ) → (policy : Option ℕ) → List ℕ × ℕ
  cpu_khz_read cpu_khz none = oprofilefs_ulong_to_user print cpu_khz
  cpu_khz_read cpu_khz (some max_freq) = oprofilefs_ulong_to_user print max_freq

  num_counters_read : (oprofile_num_counters : ℕ) → List ℕ × ℕ
  num_counters_read oprofile_num_counters = oprofilefs_ulong_to_user print oprofile_num_counters

  debug_read : (rrprofile_debug : ℕ) → List ℕ × ℕ
  debug_read rrprofile_debug = oprofilefs_ulong_to_user print rrprofile_debug

-- `oprofilefs_str_to_user`, and the name of the processor
oprofilefs_str_to_user : (str : List ℕ) → List ℕ × ℕ
oprofilefs_str_to_user str = (str, length str)

cpu_type_read : (oprofile_cpu_type : List ℕ) → List ℕ × ℕ
unfolding oprofilefs_str_to_user
cpu_type_read oprofile_cpu_type = oprofilefs_str_to_user oprofile_cpu_type

-- the state of the handler is `rrprofile_debug` alone
unfoldable pub debug_write : (simple_strtoul : List ℕ → ℕ) → UserWrite → ℕ → ℕ × Ssize
debug_write simple_strtoul w rrprofile_debug =
    if not (w.offset == 0)
    then (rrprofile_debug, error einval)
    else (let (val, retval) = oprofilefs_ulong_from_user simple_strtoul w in
        if not (retval == 0)
        then (rrprofile_debug, error retval)
        else (if val == 0 then 0 else 1, bytes w.count))
