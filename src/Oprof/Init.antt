-- ===== src/Oprof/Init.antt =====
-- How the module begins: `oprofile_init` of driver/oprof.c, and the sizes that `oprofile_create_files` of
-- driver/oprofile_files.c sets when the file system is mounted.
use rrprofile.Prelude.{ℕ, List, [], false, if◌then◌else◌, leb, ◌^◌, replicate}
use rrprofile.BufferSync.{no_buffer}
use rrprofile.Oprof.{Driver, OprofileOperations, oprofile_set_ulong}
use rrprofile.Oprof.Files.{set_depth}

-- `BUFFER_SIZE_DEFAULT`, `CPU_BUFFER_SIZE_DEFAULT` and `BUFFER_WATERSHED_DEFAULT`
abbrev pub buffer_size_default : ℕ
buffer_size_default = 131072

abbrev pub cpu_buffer_size_default : ℕ
cpu_buffer_size_default = 8192

abbrev pub buffer_watershed_default : ℕ
buffer_watershed_default = 32768

module _ {A : Type 0} where
  -- the assignments of `oprofile_create_files`
  unfoldable pub create_files_defaults : Driver A → Driver A
  create_files_defaults d = record d {
    oprofile_buffer_size = buffer_size_default;
    oprofile_cpu_buffer_size = cpu_buffer_size_default;
    oprofile_buffer_watershed = buffer_watershed_default;
  }

  -- The variables as the module is loaded, for `cpus` possible CPUs and the architecture's own state.
  -- The three structures of callbacks are assigned before they are read; `none_yet` stands in them.
  abbrev pub as_loaded : (cpus : ℕ) (online : List ℕ) → A → OprofileOperations A → Driver A
  as_loaded cpus online arch none_yet = record {
    buffers = record {
      event = record {
        event_buffer = [];
        buffer_size = 0;
        buffer_watershed = 0;
        buffer_pos = 0;
        buffer_ready = 0;
        buffer_dump = 0;
        buffer_opened = 0;
        buffer_wait = 0;
        stats = record {
          sample_lost_no_mm = 0;
          sample_lost_no_mapping = 0;
          bt_lost_no_mapping = 0;
          event_lost_overflow = 0;
        };
      };
      cpu_buffer = replicate cpus no_buffer;
      marked_cpus = [];
      work_enabled = 0;
      online = online;
    };
    arch = arch;
    oprofile_ops = none_yet;
    arch_ops = none_yet;
    timer_ops = none_yet;
    oprofile_started = 0;
    is_setup = 0;
    oprofile_backtrace_depth = 0;
    oprofile_timer_count = 1;
    oprofile_adapt_value = 1;
    oprofile_buffer_size = 0;
    oprofile_cpu_buffer_size = 0;
    oprofile_buffer_watershed = 0;
  }

  -- `timer` and `arch_ops` are what `oprofile_timer_init` and `oprofile_arch_init` fill in, `err` is what
  -- the latter returns, an `int`.
  unfoldable pub oprofile_init :
      (timer arch_ops : OprofileOperations A) (err : ℕ) → Driver A → Driver A
  oprofile_init timer arch_ops err d =
      let timer_ops = record timer { backtrace = arch_ops.backtrace } in
      let chosen =
        if leb (2 ^ 31) err
        then record d {
          timer_ops = timer_ops;
          arch_ops = record arch_ops { cpu_type = false };
          oprofile_ops = timer_ops;
        }
        else record d { timer_ops = timer_ops; arch_ops = arch_ops; oprofile_ops = arch_ops } in
      (oprofile_set_ulong set_depth 512 chosen).0
