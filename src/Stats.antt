-- ===== src/Stats.antt =====
-- driver/oprofile_stats.c and oprofile_stats.h: the counters of what was lost.
use rrprofile.Prelude.{ℕ, List, map, add_int}
use rrprofile.CpuBuffer.{OprofileCpuBuffer}

-- `struct oprofile_stat_struct`; an `atomic_t` is an int.
pub record OprofileStats : Type 0 where
  pub sample_lost_no_mm : ℕ
  pub sample_lost_no_mapping : ℕ
  pub bt_lost_no_mapping : ℕ
  pub event_lost_overflow : ℕ

-- the body of the loop of `oprofile_reset_stats`
unfoldable pub reset_cpu_stats : OprofileCpuBuffer → OprofileCpuBuffer
reset_cpu_stats b = record b {
  sample_received = 0;
  sample_lost_overflow = 0;
  backtrace_aborted = 0;
  sample_invalid_eip = 0;
}

-- `oprofile_reset_stats`, over the buffers of all possible CPUs
unfoldable pub oprofile_reset_stats :
    List OprofileCpuBuffer → OprofileStats → List OprofileCpuBuffer × OprofileStats
oprofile_reset_stats cpus stats = (
  map reset_cpu_stats cpus,
  record {
    sample_lost_no_mm = 0;
    sample_lost_no_mapping = 0;
    bt_lost_no_mapping = 0;
    event_lost_overflow = 0;
  },
)

abbrev pub inc_event_lost_overflow : OprofileStats → OprofileStats
inc_event_lost_overflow s = record s { event_lost_overflow = add_int s.event_lost_overflow 1 }

abbrev pub inc_bt_lost_no_mapping : OprofileStats → OprofileStats
inc_bt_lost_no_mapping s = record s { bt_lost_no_mapping = add_int s.bt_lost_no_mapping 1 }
