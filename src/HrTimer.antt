-- ===== src/HrTimer.antt =====
-- driver/timer_int_2.6.35.c: sampling by a high-resolution timer on every CPU, on a kernel from 3.3 on.
-- The clock readings of `oprofile_get_tb` are inputs of the operations that take them.
pub mod Ticks
pub mod Armed
use rrprofile.Prelude.{
  ℕ, ◌+◌, ◌-◌, ◌*◌, ◌/◌, ◌%◌, ◌^◌, List, [], ◌∷◌, Bool, true, false, ◌==◌, leb, ltb, if◌then◌else◌,
  ulong_mod, uint_mod,
}
use rrprofile.Codes.{adapt_decay_factor}
use rrprofile.CpuBuffer.{OprofileCpuBuffer, oprofile_add_sample_start, oprofile_add_sample_stop}

-- The entries of one CPU in `oprofile_hrtimer`, of which it counts whether the timer is queued, in
-- `timer_pop` and in `start_timestamp`, with its ring.
pub record TimerCpu : Type 0 where
  pub armed : Bool
  pub timer_pop : ℕ
  pub start_timestamp : ℕ
  pub ring : OprofileCpuBuffer

-- The variables of timer_int_2.6.35.c, and the set of the CPUs that are online.
pub record HrTimers : Type 0 where
  pub ctr_running : ℕ
  pub cpus : ℕ → TimerCpu
  pub online : ℕ → Bool

-- an int, kept as its 32 bits, converted to an unsigned long
abbrev pub int_to_ulong : ℕ → ℕ
int_to_ulong n = if ltb n (2 ^ 31) then n else n + (ulong_mod - uint_mod)

-- What one tick reads from the clock, at its start and after its sample, with what
-- `oprofile_add_sample` of the interrupted context does to the ring.
pub record Tick : Type 0 where
  pub end_timestamp : ℕ
  pub restart : ℕ
  pub add_sample : OprofileCpuBuffer → OprofileCpuBuffer

-- the calls of one sample on the ring
abbrev pub log_tick : ℕ → Tick → OprofileCpuBuffer → OprofileCpuBuffer
log_tick start t ring =
    t.add_sample (oprofile_add_sample_stop (oprofile_add_sample_start ring start) t.end_timestamp)

-- `timer_count` is `oprofile_timer_count`. The timer is forwarded and stays queued.
unfoldable pub oprofile_hrtimer_notify : (timer_count : ℕ) → Tick → TimerCpu → TimerCpu
oprofile_hrtimer_notify timer_count t c =
    let pop = (c.timer_pop + 1) % uint_mod in
    if leb timer_count (int_to_ulong pop)
    then record c {
      timer_pop = 0;
      start_timestamp = t.restart;
      ring = log_tick c.start_timestamp t c.ring;
    }
    else record c { timer_pop = pop }

-- `__oprofile_hrtimer_start` on the CPU it runs on
unfoldable pub hrtimer_start_cpu : (ctr_running tb : ℕ) → TimerCpu → TimerCpu
hrtimer_start_cpu ctr_running tb c =
    if ctr_running == 0 then c else record c { armed = true; timer_pop = 0; start_timestamp = tb }

-- `__oprofile_hrtimer_stop` for a CPU
unfoldable pub hrtimer_stop_cpu : (ctr_running : ℕ) → TimerCpu → TimerCpu
hrtimer_stop_cpu ctr_running c = if ctr_running == 0 then c else record c { armed = false }

-- a function on each CPU that is online, and on one CPU
abbrev pub on_online : (ℕ → TimerCpu → TimerCpu) → HrTimers → HrTimers
on_online f h = record h { cpus = λ i. if h.online i then f i (h.cpus i) else h.cpus i }

abbrev pub on_cpu : ℕ → (TimerCpu → TimerCpu) → HrTimers → HrTimers
on_cpu cpu f h = record h { cpus = λ i. if i == cpu then f (h.cpus i) else h.cpus i }

unfoldable pub oprofile_hrtimer_start : (tb : ℕ → ℕ) → HrTimers → HrTimers × ℕ
unfolding hrtimer_start_cpu
oprofile_hrtimer_start tb h =
    let started = record h { ctr_running = 1 } in
    (on_online (λ i. hrtimer_start_cpu started.ctr_running (tb i)) started, 0)

unfoldable pub oprofile_hrtimer_stop : HrTimers → HrTimers
unfolding hrtimer_stop_cpu
oprofile_hrtimer_stop h = record (on_online (λ i. hrtimer_stop_cpu h.ctr_running) h) {
  ctr_running = 0;
}

-- the actions of the hot-plug notifier; `CPU_ONLINE_FROZEN` and `CPU_DEAD_FROZEN` are taken alike
pub data CpuAction : Type 0 where
  cpu_online cpu_dead other_action : CpuAction

-- The first notification runs on the CPU itself, whose clock reads `tb`.
unfoldable pub oprofile_cpu_notify : (tb : ℕ) → CpuAction → (cpu : ℕ) → HrTimers → HrTimers
unfolding hrtimer_start_cpu hrtimer_stop_cpu
oprofile_cpu_notify tb cpu_online cpu h = on_cpu cpu (hrtimer_start_cpu h.ctr_running tb) h
oprofile_cpu_notify tb cpu_dead cpu h = on_cpu cpu (hrtimer_stop_cpu h.ctr_running) h
oprofile_cpu_notify tb other_action cpu h = h

-- the new `oprofile_timer_count`, and what `timer_adapt` returns
unfoldable pub timer_adapt : (timer_count : ℕ) → ℕ × ℕ
timer_adapt timer_count =
    if leb (0x7fffffff / adapt_decay_factor) timer_count
    then (timer_count, 0)
    else ((timer_count * adapt_decay_factor) % ulong_mod, 1)
