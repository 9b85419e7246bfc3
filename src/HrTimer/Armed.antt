-- ===== src/HrTimer/Armed.antt =====
-- Which CPUs' timers are queued: the starts, the stops and the hot-plug notifications of
-- driver/timer_int_2.6.35.c as the steps of a relation.
use rrprofile.Prelude.{ℕ, ◌≡◌, arith, Bool, true, false, not, ◌==◌, ◌&&◌, if◌then◌else◌}
use rrprofile.HrTimer.{
  HrTimers, cpu_online, cpu_dead, other_action, hrtimer_start_cpu, hrtimer_stop_cpu,
  oprofile_hrtimer_start, oprofile_hrtimer_stop, oprofile_cpu_notify, Tick, oprofile_hrtimer_notify,
  on_cpu,
}

-- CPU `cpu` comes online or goes offline.
abbrev pub plug : (cpu : ℕ) → Bool → HrTimers → HrTimers
plug cpu b h = record h { online = λ i. if i == cpu then b else h.online i }

-- The hot-plug lock that a start and a stop hold keeps the set of the CPUs online as it is; a CPU that
-- comes or goes is notified of before the lock is let go, unless the notifier is not registered, which
-- is so only outside a session, where the counters do not run. A tick happens on a CPU whose timer is queued.
pub data Step (h : HrTimers) : HrTimers → Type 0 where
  starts : (tb : ℕ → ℕ) → Step h (oprofile_hrtimer_start tb h).0
  stops : Step h (oprofile_hrtimer_stop h)
  comes :
      (tb cpu : ℕ)
      → h.online cpu ≡ false
      → Step h (oprofile_cpu_notify tb cpu_online cpu (plug cpu true h))
  goes : (tb cpu : ℕ) → Step h (oprofile_cpu_notify tb cpu_dead cpu (plug cpu false h))
  notifies : (tb cpu : ℕ) → Step h (oprofile_cpu_notify tb other_action cpu h)
  unnoticed : (cpu : ℕ) (b : Bool) → h.ctr_running ≡ 0 → Step h (plug cpu b h)
  fires :
      (timer_count : ℕ) (t : Tick) (cpu : ℕ)
      → (h.cpus cpu).armed ≡ true
      → Step h (on_cpu cpu (oprofile_hrtimer_notify timer_count t) h)

pub data Reach (s : HrTimers) : HrTimers → Type 0 where
  here : Reach s s
  next : {t u : HrTimers} → Reach s t → Step t u → Reach s u

-- The timers are queued on the CPUs that are online, as long as the counters run, and on no other.
abbrev pub IsArmed : HrTimers → Type 0
IsArmed h = (i : ℕ) → (h.cpus i).armed ≡ (not (h.ctr_running == 0) && h.online i)

Step-IsArmed : {h h' : HrTimers} → Step h h' → IsArmed h → IsArmed h'
unfolding oprofile_hrtimer_start oprofile_hrtimer_stop oprofile_cpu_notify hrtimer_start_cpu
    hrtimer_stop_cpu oprofile_hrtimer_notify
Step-IsArmed {h = h} (starts tb) armed i = let a = armed i in ground arith
Step-IsArmed {h = h} stops armed i = let a = armed i in ground arith
Step-IsArmed {h = h} (comes tb cpu off) armed i = let a = armed i in ground arith
Step-IsArmed {h = h} (goes tb cpu) armed i = let a = armed i in ground arith
Step-IsArmed {h = h} (notifies tb cpu) armed i = armed i
Step-IsArmed {h = h} (unnoticed cpu b idle) armed i = let a = armed i in ground arith
Step-IsArmed {h = h} (fires timer_count t cpu queued) armed i = let a = armed i in ground arith

-- However starts, stops, CPUs that come and go and ticks follow each other: while the counters run, the
-- timer of every CPU that is online is queued and that of no other is; while they do not, none is.
pub Reach-IsArmed : {s h : HrTimers} → Reach s h → IsArmed s → IsArmed h
Reach-IsArmed here armed = armed
Reach-IsArmed (next r step) armed = Step-IsArmed step (Reach-IsArmed r armed)
