-- ===== src/Tests/Timers.antt =====
-- Instances for the timers: a count of 3 ticks, and CPUs that come and go.
use rrprofile.Prelude.{ℕ, ◌+◌, ◌≡◌, refl, arith, [], ◌∷◌, true, false, ltb}
use rrprofile.CpuBuffer.{OprofileCpuBuffer, oprofile_add_sample_start, oprofile_add_sample_stop}
use rrprofile.HrTimer.{
  TimerCpu, HrTimers, Tick, cpu_online, oprofile_hrtimer_start, oprofile_cpu_notify,
}
use rrprofile.HrTimer.Ticks.{Period, ticks, ticks_of, ticks_lem}
use rrprofile.HrTimer.Armed.{Reach, here, next, starts, comes, plug, IsArmed, Reach-IsArmed}
use rrprofile.Tests.Data.{ring}

-- logs nothing
abbrev no_sample_added : OprofileCpuBuffer → OprofileCpuBuffer
no_sample_added b = b

abbrev tick : ℕ → Tick
tick t = record { end_timestamp = t; restart = t + 1; add_sample = no_sample_added }

abbrev timer : TimerCpu
timer = record { armed = true; timer_pop = 0; start_timestamp = 7; ring = ring }

abbrev period : Period
period = record { silent = tick 10 ∷ tick 20 ∷ []; last = tick 30 }

ticks_lem_example : ticks 3 (ticks_of (period ∷ []) (tick 40 ∷ [])) timer ≡ record {
  armed = true;
  timer_pop = 1;
  start_timestamp = 31;
  ring = oprofile_add_sample_stop (oprofile_add_sample_start ring 7) 30;
}
ticks_lem_example =
    ticks_lem 3 (omega arith) (period ∷ []) (tick 40 ∷ []) timer (omega arith) (omega arith) refl

-- two CPUs are online, and nothing runs
abbrev idle : HrTimers
idle = record { ctr_running = 0; cpus = λ i. record timer { armed = false }; online = λ i. ltb i 2 }

abbrev clock : ℕ → ℕ
clock i = 100 + i

abbrev started : HrTimers
started = (oprofile_hrtimer_start clock idle).0

abbrev grown : HrTimers
grown = oprofile_cpu_notify 105 cpu_online 2 (plug 2 true started)

run : Reach idle grown
unfolding oprofile_hrtimer_start
run = next (next here (starts clock)) (comes 105 2 refl)

idle-IsArmed : IsArmed idle
idle-IsArmed i = refl

Reach-IsArmed_example : IsArmed grown
Reach-IsArmed_example = Reach-IsArmed run idle-IsArmed
