-- ===== src/HrTimer/Ticks.antt =====
-- The ticks of driver/timer_int_2.6.35.c on one CPU: one sample in `oprofile_timer_count` ticks.
use rrprofile.Prelude.{
  ℕ, ◌+◌, ◌^◌, ◌<◌, ◌≡◌, refl, ap, ◌∙◌, arith, List, [], ◌∷◌, ◌++◌, length, subst, uint_mod, leb,
  true, false, ◌%◌,
}
use mathlib.Core.List.{append-nil}
use rrprofile.CpuBuffer.{OprofileCpuBuffer}
use rrprofile.HrTimer.{TimerCpu, Tick, int_to_ulong, log_tick, oprofile_hrtimer_notify}

-- the ticks of a run, one after the other
unfoldable pub ticks : (timer_count : ℕ) → List Tick → TimerCpu → TimerCpu
unfolding oprofile_hrtimer_notify
ticks timer_count [] c = c
ticks timer_count (t ∷ ts) c = ticks timer_count ts (oprofile_hrtimer_notify timer_count t c)

-- A period is the ticks that take no sample, and the one that does.
pub record Period : Type 0 where
  pub silent : List Tick
  pub last : Tick

abbrev pub ticks_of : List Period → List Tick → List Tick
ticks_of [] rest = rest
ticks_of (p ∷ ps) rest = p.silent ++ (p.last ∷ ticks_of ps rest)

-- every period has `timer_count` ticks
abbrev pub AllPeriods : (timer_count : ℕ) → List Period → Type 0
AllPeriods timer_count [] = Unit {0}
AllPeriods timer_count (p ∷ ps) = (length p.silent + 1 ≡ timer_count) × AllPeriods timer_count ps

-- What the periods amount to: one sample each, from where the last one ended to their last tick.
abbrev pub sampled : List Period → (start : ℕ) → OprofileCpuBuffer → ℕ × OprofileCpuBuffer
sampled [] start ring = (start, ring)
sampled (p ∷ ps) start ring = sampled ps p.last.restart (log_tick start p.last ring)

module _ (timer_count : ℕ) (small : timer_count < 2 ^ 31) where
  notify_silent :
      (t : Tick) (c : TimerCpu)
      → c.timer_pop + 1 < timer_count
      → oprofile_hrtimer_notify timer_count t c ≡ record c { timer_pop = c.timer_pop + 1 }
  unfolding oprofile_hrtimer_notify
  notify_silent t c h =
      let pop : (c.timer_pop + 1) % uint_mod ≡ c.timer_pop + 1 = omega arith in
      let quiet : leb timer_count (int_to_ulong (c.timer_pop + 1)) ≡ false = ground arith in
      simp (pop, quiet) refl

  notify_fires :
      (t : Tick) (c : TimerCpu)
      → c.timer_pop + 1 ≡ timer_count
      → oprofile_hrtimer_notify timer_count t c ≡ record c {
        timer_pop = 0;
        start_timestamp = t.restart;
        ring = log_tick c.start_timestamp t c.ring;
      }
  unfolding oprofile_hrtimer_notify
  notify_fires t c h =
      let pop : (c.timer_pop + 1) % uint_mod ≡ timer_count = omega arith in
      let fires : leb timer_count (int_to_ulong timer_count) ≡ true = ground arith in
      simp (pop, fires) refl

  silent_lem :
      (ts rest : List Tick) (c : TimerCpu)
      → c.timer_pop + length ts < timer_count
      → ticks timer_count (ts ++ rest) c
        ≡ ticks timer_count rest (record c { timer_pop = c.timer_pop + length ts })
  unfolding ticks
  silent_lem [] rest c h =
      ap (λ n. ticks timer_count rest (record c { timer_pop = n })) (omega arith)
  silent_lem (t ∷ ts) rest c h =
      ap (ticks timer_count (ts ++ rest)) (notify_silent t c (omega arith))
      ∙ (silent_lem ts rest (record c { timer_pop = c.timer_pop + 1 }) (omega arith)
          ∙ ap (λ n. ticks timer_count rest (record c { timer_pop = n })) (omega arith))

  period_lem :
      (p : Period) (rest : List Tick) (c : TimerCpu)
      → c.timer_pop ≡ 0
      → length p.silent + 1 ≡ timer_count
      → ticks timer_count (p.silent ++ (p.last ∷ rest)) c
        ≡ ticks timer_count rest (record c {
          timer_pop = 0;
          start_timestamp = p.last.restart;
          ring = log_tick c.start_timestamp p.last c.ring;
        })
  unfolding ticks
  period_lem p rest c fresh whole =
      silent_lem p.silent (p.last ∷ rest) c (omega arith)
      ∙ ap (ticks timer_count rest) (
          notify_fires p.last (record c { timer_pop = c.timer_pop + length p.silent })
            (omega arith))

  -- From a start of the timer on, for a count below 2 ^ 31, whatever the number of ticks: every
  -- `oprofile_timer_count` ticks log one sample, which spans from where the one before ended (the first
  -- from the start) to the tick that logs it; the ticks of a period that is not over log nothing
  -- and are counted in `timer_pop`.
  pub ticks_lem :
      (ps : List Period) (rest : List Tick) (c : TimerCpu)
      → AllPeriods timer_count ps
      → length rest < timer_count
      → c.timer_pop ≡ 0
      → ticks timer_count (ticks_of ps rest) c ≡ (
          let (start, ring) = sampled ps c.start_timestamp c.ring in
          record c { timer_pop = length rest; start_timestamp = start; ring = ring })
  unfolding ticks
  ticks_lem [] rest c whole short fresh =
      let ended : ticks timer_count (rest ++ []) c
          ≡ record c { timer_pop = c.timer_pop + length rest } =
        silent_lem rest [] c (omega arith) in
      subst (λ (l : List Tick). ticks timer_count l c ≡ record c { timer_pop = length rest })
        (append-nil rest) (ended ∙ ap (λ n. record c { timer_pop = n }) (omega arith))
  ticks_lem (p ∷ ps) rest c (whole, wholes) short fresh =
      period_lem p (ticks_of ps rest) c fresh whole
      ∙ ticks_lem ps rest
          (record c {
            timer_pop = 0;
            start_timestamp = p.last.restart;
            ring = log_tick c.start_timestamp p.last c.ring;
          })
          wholes short refl
