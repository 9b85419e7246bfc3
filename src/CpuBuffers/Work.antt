-- ===== src/CpuBuffers/Work.antt =====
-- The delayed work of driver/cpu_buffer.c: when a CPU's work is pending.
use rrprofile.Prelude.{
  ℕ, zero, suc, ◌/◌, ◌<◌, ◌≡◌, refl, ap, ◌∙◌, arith, List, [], ◌∷◌, true, not, ◌==◌, ==_iff, ◌&&◌,
  ◌||◌, if◌then◌else◌, get_or, set, get_or-set_self, length, length-set, Option, none, some,
  Bool-cases, inl, inr,
}
use rrprofile.CpuBuffer.{OprofileCpuBuffer, cpu_buffer_reset}
use rrprofile.EventBuffer.{EventBuffer}
use rrprofile.BufferSync.{
  Sync, Buffers, no_buffer, cpu_isset, get_slots, increment_tail, sync_loop, drain, sync_buffer,
}
use rrprofile.CpuBuffers.{
  for_each, cancel, schedule, reschedule, end_cpu_work, run_work, wq_sync_buffer,
}

-- the work of CPU `i`
abbrev pub work_of : List OprofileCpuBuffer → ℕ → Option ℕ
work_of cpus i = (get_or cpus i no_buffer).work

work_of-set-cancel :
    (cpus : List OprofileCpuBuffer) (j : ℕ)
    → work_of (set cpus j (cancel (get_or cpus j no_buffer))) j ≡ none
work_of-set-cancel [] zero = refl
work_of-set-cancel [] (suc j) = refl
work_of-set-cancel (b ∷ cpus) zero = refl
work_of-set-cancel (b ∷ cpus) (suc j) = work_of-set-cancel cpus j

-- Cancelling a work leaves one that is not pending as it is.
work_of-set_idle :
    (cpus : List OprofileCpuBuffer) (i j : ℕ)
    → work_of cpus i ≡ none
    → work_of (set cpus j (cancel (get_or cpus j no_buffer))) i ≡ none
work_of-set_idle [] i j h = h
work_of-set_idle (b ∷ cpus) zero zero h = refl
work_of-set_idle (b ∷ cpus) zero (suc j) h = h
work_of-set_idle (b ∷ cpus) (suc i) zero h = h
work_of-set_idle (b ∷ cpus) (suc i) (suc j) h = work_of-set_idle cpus i j h

cancel-idle :
    (online : List ℕ) (cpus : List OprofileCpuBuffer) (i : ℕ)
    → work_of cpus i ≡ none
    → work_of (for_each online (λ j. cancel) cpus) i ≡ none
cancel-idle [] cpus i h = h
cancel-idle (j ∷ online) cpus i h = cancel-idle online _ i (work_of-set_idle cpus i j h)

cancel-online :
    (online : List ℕ) (cpus : List OprofileCpuBuffer) (i : ℕ)
    → cpu_isset i online ≡ true
    → work_of (for_each online (λ j. cancel) cpus) i ≡ none
cancel-online [] cpus i h = absurd (cc h)
cancel-online (j ∷ online) cpus i h = elim (Bool-cases (i == j)) [
  | inl same ↦
      let e : i ≡ j = (==_iff i j).0 same in
      cancel-idle online _ i (rw e (work_of-set-cancel cpus j))
  | inr other ↦ cancel-online online _ i (ground arith)
]

get_slots-work : (b : OprofileCpuBuffer) → (get_slots b).0.work ≡ b.work
unfolding get_slots cpu_buffer_reset
get_slots-work b = refl

increment_tail-work : (b : OprofileCpuBuffer) → (increment_tail b).work ≡ b.work
unfolding increment_tail
increment_tail-work b = ground arith

sync_loop-work : (n : ℕ) (y : Sync) (b : OprofileCpuBuffer) → (sync_loop n y b).1.work ≡ b.work
unfolding sync_loop
sync_loop-work zero y b = refl
sync_loop-work (suc n) y b = sync_loop-work n _ (increment_tail b) ∙ increment_tail-work b

drain-work : (cpu : ℕ) (e : EventBuffer) (b : OprofileCpuBuffer) → (drain cpu e b).1.work ≡ b.work
unfolding drain
drain-work cpu e b = sync_loop-work _ _ (get_slots b).0 ∙ get_slots-work b

-- After `end_cpu_work` no CPU that is online has its work pending.
end_cpu_work_lem :
    (g : Buffers) (i : ℕ)
    → cpu_isset i g.online ≡ true
    → work_of (end_cpu_work g).cpu_buffer i ≡ none
unfolding end_cpu_work
end_cpu_work_lem g i h = cancel-online g.online g.cpu_buffer i h

-- the work of a CPU whose buffer is drained
sync_buffer-work :
    (g : Buffers) (cpu : ℕ)
    → cpu < length g.cpu_buffer
    → work_of (sync_buffer g cpu).cpu_buffer cpu ≡ work_of g.cpu_buffer cpu
unfolding sync_buffer
sync_buffer-work g cpu h =
    ap (λ b. b.work) (get_or-set_self g.cpu_buffer cpu _ no_buffer h)
    ∙ drain-work cpu g.event (get_or g.cpu_buffer cpu no_buffer)

schedule-work :
    (delay : ℕ) (b : OprofileCpuBuffer) → b.work ≡ none → (schedule delay b).work ≡ some delay
schedule-work delay b h = rw (h, schedule) refl

reschedule-work :
    (hz cpu : ℕ) (g : Buffers)
    → cpu < length g.cpu_buffer
    → work_of g.cpu_buffer cpu ≡ none
    → work_of (reschedule hz cpu g).cpu_buffer cpu
      ≡ (if not (g.work_enabled == 0) then some (hz / 10) else none)
unfolding reschedule
reschedule-work hz cpu g h idle = elim (Bool-cases (g.work_enabled == 0)) [
  | inl disabled ↦ rw disabled idle
  | inr enabled ↦
      let b = get_or g.cpu_buffer cpu no_buffer in
      rw enabled (
        ap (λ b. b.work) (get_or-set_self g.cpu_buffer cpu (schedule (hz / 10) b) no_buffer h)
        ∙ schedule-work (hz / 10) b idle)
]

sync_buffer-frame :
    (g : Buffers) (cpu : ℕ)
    → ((sync_buffer g cpu).work_enabled ≡ g.work_enabled)
      × (length (sync_buffer g cpu).cpu_buffer ≡ length g.cpu_buffer)
unfolding sync_buffer
sync_buffer-frame g cpu = (refl, length-set g.cpu_buffer cpu _)

run_work-work :
    (hz processor cpu own : ℕ) (g : Buffers)
    → own ≡ cpu
    → cpu < length g.cpu_buffer
    → work_of g.cpu_buffer cpu ≡ none
    → work_of (run_work hz processor cpu own g).cpu_buffer cpu ≡ (
        if (cpu == processor || cpu_isset cpu g.online) && not (g.work_enabled == 0)
        then some (hz / 10)
        else none)
unfolding run_work sync_buffer
run_work-work hz processor cpu own g e h idle =
    let frame = sync_buffer-frame g cpu in
    let sized : cpu < length (sync_buffer g cpu).cpu_buffer = omega (arith, h, frame.1) in
    let again =
      reschedule-work hz cpu (sync_buffer g cpu) sized (sync_buffer-work g cpu h ∙ idle) in
    rw e (elim (Bool-cases (cpu == processor)) [
      | inl same ↦ rw same again
      | inr other ↦ elim (Bool-cases (cpu_isset cpu g.online)) [
        | inl online ↦ rw (other, online) again
        | inr offline ↦ rw (other, offline) idle
      ]
    ])

-- For a buffer that carries its own CPU: once the work of the CPU is done it is pending again, after a
-- tenth of a second, exactly if the work is enabled and either the CPU is online or the work ran on it.
pub wq_sync_buffer_lem :
    (hz processor cpu : ℕ) (g : Buffers)
    → cpu < length g.cpu_buffer
    → (get_or g.cpu_buffer cpu no_buffer).cpu ≡ cpu
    → work_of (wq_sync_buffer hz processor cpu g).cpu_buffer cpu ≡ (
        if (cpu == processor || cpu_isset cpu g.online) && not (g.work_enabled == 0)
        then some (hz / 10)
        else none)
unfolding wq_sync_buffer
wq_sync_buffer_lem hz processor cpu g h own =
    let here = get_or g.cpu_buffer cpu no_buffer in
    let taken : Buffers = record g { cpu_buffer = set g.cpu_buffer cpu (cancel here) } in
    run_work-work hz processor cpu here.cpu taken own
      (omega (arith, h, length-set g.cpu_buffer cpu (cancel here)))
      (work_of-set-cancel g.cpu_buffer cpu)
