-- ===== src/Oprof/Reach/Kept.antt =====
-- What single calls of the driver keep of the event buffer and of the delayed work.
use rrprofile.Prelude.{
  ltb, Option-cases, ℕ, ◌<◌, ◌≡◌, refl, arith, List, Bool, ◌==◌, inl, inr, not, ◌&&◌, get_or, set,
  ulong_mod, Bool-cases,
}
use rrprofile.EventBuffer.{EventBuffer, event_buffer_read}
use rrprofile.BufferSync.{Buffers, sync_buffer, no_buffer, cpu_isset}
use rrprofile.BufferSync.Kept.{IsOpenLog, sync_buffer-IsOpenLog}
use rrprofile.CpuBuffers.{cancel, wq_sync_buffer, run_work, reschedule}
use rrprofile.Oprof.Files.{UserWrite, oprofilefs_ulong_from_user}

pub reads-IsOpenLog :
    (e : EventBuffer) (count offset : ℕ) (signal unmapped : Bool)
    → IsOpenLog 1 e
    → IsOpenLog 1 (event_buffer_read e count offset signal unmapped).0
unfolding event_buffer_read
reads-IsOpenLog e count offset signal unmapped h = ground arith

pub reschedule-frame :
    (hz cpu : ℕ) (g : Buffers)
    → ((reschedule hz cpu g).event ≡ g.event)
      × ((reschedule hz cpu g).work_enabled ≡ g.work_enabled)
unfolding reschedule
reschedule-frame hz cpu g = elim (Bool-cases (g.work_enabled == 0)) [
  | inl idle ↦ rw idle (refl, refl)
  | inr busy ↦ rw busy (refl, refl)
]

-- `g'` has a session's event buffer, with as much work as `g`.
pub record IsKept (g g' : Buffers) : Type 0 where
  pub event : IsOpenLog 1 g'.event
  pub work : g'.work_enabled ≡ g.work_enabled

pub run_work-IsKept :
    (hz processor cpu own : ℕ) (g : Buffers)
    → IsOpenLog 1 g.event
    → IsKept g (run_work hz processor cpu own g)
unfolding run_work sync_buffer
run_work-IsKept hz processor cpu own g h =
    let synced = sync_buffer g own in
    let (event, work) = reschedule-frame hz cpu synced in
    elim (Bool-cases (not (own == processor) && not (cpu_isset own g.online))) [
      | inl away ↦ rw away (record { event = h; work = refl })
      | inr stays ↦
          rw stays (record { event = rw event (sync_buffer-IsOpenLog 1 g own h); work = work })
    ]

pub works-IsKept :
    (hz processor cpu : ℕ) (g : Buffers)
    → IsOpenLog 1 g.event
    → IsKept g (wq_sync_buffer hz processor cpu g)
unfolding wq_sync_buffer
works-IsKept hz processor cpu g h =
    let b = get_or g.cpu_buffer cpu no_buffer in
    let taken : Buffers = record g { cpu_buffer = set g.cpu_buffer cpu (cancel b) } in
    let k = run_work-IsKept hz processor cpu b.cpu taken h in
    record { event = k.event; work = k.work }

pub from_user_small :
    (simple_strtoul : List ℕ → ℕ) (w : UserWrite)
    → ((text : List ℕ) → simple_strtoul text < ulong_mod)
    → w.stack < ulong_mod
    → (oprofilefs_ulong_from_user simple_strtoul w).0 < ulong_mod
unfolding oprofilefs_ulong_from_user
from_user_small simple_strtoul w small h = elim (Bool-cases (w.count == 0)) [
  | inl empty ↦ rw empty h
  | inr some_text ↦ elim (Bool-cases (ltb 49 w.count)) [
    | inl long ↦ rw (some_text, long) h
    | inr fits ↦ elim (Option-cases w.user) [
      | inl fault ↦ rw (some_text, fits, fault, oprofilefs_ulong_from_user) h
      | inr text ↦ rw (some_text, fits, text.1, oprofilefs_ulong_from_user) (small _)
    ]
  ]
]
