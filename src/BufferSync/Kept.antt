-- ===== src/BufferSync/Kept.antt =====
-- What every drain of driver/buffer_sync.c keeps of the event buffer, whatever the ring holds.
use rrprofile.Prelude.{ℕ, zero, suc, ◌≡◌, refl, ◌∙◌, List, [], ◌∷◌, ◌==◌, if◌then◌else◌, get_or}
use rrprofile.Codes.{escape_code, cpu_switch_code}
use rrprofile.CpuBuffer.{OpSample, OprofileCpuBuffer, no_sample}
use rrprofile.EventBuffer.{EventBuffer}
use rrprofile.EventBuffer.Log.{IsLog, add_entries, add_entries-IsLog, add_entries-SameFrame}
use rrprofile.BufferSync.{
  Sync, sync_entry, sync_loop, increment_tail, drain, add_cpu_switch, Buffers, sync_buffer,
}
use rrprofile.BufferSync.Transcript.{bumps, bump, bumps-IsLog, sync_entry_lem, words, ends}

-- a well-formed event buffer with that flag of a session
pub record IsOpenLog (opened : ℕ) (e : EventBuffer) : Type 0 where
  pub log : IsLog e
  pub flag : e.buffer_opened ≡ opened

pub add_entries-IsOpenLog :
    (o : ℕ) (e : EventBuffer) (vs : List ℕ) → IsOpenLog o e → IsOpenLog o (add_entries e vs)
add_entries-IsOpenLog o e vs h = record {
  log = add_entries-IsLog e vs h.log;
  flag = (add_entries-SameFrame e vs).opened ∙ h.flag;
}

bumps-opened : (n : ℕ) (e : EventBuffer) → (bumps n e).buffer_opened ≡ e.buffer_opened
bumps-opened zero e = refl
bumps-opened (suc n) e = bumps-opened n (bump e)

bumps-IsOpenLog : (o n : ℕ) (e : EventBuffer) → IsOpenLog o e → IsOpenLog o (bumps n e)
bumps-IsOpenLog o n e h = record { log = bumps-IsLog n e h.log; flag = bumps-opened n e ∙ h.flag }

sync_loop-IsOpenLog :
    (o n : ℕ) (y : Sync) (b : OprofileCpuBuffer)
    → IsOpenLog o y.event
    → IsOpenLog o (sync_loop n y b).0.event
unfolding sync_loop
sync_loop-IsOpenLog o zero y b h = h
sync_loop-IsOpenLog o (suc n) y b h =
    let s : OpSample = get_or b.buffer b.tail_pos no_sample in
    let said = words y.state y.tgid s in
    let ended : ℕ = if s.eip == escape_code then 0 else ends y.state s in
    let step : IsOpenLog o (sync_entry y s).event = rw ((sync_entry_lem y s).0) (
      bumps-IsOpenLog o ended (add_entries y.event said)
        (add_entries-IsOpenLog o y.event said h)) in
    sync_loop-IsOpenLog o n (sync_entry y s) (increment_tail b) step

pub sync_buffer-IsOpenLog :
    (o : ℕ) (g : Buffers) (cpu : ℕ) → IsOpenLog o g.event → IsOpenLog o (sync_buffer g cpu).event
unfolding sync_buffer drain add_cpu_switch
sync_buffer-IsOpenLog o g cpu h =
    sync_loop-IsOpenLog o _ _ _
      (add_entries-IsOpenLog o g.event (escape_code ∷ cpu_switch_code ∷ cpu ∷ []) h)
