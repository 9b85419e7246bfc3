-- ===== src/Oprof/Phase.antt =====
-- The two phases of the driver (driver/oprof.c, driver/event_buffer.c): no session, or a session of the
-- daemon; and which functions stay in which phase.
pub mod Begins
pub mod Ends
use rrprofile.Prelude.{
  ℕ, ◌+◌, ◌*◌, ◌%◌, ◌<◌, ◌≤◌, ◌≡◌, ◌≢◌, refl, sym, ap, ◌∙◌, arith, List, [], ◌∷◌, Bool, true, false,
  ◌==◌, not, if◌then◌else◌, Option, none, some, ◌⊎◌, inl, inr, length, ulong_mod, Bool-cases,
  Option-cases,
}
use rrprofile.Codes.{adapt_decay_factor, escape_code, rr_adapt_sampling_interval_code}
use rrprofile.CpuBuffer.{OpSample}
use rrprofile.EventBuffer.{
  EventBuffer, add_event_entry, alloc_event_buffer, free_event_buffer, wake_up_buffer_waiter,
}
use rrprofile.EventBuffer.Log.{IsLog}
use rrprofile.BufferSync.{Buffers, sync_buffer}
use rrprofile.BufferSync.Kept.{IsOpenLog, add_entries-IsOpenLog, sync_buffer-IsOpenLog}
use rrprofile.CpuBuffers.{start_cpu_work, end_cpu_work, alloc_cpu_buffers}
use rrprofile.Oprof.{
  Driver, Machine, OprofileOperations, machine, with_machine, sync_all, add_interval, run_optional,
  reset_stats, on_event, setup_out, setup_out1, setup_out2, setup_sync, setup_arch, do_generic,
  post_sync, oprofile_setup, oprofile_start, oprofile_stop, oprofile_adapt, adapt_restart,
  adapt_counters, oprofile_shutdown, shutdown_post,
}

pub sync_all-frame :
    (online : List ℕ) (g : Buffers)
    → IsOpenLog 1 g.event
    → IsOpenLog 1 (sync_all online g).event × ((sync_all online g).work_enabled ≡ g.work_enabled)
unfolding sync_buffer
sync_all-frame [] g h = (h, refl)
sync_all-frame (i ∷ online) g h =
    sync_all-frame online (sync_buffer g i) (sync_buffer-IsOpenLog 1 g i h)

pub add_interval-IsOpenLog :
    (value : ℕ) (e : EventBuffer) → IsOpenLog 1 e → IsOpenLog 1 (add_interval value e)
unfolding add_interval
add_interval-IsOpenLog value e h =
    add_entries-IsOpenLog 1 e (escape_code ∷ rr_adapt_sampling_interval_code ∷ value ∷ []) h

-- Only the flags and the counters of the event buffer differ.
pub IsOpenLog-flags :
    (e f : EventBuffer)
    → f.event_buffer ≡ e.event_buffer
    → f.buffer_size ≡ e.buffer_size
    → f.buffer_watershed ≡ e.buffer_watershed
    → f.buffer_pos ≤ e.buffer_pos
    → f.buffer_opened ≡ e.buffer_opened
    → IsOpenLog 1 e
    → IsOpenLog 1 f
IsOpenLog-flags e f array size shed pos opened h = record {
  log = record {
    storage = ap length array ∙ h.log.storage ∙ sym size;
    pos_in = omega (arith, h.log.pos_in);
    shed = omega (arith, h.log.shed);
    small = omega (arith, h.log.small);
  };
  flag = opened ∙ h.flag;
}

module _ {A : Type 0} where
  -- Callbacks of an architecture that leaves `sync_start` and `sync_stop` NULL, as all do that call
  -- `oprofile_timer_init` or `op_nmi_init`.
  pub record IsGeneric (ops : OprofileOperations A) : Type 0 where
    pub sync_start : ops.sync_start ≡ none
    pub sync_stop : ops.sync_stop ≡ none

  -- No session: nothing is set up, nothing runs, no event buffer is there, and no work is enabled.
  pub record IsClosed (opened : ℕ) (d : Driver A) : Type 0 where
    pub setup : d.is_setup ≡ 0
    pub started : d.oprofile_started ≡ 0
    pub flag : d.buffers.event.buffer_opened ≡ opened
    pub unset : d.buffers.event.event_buffer ≡ []
    pub pos : d.buffers.event.buffer_pos ≡ 0
    pub work : d.buffers.work_enabled ≡ 0

  -- A session: set up, with a well-formed event buffer and the work enabled.
  pub record IsOpen (d : Driver A) : Type 0 where
    pub setup : d.is_setup ≡ 1
    pub event : IsOpenLog 1 d.buffers.event
    pub work : d.buffers.work_enabled ≡ 1

  -- What no function of the driver changes but those that configure it.
  pub record SameConfig (d d' : Driver A) : Type 0 where
    pub ops : d'.oprofile_ops ≡ d.oprofile_ops
    pub arch : d'.arch_ops ≡ d.arch_ops
    pub timer : d'.timer_ops ≡ d.timer_ops
    pub size : d'.oprofile_buffer_size ≡ d.oprofile_buffer_size

  abbrev pub same_config : (d : Driver A) → SameConfig d d
  same_config d = record { ops = refl; arch = refl; timer = refl; size = refl }

  pub oprofile_start-IsOpen :
      (d : Driver A) → IsOpen d → IsOpen (oprofile_start d).0 × SameConfig d (oprofile_start d).0
  unfolding oprofile_start
  oprofile_start-IsOpen d h =
      let up : (d.is_setup == 0) ≡ false = ground arith in
      let e = d.buffers.event in
      let e' : EventBuffer = record e { stats = (reset_stats d).buffers.event.stats } in
      let said =
        add_interval-IsOpenLog 1 e'
          (IsOpenLog-flags e e' refl refl refl (omega arith) refl h.event) in
      let f = add_interval 1 e' in
      let cleared : IsOpenLog 1 (record f { buffer_dump = 0 }) =
        IsOpenLog-flags f (record f { buffer_dump = 0 }) refl refl refl (omega arith) refl said in
      elim (Bool-cases (d.oprofile_started == 0)) [
        | inr running ↦ rw (up, running) (h, same_config d)
        | inl idle ↦
            let reset = record (reset_stats d) { oprofile_adapt_value = 1 } in
            let m : Machine A = machine (on_event (add_interval 1) reset) in
            elim (Bool-cases ((d.oprofile_ops.start m).1 == 0)) [
              | inl fine ↦
                  rw (up, idle, fine)
                    (
                      record { setup = h.setup; event = cleared; work = h.work },
                      record { ops = refl; arch = refl; timer = refl; size = refl },
                    )
              | inr failed ↦
                  rw (up, idle, failed)
                    (
                      record { setup = h.setup; event = said; work = h.work },
                      record { ops = refl; arch = refl; timer = refl; size = refl },
                    )
            ]
      ]

  pub oprofile_stop-IsOpen :
      (d : Driver A)
      → IsOpen d
      → IsOpen (oprofile_stop d)
        × SameConfig d (oprofile_stop d)
        × ((oprofile_stop d).oprofile_started ≡ 0)
  unfolding oprofile_stop wake_up_buffer_waiter
  oprofile_stop-IsOpen d h =
      let g = d.buffers in
      let m = d.oprofile_ops.stop (machine d) in
      let stopped : Buffers = record g { cpu_buffer = m.rings } in
      let (log, work) = sync_all-frame g.online stopped h.event in
      let said =
        add_interval-IsOpenLog d.oprofile_adapt_value (sync_all g.online stopped).event log in
      let f = add_interval d.oprofile_adapt_value (sync_all g.online stopped).event in
      let woken =
        IsOpenLog-flags f (wake_up_buffer_waiter f) refl refl refl (omega arith) refl said in
      elim (Bool-cases (d.oprofile_started == 0)) [
        | inl idle ↦ let e : d.oprofile_started ≡ 0 = ground arith in rw idle (h, same_config d, e)
        | inr running ↦ rw running (
          record { setup = h.setup; event = woken; work = work ∙ h.work },
          record { ops = refl; arch = refl; timer = refl; size = refl },
          refl,
        )
      ]

  pub adapt_restart-IsOpen :
      (d : Driver A) → IsOpen d → IsOpen (adapt_restart d).0 × SameConfig d (adapt_restart d).0
  unfolding adapt_restart
  adapt_restart-IsOpen d h = elim (Bool-cases ((d.oprofile_ops.start (machine d)).1 == 0)) [
    | inl fine ↦ rw fine (
      record { setup = h.setup; event = h.event; work = h.work },
      record { ops = refl; arch = refl; timer = refl; size = refl },
    )
    | inr failed ↦ rw failed (
      record { setup = h.setup; event = h.event; work = h.work },
      record { ops = refl; arch = refl; timer = refl; size = refl },
    )
  ]

  pub SameConfig-trans : {d e f : Driver A} → SameConfig d e → SameConfig e f → SameConfig d f
  SameConfig-trans p q = record {
    ops = q.ops ∙ p.ops;
    arch = q.arch ∙ p.arch;
    timer = q.timer ∙ p.timer;
    size = q.size ∙ p.size;
  }

  adapt_counters-IsOpen :
      (o : Option (Machine A → Machine A × ℕ)) (d : Driver A)
      → IsOpen d
      → IsOpen (adapt_counters o d).0 × SameConfig d (adapt_counters o d).0
  unfolding adapt_counters
  adapt_counters-IsOpen none d h = (h, same_config d)
  adapt_counters-IsOpen (some f) d h =
      let m = (f (machine d)).0 in
      let called = with_machine d m in
      let value = (d.oprofile_adapt_value * adapt_decay_factor) % ulong_mod in
      let told = on_event (add_interval value) (record called { oprofile_adapt_value = value }) in
      let said = add_interval-IsOpenLog value d.buffers.event h.event in
      elim (Bool-cases ((f (machine d)).1 == 0)) [
        | inl same ↦
            let (o, c) =
              adapt_restart-IsOpen called
                (record { setup = h.setup; event = h.event; work = h.work }) in
            rw same (
              o,
              SameConfig-trans (record { ops = refl; arch = refl; timer = refl; size = refl }) c,
            )
        | inr changed ↦
            let (o, c) =
              adapt_restart-IsOpen told (record { setup = h.setup; event = said; work = h.work }) in
            rw changed (
              o,
              SameConfig-trans (record { ops = refl; arch = refl; timer = refl; size = refl }) c,
            )
      ]

  pub oprofile_adapt-IsOpen :
      (d : Driver A) → IsOpen d → IsOpen (oprofile_adapt d).0 × SameConfig d (oprofile_adapt d).0
  unfolding oprofile_adapt
  oprofile_adapt-IsOpen d h =
      let g = d.buffers in
      let m = d.oprofile_ops.stop (machine d) in
      let stopped : Buffers = record g { cpu_buffer = m.rings } in
      let (log, work) = sync_all-frame g.online stopped h.event in
      let synced : Driver A = record d { arch = m.arch; buffers = sync_all g.online stopped } in
      let (o, c) =
        adapt_counters-IsOpen d.oprofile_ops.adapt synced
          (record { setup = h.setup; event = log; work = work ∙ h.work }) in
      elim (Bool-cases (d.oprofile_started == 0)) [
        | inl idle ↦ rw idle (h, same_config d)
        | inr running ↦
            rw running (
              o,
              SameConfig-trans (record { ops = refl; arch = refl; timer = refl; size = refl }) c,
            )
      ]
