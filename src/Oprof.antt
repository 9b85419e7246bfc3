-- ===== src/Oprof.antt =====
-- driver/oprof.c: the life cycle of the driver. `start_sem` has no counterpart: a function that holds
-- it is one step. `CONFIG_OPROFILE_EVENT_MULTIPLEX` is not defined, so the switch worker is empty.
pub mod Session
pub mod Files
pub mod Init
pub mod Frozen
pub mod Phase
pub mod Reach
pub mod Drained
pub mod Lifecycle
pub mod Setup
use rrprofile.Prelude.{
  ℕ, ◌*◌, ◌%◌, List, [], ◌∷◌, Bool, true, false, not, ◌==◌, ◌&&◌, if◌then◌else◌, leb, ltb, Option,
  none, some, ulong_mod,
}
use rrprofile.Codes.{
  escape_code, rr_adapt_sampling_interval_code, adapt_decay_factor, ebusy, einval,
}
use rrprofile.CpuBuffer.{OprofileCpuBuffer, OpSample}
use rrprofile.Stats.{oprofile_reset_stats}
use rrprofile.EventBuffer.{
  EventBuffer, add_event_entry, wake_up_buffer_waiter, alloc_event_buffer, free_event_buffer,
}
use rrprofile.BufferSync.{Buffers, sync_buffer}
use rrprofile.CpuBuffers.{alloc_cpu_buffers, free_cpu_buffers, start_cpu_work, end_cpu_work}

-- What the callbacks of the architecture change: its own state, and the CPU buffers, into which they
-- log.
pub record Machine (A : Type 0) : Type 0 where
  pub arch : A
  pub rings : List OprofileCpuBuffer

-- `struct oprofile_operations`; a pointer that may be NULL is an option. `backtrace` and `cpu_type`
-- are said to be there or not.
pub record OprofileOperations (A : Type 0) : Type 0 where
  pub setup : Option (Machine A → Machine A × ℕ)
  pub shutdown : Option (Machine A → Machine A)
  pub start : Machine A → Machine A × ℕ
  pub stop : Machine A → Machine A
  pub sync_start : Option (Machine A → Machine A × ℕ)
  pub sync_stop : Option (Machine A → Machine A × ℕ)
  pub adapt : Option (Machine A → Machine A × ℕ)
  pub backtrace : Bool
  pub cpu_type : Bool

-- The variables of oprof.c and the three sizes of oprofile_files.c, with the buffers and the
-- architecture.
pub record Driver (A : Type 0) : Type 0 where
  pub buffers : Buffers
  pub arch : A
  pub oprofile_ops : OprofileOperations A
  pub arch_ops : OprofileOperations A
  pub timer_ops : OprofileOperations A
  pub oprofile_started : ℕ
  pub is_setup : ℕ
  pub oprofile_backtrace_depth : ℕ
  pub oprofile_timer_count : ℕ
  pub oprofile_adapt_value : ℕ
  pub oprofile_buffer_size : ℕ
  pub oprofile_cpu_buffer_size : ℕ
  pub oprofile_buffer_watershed : ℕ

-- the loop of `sync_buffer` over the CPUs that are online
abbrev pub sync_all : List ℕ → Buffers → Buffers
sync_all [] g = g
sync_all (i ∷ online) g = sync_all online (sync_buffer g i)

-- the three words that announce the sampling interval
unfoldable pub add_interval : ℕ → EventBuffer → EventBuffer
add_interval value e =
    add_event_entry
      (add_event_entry (add_event_entry e escape_code) rr_adapt_sampling_interval_code) value

module _ {A : Type 0} where
  -- Updates of one part of the driver.
  abbrev pub on_event : (EventBuffer → EventBuffer) → Driver A → Driver A
  on_event f d = let g = d.buffers in record d { buffers = record g { event = f g.event } }

  abbrev pub on_cpus : (List OprofileCpuBuffer → List OprofileCpuBuffer) → Driver A → Driver A
  on_cpus f d = let g = d.buffers in record d { buffers = record g { cpu_buffer = f g.cpu_buffer } }

  abbrev pub on_buffers : (Buffers → Buffers) → Driver A → Driver A
  on_buffers f d = record d { buffers = f d.buffers }

  abbrev pub machine : Driver A → Machine A
  machine d = record { arch = d.arch; rings = d.buffers.cpu_buffer }

  abbrev pub with_machine : Driver A → Machine A → Driver A
  with_machine d m =
      let g = d.buffers in record d { arch = m.arch; buffers = record g { cpu_buffer = m.rings } }

  -- a call of a callback that returns an int, and of one that returns nothing
  abbrev pub call : (Machine A → Machine A × ℕ) → Driver A → Driver A × ℕ
  call f d = let (m, ret) = f (machine d) in (with_machine d m, ret)

  abbrev pub run : (Machine A → Machine A) → Driver A → Driver A
  run f d = with_machine d (f (machine d))

  abbrev pub run_optional : Option (Machine A → Machine A) → Driver A → Driver A
  run_optional none d = d
  run_optional (some f) d = run f d

  abbrev pub clear_dump : Driver A → Driver A
  clear_dump = on_event (λ e. record e { buffer_dump = 0 })

  -- The kernel's allocators, and its `HZ`.
  module _ (vmalloc : ℕ → Option (List ℕ)) (vmalloc_node : ℕ → ℕ → Option (List OpSample))
      (hz : ℕ) where
    -- the labels of `oprofile_setup`, from the last to the first, and its successful end
    unfoldable pub setup_out : Driver A → ℕ → Driver A × ℕ
    setup_out d err = (clear_dump d, err)

    unfoldable pub setup_out1 : Driver A → ℕ → Driver A × ℕ
    setup_out1 d err = setup_out (on_cpus free_cpu_buffers d) err

    unfoldable pub setup_out2 : Driver A → ℕ → Driver A × ℕ
    setup_out2 d err = setup_out1 (on_event free_event_buffer d) err

    unfoldable pub setup_out3 : Driver A → ℕ → Driver A × ℕ
    setup_out3 d err = setup_out2 (run_optional d.oprofile_ops.shutdown d) err

    unfoldable pub post_sync : Driver A → Driver A × ℕ
    post_sync d = (clear_dump (record d { is_setup = 1 }), 0)

    -- `do_generic`; `sync_start` of buffer_sync.c starts the work and returns 0
    unfoldable pub do_generic : Driver A → Driver A × ℕ
    do_generic d = post_sync (on_buffers (start_cpu_work hz) d)

    -- from `if (oprofile_ops.sync_start)` on, with what `err` holds then
    unfoldable pub setup_sync : Driver A → ℕ → Driver A × ℕ
    setup_sync d err = elim d.oprofile_ops.sync_start [
      | none ↦ do_generic d
      | some f ↦
          let (d', sync_ret) = call f d in
          if sync_ret == 0
          then post_sync d'
          else if sync_ret == 1
          then do_generic d'
          else setup_out3 d' err
    ]

    -- from `if (oprofile_ops.setup && ...)` on
    unfoldable pub setup_arch : Driver A → Driver A × ℕ
    setup_arch d = elim d.oprofile_ops.setup [
      | none ↦ setup_sync d 0
      | some f ↦
          let (d', err) = call f d in if err == 0 then setup_sync d' err else setup_out2 d' err
    ]

    unfoldable pub oprofile_setup : Driver A → Driver A × ℕ
    oprofile_setup d =
        let (cpus, err) =
          alloc_cpu_buffers vmalloc_node d.oprofile_cpu_buffer_size d.buffers.cpu_buffer in
        let d₁ = on_cpus (λ _. cpus) d in
        if not (err == 0)
        then setup_out d₁ err
        else (let (event, err') =
              alloc_event_buffer vmalloc d.oprofile_buffer_size d.oprofile_buffer_watershed
                d.buffers.event in
            let d₂ = on_event (λ _. event) d₁ in
            if not (err' == 0) then setup_out1 d₂ err' else setup_arch d₂)

  -- `oprofile_reset_stats` on the driver
  abbrev pub reset_stats : Driver A → Driver A
  reset_stats d =
      let g = d.buffers in
      let e = g.event in
      let (cpus, stats) = oprofile_reset_stats g.cpu_buffer e.stats in
      record d { buffers = record g { cpu_buffer = cpus; event = record e { stats = stats } } }

  unfoldable pub oprofile_start : Driver A → Driver A × ℕ
  oprofile_start d =
      if d.is_setup == 0
      then (d, einval)
      else if not (d.oprofile_started == 0)
      then (d, 0)
      else (let reset = record (reset_stats d) { oprofile_adapt_value = 1 } in
          let (d', err) = call d.oprofile_ops.start (on_event (add_interval 1) reset) in
          if not (err == 0)
          then (d', err)
          else (clear_dump (record d' { oprofile_started = 1 }), 0))

  unfoldable pub oprofile_stop : Driver A → Driver A
  oprofile_stop d =
      if d.oprofile_started == 0
      then d
      else (let stopped = record (run d.oprofile_ops.stop d) { oprofile_started = 0 } in
          let synced = on_buffers (sync_all d.buffers.online) stopped in
          on_event (λ e. wake_up_buffer_waiter (add_interval d.oprofile_adapt_value e)) synced)

  -- the end of `oprofile_adapt`: the counters are started again
  unfoldable pub adapt_restart : Driver A → Driver A × ℕ
  adapt_restart d =
      let (d', err) = call d.oprofile_ops.start d in
      if err == 0 then (d', 0) else (record d' { oprofile_started = 0 }, err)

  -- `oprofile_adapt` from `if(!oprofile_ops.adapt)` on
  unfoldable pub adapt_counters : Option (Machine A → Machine A × ℕ) → Driver A → Driver A × ℕ
  adapt_counters none d = (d, einval)
  adapt_counters (some adapt) d =
      let (d', changed) = call adapt d in
      let value = (d'.oprofile_adapt_value * adapt_decay_factor) % ulong_mod in
      adapt_restart (
        if changed == 0
        then d'
        else on_event (add_interval value) (record d' { oprofile_adapt_value = value }))

  unfoldable pub oprofile_adapt : Driver A → Driver A × ℕ
  oprofile_adapt d =
      if d.oprofile_started == 0
      then (d, einval)
      else adapt_counters d.oprofile_ops.adapt
          (on_buffers (sync_all d.buffers.online) (run d.oprofile_ops.stop d))

  -- from `post_sync` of `oprofile_shutdown` on
  unfoldable pub shutdown_post : Driver A → Driver A
  shutdown_post d =
      let d' = record (run_optional d.oprofile_ops.shutdown d) { is_setup = 0 } in
      on_cpus free_cpu_buffers (on_event free_event_buffer d')

  -- `sync_stop` of buffer_sync.c ends the work
  unfoldable pub oprofile_shutdown : Driver A → Driver A
  oprofile_shutdown d = elim d.oprofile_ops.sync_stop [
    | none ↦ shutdown_post (on_buffers end_cpu_work d)
    | some f ↦
        let (d', sync_ret) = call f d in
        shutdown_post (if sync_ret == 1 then on_buffers end_cpu_work d' else d')
  ]

  -- `oprofile_set_ulong`, with the assignment to `*addr` as a function
  unfoldable pub oprofile_set_ulong : (ℕ → Driver A → Driver A) → ℕ → Driver A → Driver A × ℕ
  oprofile_set_ulong assign val d =
      if d.oprofile_started == 0 then (assign val d, 0) else (d, ebusy)

  unfoldable pub oprofile_set_oprofile_timer_count : ℕ → Driver A → Driver A × ℕ
  oprofile_set_oprofile_timer_count val d =
      if not (d.oprofile_started == 0)
      then (d, ebusy)
      else if val == 0 && d.arch_ops.cpu_type
      then (record d { oprofile_ops = d.arch_ops; oprofile_timer_count = 0 }, 0)
      else (record d { oprofile_ops = d.timer_ops; oprofile_timer_count = val }, 0)
