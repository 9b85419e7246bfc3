-- ===== src/Oprof/Reach/Sound.antt =====
-- Every step keeps the driver in one of its phases.
use rrprofile.Prelude.{
  ℕ, ◌*◌, ◌/◌, ◌<◌, ◌≡◌, ◌≢◌, refl, ◌∙◌, arith, List, Bool, true, false, ◌==◌, Option, some, inl,
  inr, length, ulong_mod, Bool-cases,
}
use rrprofile.CpuBuffer.{OpSample}
use rrprofile.EventBuffer.{EventBuffer, event_buffer_read, wake_up_buffer_waiter}
use rrprofile.BufferSync.Kept.{IsOpenLog}
use rrprofile.CpuBuffers.{wq_sync_buffer}
use rrprofile.Oprof.{
  Driver, Machine, machine, with_machine, on_event, on_buffers, oprofile_adapt, oprofile_set_ulong,
  oprofile_set_oprofile_timer_count,
}
use rrprofile.Oprof.Session.{event_buffer_open, event_buffer_release}
use rrprofile.Oprof.Files.{
  set_depth, UserWrite, ulong_write_file, depth_write, enable, enable_write, timer_write,
  dump_write, adapt_write,
}
use rrprofile.Oprof.Init.{create_files_defaults}
use rrprofile.Oprof.Phase.{IsClosed, IsOpenLog-flags}
use rrprofile.Oprof.Phase.Begins.{event_buffer_open_lem}
use rrprofile.Oprof.Phase.Ends.{event_buffer_release-IsClosed}
use rrprofile.Oprof.Reach.{
  Step, mounts, opens, releases, reads, dumps, enables, adapts, times, deepens, sizes, watersheds,
  cpu_sizes, works, interrupts, Reach, here, next, IsSound, set_buffer_size, set_buffer_watershed,
  set_cpu_buffer_size,
}
use rrprofile.Oprof.Reach.Kept.{reads-IsOpenLog, works-IsKept, from_user_small}
use rrprofile.Oprof.Reach.Handlers.{
  sound, with_number-keeps, adapt-IsSound, enable-IsSound, timer-IsSound, set-IsSound,
  assigned-IsSound,
}

module _ {A : Type 0} where
  releases-IsSound :
      (d : Driver A)
      → d.buffers.event.buffer_opened ≢ 0
      → IsSound d
      → IsSound (event_buffer_release d)
  releases-IsSound d held h = elim h.phase [
    | inl c ↦ absurd (held c.flag)
    | inr o ↦
        let (c, same) = event_buffer_release-IsClosed d h.ops o in
        sound d (event_buffer_release d) h same (inl c)
  ]

  -- A step on the event buffer that both phases allow.
  on_event-IsSound :
      (f : EventBuffer → EventBuffer) (d : Driver A)
      → (IsClosed 0 d → IsClosed 0 (on_event f d))
      → (IsOpenLog 1 d.buffers.event → IsOpenLog 1 (f d.buffers.event))
      → IsSound d
      → IsSound (on_event f d)
  on_event-IsSound f d closed open_log h = record {
    ops = h.ops;
    arch = h.arch;
    timer = h.timer;
    small = h.small;
    phase = elim h.phase [
      | inl c ↦ inl (closed c)
      | inr o ↦ inr (record { setup = o.setup; event = open_log o.event; work = o.work })
    ];
  }

  dumps-IsSound : (w : UserWrite) (d : Driver A) → IsSound d → IsSound (dump_write w d).0
  unfolding dump_write wake_up_buffer_waiter
  dumps-IsSound w d h =
      on_event-IsSound wake_up_buffer_waiter d
        (λ c. record {
          setup = c.setup;
          started = c.started;
          flag = c.flag;
          unset = c.unset;
          pos = c.pos;
          work = c.work;
        })
        (IsOpenLog-flags d.buffers.event (wake_up_buffer_waiter d.buffers.event) refl refl refl
          (omega arith) refl)
        h

  adapts-IsSound : (w : UserWrite) (d : Driver A) → IsSound d → IsSound (adapt_write w d).0
  unfolding adapt_write
  adapts-IsSound w d h = elim (Bool-cases ((oprofile_adapt d).1 == 0)) [
    | inl fine ↦ rw fine (adapt-IsSound d h)
    | inr failed ↦ rw failed (adapt-IsSound d h)
  ]

  works-IsSound :
      (hz processor cpu : ℕ) (d : Driver A)
      → d.buffers.work_enabled ≢ 0
      → IsSound d
      → IsSound (on_buffers (wq_sync_buffer hz processor cpu) d)
  works-IsSound hz processor cpu d enabled h = elim h.phase [
    | inl c ↦ absurd (enabled c.work)
    | inr o ↦
        let k = works-IsKept hz processor cpu d.buffers o.event in
        record {
          ops = h.ops;
          arch = h.arch;
          timer = h.timer;
          small = h.small;
          phase = inr (record { setup = o.setup; event = k.event; work = k.work ∙ o.work });
        }
  ]

  interrupts-IsSound : (m : Machine A) (d : Driver A) → IsSound d → IsSound (with_machine d m)
  interrupts-IsSound m d h = record {
    ops = h.ops;
    arch = h.arch;
    timer = h.timer;
    small = h.small;
    phase = elim h.phase [
      | inl c ↦ inl (record {
        setup = c.setup;
        started = c.started;
        flag = c.flag;
        unset = c.unset;
        pos = c.pos;
        work = c.work;
      })
      | inr o ↦ inr (record { setup = o.setup; event = o.event; work = o.work })
    ];
  }

-- `vmalloc` returns as many words as the bytes asked for hold, `simple_strtoul` an unsigned long.
module _ {A : Type 0} (vmalloc : ℕ → Option (List ℕ))
    (vmalloc_node : ℕ → ℕ → Option (List OpSample)) (hz : ℕ) (simple_strtoul : List ℕ → ℕ)
    (sized : (n : ℕ) (a : List ℕ) → vmalloc n ≡ some a → length a ≡ n / 8)
    (number : (text : List ℕ) → simple_strtoul text < ulong_mod) where
  opens-IsSound :
      (capable : Bool) (d : Driver A)
      → d.oprofile_buffer_size * 8 < ulong_mod
      → IsSound d
      → IsSound (event_buffer_open vmalloc vmalloc_node hz capable d).0
  unfolding event_buffer_open
  opens-IsSound capable d counted h = elim h.phase [
    | inl c ↦
        let (phase, same) =
          event_buffer_open_lem vmalloc vmalloc_node hz sized capable d h.ops counted c in
        sound d (event_buffer_open vmalloc vmalloc_node hz capable d).0 h same
          (elim phase [ inl o ↦ inr o | inr c' ↦ inl c' ])
    | inr o ↦
        let busy : (d.buffers.event.buffer_opened == 0) ≡ false = ground (arith, o.event.flag) in
        elim (Bool-cases capable) [ inl may ↦ rw (may, busy) h | inr may_not ↦ rw may_not h ]
  ]

  Step-IsSound :
      {d d' : Driver A} → Step vmalloc vmalloc_node hz simple_strtoul d d' → IsSound d → IsSound d'
  unfolding create_files_defaults enable_write timer_write depth_write ulong_write_file
  Step-IsSound {d = d} (mounts free) h =
      assigned-IsSound d (create_files_defaults d) refl refl refl refl refl refl (omega arith) h
  Step-IsSound {d = d} (opens capable counted) h = opens-IsSound capable d counted h
  Step-IsSound {d = d} (releases held) h = releases-IsSound d held h
  Step-IsSound {d = d} (reads count offset signal unmapped held) h =
      on_event-IsSound (λ e. (event_buffer_read e count offset signal unmapped).0) d
        (λ c. absurd (held c.flag)) (reads-IsOpenLog d.buffers.event count offset signal unmapped) h
  Step-IsSound {d = d} (dumps w) h = dumps-IsSound w d h
  Step-IsSound {d = d} (enables w) h =
      with_number-keeps simple_strtoul IsSound w true (enable simple_strtoul) d h
        (enable-IsSound simple_strtoul _ d h)
  Step-IsSound {d = d} (adapts w) h = adapts-IsSound w d h
  Step-IsSound {d = d} (times w) h =
      with_number-keeps simple_strtoul IsSound w _ oprofile_set_oprofile_timer_count d h
        (timer-IsSound _ d h)
  Step-IsSound {d = d} (deepens w) h =
      with_number-keeps simple_strtoul IsSound w _ (oprofile_set_ulong set_depth) d h
        (set-IsSound set_depth _ d h (assigned-IsSound d _ refl refl refl refl refl refl h.small h))
  Step-IsSound {d = d} (sizes w stack) h =
      with_number-keeps simple_strtoul IsSound w true (oprofile_set_ulong set_buffer_size) d h (
        set-IsSound set_buffer_size _ d h (
          assigned-IsSound d _ refl refl refl refl refl refl
            (from_user_small simple_strtoul w number stack) h))
  Step-IsSound {d = d} (watersheds w) h =
      with_number-keeps simple_strtoul IsSound w true (oprofile_set_ulong set_buffer_watershed) d h
        (set-IsSound set_buffer_watershed _ d h
          (assigned-IsSound d _ refl refl refl refl refl refl h.small h))
  Step-IsSound {d = d} (cpu_sizes w) h =
      with_number-keeps simple_strtoul IsSound w true (oprofile_set_ulong set_cpu_buffer_size) d h (
        set-IsSound set_cpu_buffer_size _ d h
          (assigned-IsSound d _ refl refl refl refl refl refl h.small h))
  Step-IsSound {d = d} (works processor cpu enabled) h = works-IsSound hz processor cpu d enabled h
  Step-IsSound {d = d} (interrupts f) h = interrupts-IsSound (f (machine d)) d h

  -- Whatever user space, the interrupts and the delayed work do, a sound driver stays sound: either there
  -- is no session, and then nothing is set up, nothing is started, no event buffer is there and no work
  -- is enabled; or there is one, and then the driver is set up with a well-formed event buffer and the
  -- work enabled. `vmalloc` is relied on to return as many words as the bytes asked for hold, and
  -- `simple_strtoul` unsigned longs.
  pub Reach-IsSound :
      {s d : Driver A} → Reach vmalloc vmalloc_node hz simple_strtoul s d → IsSound s → IsSound d
  Reach-IsSound here h = h
  Reach-IsSound (next r step) h = Step-IsSound step (Reach-IsSound r h)
