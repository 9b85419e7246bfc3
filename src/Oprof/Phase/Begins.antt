-- ===== src/Oprof/Phase/Begins.antt =====
-- The beginning of a session: `oprofile_setup` of driver/oprof.c and `event_buffer_open` of
-- driver/event_buffer.c.
use rrprofile.Prelude.{
  ℕ, ◌*◌, ◌/◌, ◌<◌, ◌≡◌, ◌≢◌, refl, ◌∙◌, arith, List, Option, none, some, Bool, ◌⊎◌, inl, inr,
  length, ulong_mod, Bool-cases, true, false, ◌==◌,
}
use rrprofile.CpuBuffer.{OpSample}
use rrprofile.EventBuffer.{EventBuffer, alloc_event_buffer, free_event_buffer}
use rrprofile.EventBuffer.Log.{IsLog}
use rrprofile.CpuBuffers.{alloc_cpu_buffers, start_cpu_work}
use rrprofile.Oprof.Setup.{alloc_event_buffer_lem}
use rrprofile.Oprof.Session.{event_buffer_open, set_opened}
use rrprofile.Oprof.{
  Driver, setup_out, setup_out1, setup_out2, setup_sync, setup_arch, do_generic, post_sync,
  oprofile_setup,
}
use rrprofile.Oprof.Phase.{IsGeneric, IsClosed, IsOpen, SameConfig, SameConfig-trans, same_config}

alloc_event_buffer-frame :
    (vmalloc : ℕ → Option (List ℕ)) (size watershed : ℕ) (e : EventBuffer)
    → let (e', err) = alloc_event_buffer vmalloc size watershed e in
      (e'.buffer_opened ≡ e.buffer_opened) × (e'.buffer_pos ≡ e.buffer_pos)
unfolding alloc_event_buffer
alloc_event_buffer-frame vmalloc size watershed e = ground arith

module _ {A : Type 0} (vmalloc : ℕ → Option (List ℕ))
    (vmalloc_node : ℕ → ℕ → Option (List OpSample)) (hz : ℕ) where
  setup_arch-SameConfig :
      (d : Driver A)
      → d.oprofile_ops.sync_start ≡ none
      → SameConfig d (setup_arch vmalloc vmalloc_node hz d).0
  unfolding setup_arch setup_sync setup_out2 setup_out1 setup_out do_generic post_sync
  setup_arch-SameConfig d e = ground arith

  -- In the middle of a setup: the event buffer may be there, and nothing else yet.
  record IsHalf (d : Driver A) : Type 0 where
    setup : d.is_setup ≡ 0
    started : d.oprofile_started ≡ 0
    flag : d.buffers.event.buffer_opened ≡ 1
    pos : d.buffers.event.buffer_pos ≡ 0
    work : d.buffers.work_enabled ≡ 0

  -- Either a session has begun, or an error is returned and there is none.
  abbrev pub Began : Driver A × ℕ → Type 0
  Began r = ((r.1 ≡ 0) × IsOpen r.0) ⊎ ((r.1 ≢ 0) × IsClosed 1 r.0)

  setup_arch-Began :
      (d : Driver A)
      → d.oprofile_ops.sync_start ≡ none
      → IsHalf d
      → IsLog d.buffers.event
      → Began (setup_arch vmalloc vmalloc_node hz d)
  unfolding setup_arch setup_sync setup_out2 setup_out1 setup_out do_generic post_sync
      start_cpu_work free_event_buffer
  setup_arch-Began d e half log = ground arith

  module _ (sized : (n : ℕ) (a : List ℕ) → vmalloc n ≡ some a → length a ≡ n / 8) where
    pub oprofile_setup-Began :
        (d : Driver A)
        → IsGeneric d.oprofile_ops
        → d.oprofile_buffer_size * 8 < ulong_mod
        → IsClosed 1 d
        → let r = oprofile_setup vmalloc vmalloc_node hz d in Began r × SameConfig d r.0
    unfolding oprofile_setup setup_out1 setup_out
    oprofile_setup-Began d generic small h =
        let (cpus, err) =
          alloc_cpu_buffers vmalloc_node d.oprofile_cpu_buffer_size d.buffers.cpu_buffer in
        let g = d.buffers in
        let d₁ : Driver A = record d { buffers = record g { cpu_buffer = cpus } } in
        let (event, err') =
          alloc_event_buffer vmalloc d.oprofile_buffer_size d.oprofile_buffer_watershed g.event in
        let d₂ : Driver A = record d { buffers = record g { cpu_buffer = cpus; event = event } } in
        let made =
          alloc_event_buffer_lem vmalloc sized d.oprofile_buffer_size d.oprofile_buffer_watershed
            g.event small h.pos h.unset in
        let (flag, pos) =
          alloc_event_buffer-frame vmalloc d.oprofile_buffer_size d.oprofile_buffer_watershed
            g.event in
        let half : IsLog event → IsHalf d₂ = λ log. record {
          setup = h.setup;
          started = h.started;
          flag = flag ∙ h.flag;
          pos = pos ∙ h.pos;
          work = h.work;
        } in
        let same : SameConfig d d₂ = record {
          ops = refl;
          arch = refl;
          timer = refl;
          size = refl;
        } in
        let late = setup_arch-SameConfig d₂ generic.sync_start in
        elim (Bool-cases (err == 0)) [
          | inr failed ↦
              let error : err ≢ 0 = ground arith in
              rw failed (
                inr (
                  error,
                  record {
                    setup = h.setup;
                    started = h.started;
                    flag = h.flag;
                    unset = h.unset;
                    pos = h.pos;
                    work = h.work;
                  },
                ),
                record { ops = refl; arch = refl; timer = refl; size = refl },
              )
          | inl fine ↦ rw fine (elim (Bool-cases (err' == 0)) [
            | inl fine' ↦
                let none_left : err' ≡ 0 = ground arith in
                rw fine' (elim made [
                  | inl log ↦ (
                    setup_arch-Began d₂ generic.sync_start (half log.1) log.1,
                    SameConfig-trans same late,
                  )
                  | inr bad ↦ absurd (bad.0 none_left)
                ])
            | inr failed' ↦
                let error' : err' ≢ 0 = ground arith in
                rw failed' (elim made [
                  | inl log ↦ absurd (error' log.0)
                  | inr bad ↦ (
                    inr (
                      error',
                      record {
                        setup = h.setup;
                        started = h.started;
                        flag = flag ∙ h.flag;
                        unset = bad.1;
                        pos = pos ∙ h.pos;
                        work = h.work;
                      },
                    ),
                    record { ops = refl; arch = refl; timer = refl; size = refl },
                  )
                ])
          ])
        ]

    -- `event_buffer_open` outside a session begins one or changes nothing of the phase.
    pub event_buffer_open_lem :
        (capable : Bool) (d : Driver A)
        → IsGeneric d.oprofile_ops
        → d.oprofile_buffer_size * 8 < ulong_mod
        → IsClosed 0 d
        → let r = event_buffer_open vmalloc vmalloc_node hz capable d in
          (IsOpen r.0 ⊎ IsClosed 0 r.0) × SameConfig d r.0
    unfolding event_buffer_open
    event_buffer_open_lem false d generic small h = (inr h, same_config d)
    event_buffer_open_lem true d generic small h =
        let free : (d.buffers.event.buffer_opened == 0) ≡ true = ground (arith, h.flag) in
        let marked = set_opened 1 d in
        let r = oprofile_setup vmalloc vmalloc_node hz marked in
        let (began, same) = oprofile_setup-Began marked generic small (record {
          setup = h.setup;
          started = h.started;
          flag = refl;
          unset = h.unset;
          pos = h.pos;
          work = h.work;
        }) in
        let same' : SameConfig d r.0 = record {
          ops = same.ops;
          arch = same.arch;
          timer = same.timer;
          size = same.size;
        } in
        rw free (elim began [
          | inl up ↦
              let fine : (r.1 == 0) ≡ true = ground (arith, up.0) in rw fine (inl up.1, same')
          | inr down ↦
              let failed : (r.1 == 0) ≡ false = ground (arith, down.0) in
              let c = down.1 in
              rw failed (
                inr (record {
                  setup = c.setup;
                  started = c.started;
                  flag = refl;
                  unset = c.unset;
                  pos = c.pos;
                  work = c.work;
                }),
                record { ops = same.ops; arch = same.arch; timer = same.timer; size = same.size },
              )
        ])
