-- ===== src/Oprof/Reach/Handlers.antt =====
-- The handlers of the control files keep the driver in one of its phases.
use rrprofile.Prelude.{
  ap, ℕ, ◌<◌, ◌≡◌, refl, ◌∙◌, arith, List, Bool, true, ◌==◌, ◌⊎◌, inl, inr, ◌&&◌, ulong_mod,
  Bool-cases,
}
use rrprofile.Oprof.{
  Driver, oprofile_start, oprofile_stop, oprofile_adapt, oprofile_set_ulong,
  oprofile_set_oprofile_timer_count,
}
use rrprofile.Oprof.Files.{UserWrite, oprofilefs_ulong_from_user, with_number, enable}
use rrprofile.Oprof.Phase.{
  IsClosed, IsOpen, SameConfig, oprofile_start-IsOpen, oprofile_stop-IsOpen, oprofile_adapt-IsOpen,
}
use rrprofile.Oprof.Reach.{IsSound}

module _ {A : Type 0} where
  -- A step that changes nothing of the configuration, in a phase.
  pub sound :
      (d d' : Driver A) → IsSound d → SameConfig d d' → IsClosed 0 d' ⊎ IsOpen d' → IsSound d'
  sound d d' h same phase = record {
    ops = rw (same.ops) h.ops;
    arch = rw (same.arch) h.arch;
    timer = rw (same.timer) h.timer;
    small = rw (same.size) h.small;
    phase = phase;
  }

  -- A handler that reads a number keeps what its action keeps for the number that it has read.
  pub with_number-keeps :
      (simple_strtoul : List ℕ → ℕ) (P : Driver A → Type 0) (w : UserWrite) (guard : Bool)
      (act : ℕ → Driver A → Driver A × ℕ) (d : Driver A)
      → P d
      → P (act (oprofilefs_ulong_from_user simple_strtoul w).0 d).0
      → P (with_number simple_strtoul w guard act d).0
  unfolding with_number
  with_number-keeps simple_strtoul P w guard act d h k =
      let (val, err) = oprofilefs_ulong_from_user simple_strtoul w in
      elim (Bool-cases (w.offset == 0)) [
        | inr moved ↦ rw moved h
        | inl start ↦ elim (Bool-cases guard) [
          | inr closed ↦ rw (start, closed) h
          | inl fine ↦ elim (Bool-cases (err == 0)) [
            | inr failed ↦ rw (start, fine, failed) h
            | inl given ↦ elim (Bool-cases ((act val d).1 == 0)) [
              | inl done ↦ rw (start, fine, given, done) k
              | inr refused ↦ rw (start, fine, given, refused) k
            ]
          ]
        ]
      ]

  -- Starting, stopping and adapting do nothing outside a session.
  pub start-IsSound : (d : Driver A) → IsSound d → IsSound (oprofile_start d).0
  unfolding oprofile_start
  start-IsSound d h = elim h.phase [
    | inl c ↦ let down : (d.is_setup == 0) ≡ true = ground (arith, c.setup) in rw down h
    | inr o ↦
        let (o', same) = oprofile_start-IsOpen d o in sound d (oprofile_start d).0 h same (inr o')
  ]

  pub stop-IsSound : (d : Driver A) → IsSound d → IsSound (oprofile_stop d)
  unfolding oprofile_stop
  stop-IsSound d h = elim h.phase [
    | inl c ↦ let idle : (d.oprofile_started == 0) ≡ true = ground (arith, c.started) in rw idle h
    | inr o ↦
        let (o', same, off) = oprofile_stop-IsOpen d o in sound d (oprofile_stop d) h same (inr o')
  ]

  pub adapt-IsSound : (d : Driver A) → IsSound d → IsSound (oprofile_adapt d).0
  unfolding oprofile_adapt
  adapt-IsSound d h = elim h.phase [
    | inl c ↦ let idle : (d.oprofile_started == 0) ≡ true = ground (arith, c.started) in rw idle h
    | inr o ↦
        let (o', same) = oprofile_adapt-IsOpen d o in sound d (oprofile_adapt d).0 h same (inr o')
  ]

  pub enable-IsSound :
      (simple_strtoul : List ℕ → ℕ) (val : ℕ) (d : Driver A)
      → IsSound d
      → IsSound (enable simple_strtoul val d).0
  enable-IsSound simple_strtoul val d h = elim (Bool-cases (val == 0)) [
    | inl off ↦ rw off (stop-IsSound d h)
    | inr on ↦ rw on (start-IsSound d h)
  ]

  pub phase_same :
      (d d' : Driver A)
      → d'.is_setup ≡ d.is_setup
      → d'.oprofile_started ≡ d.oprofile_started
      → d'.buffers ≡ d.buffers
      → IsClosed 0 d ⊎ IsOpen d
      → IsClosed 0 d' ⊎ IsOpen d'
  phase_same d d' setup started b (inl c) = inl (record {
    setup = setup ∙ c.setup;
    started = started ∙ c.started;
    flag = ap (λ g. g.event.buffer_opened) b ∙ c.flag;
    unset = ap (λ g. g.event.event_buffer) b ∙ c.unset;
    pos = ap (λ g. g.event.buffer_pos) b ∙ c.pos;
    work = ap (λ g. g.work_enabled) b ∙ c.work;
  })
  phase_same d d' setup started b (inr o) = inr (record {
    setup = setup ∙ o.setup;
    event = rw b o.event;
    work = ap (λ g. g.work_enabled) b ∙ o.work;
  })

  pub timer-IsSound :
      (val : ℕ) (d : Driver A) → IsSound d → IsSound (oprofile_set_oprofile_timer_count val d).0
  unfolding oprofile_set_oprofile_timer_count
  timer-IsSound val d h = elim (Bool-cases (d.oprofile_started == 0)) [
    | inr running ↦ rw running h
    | inl idle ↦ elim (Bool-cases (val == 0 && d.arch_ops.cpu_type)) [
      | inl events ↦
          rw (idle, events)
            (record {
              ops = h.arch;
              arch = h.arch;
              timer = h.timer;
              small = h.small;
              phase = phase_same d _ refl refl refl h.phase;
            })
      | inr ticks ↦
          rw (idle, ticks)
            (record {
              ops = h.timer;
              arch = h.arch;
              timer = h.timer;
              small = h.small;
              phase = phase_same d _ refl refl refl h.phase;
            })
    ]
  ]

  pub set-IsSound :
      (assign : ℕ → Driver A → Driver A) (val : ℕ) (d : Driver A)
      → IsSound d
      → IsSound (assign val d)
      → IsSound (oprofile_set_ulong assign val d).0
  unfolding oprofile_set_ulong
  set-IsSound assign val d h h' = elim (Bool-cases (d.oprofile_started == 0)) [
    | inr running ↦ rw running h
    | inl idle ↦ rw idle h'
  ]

  pub assigned-IsSound :
      (d d' : Driver A)
      → d'.is_setup ≡ d.is_setup
      → d'.oprofile_started ≡ d.oprofile_started
      → d'.buffers ≡ d.buffers
      → d'.oprofile_ops ≡ d.oprofile_ops
      → d'.arch_ops ≡ d.arch_ops
      → d'.timer_ops ≡ d.timer_ops
      → d'.oprofile_buffer_size < ulong_mod
      → IsSound d
      → IsSound d'
  assigned-IsSound d d' setup started b ops arch timer small h = record {
    ops = rw ops h.ops;
    arch = rw arch h.arch;
    timer = rw timer h.timer;
    small = small;
    phase = phase_same d d' setup started b h.phase;
  }
