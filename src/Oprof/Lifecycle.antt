-- ===== src/Oprof/Lifecycle.antt =====
-- The results of `oprofile_setup`, `oprofile_start` and `oprofile_shutdown` of
-- driver/oprof.c, on every branch.
use rrprofile.Prelude.{
  ℕ, ◌≡◌, ◌≢◌, refl, sym, ◌∙◌, arith, List, [], ◌==◌, Option, none, ◌⊎◌, inl, inr, ◌↔◌, Bool-cases,
  Option-cases,
}
use rrprofile.CpuBuffer.{OpSample}
use rrprofile.EventBuffer.{free_event_buffer}
use rrprofile.EventBuffer.Log.{IsLog}
use rrprofile.CpuBuffers.{start_cpu_work}
use rrprofile.CpuBuffers.Alloc.{AllCpus, IsFreed, free_cpu_buffers-IsFreed}
use rrprofile.Oprof.{
  Driver, machine, setup_out, setup_out1, setup_out2, setup_sync, setup_arch, do_generic, post_sync,
  oprofile_start, oprofile_shutdown, shutdown_post,
}

module _ {A : Type 0} where
  -- `oprofile_start` returns 0 exactly when the driver is started afterwards, if a driver that is
  -- started is set up; any error leaves it stopped.
  pub oprofile_start_iff :
      (d : Driver A)
      → (d.oprofile_started ≢ 0 → d.is_setup ≢ 0)
      → ((oprofile_start d).1 ≡ 0) ↔ ((oprofile_start d).0.oprofile_started ≢ 0)
  unfolding oprofile_start
  oprofile_start_iff d h = (λ e. ground arith, λ e. ground arith)

  -- Nothing is allocated: neither the event buffer nor any CPU buffer.
  abbrev pub IsReleased : Driver A → Type 0
  IsReleased d = (d.buffers.event.event_buffer ≡ []) × AllCpus IsFreed 0 d.buffers.cpu_buffer

  -- What a successful setup leaves: the driver is set up, with a well-formed event buffer.
  abbrev pub IsUp : Driver A × ℕ → Type 0
  IsUp r = (r.1 ≡ 0) × (r.0.is_setup ≡ 1) × IsLog r.0.buffers.event

  -- What a failed setup leaves: an error, the driver not set up, and nothing allocated.
  abbrev pub IsDown : Driver A × ℕ → Type 0
  IsDown r = (r.1 ≢ 0) × (r.0.is_setup ≡ 0) × IsReleased r.0

  -- The common end of `oprofile_shutdown` releases all buffers.
  shutdown_post-IsReleased :
      (d : Driver A) → IsReleased (shutdown_post d) × ((shutdown_post d).is_setup ≡ 0)
  unfolding shutdown_post free_event_buffer
  shutdown_post-IsReleased d = ((refl, free_cpu_buffers-IsFreed 0 _), refl)

  -- `oprofile_shutdown` releases all buffers and leaves the driver not set up, whatever `sync_stop` and
  -- the architecture do.
  pub oprofile_shutdown-IsReleased :
      (d : Driver A) → IsReleased (oprofile_shutdown d) × ((oprofile_shutdown d).is_setup ≡ 0)
  unfolding oprofile_shutdown
  oprofile_shutdown-IsReleased d = elim (Option-cases d.oprofile_ops.sync_stop) [
    | inl e ↦ rw (e, oprofile_shutdown) (shutdown_post-IsReleased _)
    | inr f ↦ rw (f.1, oprofile_shutdown) (shutdown_post-IsReleased _)
  ]

  module _ (vmalloc : ℕ → Option (List ℕ)) (vmalloc_node : ℕ → ℕ → Option (List OpSample))
      (hz : ℕ) where
    setup_out2-IsReleased :
        (d : Driver A) (err : ℕ)
        → let r = setup_out2 vmalloc vmalloc_node hz d err in
          (r.1 ≡ err) × (r.0.is_setup ≡ d.is_setup) × IsReleased r.0
    unfolding setup_out2 setup_out1 setup_out free_event_buffer
    setup_out2-IsReleased d err =
        (refl, refl, (refl, free_cpu_buffers-IsFreed 0 d.buffers.cpu_buffer))

    setup_sync-IsUp :
        (d : Driver A) (err : ℕ)
        → d.oprofile_ops.sync_start ≡ none
        → IsLog d.buffers.event
        → IsUp (setup_sync vmalloc vmalloc_node hz d err)
    unfolding setup_sync do_generic post_sync start_cpu_work
    setup_sync-IsUp d err e h =
        rw (e, setup_sync)
          (
            refl,
            refl,
            record { storage = h.storage; pos_in = h.pos_in; shed = h.shed; small = h.small },
          )

    pub setup_arch_lem :
        (d : Driver A)
        → d.oprofile_ops.sync_start ≡ none
        → d.is_setup ≡ 0
        → IsLog d.buffers.event
        → let r = setup_arch vmalloc vmalloc_node hz d in IsUp r ⊎ IsDown r
    unfolding setup_arch
    setup_arch_lem d e down h = elim (Option-cases d.oprofile_ops.setup) [
      | inl absent ↦ rw (absent, setup_arch) (inl (setup_sync-IsUp d 0 e h))
      | inr f ↦
          let g = d.buffers in
          let m = (f.0 (machine d)).0 in
          let err = (f.0 (machine d)).1 in
          let d' : Driver A = record d {
            arch = m.arch;
            buffers = record g { cpu_buffer = m.rings };
          } in
          let undone = setup_out2-IsReleased d' err in
          elim (Bool-cases (err == 0)) [
            | inl fine ↦ rw (f.1, setup_arch) (rw fine (inl (setup_sync-IsUp d' err e h)))
            | inr failed ↦
                let error : err ≢ 0 = ground arith in
                rw (f.1, setup_arch)
                  (rw failed (inr (λ z. error (sym undone.0 ∙ z), undone.1 ∙ down, undone.2)))
          ]
    ]
