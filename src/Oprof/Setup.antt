-- ===== src/Oprof/Setup.antt =====
-- `oprofile_setup` of driver/oprof.c as a whole: all or nothing.
use rrprofile.Prelude.{
  ℕ, ◌*◌, ◌/◌, ◌%◌, ◌<◌, ◌≡◌, ◌≢◌, refl, arith, List, [], ◌==◌, Option, none, some, ◌⊎◌, ◌↔◌, inl,
  inr, length, ulong_mod, Bool-cases, Option-cases,
}
use rrprofile.CpuBuffer.{OpSample, OprofileCpuBuffer}
use rrprofile.EventBuffer.{EventBuffer, alloc_event_buffer}
use rrprofile.EventBuffer.Log.{IsLog}
use rrprofile.CpuBuffers.{alloc_cpu_buffers, alloc_from}
use rrprofile.CpuBuffers.Alloc.{AllCpus, IsFreed, free_cpu_buffers-IsFreed}
use rrprofile.Oprof.{Driver, setup_out, setup_out1, oprofile_setup}
use rrprofile.Oprof.Lifecycle.{IsUp, IsDown, setup_arch_lem}

-- A failed `alloc_cpu_buffers` leaves no buffer.
alloc_cpu_buffers-failed :
    (vmalloc_node : ℕ → ℕ → Option (List OpSample)) (size : ℕ) (cpus : List OprofileCpuBuffer)
    → (alloc_cpu_buffers vmalloc_node size cpus).1 ≢ 0
    → AllCpus IsFreed 0 (alloc_cpu_buffers vmalloc_node size cpus).0
unfolding alloc_cpu_buffers
alloc_cpu_buffers-failed vmalloc_node size cpus failed =
    let freed = free_cpu_buffers-IsFreed 0 (alloc_from vmalloc_node 0 size cpus).0 in
    elim (Bool-cases (alloc_from vmalloc_node 0 size cpus).1) [
      | inl done ↦ absurd (failed (rw (done, alloc_cpu_buffers) refl))
      | inr not_done ↦ rw not_done freed
    ]

module _ (vmalloc : ℕ → Option (List ℕ))
    (sized : (n : ℕ) (a : List ℕ) → vmalloc n ≡ some a → length a ≡ n / 8) where
  -- The event buffer after `alloc_event_buffer`: well formed, or still not there.
  pub alloc_event_buffer_lem :
      (size watershed : ℕ) (e : EventBuffer)
      → size * 8 < ulong_mod
      → e.buffer_pos ≡ 0
      → e.event_buffer ≡ []
      → let (e', err) = alloc_event_buffer vmalloc size watershed e in
        ((err ≡ 0) × IsLog e') ⊎ ((err ≢ 0) × (e'.event_buffer ≡ []))
  unfolding alloc_event_buffer
  alloc_event_buffer_lem size watershed e small start unset =
      elim (Option-cases (vmalloc ((size * 8) % ulong_mod))) [
        | inl failed ↦ ground arith
        | inr found ↦
            let fits : length found.0 ≡ size =
              omega (arith, small, sized ((size * 8) % ulong_mod) found.0 found.1) in
            ground (arith, fits)
      ]

  -- When `alloc_event_buffer` returns 0 for an unsigned long `oprofile_buffer_size`, the array has as many
  -- words as `buffer_size` says exactly when an unsigned long counts their bytes, 8 a word. `vmalloc` is
  -- relied on to return as many words as the bytes asked for hold.
  pub alloc_event_buffer_iff :
      (size watershed : ℕ) (e : EventBuffer)
      → size < ulong_mod
      → (alloc_event_buffer vmalloc size watershed e).1 ≡ 0
      → let e' = (alloc_event_buffer vmalloc size watershed e).0 in
        (length e'.event_buffer ≡ e'.buffer_size) ↔ (size * 8 < ulong_mod)
  unfolding alloc_event_buffer
  alloc_event_buffer_iff size watershed e small =
      elim (Option-cases (vmalloc ((size * 8) % ulong_mod))) [
        | inl failed ↦ λ done. absurd (ground (arith, failed, done))
        | inr found ↦ λ done.
            let fits = sized ((size * 8) % ulong_mod) found.0 found.1 in
            (λ e. ground (arith, small, fits, done, e), λ lt. ground (arith, small, fits, done, lt))
      ]

  module _ (vmalloc_node : ℕ → ℕ → Option (List OpSample)) (hz : ℕ) {A : Type 0} where
    -- For a driver that is not set up and has no event buffer and no unread words, with callbacks that
    -- leave `sync_start` NULL, and an `oprofile_buffer_size` whose 8 bytes a word an unsigned long counts:
    -- `oprofile_setup` either returns 0, and the driver is set up with a well-formed event buffer, or
    -- returns an error, and the driver is not set up and every buffer is freed. `vmalloc` is relied on to
    -- return as many words as the bytes asked for hold.
    pub oprofile_setup_lem :
        (d : Driver A)
        → d.oprofile_ops.sync_start ≡ none
        → d.is_setup ≡ 0
        → d.buffers.event.event_buffer ≡ []
        → d.buffers.event.buffer_pos ≡ 0
        → d.oprofile_buffer_size * 8 < ulong_mod
        → let r = oprofile_setup vmalloc vmalloc_node hz d in IsUp r ⊎ IsDown r
    unfolding oprofile_setup setup_out1 setup_out
    oprofile_setup_lem d generic down unset start small =
        let (cpus, err) =
          alloc_cpu_buffers vmalloc_node d.oprofile_cpu_buffer_size d.buffers.cpu_buffer in
        let g = d.buffers in
        let d₁ : Driver A = record d { buffers = record g { cpu_buffer = cpus } } in
        let (event, err') =
          alloc_event_buffer vmalloc d.oprofile_buffer_size d.oprofile_buffer_watershed g.event in
        let d₂ : Driver A = record d { buffers = record g { cpu_buffer = cpus; event = event } } in
        let made =
          alloc_event_buffer_lem d.oprofile_buffer_size d.oprofile_buffer_watershed g.event small
            start unset in
        let cpus_failed =
          alloc_cpu_buffers-failed vmalloc_node d.oprofile_cpu_buffer_size g.cpu_buffer in
        elim (Bool-cases (err == 0)) [
          | inr failed ↦
              let error : err ≢ 0 = ground arith in
              rw failed (inr (error, down, (unset, cpus_failed error)))
          | inl fine ↦ rw fine (elim (Bool-cases (err' == 0)) [
            | inl fine' ↦
                let none_left : err' ≡ 0 = ground arith in
                rw fine' (elim made [
                  | inl log ↦ setup_arch_lem vmalloc vmalloc_node hz d₂ generic down log.1
                  | inr bad ↦ absurd (bad.0 none_left)
                ])
            | inr failed' ↦
                let error' : err' ≢ 0 = ground arith in
                rw failed' (elim made [
                  | inl log ↦ absurd (error' log.0)
                  | inr bad ↦ inr (error', down, (bad.1, free_cpu_buffers-IsFreed 0 cpus))
                ])
          ])
        ]
