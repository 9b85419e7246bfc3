-- ===== src/Oprof/Frozen.antt =====
-- The control files of driver/oprofile_files.c and driver/oprofilefs.c while the driver is started.
use rrprofile.Prelude.{
  ℕ, ◌≡◌, ◌≢◌, refl, arith, List, Bool, true, false, ◌==◌, Bool-cases, inl, inr,
}
use rrprofile.Codes.{einval, ebusy, Ssize, error}
use rrprofile.Oprof.{Driver, oprofile_set_ulong, oprofile_set_oprofile_timer_count}
use rrprofile.Oprof.Files.{
  set_depth, UserWrite, oprofilefs_ulong_from_user, with_number, ulong_write_file, depth_write,
  timer_write,
}

-- A write that has changed nothing and returns an error.
abbrev pub IsRefused : {A : Type 0} → Driver A → Driver A × Ssize → Type 0
IsRefused d r = (r.0 ≡ d) × ((err : ℕ) × (r.1 ≡ error err))

module _ (simple_strtoul : List ℕ → ℕ) {A : Type 0} where
  with_number-IsRefused :
      (w : UserWrite) (guard : Bool) (act : ℕ → Driver A → Driver A × ℕ) (d : Driver A)
      → ((val : ℕ) → act val d ≡ (d, ebusy))
      → IsRefused d (with_number simple_strtoul w guard act d)
  unfolding with_number
  with_number-IsRefused w guard act d busy =
      let (val, err) = oprofilefs_ulong_from_user simple_strtoul w in
      elim (Bool-cases (w.offset == 0)) [
        | inr moved ↦ rw moved (refl, (einval, refl))
        | inl start ↦ elim (Bool-cases guard) [
          | inr closed ↦ rw (start, closed) (refl, (einval, refl))
          | inl fine ↦ elim (Bool-cases (err == 0)) [
            | inr failed ↦ rw (start, fine, failed) (refl, (err, refl))
            | inl given ↦ rw (start, fine, given, busy val) (refl, (ebusy, refl))
          ]
        ]
      ]

  -- While the driver is started, a write of any number file, of the backtrace depth or of the timer
  -- count is refused: it returns an error and changes nothing, whatever is written.
  pub started_refuses :
      (assign : ℕ → Driver A → Driver A) (w : UserWrite) (d : Driver A)
      → d.oprofile_started ≢ 0
      → IsRefused d (ulong_write_file simple_strtoul assign w d)
        × IsRefused d (depth_write simple_strtoul w d)
        × IsRefused d (timer_write simple_strtoul w d)
  unfolding ulong_write_file depth_write timer_write oprofile_set_ulong
      oprofile_set_oprofile_timer_count
  started_refuses assign w d on =
      let started : (d.oprofile_started == 0) ≡ false = ground arith in
      (
        with_number-IsRefused w true (oprofile_set_ulong assign) d (λ val. rw started refl),
        with_number-IsRefused w _ (oprofile_set_ulong set_depth) d (λ val. rw started refl),
        with_number-IsRefused w _ oprofile_set_oprofile_timer_count d (λ val. rw started refl),
      )
