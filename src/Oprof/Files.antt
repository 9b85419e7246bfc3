-- ===== src/Oprof/Files.antt =====
-- The files through which user space controls the driver: the write handlers of
-- driver/oprofile_files.c, and the passing of numbers of driver/oprofilefs.c.
pub mod Read
use rrprofile.Prelude.{
  ℕ, ◌-◌, List, ◌++◌, Bool, true, not, ◌==◌, ltb, ◌&&◌, if◌then◌else◌, Option, none, some, length,
  replicate,
}
use rrprofile.Codes.{einval, efault, Ssize, bytes, error}
use rrprofile.EventBuffer.{wake_up_buffer_waiter}
use rrprofile.Oprof.{
  Driver, on_event, oprofile_start, oprofile_stop, oprofile_adapt, oprofile_set_ulong,
  oprofile_set_oprofile_timer_count,
}

abbrev pub tmpbufsize : ℕ
tmpbufsize = 50

-- What a `write` brings: the count, the offset, the bytes if `copy_from_user` can read them, and the
-- value that the handler's local `val` has before anything is stored in it.
pub record UserWrite : Type 0 where
  pub count : ℕ
  pub offset : ℕ
  pub user : Option (List ℕ)
  pub stack : ℕ

abbrev pub set_depth : {A : Type 0} → ℕ → Driver A → Driver A
set_depth val d = record d { oprofile_backtrace_depth = val }

-- `print` is `snprintf` of "%lu\n" with no limit; the handler's own buffer cuts it off. The result is
-- what is handed to `simple_read_from_buffer`.
unfoldable pub oprofilefs_ulong_to_user : (print : ℕ → List ℕ) → ℕ → List ℕ × ℕ
oprofilefs_ulong_to_user print val =
    let maxlen = length (print val) in
    (print val, if ltb tmpbufsize maxlen then tmpbufsize else maxlen)

-- `simple_strtoul` is the kernel's, on the bytes of a buffer that ends in zeros. With an error stands
-- the value of `*val`, which stays as it was unless the number was read.
module _ (simple_strtoul : List ℕ → ℕ) where
  unfoldable pub oprofilefs_ulong_from_user : UserWrite → ℕ × ℕ
  oprofilefs_ulong_from_user w =
      if w.count == 0
      then (w.stack, 0)
      else if ltb (tmpbufsize - 1) w.count
      then (w.stack, einval)
      else elim w.user [
        | none ↦ (w.stack, efault)
        | some text ↦ (simple_strtoul (text ++ replicate (tmpbufsize - w.count) 0), 0)
      ]

  -- what the write handlers share: the offset and the number are checked, then `act` is done
  unfoldable pub with_number :
      {A : Type 0}
      → UserWrite
      → (guard : Bool) → (ℕ → Driver A → Driver A × ℕ)
      → Driver A
      → Driver A × Ssize
  with_number w guard act d =
      if not (w.offset == 0)
      then (d, error einval)
      else if not guard
      then (d, error einval)
      else (let (val, err) = oprofilefs_ulong_from_user w in
          if not (err == 0)
          then (d, error err)
          else (let (d', err') = act val d in
              if err' == 0 then (d', bytes w.count) else (d', error err')))

  module _ {A : Type 0} where
    -- `ulong_write_file`; the number that the file stands for is given by its assignment
    unfoldable pub ulong_write_file :
        (assign : ℕ → Driver A → Driver A) → UserWrite → Driver A → Driver A × Ssize
    unfolding with_number
    ulong_write_file assign w d = with_number w true (oprofile_set_ulong assign) d

    unfoldable pub depth_write : UserWrite → Driver A → Driver A × Ssize
    unfolding with_number
    depth_write w d =
        with_number w (d.oprofile_ops.backtrace && d.buffers.event.buffer_opened == 0)
          (oprofile_set_ulong set_depth) d

    -- `if (val) retval = oprofile_start(); else oprofile_stop();`
    abbrev pub enable : ℕ → Driver A → Driver A × ℕ
    enable val d = if val == 0 then (oprofile_stop d, 0) else oprofile_start d

    unfoldable pub enable_write : UserWrite → Driver A → Driver A × Ssize
    unfolding with_number
    enable_write w d = with_number w true enable d

    unfoldable pub timer_write : UserWrite → Driver A → Driver A × Ssize
    unfolding with_number
    timer_write w d =
        with_number w (d.buffers.event.buffer_opened == 0) oprofile_set_oprofile_timer_count d

module _ {A : Type 0} where
  unfoldable pub dump_write : UserWrite → Driver A → Driver A × Ssize
  dump_write w d = (on_event wake_up_buffer_waiter d, bytes w.count)

  unfoldable pub adapt_write : UserWrite → Driver A → Driver A × Ssize
  adapt_write w d =
      let (d', retval) = oprofile_adapt d in
      if retval == 0 then (d', bytes w.count) else (d', error retval)
