-- ===== src/Oprof/Files/Read/RoundTrip.antt =====
-- What is read from a number file of the driver, written back, and read again.
use rrprofile.Prelude.{
  ℕ, ◌-◌, ◌<◌, ◌≡◌, refl, ap, ◌∙◌, arith, List, ◌++◌, Bool, true, false, ◌==◌, ◌&&◌, ltb, some,
  length, replicate,
}
use rrprofile.Codes.{Ssize, bytes}
use rrprofile.Oprof.{Driver, oprofile_set_ulong, oprofile_set_oprofile_timer_count}
use rrprofile.Oprof.Files.{
  tmpbufsize, UserWrite, set_depth, oprofilefs_ulong_to_user, oprofilefs_ulong_from_user,
  with_number, ulong_write_file, depth_write, timer_write,
}
use rrprofile.Oprof.Files.Read.{ulong_read_file, depth_read, timer_read}

-- a write of all that a read has given, at the start of the file
abbrev pub write_back : List ℕ × ℕ → (stack : ℕ) → UserWrite
write_back (text, n) stack = record { count = n; offset = 0; user = some text; stack = stack }

-- The kernel prints and reads back this number: the text is not empty, fits the handlers' buffer with its
-- end, and `simple_strtoul` gets the number from it.
pub record IsPrinted (print : ℕ → List ℕ) (simple_strtoul : List ℕ → ℕ) (v : ℕ) : Type 0 where
  pub some_text : 0 < length (print v)
  pub short : length (print v) < tmpbufsize
  pub inverse : simple_strtoul (print v ++ replicate (tmpbufsize - length (print v)) 0) ≡ v

module _ (print : ℕ → List ℕ) (simple_strtoul : List ℕ → ℕ) where
  -- The number that is written back is the one that was read.
  from_to_user :
      (v stack : ℕ)
      → IsPrinted print simple_strtoul v
      → oprofilefs_ulong_from_user simple_strtoul
          (write_back (oprofilefs_ulong_to_user print v) stack)
        ≡ (v, 0)
  unfolding oprofilefs_ulong_from_user oprofilefs_ulong_to_user
  from_to_user v stack p =
      let n = length (print v) in
      let fits : ltb 50 n ≡ false = ground (arith, p.short) in
      let some_left : (n == 0) ≡ false = ground (arith, p.some_text) in
      let allowed : ltb 49 n ≡ false = ground (arith, p.short) in
      rw fits (rw (some_left, allowed) (ap (λ (x : ℕ). (x, 0)) p.inverse))

  module _ {A : Type 0} where
    -- A handler whose guard holds acts on the number that was read.
    with_number-back :
        (v stack : ℕ) (guard : Bool) (act : ℕ → Driver A → Driver A × ℕ) (d : Driver A)
        → IsPrinted print simple_strtoul v
        → guard ≡ true
        → (act v d).1 ≡ 0
        → let w = write_back (oprofilefs_ulong_to_user print v) stack in
          with_number simple_strtoul w guard act d ≡ ((act v d).0, bytes w.count)
    unfolding with_number
    with_number-back v stack guard act d p open_file done =
        let back = from_to_user v stack p in rw (open_file, back) (rw done refl)

    timer_count_set :
        (n : ℕ) (d : Driver A)
        → d.oprofile_started ≡ 0
        → ((oprofile_set_oprofile_timer_count n d).1 ≡ 0)
          × ((oprofile_set_oprofile_timer_count n d).0.oprofile_timer_count ≡ n)
    unfolding oprofile_set_oprofile_timer_count
    timer_count_set n d idle = ground (arith, idle)

    number_back :
        (value : Driver A → ℕ) (assign : ℕ → Driver A → Driver A) (stack : ℕ) (old d : Driver A)
        → IsPrinted print simple_strtoul (value old)
        → (d.oprofile_started == 0) ≡ true
        → let number = ulong_read_file print value old in
          ulong_write_file simple_strtoul assign (write_back number stack) d
          ≡ (assign (value old) d, bytes number.1)
    unfolding ulong_read_file ulong_write_file oprofile_set_ulong
    number_back value assign stack old d number unlocked =
        let v = value old in
        let set_it : oprofile_set_ulong assign v d ≡ (assign v d, 0) = rw unlocked refl in
        with_number-back v stack true (oprofile_set_ulong assign) d number refl
          (ap (λ (x : Driver A × ℕ). x.1) set_it)
        ∙ ap (λ (x : Driver A × ℕ). (x.0, bytes (oprofilefs_ulong_to_user print v).1)) set_it

    -- For numbers that the kernel prints and reads back, a driver that is not started and whose event
    -- buffer is not open, and, for the depth, operations that can walk the stack: writing to a number
    -- file, to the backtrace depth or to the timer count what was read from it, of whatever driver,
    -- succeeds with the count of bytes read, gives the number its old value, and the file then reads as
    -- it did.
    pub read-write_back :
        (value : Driver A → ℕ) (assign : ℕ → Driver A → Driver A) (stack : ℕ) (old d : Driver A)
        → ((v : ℕ) → value (assign v d) ≡ v)
        → IsPrinted print simple_strtoul (value old)
        → IsPrinted print simple_strtoul old.oprofile_backtrace_depth
        → IsPrinted print simple_strtoul old.oprofile_timer_count
        → d.oprofile_started ≡ 0
        → d.buffers.event.buffer_opened ≡ 0
        → d.oprofile_ops.backtrace ≡ true
        → let number = ulong_read_file print value old in
          let depth = depth_read print old in
          let timer = timer_read print old in
          let r = ulong_write_file simple_strtoul assign (write_back number stack) d in
          let r1 = depth_write simple_strtoul (write_back depth stack) d in
          let r2 = timer_write simple_strtoul (write_back timer stack) d in
          ((r ≡ (assign (value old) d, bytes number.1))
            × (ulong_read_file print value r.0 ≡ number))
          × ((r1 ≡ (set_depth old.oprofile_backtrace_depth d, bytes depth.1))
              × (depth_read print r1.0 ≡ depth))
          × ((r2.1 ≡ bytes timer.1)
              × (r2.0.oprofile_timer_count ≡ old.oprofile_timer_count)
              × (timer_read print r2.0 ≡ timer))
    unfolding ulong_read_file depth_read timer_read ulong_write_file depth_write timer_write
        oprofile_set_ulong oprofile_set_oprofile_timer_count
    read-write_back value assign stack old d lens number depth timer idle closed walks =
        let unlocked : (d.oprofile_started == 0) ≡ true = ground (arith, idle) in
        let unopened : (d.buffers.event.buffer_opened == 0) ≡ true = ground (arith, closed) in
        let first = number_back value assign stack old d number unlocked in
        let guard : d.oprofile_ops.backtrace && d.buffers.event.buffer_opened == 0 ≡ true =
          rw (walks, unopened) refl in
        let v = old.oprofile_backtrace_depth in
        let set_it : oprofile_set_ulong set_depth v d ≡ (set_depth v d, 0) = rw unlocked refl in
        let second =
          with_number-back v stack (d.oprofile_ops.backtrace && d.buffers.event.buffer_opened == 0)
            (oprofile_set_ulong set_depth) d depth guard (ap (λ (x : Driver A × ℕ). x.1) set_it)
          ∙ ap (λ (x : Driver A × ℕ). (x.0, bytes (oprofilefs_ulong_to_user print v).1)) set_it in
        let n = old.oprofile_timer_count in
        let (fine, count) = timer_count_set n d idle in
        let third =
          with_number-back n stack (d.buffers.event.buffer_opened == 0)
            oprofile_set_oprofile_timer_count d timer unopened fine in
        (
          (
            first,
            ap (λ (x : Driver A × Ssize). oprofilefs_ulong_to_user print (value x.0)) first
                ∙ ap (oprofilefs_ulong_to_user print) (lens (value old)),
          ),
          (
            second,
            ap
                (λ (x : Driver A × Ssize).
                  oprofilefs_ulong_to_user print x.0.oprofile_backtrace_depth)
                second,
          ),
          (
            ap (λ (x : Driver A × Ssize). x.1) third,
            ap (λ (x : Driver A × Ssize). x.0.oprofile_timer_count) third ∙ count,
            ap (λ (x : Driver A × Ssize). oprofilefs_ulong_to_user print x.0.oprofile_timer_count)
                  third
                ∙ ap (oprofilefs_ulong_to_user print) count,
          ),
        )
