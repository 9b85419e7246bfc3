-- ===== src/Tests/Files.antt =====
-- An instance for the number files of the driver.
use rrprofile.Prelude.{ℕ, ◌+◌, ◌-◌, ◌%◌, ◌≡◌, refl, arith, List, [], ◌∷◌, true, ulong_mod}
use rrprofile.Codes.{bytes}
use rrprofile.Oprof.{Driver}
use rrprofile.Oprof.Files.{set_depth, ulong_write_file, depth_write, timer_write}
use rrprofile.Oprof.Files.Read.{ulong_read_file, depth_read, timer_read}
use rrprofile.Oprof.Files.Read.RoundTrip.{write_back, read-write_back}
use rrprofile.Oprof.Reach.{set_buffer_size}
use rrprofile.Tests.Data.{log}
use rrprofile.Tests.Driver.{driver}

-- numbers of one digit, and the end of the line
abbrev print : ℕ → List ℕ
print v = (48 + v) ∷ 10 ∷ []

abbrev digit : List ℕ → ℕ
digit [] = 0
digit (x ∷ xs) = (x - 48) % ulong_mod

abbrev size : Driver ℕ → ℕ
size d = d.oprofile_buffer_size

abbrev old : Driver ℕ
old = record driver {
  oprofile_backtrace_depth = 5;
  oprofile_timer_count = 3;
  oprofile_buffer_size = 7;
}

abbrev idle : Driver ℕ
idle = record driver {
  oprofile_started = 0;
  oprofile_ops = record driver.oprofile_ops { backtrace = true };
  buffers = record driver.buffers { event = record log { buffer_opened = 0 } };
}

read-write_back_example :
    let number = ulong_read_file print size old in
    let depth = depth_read print old in
    let timer = timer_read print old in
    let r = ulong_write_file digit set_buffer_size (write_back number 0) idle in
    let r1 = depth_write digit (write_back depth 0) idle in
    let r2 = timer_write digit (write_back timer 0) idle in
    ((r ≡ (set_buffer_size 7 idle, bytes number.1)) × (ulong_read_file print size r.0 ≡ number))
    × ((r1 ≡ (set_depth 5 idle, bytes depth.1)) × (depth_read print r1.0 ≡ depth))
    × ((r2.1 ≡ bytes timer.1) × (r2.0.oprofile_timer_count ≡ 3) × (timer_read print r2.0 ≡ timer))
read-write_back_example =
    read-write_back print digit size set_buffer_size 0 old idle (λ v. refl)
      (record { some_text = omega arith; short = omega arith; inverse = refl })
      (record { some_text = omega arith; short = omega arith; inverse = refl })
      (record { some_text = omega arith; short = omega arith; inverse = refl }) refl refl refl
