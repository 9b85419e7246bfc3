-- ===== src/Tests/Reach.antt =====
-- Instances for the driver's phases: a session that is opened, enabled, interrupted and read.
use rrprofile.Prelude.{ℕ, ◌+◌, ◌-◌, ◌%◌, ◌<◌, refl, arith, List, [], ◌∷◌, true, ulong_mod}
use rrprofile.Oprof.{Driver, Machine}
use rrprofile.Oprof.Session.{event_buffer_open}
use rrprofile.Oprof.Files.{enable_write}
use rrprofile.Oprof.{with_machine, machine}
use rrprofile.Oprof.{oprofile_set_ulong}
use rrprofile.Oprof.Init.{create_files_defaults, oprofile_init}
use rrprofile.Oprof.Reach.Loaded.{after_init, loaded-IsSound}
use rrprofile.Oprof.Reach.{Reach, mounts, opens, enables, interrupts, here, next, IsSound}
use rrprofile.Tests.Data.{ring}
use rrprofile.Tests.Driver.{driver, vmalloc, vmalloc_node, vmalloc-sized, one_byte}

abbrev digit : List ℕ → ℕ
digit [] = 0
digit (x ∷ xs) = (x - 48) % ulong_mod

digit-small : (text : List ℕ) → digit text < ulong_mod
digit-small [] = omega arith
digit-small (x ∷ xs) = omega arith

-- the module just loaded, and its file system mounted
abbrev fresh : Driver ℕ
fresh = after_init 1 (0 ∷ []) 0 driver.oprofile_ops driver.timer_ops driver.arch_ops 0

abbrev mounted : Driver ℕ
mounted = create_files_defaults fresh

abbrev opened : Driver ℕ
opened = (event_buffer_open vmalloc vmalloc_node 250 true mounted).0

abbrev enabled : Driver ℕ
enabled = (enable_write digit one_byte opened).0

-- an interrupt that loses the first ring and counts
abbrev strike : Machine ℕ → Machine ℕ
strike m = record { arch = m.arch + 1; rings = ring ∷ [] }

run : Reach vmalloc vmalloc_node 250 digit fresh (with_machine enabled (strike (machine enabled)))
unfolding oprofile_init oprofile_set_ulong create_files_defaults
run =
    next (next (next (next here (mounts refl)) (opens true (omega arith))) (enables one_byte))
      (interrupts strike)

loaded-IsSound_example : IsSound (with_machine enabled (strike (machine enabled)))
loaded-IsSound_example =
    loaded-IsSound vmalloc vmalloc_node 250 digit vmalloc-sized digit-small 1 (0 ∷ []) 0
      driver.oprofile_ops driver.timer_ops driver.arch_ops 0
      (record { sync_start = refl; sync_stop = refl })
      (record { sync_start = refl; sync_stop = refl }) run
