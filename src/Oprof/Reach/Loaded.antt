-- ===== src/Oprof/Reach/Loaded.antt =====
-- What the driver can come to from the load of the module on.
use rrprofile.Prelude.{
  ℕ, ◌/◌, ◌<◌, ◌≡◌, arith, List, Option, some, inl, inr, length, leb, ◌^◌, ulong_mod, Bool-cases,
}
use rrprofile.CpuBuffer.{OpSample}
use rrprofile.Oprof.{Driver, OprofileOperations, oprofile_set_ulong}
use rrprofile.Oprof.Init.{as_loaded, oprofile_init}
use rrprofile.Oprof.Phase.{IsGeneric, IsClosed}
use rrprofile.Oprof.Reach.{Reach, IsSound}
use rrprofile.Oprof.Reach.Sound.{Reach-IsSound}

module _ {A : Type 0} where
  abbrev pub after_init :
      (cpus : ℕ) (online : List ℕ)
      → A
      → (none_yet timer arch_ops : OprofileOperations A) (err : ℕ) → Driver A
  after_init cpus online arch none_yet timer arch_ops err =
      oprofile_init timer arch_ops err (as_loaded cpus online arch none_yet)

  init-IsSound :
      (cpus : ℕ) (online : List ℕ) (arch : A) (none_yet timer arch_ops : OprofileOperations A)
      (err : ℕ)
      → IsGeneric timer
      → IsGeneric arch_ops
      → IsSound (after_init cpus online arch none_yet timer arch_ops err)
  unfolding oprofile_init oprofile_set_ulong
  init-IsSound cpus online arch none_yet timer arch_ops err t a =
      let init = after_init cpus online arch none_yet timer arch_ops err in
      let closed : IsClosed 0 init = record {
        setup = ground arith;
        started = ground arith;
        flag = ground arith;
        unset = ground arith;
        pos = ground arith;
        work = ground arith;
      } in
      elim (Bool-cases (leb (2 ^ 31) err)) [
        | inl failed ↦ record {
          ops = record {
            sync_start = ground (arith, failed, t.sync_start);
            sync_stop = ground (arith, failed, t.sync_stop);
          };
          arch = record {
            sync_start = ground (arith, failed, a.sync_start);
            sync_stop = ground (arith, failed, a.sync_stop);
          };
          timer = record {
            sync_start = ground (arith, failed, t.sync_start);
            sync_stop = ground (arith, failed, t.sync_stop);
          };
          small = ground (arith, failed);
          phase = inl closed;
        }
        | inr fine ↦ record {
          ops = record {
            sync_start = ground (arith, fine, a.sync_start);
            sync_stop = ground (arith, fine, a.sync_stop);
          };
          arch = record {
            sync_start = ground (arith, fine, a.sync_start);
            sync_stop = ground (arith, fine, a.sync_stop);
          };
          timer = record {
            sync_start = ground (arith, fine, t.sync_start);
            sync_stop = ground (arith, fine, t.sync_stop);
          };
          small = ground (arith, fine);
          phase = inl closed;
        }
      ]

-- `vmalloc` returns as many words as the bytes asked for hold, `simple_strtoul` an unsigned long.
module _ {A : Type 0} (vmalloc : ℕ → Option (List ℕ))
    (vmalloc_node : ℕ → ℕ → Option (List OpSample)) (hz : ℕ) (simple_strtoul : List ℕ → ℕ)
    (sized : (n : ℕ) (a : List ℕ) → vmalloc n ≡ some a → length a ≡ n / 8)
    (number : (text : List ℕ) → simple_strtoul text < ulong_mod) where
  -- From the load of the module on, whatever the timer and the architecture fill in (without a
  -- synchronisation of their own) and return, and whatever mounts of the file system, writes to its files,
  -- sessions, interrupts and delayed work follow each other, where no session is opened with an
  -- `oprofile_buffer_size` of 2 ^ 61 words or more, and the delayed work runs only while `work_enabled` is
  -- not 0: the driver is sound, so either there is no session, and then nothing is set up, nothing is
  -- started, no event buffer is there and no work is enabled; or there is one, and then the driver is set
  -- up with a well-formed event buffer and the work enabled. `vmalloc` is relied on to return as many words
  -- as the bytes asked for hold, and `simple_strtoul` unsigned longs.
  pub loaded-IsSound :
      (cpus : ℕ) (online : List ℕ) (arch : A) (none_yet timer arch_ops : OprofileOperations A)
      (err : ℕ) {d : Driver A}
      → IsGeneric timer
      → IsGeneric arch_ops
      → Reach vmalloc vmalloc_node hz simple_strtoul
          (after_init cpus online arch none_yet timer arch_ops err)
          d
      → IsSound d
  loaded-IsSound cpus online arch none_yet timer arch_ops err t a reach =
      Reach-IsSound vmalloc vmalloc_node hz simple_strtoul sized number reach
        (init-IsSound cpus online arch none_yet timer arch_ops err t a)
