-- ===== src/CpuBuffers/Alloc.antt =====
-- `alloc_cpu_buffers` of driver/cpu_buffer.c: all or nothing.
use rrprofile.Prelude.{
  ℕ, ◌+◌, ◌*◌, ◌/◌, ◌%◌, ◌<◌, ◌≡◌, arith, refl, List, [], ◌∷◌, true, length, Option, none, some,
  Option-cases, Bool-cases, ◌⊎◌, inl, inr, minus_one, ulong_mod,
}
use rrprofile.Codes.{enomem}
use rrprofile.CpuBuffer.{OprofileCpuBuffer, OpSample}
use rrprofile.CpuBuffer.Window.{IsRing, entries}
use rrprofile.CpuBuffers.{
  alloc_from, alloc_cpu_buffers, init_cpu_buffer, free_cpu_buffers, free_cpu_buffer,
}

-- A predicate of each buffer, with its CPU.
abbrev pub AllCpus : (ℕ → OprofileCpuBuffer → Type 0) → ℕ → List OprofileCpuBuffer → Type 0
AllCpus P i [] = Unit {0}
AllCpus P i (b ∷ bs) = P i b × AllCpus P (i + 1) bs

-- A fresh ring of CPU `i`: well formed, empty, with the notes reset, no trace and no work pending.
pub record IsFresh (size i : ℕ) (b : OprofileCpuBuffer) : Type 0 where
  pub ring : IsRing b
  pub empty : entries b ≡ []
  pub sized : b.buffer_size ≡ size
  pub own : b.cpu ≡ i
  pub mode : b.last_is_kernel ≡ minus_one
  pub task : b.last_task ≡ 0
  pub untraced : b.tracing ≡ 0
  pub idle : b.work ≡ none

abbrev pub IsFreed : ℕ → OprofileCpuBuffer → Type 0
IsFreed i b = b.buffer ≡ []

pub free_cpu_buffers-IsFreed :
    (i : ℕ) (bs : List OprofileCpuBuffer) → AllCpus IsFreed i (free_cpu_buffers bs)
unfolding free_cpu_buffers free_cpu_buffer
free_cpu_buffers-IsFreed i [] = tt
free_cpu_buffers-IsFreed i (b ∷ bs) = (refl, free_cpu_buffers-IsFreed (i + 1) bs)

-- What the driver relies on: the kernel returns as many entries of 24 bytes as the bytes asked for hold.
module _ (vmalloc_node : ℕ → ℕ → Option (List OpSample))
    (sized : (i n : ℕ) (a : List OpSample) → vmalloc_node i n ≡ some a → length a ≡ n / 24) where
  init-IsFresh :
      (i size : ℕ) (a : List OpSample)
      → 0 < size
      → size < ulong_mod
      → length a ≡ size
      → IsFresh size i (init_cpu_buffer i size a)
  unfolding init_cpu_buffer
  init-IsFresh i size a pos small h = record {
    ring = record { storage = h; small = small; head_in = pos; tail_in = pos };
    empty = refl;
    sized = refl;
    own = refl;
    mode = refl;
    task = refl;
    untraced = refl;
    idle = refl;
  }

  alloc_from-IsFresh :
      (i size : ℕ) (bs : List OprofileCpuBuffer)
      → 0 < size
      → size * 24 < ulong_mod
      → (alloc_from vmalloc_node i size bs).1 ≡ true
      → AllCpus (IsFresh size) i (alloc_from vmalloc_node i size bs).0
  unfolding alloc_from
  alloc_from-IsFresh i size [] pos small h = tt
  alloc_from-IsFresh i size (b ∷ bs) pos small h =
      elim (Option-cases (vmalloc_node i ((size * 24) % ulong_mod))) [
        | inl failed ↦ cc (rw (failed, alloc_from) at h)
        | inr found ↦
            rw (found.1, alloc_from)
              (
                init-IsFresh i size found.0 pos (omega (arith, small))
                    (omega (arith, small, sized i ((size * 24) % ulong_mod) found.0 found.1)),
                alloc_from-IsFresh (i + 1) size bs pos small (rw (found.1, alloc_from) at h),
              )
      ]

  -- If the kernel's `vmalloc_node` returns as many entries as the bytes asked for hold, then
  -- `alloc_cpu_buffers`, for a size that is not 0 and whose 24 bytes an entry an unsigned long counts,
  -- either returns 0 and has made a fresh ring of that size for every CPU, or returns an error and leaves
  -- no CPU with a buffer.
  pub alloc_cpu_buffers_lem :
      (size : ℕ) (cpus : List OprofileCpuBuffer)
      → 0 < size
      → size * 24 < ulong_mod
      → let (bs, err) = alloc_cpu_buffers vmalloc_node size cpus in
        ((err ≡ 0) × AllCpus (IsFresh size) 0 bs) ⊎ ((err ≡ enomem) × AllCpus IsFreed 0 bs)
  unfolding alloc_cpu_buffers
  alloc_cpu_buffers_lem size cpus pos small =
      let fresh = alloc_from-IsFresh 0 size cpus pos small in
      let freed = free_cpu_buffers-IsFreed 0 (alloc_from vmalloc_node 0 size cpus).0 in
      elim (Bool-cases (alloc_from vmalloc_node 0 size cpus).1) [
        | inl done ↦ rw done (inl (refl, fresh done))
        | inr failed ↦ rw failed (inr (refl, freed))
      ]
