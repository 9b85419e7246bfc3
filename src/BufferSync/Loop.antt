-- ===== src/BufferSync/Loop.antt =====
-- The loop of `sync_buffer` in driver/buffer_sync.c takes the entries of the ring one by one, oldest
-- first, and leaves the ring empty.
use rrprofile.Prelude.{
  ℕ, zero, suc, ◌<◌, ◌≡◌, refl, ap, ◌∙◌, arith, List, [], ◌∷◌, get_or, ulong_mod, minus_one, ◌++◌,
}
use rrprofile.CpuBuffer.{OprofileCpuBuffer, OpSample, no_sample, cpu_buffer_reset}
use rrprofile.CpuBuffer.Window.{IsRing, window, used, entries, next, place, used-lt-size}
use rrprofile.EventBuffer.{EventBuffer}
use rrprofile.BufferSync.{
  Sync, sync_entry, sync_loop, increment_tail, get_slots, drain, sb_buffer_start, add_cpu_switch,
}

-- the entries in order
abbrev pub sync_entries : Sync → List OpSample → Sync
sync_entries y [] = y
sync_entries y (s ∷ ss) = sync_entries (sync_entry y s) ss

pub sync_entries-append :
    (y : Sync) (ss ts : List OpSample)
    → sync_entries y (ss ++ ts) ≡ sync_entries (sync_entries y ss) ts
sync_entries-append y [] ts = refl
sync_entries-append y (s ∷ ss) ts = sync_entries-append (sync_entry y s) ss ts

abbrev with_tail : OprofileCpuBuffer → ℕ → OprofileCpuBuffer
with_tail b t = record b { tail_pos = t }

-- What a ring keeps while its tail moves.
record IsStore (b : OprofileCpuBuffer) : Type 0 where
  small : b.buffer_size < ulong_mod
  tail_in : b.tail_pos < b.buffer_size

increment_tail_lem :
    (b : OprofileCpuBuffer)
    → IsStore b
    → increment_tail b ≡ with_tail b (next b.buffer_size b.tail_pos)
unfolding increment_tail
increment_tail_lem b v = ground arith

next-IsStore :
    (b : OprofileCpuBuffer) → IsStore b → IsStore (with_tail b (next b.buffer_size b.tail_pos))
next-IsStore b v = ground arith

-- `n` rounds process the window of `n` entries from the tail.
sync_loop-entries :
    (n : ℕ) (y : Sync) (b : OprofileCpuBuffer)
    → IsStore b
    → (sync_loop n y b).0 ≡ sync_entries y (window b.buffer b.buffer_size b.tail_pos n)
unfolding sync_loop
sync_loop-entries zero y b v = refl
sync_loop-entries (suc n) y b v =
    rw (increment_tail_lem b v, sync_loop)
      (sync_loop-entries n (sync_entry y (get_or b.buffer b.tail_pos no_sample))
        (with_tail b (next b.buffer_size b.tail_pos)) (next-IsStore b v))

-- and advance the tail by `n` places, which is all that they change in the ring.
sync_loop-tail :
    (n : ℕ) (y : Sync) (b : OprofileCpuBuffer)
    → IsStore b
    → n < b.buffer_size
    → (sync_loop n y b).1 ≡ with_tail b (place b.buffer_size b.tail_pos n)
unfolding sync_loop
sync_loop-tail zero y b v h = ap (with_tail b) (ground arith)
sync_loop-tail (suc n) y b v h =
    rw (increment_tail_lem b v, sync_loop)
      (sync_loop-tail n (sync_entry y (get_or b.buffer b.tail_pos no_sample))
          (with_tail b (next b.buffer_size b.tail_pos)) (next-IsStore b v) (omega arith)
        ∙ ap (with_tail b) (ground arith))

-- `get_slots` counts the entries of the ring, and resets the notes.
pub get_slots_lem :
    (b : OprofileCpuBuffer)
    → IsRing b
    → get_slots b ≡ (record b { last_is_kernel = minus_one; last_task = 0 }, used b)
unfolding get_slots cpu_buffer_reset
get_slots_lem b v = ground arith

abbrev pub start_of : ℕ → EventBuffer → Sync
start_of cpu e = record {
  state = sb_buffer_start;
  in_kernel = 1;
  tgid = 0;
  tid = 0;
  event = add_cpu_switch e cpu;
}

-- The drained ring: its tail has caught up with its head, and the next sample will be noted afresh.
abbrev pub drained : OprofileCpuBuffer → OprofileCpuBuffer
drained b = record b { tail_pos = b.head_pos; last_is_kernel = minus_one; last_task = 0 }

-- `sync_buffer` processes exactly the entries of the ring, in the order in which they were logged,
-- and leaves the ring empty, with the notes reset and nothing else changed.
pub drain_lem :
    (cpu : ℕ) (e : EventBuffer) (b : OprofileCpuBuffer)
    → IsRing b
    → drain cpu e b ≡ ((sync_entries (start_of cpu e) (entries b)).event, drained b)
unfolding drain
drain_lem cpu e b v =
    let c : OprofileCpuBuffer = record b { last_is_kernel = minus_one; last_task = 0 } in
    let store : IsStore c = record { small = v.small; tail_in = v.tail_in } in
    let done = sync_loop-entries (used b) (start_of cpu e) c store in
    let tail = sync_loop-tail (used b) (start_of cpu e) c store (used-lt-size b v) in
    let caught : place b.buffer_size b.tail_pos (used b) ≡ b.head_pos = ground arith in
    rw (get_slots_lem b v, drain) (λ i. ((done i).event, (tail ∙ ap (with_tail c) caught) i))
