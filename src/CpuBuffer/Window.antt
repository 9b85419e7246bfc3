-- ===== src/CpuBuffer/Window.antt =====
-- What a CPU buffer holds: the entries from `tail_pos` up to `head_pos`, oldest first, and the
-- invariant under which the ring of driver/cpu_buffer.c is that queue.
use rrprofile.Prelude.{
  ℕ, zero, suc, ◌+◌, ◌-◌, ◌≤◌, ◌<◌, ◌≡◌, refl, ap, ap₂, arith, List, [], ◌∷◌, ◌++◌, ltb, leb,
  if◌then◌else◌, length, get_or, set, length-set, get_or-set_self, get_or-set_ne, ulong_mod,
}
use rrprofile.CpuBuffer.{OprofileCpuBuffer, OpSample, no_sample, nr_available_slots, add_sample}

-- the index after `i`, as `increment_head` and `increment_tail` compute it
abbrev pub next : ℕ → ℕ → ℕ
next size i = if ltb (i + 1) size then i + 1 else 0

-- the index `n` places after `i`
abbrev pub place : ℕ → ℕ → ℕ → ℕ
place size i n = if ltb (i + n) size then i + n else i + n - size

module _ (buf : List OpSample) (size : ℕ) where
  -- `n` entries from index `i` on, going round at `size`
  abbrev pub window : ℕ → ℕ → List OpSample
  window i zero = []
  window i (suc n) = get_or buf i no_sample ∷ window (next size i) n

  pub length-window : (i n : ℕ) → length (window i n) ≡ n
  length-window i zero = refl
  length-window i (suc n) = ap suc (length-window (next size i) n)

-- the number of entries between the tail and the head
abbrev pub used : OprofileCpuBuffer → ℕ
used b =
    if leb b.tail_pos b.head_pos
    then b.head_pos - b.tail_pos
    else b.head_pos + (b.buffer_size - b.tail_pos)

abbrev pub entries : OprofileCpuBuffer → List OpSample
entries b = window b.buffer b.buffer_size b.tail_pos (used b)

-- An allocated ring with both positions inside.
pub record IsRing (b : OprofileCpuBuffer) : Type 0 where
  pub storage : length b.buffer ≡ b.buffer_size
  pub small : b.buffer_size < ulong_mod
  pub head_in : b.head_pos < b.buffer_size
  pub tail_in : b.tail_pos < b.buffer_size

-- Writing at the place after a window extends it by that entry.
pub window-set :
    (buf : List OpSample) (size : ℕ) (x : OpSample) (n i j : ℕ)
    → size ≤ length buf
    → i < size
    → n < size
    → j ≡ place size i n
    → window (set buf j x) size i (suc n) ≡ window buf size i n ++ (x ∷ [])
window-set buf size x zero i j hs hi hn e =
    let here : j ≡ i = ground arith in
    ap (λ t. t ∷ []) (ground (arith, get_or-set_self buf j x no_sample (ground arith)))
window-set buf size x (suc n) i j hs hi hn e =
    ap₂ ◌∷◌ (get_or-set_ne buf {i = j} {j = i} x no_sample (ground arith))
      (window-set buf size x n (next size i) j hs (ground arith) (omega arith) (ground arith))

-- One slot stays free, so that a full ring and an empty one differ; nothing wraps around.
pub nr_available_slots-add-used :
    (b : OprofileCpuBuffer) → IsRing b → nr_available_slots b + used b + 1 ≡ b.buffer_size
unfolding nr_available_slots
nr_available_slots-add-used b v = ground arith

pub used-lt-size : (b : OprofileCpuBuffer) → IsRing b → used b < b.buffer_size
used-lt-size b v = ground arith

module _ (b : OprofileCpuBuffer) (pc event timestamp : ℕ) where
  abbrev after : OprofileCpuBuffer
  after = add_sample b pc event timestamp

  abbrev added : OpSample
  added = record { eip = pc; event = event; timestamp = timestamp }

  pub add_sample-IsRing : IsRing b → IsRing (add_sample b pc event timestamp)
  unfolding add_sample
  add_sample-IsRing v = ground (arith, length-set b.buffer b.head_pos added)

  pub used-add_sample :
      IsRing b → used b + 1 < b.buffer_size → used (add_sample b pc event timestamp) ≡ used b + 1
  unfolding add_sample
  used-add_sample v h = ground arith

  -- the reader's side and the notes are left alone
  pub add_sample-frame :
      (after.tail_pos ≡ b.tail_pos)
      × (after.buffer_size ≡ b.buffer_size)
      × (after.last_task ≡ b.last_task)
      × (after.last_is_kernel ≡ b.last_is_kernel)
      × (after.buffer ≡ set b.buffer b.head_pos added)
      × (after.tracing ≡ b.tracing)
  unfolding add_sample
  add_sample-frame = ground arith

  pub add_sample-full :
      IsRing b → used b + 1 ≡ b.buffer_size → used (add_sample b pc event timestamp) ≡ 0
  unfolding add_sample
  add_sample-full v h = ground arith
