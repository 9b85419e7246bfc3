-- ===== src/CpuBuffer/Append.antt =====
-- `add_sample` of driver/cpu_buffer.c as an operation on the queue that the ring holds.
use rrprofile.Prelude.{
  ℕ, suc, ◌+◌, ◌<◌, ◌≡◌, refl, sym, ap, ◌∙◌, arith, List, [], ◌∷◌, ◌++◌, length, length-append,
}
use mathlib.Core.List.{append_assoc, append-nil}
use rrprofile.CpuBuffer.{OprofileCpuBuffer, OpSample, add_sample}
use rrprofile.CpuBuffer.Window.{
  IsRing, window, used, entries, window-set, add_sample-IsRing, used-add_sample, add_sample-frame,
  add_sample-full,
}

-- `c` is the ring `b` with the entries `ss` appended; the reader's position is the same.
pub record Appends (b c : OprofileCpuBuffer) (ss : List OpSample) : Type 0 where
  pub ring : IsRing c
  pub contents : entries c ≡ entries b ++ ss
  pub count : used c ≡ used b + length ss
  pub size : c.buffer_size ≡ b.buffer_size
  pub tail : c.tail_pos ≡ b.tail_pos

-- A ring whose storage, size and tail are known holds the window of as many entries.
entries_of_parts :
    (c : OprofileCpuBuffer) (buf : List OpSample) (size tail n : ℕ)
    → c.buffer ≡ buf
    → c.buffer_size ≡ size
    → c.tail_pos ≡ tail
    → used c ≡ n
    → entries c ≡ window buf size tail n
entries_of_parts c buf size tail n p q r u = λ i. window (p i) (q i) (r i) (u i)

entries-add_sample :
    (b : OprofileCpuBuffer) (pc event timestamp : ℕ)
    → IsRing b
    → used b + 1 < b.buffer_size
    → entries (add_sample b pc event timestamp)
      ≡ entries b ++ (record { eip = pc; event = event; timestamp = timestamp } ∷ [])
entries-add_sample b pc event timestamp v h =
    let (tail, size, _, _, buf, _) = add_sample-frame b pc event timestamp in
    let count : used (add_sample b pc event timestamp) ≡ suc (used b) =
      omega (arith, used-add_sample b pc event timestamp v h) in
    entries_of_parts (add_sample b pc event timestamp) _ _ _ _ buf size tail count
    ∙ window-set b.buffer b.buffer_size _ (used b) b.tail_pos b.head_pos (omega (arith, v.storage))
        v.tail_in (omega arith) (ground (arith, v.head_in, v.tail_in))

-- With a slot to spare, `add_sample` appends its entry and keeps the ring.
pub add_sample-Appends :
    (b : OprofileCpuBuffer) (pc event timestamp : ℕ)
    → IsRing b
    → used b + 1 < b.buffer_size
    → Appends b
        (add_sample b pc event timestamp)
        (record { eip = pc; event = event; timestamp = timestamp } ∷ [])
add_sample-Appends b pc event timestamp v h = record {
  ring = add_sample-IsRing b pc event timestamp v;
  contents = entries-add_sample b pc event timestamp v h;
  count = used-add_sample b pc event timestamp v h;
  size = (add_sample-frame b pc event timestamp).1;
  tail = (add_sample-frame b pc event timestamp).0;
}

pub Appends-refl : (b : OprofileCpuBuffer) → IsRing b → Appends b b []
Appends-refl b v = record {
  ring = v;
  contents = sym (append-nil (entries b));
  count = omega arith;
  size = refl;
  tail = refl;
}

pub Appends-trans :
    {b c d : OprofileCpuBuffer} {ss ts : List OpSample}
    → Appends b c ss
    → Appends c d ts
    → Appends b d (ss ++ ts)
Appends-trans {b} {c} {d} {ss} {ts} p q = record {
  ring = q.ring;
  contents = q.contents ∙ ap (λ t. t ++ ts) p.contents ∙ append_assoc (entries b) ss ts;
  count = omega (arith, p.count, q.count, length-append ss ts);
  size = q.size ∙ p.size;
  tail = q.tail ∙ p.tail;
}

-- With no slot to spare the head meets the tail, and the whole queue is lost.
pub add_sample-overrun :
    (b : OprofileCpuBuffer) (pc event timestamp : ℕ)
    → IsRing b
    → used b + 1 ≡ b.buffer_size
    → entries (add_sample b pc event timestamp) ≡ []
add_sample-overrun b pc event timestamp v h = rw (add_sample-full b pc event timestamp v h)
