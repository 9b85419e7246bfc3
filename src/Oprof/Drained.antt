-- ===== src/Oprof/Drained.antt =====
-- `oprofile_stop` of driver/oprof.c: what is left in the rings goes to the event buffer.
use rrprofile.Prelude.{
  ℕ, ◌<◌, ◌≡◌, ◌≢◌, refl, ap, sym, ◌∙◌, arith, List, [], ◌∷◌, true, false, ◌==◌, ==_iff, get_or,
  length, length-set, get_or-set_self, get_or-set_ne, Bool-cases, ◌⊎◌, inl, inr,
}
use rrprofile.CpuBuffer.{OprofileCpuBuffer}
use rrprofile.CpuBuffer.Window.{IsRing, entries}
use rrprofile.BufferSync.{Buffers, no_buffer, cpu_isset, sync_buffer}
use rrprofile.BufferSync.Loop.{drained, drain_lem}
use rrprofile.Oprof.{Driver, machine, sync_all, oprofile_stop}

abbrev pub ring_of : List OprofileCpuBuffer → ℕ → OprofileCpuBuffer
ring_of cpus i = get_or cpus i no_buffer

-- Every CPU has a well-formed ring.
abbrev pub AllRings : List OprofileCpuBuffer → Type 0
AllRings cpus = (i : ℕ) → i < length cpus → IsRing (ring_of cpus i)

abbrev IsDrained : OprofileCpuBuffer → Type 0
IsDrained b = b.tail_pos ≡ b.head_pos

IsDrained-entries : (b : OprofileCpuBuffer) → IsDrained b → entries b ≡ []
IsDrained-entries b h = ground arith

sync_buffer_self :
    (g : Buffers) (j : ℕ)
    → j < length g.cpu_buffer
    → IsRing (ring_of g.cpu_buffer j)
    → ring_of (sync_buffer g j).cpu_buffer j ≡ drained (ring_of g.cpu_buffer j)
unfolding sync_buffer
sync_buffer_self g j h v =
    get_or-set_self g.cpu_buffer j _ no_buffer h
    ∙ ap (λ p. p.1) (drain_lem j g.event (ring_of g.cpu_buffer j) v)

sync_buffer_other :
    (g : Buffers) (i j : ℕ)
    → i ≢ j
    → ring_of (sync_buffer g j).cpu_buffer i ≡ ring_of g.cpu_buffer i
unfolding sync_buffer
sync_buffer_other g i j h = get_or-set_ne g.cpu_buffer _ no_buffer (λ e. h (sym e))

sync_buffer-length :
    (g : Buffers) (j : ℕ) → length (sync_buffer g j).cpu_buffer ≡ length g.cpu_buffer
unfolding sync_buffer
sync_buffer-length g j = length-set g.cpu_buffer j _

drained-IsRing : (b : OprofileCpuBuffer) → IsRing b → IsRing (drained b)
drained-IsRing b v = record {
  storage = v.storage;
  small = v.small;
  head_in = v.head_in;
  tail_in = v.head_in;
}

sync_buffer-AllRings :
    (g : Buffers) (j : ℕ) → AllRings g.cpu_buffer → AllRings (sync_buffer g j).cpu_buffer
sync_buffer-AllRings g j v i h =
    let h' : i < length g.cpu_buffer = omega (arith, h, sync_buffer-length g j) in
    elim (Bool-cases (i == j)) [
      | inl same ↦
          let e : i ≡ j = (==_iff i j).0 same in
          let at_j : j < length g.cpu_buffer = omega arith in
          rw (e, sync_buffer_self g j at_j (v j at_j)) (drained-IsRing _ (v j at_j))
      | inr differs ↦ let ne : i ≢ j = ground arith in rw (sync_buffer_other g i j ne) (v i h')
    ]

sync_all-IsDrained :
    (online : List ℕ) (g : Buffers) (i : ℕ)
    → AllRings g.cpu_buffer
    → i < length g.cpu_buffer
    → (cpu_isset i online ≡ true) ⊎ IsDrained (ring_of g.cpu_buffer i)
    → IsDrained (ring_of (sync_all online g).cpu_buffer i)
sync_all-IsDrained [] g i v h (inl e) = absurd (cc e)
sync_all-IsDrained [] g i v h (inr d) = d
sync_all-IsDrained (j ∷ online) g i v h c =
    let h' : i < length (sync_buffer g j).cpu_buffer = omega (arith, h, sync_buffer-length g j) in
    let go = sync_all-IsDrained online (sync_buffer g j) i (sync_buffer-AllRings g j v) h' in
    elim (Bool-cases (i == j)) [
      | inl same ↦
          let e : i ≡ j = (==_iff i j).0 same in
          let at_j : j < length g.cpu_buffer = omega arith in
          go (inr (rw (e, sync_buffer_self g j at_j (v j at_j)) refl))
      | inr differs ↦
          let ne : i ≢ j = ground arith in
          let kept = sync_buffer_other g i j ne in
          elim c [ inl listed ↦ go (inl (ground arith)) | inr d ↦ go (inr (rw kept d)) ]
    ]

-- When `oprofile_stop` stops a started driver and the rings are well formed once the counters have
-- stopped, the ring of every CPU that is online holds no entry afterwards, and the driver no longer
-- counts as started.
pub oprofile_stop_lem :
    {A : Type 0} (d : Driver A) (i : ℕ)
    → d.oprofile_started ≢ 0
    → let rings = (d.oprofile_ops.stop (machine d)).rings in
      AllRings rings
      → i < length rings
      → cpu_isset i d.buffers.online ≡ true
      → (entries (ring_of (oprofile_stop d).buffers.cpu_buffer i) ≡ [])
        × ((oprofile_stop d).oprofile_started ≡ 0)
unfolding oprofile_stop
oprofile_stop_lem d i on v h listed =
    let started : (d.oprofile_started == 0) ≡ false = ground arith in
    let g = d.buffers in
    let stopped : Buffers = record g { cpu_buffer = (d.oprofile_ops.stop (machine d)).rings } in
    let done = sync_all-IsDrained g.online stopped i v h (inl listed) in
    rw started (IsDrained-entries (ring_of (sync_all g.online stopped).cpu_buffer i) done, refl)
