-- ===== src/PowerPc/Common/Session.antt =====
-- `op_powerpc_start` and `op_powerpc_stop` of powerpc/common.c on all CPUs, for every model.
use rrprofile.Prelude.{
  ℕ, zero, suc, ◌-◌, ◌%◌, ◌<◌, ◌≡◌, refl, subst, ap, ◌∙◌, arith, List, [], ◌∷◌, Bool, true, false,
  Option, some, ◌≢◌, ◌⊎◌, inl, inr, get_or, length, uint_mod,
}
use Prim.Native.Nat.{bit_and, bit_or}
use rrprofile.Bits.{bit, bit_small, bit-bit_or}
use rrprofile.Codes.{enodev}
use rrprofile.CpuBuffer.{OprofileCpuBuffer, oprofile_add_start, oprofile_add_stop}
use rrprofile.PowerPc.{PpcCounterConfig, PpcCpu, PpcShared, PpcMasks}
use rrprofile.PowerPc.Words.{bit-clear}
use rrprofile.PowerPc.Power4.Run.{PpcKernel, is_kernel_addr, power4_start, power4_stop}
use rrprofile.PowerPc.Rs64.{rs64_start, rs64_stop}
use rrprofile.PowerPc.Fsl7450.{
  PmcSel, interrupt_mask, fsl7450_start, fsl7450_stop, pmc_start_ctrs, pmc_stop_ctrs,
}
use rrprofile.PowerPc.Common.{
  OpPowerpcModel, Ppc, PpcOprofileType, rs64, power4, g4, other, on_each_cpu, op_powerpc_start,
  op_powerpc_stop, op_powerpc_cpu_start, op_powerpc_cpu_stop, model_of, op_model_power4,
  op_model_rs64, op_model_7450, PpcInit, oprofile_arch_init,
}

-- What the function makes of a CPU, whatever the shared state, holds between every CPU before and after.
each_both :
    (f : PpcShared × PpcCpu → PpcShared × PpcCpu) (R : PpcCpu → PpcCpu → Type 0) (g : PpcShared)
    (cs : List PpcCpu) (i : ℕ) (d : PpcCpu)
    → ((g : PpcShared) (c : PpcCpu) → R c (f (g, c)).1)
    → i < length cs
    → R (get_or cs i d) (get_or (on_each_cpu f g cs).1 i d)
each_both f R g [] i d h lt = absurd (omega arith)
each_both f R g (c ∷ cs) zero d h lt = h g c
each_both f R g (c ∷ cs) (suc i) d h lt = each_both f R (f (g, c)).0 cs i d h (omega arith)

-- The masks that the two sides of a session change: all words, and the freeze bit is no bit that lets the
-- counters interrupt.
pub record IsFreezing (b : PpcMasks) (k : ℕ) : Type 0 where
  pub within : k < 32
  pub freeze : bit k b.fc ≡ 1
  pub silent : bit k (interrupt_mask b) ≡ 0
  pub fc_small : b.fc < uint_mod
  pub fcm0_small : bit_or b.fc b.fcm0 < uint_mod
  pub interrupt_small : interrupt_mask b < uint_mod

-- A model freezes a CPU when it stops it, and thaws it when it starts it.
record IsSwitch (k : ℕ) (m : OpPowerpcModel) : Type 0 where
  stopped : (g : PpcShared) (c : PpcCpu) → bit k (m.stop (g, c)).1.mmcr0 ≡ 1
  kept : (g : PpcShared) (c : PpcCpu) → (m.stop (g, c)).1.pmc ≡ c.pmc
  logged : (g : PpcShared) (c : PpcCpu) → (m.stop (g, c)).1.ring ≡ c.ring
  started :
      (tb : ℕ) (ctr : List PpcCounterConfig) (g : PpcShared) (c : PpcCpu)
      → bit k (m.start tb ctr (g, c)).1.mmcr0 ≡ 0

module _ (b : PpcMasks) (k : ℕ) (h : IsFreezing b k) where
  frozen : (x : ℕ) → bit k (bit_or x b.fc) ≡ 1
  frozen x = bit-bit_or k x b.fc ∙ omega (arith, h.freeze, bit_small k x)

  thawed : (x : ℕ) → bit k (bit_and x (uint_mod - 1 - b.fc)) ≡ 0
  thawed x = bit-clear k x b.fc h.within h.fc_small ∙ omega (arith, h.freeze)

  module _ (add_ext_sample : (pc i is_kernel : ℕ) → OprofileCpuBuffer → OprofileCpuBuffer)
      (num_pmcs : ℕ) where
    power4-IsSwitch :
        (must : Bool) (p : PpcKernel)
        → IsSwitch k (op_model_power4 b add_ext_sample num_pmcs must p)
    unfolding op_model_power4 power4_start power4_stop
    power4-IsSwitch must p = record {
      stopped = λ g c. frozen _;
      kept = λ g c. refl;
      logged = λ g c. refl;
      started = λ tb ctr g c. thawed _;
    }

    rs64-IsSwitch :
        (has : Bool) (in_kernel : ℕ → Bool)
        → IsSwitch k (op_model_rs64 b add_ext_sample num_pmcs has in_kernel)
    unfolding op_model_rs64 rs64_start rs64_stop
    rs64-IsSwitch has in_kernel = record {
      stopped = λ g c. frozen _;
      kept = λ g c. refl;
      logged = λ g c. refl;
      started = λ tb ctr g c. thawed _;
    }

    fsl7450-IsSwitch :
        (sel : PmcSel) (in_kernel : ℕ → Bool)
        → IsSwitch k (op_model_7450 b add_ext_sample num_pmcs sel in_kernel)
    unfolding op_model_7450 fsl7450_start fsl7450_stop pmc_start_ctrs pmc_stop_ctrs
    fsl7450-IsSwitch sel in_kernel = record {
      stopped = λ g c.
          bit-clear k _ (interrupt_mask b) h.within h.interrupt_small
          ∙ omega (arith, frozen (c.mmcr0 % uint_mod), h.silent);
      kept = λ g c. refl;
      logged = λ g c. refl;
      started = λ tb ctr g c.
          bit-bit_or k _ (interrupt_mask b)
          ∙ omega (
            arith,
            bit-clear k _ (bit_or b.fc b.fcm0) h.within h.fcm0_small,
            bit-bit_or k b.fc b.fcm0,
            h.freeze,
            h.silent,
            bit_small k b.fcm0,
          );
    }

    model_of-IsSwitch :
        (sel : PmcSel) (must has : Bool) (p : PpcKernel) (t : PpcOprofileType) (m : OpPowerpcModel)
        → model_of b add_ext_sample num_pmcs sel must has p t ≡ some m
        → IsSwitch k m
    unfolding model_of
    model_of-IsSwitch sel must has p rs64 m e =
        let same : op_model_rs64 b add_ext_sample num_pmcs has (is_kernel_addr p) ≡ m = cc in
        subst (IsSwitch k) same (rs64-IsSwitch has (is_kernel_addr p))
    model_of-IsSwitch sel must has p power4 m e =
        let same : op_model_power4 b add_ext_sample num_pmcs must p ≡ m = cc in
        subst (IsSwitch k) same (power4-IsSwitch must p)
    model_of-IsSwitch sel must has p g4 m e =
        let same : op_model_7450 b add_ext_sample num_pmcs sel (is_kernel_addr p) ≡ m = cc in
        subst (IsSwitch k) same (fsl7450-IsSwitch sel (is_kernel_addr p))
    model_of-IsSwitch sel must has p other m e = ground (arith, e)

    -- For masks of a freeze bit that is none of those that let the counters interrupt, and whichever model
    -- the processor is given: `op_powerpc_stop` leaves on every CPU the freeze bit of `MMCR0` set and the
    -- counters as they were, and logs the end of the sampling there as the only entry; and
    -- `op_powerpc_start` leaves the freeze bit clear on every CPU.
    pub start_stop_lem :
        (sel : PmcSel) (must has : Bool) (p : PpcKernel) (t : PpcOprofileType) (m : OpPowerpcModel)
        (tb_start : PpcCpu → ℕ × ℕ) (tb_stop : PpcCpu → ℕ) (old : Ppc) (i : ℕ) (d : PpcCpu)
        → model_of b add_ext_sample num_pmcs sel must has p t ≡ some m
        → i < length old.cpus
        → let s = record old { model = m } in
          let c = get_or old.cpus i d in
          let stopped = get_or (op_powerpc_stop tb_stop s).cpus i d in
          let started = get_or (op_powerpc_start tb_start s).0.cpus i d in
          (bit k stopped.mmcr0 ≡ 1)
          × (stopped.pmc ≡ c.pmc)
          × ((tb : ℕ) × (stopped.ring ≡ oprofile_add_stop c.ring tb))
          × (bit k started.mmcr0 ≡ 0)
    unfolding op_powerpc_stop op_powerpc_start op_powerpc_cpu_stop op_powerpc_cpu_start
    start_stop_lem sel must has p t m tb_start tb_stop old i d e lt =
        let w = model_of-IsSwitch sel must has p t m e in
        let (down, counters, log) =
          each_both (op_powerpc_cpu_stop tb_stop m)
            (λ c c'.
              (bit k c'.mmcr0 ≡ 1)
              × (c'.pmc ≡ c.pmc)
              × ((tb : ℕ) × (c'.ring ≡ oprofile_add_stop c.ring tb)))
            old.shared old.cpus i d
            (λ g c. (
              w.stopped g c,
              w.kept g c,
              (
                tb_stop (m.stop (g, c)).1,
                ap (λ r. oprofile_add_stop r (tb_stop (m.stop (g, c)).1)) (w.logged g c),
              ),
            ))
            lt in
        let up =
          each_both (op_powerpc_cpu_start tb_start m old.ctr) (λ c c'. bit k c'.mmcr0 ≡ 0)
            old.shared old.cpus i d
            (λ g c.
              w.started (tb_start c).1 old.ctr g
                (record c { ring = oprofile_add_start c.ring (tb_start c).0 }))
            lt in
        (down, counters, log, up)

-- `oprofile_arch_init` either returns ENODEV and changes nothing, or returns 0 and has chosen the model of
-- the type of the processor, with its number of counters.
oprofile_arch_init_lem :
    (ppc64 cpu_type : Bool) (type : PpcOprofileType) (num_pmcs : ℕ) (clock : Option ℕ) (s : PpcInit)
    → let r = oprofile_arch_init ppc64 cpu_type type num_pmcs clock s in
      ((r.1 ≡ enodev) × (r.0 ≡ s))
      ⊎ ((r.1 ≡ 0) × (r.0.model ≡ some type) × (r.0.num_counters ≡ num_pmcs) × (type ≢ other))
unfolding oprofile_arch_init
oprofile_arch_init_lem ppc64 false type num_pmcs clock s = inl (refl, refl)
oprofile_arch_init_lem true true rs64 num_pmcs clock s =
    inr (refl, refl, refl, λ e. ground (arith, e))
oprofile_arch_init_lem true true power4 num_pmcs clock s =
    inr (refl, refl, refl, λ e. ground (arith, e))
oprofile_arch_init_lem true true g4 num_pmcs clock s = inl (refl, refl)
oprofile_arch_init_lem true true other num_pmcs clock s = inl (refl, refl)
oprofile_arch_init_lem false true rs64 num_pmcs clock s = inl (refl, refl)
oprofile_arch_init_lem false true power4 num_pmcs clock s = inl (refl, refl)
oprofile_arch_init_lem false true g4 num_pmcs clock s =
    inr (refl, refl, refl, λ e. ground (arith, e))
oprofile_arch_init_lem false true other num_pmcs clock s = inl (refl, refl)
