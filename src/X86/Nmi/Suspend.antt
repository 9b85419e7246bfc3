-- ===== src/X86/Nmi/Suspend.antt =====
-- `nmi_suspend` and `nmi_resume` of x86/nmi_int.c, with the P6 counters (x86/op_model_ppro.c) as the model.
use rrprofile.Prelude.{
  ℕ, ◌<◌, ◌≡◌, ◌≢◌, ◌⊎◌, refl, sym, subst, ap, ◌∙◌, arith, Bool, true, ◌==◌, if◌then◌else◌, get_or,
  length, Bool-cases, inl, inr,
}
use rrprofile.Bits.{bit}
use rrprofile.CpuBuffer.{OprofileCpuBuffer, oprofile_add_start, oprofile_add_stop}
use rrprofile.X86.Ppro.{Cpu, control_addr, ppro_start, ppro_stop}
use rrprofile.X86.Ppro.Control.{control, start_stop_bits}
use rrprofile.X86.Nmi.{
  OpX86ModelSpec, NmiCpu, Nmi, on_each_cpu, nmi_cpu_start, nmi_cpu_stop, nmi_start, nmi_stop,
  nmi_suspend, nmi_resume,
}
use rrprofile.X86.Nmi.Reach.{on_each_cpu_at, length-on_each_cpu}
use rrprofile.X86.Nmi.Models.{op_ppro_spec}

-- A CPU after a function on every CPU that is online, if it is.
each_at :
    (f : NmiCpu → NmiCpu) (none : NmiCpu) (s : Nmi) (i : ℕ)
    → i < length s.cpus
    → (get_or s.cpus i none).online ≡ true
    → get_or (on_each_cpu f s.cpus) i none ≡ f (get_or s.cpus i none)
each_at f none s i lt on =
    let c = get_or s.cpus i none in
    on_each_cpu_at f none s.cpus i lt ∙ ap (λ (o : Bool). if o then f c else c) on

module _ (model : OpX86ModelSpec) (none : NmiCpu) (poll_idle i : ℕ) where
  stop_at :
      (tb : ℕ) (s : Nmi)
      → i < length s.cpus
      → (get_or s.cpus i none).online ≡ true
      → get_or (nmi_stop model poll_idle tb s).cpus i none
        ≡ nmi_cpu_stop model tb (get_or s.cpus i none)
  unfolding nmi_stop
  stop_at tb s lt on = each_at (nmi_cpu_stop model tb) none s i lt on

  start_at :
      (tb_add tb_start : ℕ) (s : Nmi)
      → i < length s.cpus
      → (get_or s.cpus i none).online ≡ true
      → get_or (nmi_start model poll_idle tb_add tb_start s).0.cpus i none
        ≡ nmi_cpu_start model tb_add tb_start (get_or s.cpus i none)
  unfolding nmi_start
  start_at tb_add tb_start s lt on =
      let each = each_at (nmi_cpu_start model tb_add tb_start) none s i lt on in
      elim (Bool-cases (s.idle.poll_idle_enabled == 0)) [
        | inl off ↦ rw off each
        | inr polls ↦ rw polls each
      ]

  -- What the two functions come to on either branch.
  suspend_lem :
      (tb : ℕ) (s : Nmi)
      → let down = nmi_suspend model poll_idle tb s in
        ((s.nmi_enabled ≡ 1) × (down ≡ nmi_stop model poll_idle tb s))
        ⊎ ((s.nmi_enabled ≢ 1) × (down ≡ s))
  unfolding nmi_suspend
  suspend_lem tb s = elim (Bool-cases (s.nmi_enabled == 1)) [
    | inl on ↦ let one : s.nmi_enabled ≡ 1 = ground (arith, on) in rw on (inl (one, refl))
    | inr off ↦ let other : s.nmi_enabled ≢ 1 = ground (arith, off) in rw off (inr (other, refl))
  ]

  resume_lem :
      (tb_add tb_start : ℕ) (s : Nmi)
      → let up = nmi_resume model poll_idle tb_add tb_start s in
        ((s.nmi_enabled ≡ 1) × (up ≡ (nmi_start model poll_idle tb_add tb_start s).0))
        ⊎ ((s.nmi_enabled ≢ 1) × (up ≡ s))
  unfolding nmi_resume
  resume_lem tb_add tb_start s = elim (Bool-cases (s.nmi_enabled == 1)) [
    | inl on ↦ let one : s.nmi_enabled ≡ 1 = ground (arith, on) in rw on (inl (one, refl))
    | inr off ↦ let other : s.nmi_enabled ≢ 1 = ground (arith, off) in rw off (inr (other, refl))
  ]

  flags :
      (tb tb_add tb_start : ℕ) (s : Nmi)
      → let down = nmi_stop model poll_idle tb s in
        (down.nmi_enabled ≡ s.nmi_enabled)
        × (down.ctr_running ≡ 0)
        × ((nmi_start model poll_idle tb_add tb_start s).0.ctr_running ≡ 1)
  unfolding nmi_stop nmi_start
  flags tb tb_add tb_start s = ground arith

  stop-length : (tb : ℕ) (s : Nmi) → length (nmi_stop model poll_idle tb s).cpus ≡ length s.cpus
  unfolding nmi_stop
  stop-length tb s = length-on_each_cpu (nmi_cpu_stop model tb) s.cpus

-- `c` is what a P6 CPU was, `d` what it is when suspended, `u` what it is when resumed: bit 22 of the first
-- control register, which lets the counters count, is cleared and then set, every other bit `k` of its lower
-- half and every other register `a` is what it was, and the ring gets the end of one stretch of sampling and
-- the start of the next.
pub record IsPaused (k a tb_stop tb_add tb_start : ℕ) (c d u : Cpu) : Type 0 where
  pub down : bit k (control d).low ≡ (if k == 22 then 0 else bit k (control c).low)
  pub up : bit k (control u).low ≡ (if k == 22 then 1 else bit k (control c).low)
  pub high : (control u).high ≡ (control c).high
  pub other : u.file a ≡ c.file a
  pub stopped : d.ring ≡ oprofile_add_stop c.ring tb_stop
  pub started : u.ring ≡ oprofile_add_start (oprofile_add_stop c.ring tb_stop) tb_add
  pub time : u.start_timestamp ≡ tb_start

module _ (add_sample : ℕ → OprofileCpuBuffer → OprofileCpuBuffer)
    (lvt_masked perfctr0 perfctr1 evntsel0 evntsel1 : ℕ) where
  abbrev pub model : OpX86ModelSpec
  unfolding op_ppro_spec
  model = op_ppro_spec add_sample lvt_masked perfctr0 perfctr1 evntsel0 evntsel1

  stop_start-IsPaused :
      (k a tb_stop tb_add tb_start : ℕ) (c : NmiCpu)
      → k < 32
      → a ≢ control_addr c.cpu 0
      → let d = nmi_cpu_stop model tb_stop c in
        IsPaused k a tb_stop tb_add tb_start c.cpu d.cpu (nmi_cpu_start model tb_add tb_start d).cpu
  unfolding nmi_cpu_stop nmi_cpu_start ppro_stop ppro_start op_ppro_spec
  stop_start-IsPaused k a tb_stop tb_add tb_start c lt ne =
      let off = start_stop_bits tb_start k a c.cpu lt ne in
      let d = (nmi_cpu_stop model tb_stop c).cpu in
      let on =
        start_stop_bits tb_start k a (record d { ring = oprofile_add_start d.ring tb_add }) lt ne in
      record {
        down = off.1;
        up = elim (Bool-cases (k == 22)) [
          | inl active ↦ rw active (on.0 ∙ rw active refl)
          | inr kept ↦ rw kept (on.0 ∙ rw kept (off.1 ∙ rw kept refl))
        ];
        high = on.2 ∙ off.3;
        other = on.4 ∙ off.5;
        stopped = refl;
        started = refl;
        time = refl;
      }

  -- For the P6 counters and a CPU that is online: when the handler is enabled, suspending stops the
  -- counters and resuming starts them, even if they had been stopped before, with bit 22 of the first
  -- control register cleared and then set, no other bit of the lower half changed, the upper half and every
  -- other register the same after it as before, and both noted in the CPU's ring; when `nmi_enabled` is
  -- not 1, suspending and resuming change nothing.
  pub nmi_resume-nmi_suspend :
      (poll_idle tb_stop tb_add tb_start i k a : ℕ) (none : NmiCpu) (s : Nmi)
      → i < length s.cpus
      → (get_or s.cpus i none).online ≡ true
      → k < 32
      → a ≢ control_addr (get_or s.cpus i none).cpu 0
      → let down = nmi_suspend model poll_idle tb_stop s in
        let up = nmi_resume model poll_idle tb_add tb_start down in
        let cpu : Nmi → Cpu = λ (t : Nmi). (get_or t.cpus i none).cpu in
        ((s.nmi_enabled ≡ 1)
          × (down.ctr_running ≡ 0)
          × (up.ctr_running ≡ 1)
          × IsPaused k a tb_stop tb_add tb_start (cpu s) (cpu down) (cpu up))
        ⊎ ((s.nmi_enabled ≢ 1) × (down ≡ s) × (up ≡ s))
  unfolding nmi_cpu_stop
  nmi_resume-nmi_suspend poll_idle tb_stop tb_add tb_start i k a none s lt on hk ne =
      let down = nmi_suspend model poll_idle tb_stop s in
      let resumed = resume_lem model none poll_idle i tb_add tb_start down in
      elim (suspend_lem model none poll_idle i tb_stop s) [
        | inr off ↦
            let still : down.nmi_enabled ≢ 1 =
              λ e. off.0 (sym (ap (λ (t : Nmi). t.nmi_enabled) off.1) ∙ e) in
            inr (off.0, off.1, elim resumed [ inl r ↦ absurd (still r.0) | inr r ↦ r.1 ∙ off.1 ])
        | inl stopped ↦
            let flag = flags model none poll_idle i tb_stop tb_add tb_start in
            let enabled : down.nmi_enabled ≡ 1 =
              ap (λ (t : Nmi). t.nmi_enabled) stopped.1 ∙ (flag s).0 ∙ stopped.0 in
            let c = get_or s.cpus i none in
            let here : get_or down.cpus i none ≡ nmi_cpu_stop model tb_stop c =
              ap (λ (t : Nmi). get_or t.cpus i none) stopped.1
              ∙ stop_at model none poll_idle i tb_stop s lt on in
            let size : length down.cpus ≡ length s.cpus =
              ap (λ (t : Nmi). length t.cpus) stopped.1
              ∙ stop-length model none poll_idle i tb_stop s in
            let paused = stop_start-IsPaused k a tb_stop tb_add tb_start c hk ne in
            elim resumed [
              | inr r ↦ absurd (r.0 enabled)
              | inl r ↦
                  let back =
                    ap (λ (t : Nmi). get_or t.cpus i none) r.1
                    ∙ start_at model none poll_idle i tb_add tb_start down (omega (arith, size, lt))
                        (ap (λ (c : NmiCpu). c.online) here ∙ on)
                    ∙ ap (nmi_cpu_start model tb_add tb_start) here in
                  inl (
                    stopped.0,
                    ap (λ (t : Nmi). t.ctr_running) stopped.1 ∙ (flag s).1,
                    ap (λ (t : Nmi). t.ctr_running) r.1 ∙ (flag down).2,
                    subst
                        (λ (u : NmiCpu).
                          IsPaused k a tb_stop tb_add tb_start c.cpu (get_or down.cpus i none).cpu
                            u.cpu)
                        (sym back)
                        (subst
                          (λ (d : NmiCpu).
                            IsPaused k a tb_stop tb_add tb_start c.cpu d.cpu
                              (nmi_cpu_start model tb_add tb_start
                                (nmi_cpu_stop model tb_stop c)).cpu)
                          (sym here) paused),
                  )
            ]
      ]
