-- ===== src/X86/Nmi/Models.antt =====
-- The table of operations of the P6 family (x86/op_model_ppro.c), as a model for the NMI handler that keeps
-- its promises.
pub mod Athlon
use rrprofile.Prelude.{zero, suc, ◌+◌, refl, for_counters, ℕ, ◌≡◌, ◌∙◌, arith, List, none}
use rrprofile.CpuBuffer.{OprofileCpuBuffer}
use rrprofile.X86.{OpCounterConfig}
use rrprofile.X86.Ppro.{
  Cpu, num_counters, ppro_fill_in_addresses, ppro_setup_ctrs, setup_ctr, check_ctr, ppro_check_ctrs,
  ppro_start, ppro_stop,
}
use rrprofile.X86.Nmi.{OpX86ModelSpec, optional}
use rrprofile.X86.Nmi.Reach.{IsModel}
use rrprofile.X86.Nmi.Session.{IsConst}

-- `add_sample` and `lvt_masked` are those of `ppro_check_ctrs`, the addresses those of
-- `ppro_fill_in_addresses`.
module _ (add_sample : ℕ → OprofileCpuBuffer → OprofileCpuBuffer)
    (lvt_masked perfctr0 perfctr1 evntsel0 evntsel1 : ℕ) where
  unfoldable pub op_ppro_spec : OpX86ModelSpec
  op_ppro_spec = record {
    num_counters = num_counters;
    num_controls = num_counters;
    fill_in_addresses = ppro_fill_in_addresses perfctr0 perfctr1 evntsel0 evntsel1;
    setup_ctrs = ppro_setup_ctrs;
    check_ctrs = ppro_check_ctrs add_sample lvt_masked;
    start = ppro_start;
    stop = ppro_stop;
    shutdown = none;
  }

setup_ctr-frame :
    (configs : List OpCounterConfig) (i : ℕ) (c : Cpu)
    → ((setup_ctr configs i c).msrs ≡ c.msrs) × ((setup_ctr configs i c).lvtpc ≡ c.lvtpc)
unfolding setup_ctr
setup_ctr-frame configs i c = ground arith

-- `ppro_setup_ctrs` leaves `cpu_msrs` and the interrupt's vector alone.
pub ppro_setup_ctrs-IsConst : (configs : List OpCounterConfig) → IsConst (ppro_setup_ctrs configs)
unfolding ppro_setup_ctrs
ppro_setup_ctrs-IsConst configs = record {
  msrs = λ c. (setup_ctr-frame configs 1 _).0 ∙ (setup_ctr-frame configs 0 _).0;
  lvtpc = λ c. (setup_ctr-frame configs 1 _).1 ∙ (setup_ctr-frame configs 0 _).1;
}

-- A loop whose rounds leave them alone does so too.
pub loop-IsConst :
    (body : ℕ → Cpu → Cpu)
    → ((i : ℕ) → IsConst (body i))
    → (n i : ℕ) → IsConst (for_counters body n i)
loop-IsConst body const zero i = record { msrs = λ c. refl; lvtpc = λ c. refl }
loop-IsConst body const (suc n) i =
    let rest = loop-IsConst body const n (i + 1) in
    record {
      msrs = λ c. rest.msrs (body i c) ∙ (const i).msrs c;
      lvtpc = λ c. rest.lvtpc (body i c) ∙ (const i).lvtpc c;
    }

module _ (add_sample : ℕ → OprofileCpuBuffer → OprofileCpuBuffer)
    (lvt_masked perfctr0 perfctr1 evntsel0 evntsel1 : ℕ) where
  pub op_ppro_spec-IsModel :
      IsModel (op_ppro_spec add_sample lvt_masked perfctr0 perfctr1 evntsel0 evntsel1)
  unfolding op_ppro_spec ppro_check_ctrs check_ctr ppro_start ppro_stop
  op_ppro_spec-IsModel = record {
    setup = ppro_setup_ctrs-IsConst;
    shutdown = record { msrs = λ c. refl; lvtpc = λ c. refl };
    check = λ a b d c. ground arith;
    start = λ tb c. refl;
    stop = λ c. refl;
  }
