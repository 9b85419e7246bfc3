-- ===== src/X86/Nmi/Models/Athlon.antt =====
-- The table of operations of the Athlon (x86/op_model_athlon.c), as a model for the NMI handler that keeps
-- its promises.
use rrprofile.Prelude.{ℕ, ◌∙◌, refl, arith, List, none}
use rrprofile.CpuBuffer.{OprofileCpuBuffer}
use rrprofile.X86.{OpCounterConfig}
use rrprofile.X86.Ppro.{check_ctr}
use rrprofile.X86.Athlon.{
  athlon_fill_in_addresses, athlon_setup_ctrs, athlon_check_ctrs, athlon_start, athlon_stop,
  setup_ctr, start_ctr, num_counters,
}
use rrprofile.X86.Nmi.{OpX86ModelSpec}
use rrprofile.X86.Nmi.Session.{IsConst}
use rrprofile.X86.Nmi.Reach.{IsModel}
use rrprofile.X86.Nmi.Models.{loop-IsConst}

setup_ctr-IsConst : (configs : List OpCounterConfig) (i : ℕ) → IsConst (setup_ctr configs i)
unfolding setup_ctr
setup_ctr-IsConst configs i = record { msrs = λ c. ground arith; lvtpc = λ c. ground arith }

start_ctr-IsConst : (i : ℕ) → IsConst (start_ctr i)
unfolding start_ctr
start_ctr-IsConst i = record { msrs = λ c. ground arith; lvtpc = λ c. ground arith }

check_ctr-IsConst :
    (add_sample : ℕ → OprofileCpuBuffer → OprofileCpuBuffer) (tb_end i : ℕ)
    → IsConst (check_ctr add_sample 0 tb_end i)
unfolding check_ctr
check_ctr-IsConst add_sample tb_end i = record {
  msrs = λ c. ground arith;
  lvtpc = λ c. ground arith;
}

athlon_stop-IsConst : IsConst athlon_stop
unfolding athlon_stop
athlon_stop-IsConst = record { msrs = λ c. refl; lvtpc = λ c. refl }

-- the kernel's `MSR_K7_PERFCTR0` and `MSR_K7_EVNTSEL0`, and those after them
module _ (add_sample : ℕ → OprofileCpuBuffer → OprofileCpuBuffer) (perfctr evntsel : ℕ → ℕ) where
  unfoldable pub op_athlon_spec : OpX86ModelSpec
  op_athlon_spec = record {
    num_counters = num_counters;
    num_controls = num_counters;
    fill_in_addresses = athlon_fill_in_addresses perfctr evntsel;
    setup_ctrs = athlon_setup_ctrs;
    check_ctrs = athlon_check_ctrs add_sample;
    start = athlon_start;
    stop = athlon_stop;
    shutdown = none;
  }

  pub op_athlon_spec-IsModel : IsModel op_athlon_spec
  unfolding op_athlon_spec athlon_setup_ctrs athlon_check_ctrs athlon_start
  op_athlon_spec-IsModel =
      let started = loop-IsConst start_ctr start_ctr-IsConst num_counters 0 in
      record {
        setup = λ configs.
            let programmed =
              loop-IsConst (setup_ctr configs) (setup_ctr-IsConst configs) num_counters 0 in
            record { msrs = λ c. programmed.msrs _ ∙ refl; lvtpc = λ c. programmed.lvtpc _ ∙ refl };
        shutdown = record { msrs = λ c. refl; lvtpc = λ c. refl };
        check = λ tb_end tb_start tb_last c.
            let checked =
              loop-IsConst (check_ctr add_sample 0 tb_end) (check_ctr-IsConst add_sample tb_end)
                num_counters 0 in
            started.msrs _ ∙ checked.msrs (athlon_stop c) ∙ athlon_stop-IsConst.msrs c;
        start = λ tb c. started.msrs (record c { start_timestamp = tb });
        stop = athlon_stop-IsConst.msrs;
      }
