-- ===== src/X86/P4/Tables.antt =====
-- The tables of x86/op_model_p4.c. The addresses of the registers are constants of the kernel.
use rrprofile.Prelude.{ℕ, ◌^◌, List, [], ◌∷◌}

-- the kernel's `MSR_P4_…` that the file names
pub record P4Msrs : Type 0 where
  pub bpu_cccr0 : ℕ
  pub bpu_cccr1 : ℕ
  pub bpu_cccr2 : ℕ
  pub bpu_cccr3 : ℕ
  pub ms_cccr0 : ℕ
  pub ms_cccr1 : ℕ
  pub ms_cccr2 : ℕ
  pub ms_cccr3 : ℕ
  pub flame_cccr0 : ℕ
  pub flame_cccr1 : ℕ
  pub flame_cccr2 : ℕ
  pub flame_cccr3 : ℕ
  pub iq_cccr0 : ℕ
  pub iq_cccr1 : ℕ
  pub iq_cccr2 : ℕ
  pub iq_cccr3 : ℕ
  pub iq_cccr4 : ℕ
  pub iq_cccr5 : ℕ
  pub bpu_perfctr0 : ℕ
  pub ms_perfctr0 : ℕ
  pub flame_perfctr0 : ℕ
  pub iq_perfctr4 : ℕ
  pub bpu_perfctr2 : ℕ
  pub ms_perfctr2 : ℕ
  pub flame_perfctr2 : ℕ
  pub iq_perfctr5 : ℕ
  pub cru_escr3 : ℕ
  pub cru_escr2 : ℕ
  pub cru_escr1 : ℕ
  pub cru_escr0 : ℕ
  pub tc_escr1 : ℕ
  pub tc_escr0 : ℕ
  pub bpu_escr1 : ℕ
  pub bpu_escr0 : ℕ
  pub itlb_escr1 : ℕ
  pub itlb_escr0 : ℕ
  pub dac_escr1 : ℕ
  pub dac_escr0 : ℕ
  pub saat_escr1 : ℕ
  pub saat_escr0 : ℕ
  pub mob_escr1 : ℕ
  pub mob_escr0 : ℕ
  pub pmh_escr1 : ℕ
  pub pmh_escr0 : ℕ
  pub bsu_escr1 : ℕ
  pub bsu_escr0 : ℕ
  pub fsb_escr0 : ℕ
  pub fsb_escr1 : ℕ
  pub firm_escr1 : ℕ
  pub firm_escr0 : ℕ
  pub ms_escr1 : ℕ
  pub ms_escr0 : ℕ
  pub rat_escr1 : ℕ
  pub rat_escr0 : ℕ
  pub tbpu_escr1 : ℕ
  pub tbpu_escr0 : ℕ
  pub iq_escr0 : ℕ
  pub iq_escr1 : ℕ
  pub ssu_escr0 : ℕ
  pub ix_escr0 : ℕ
  pub cru_escr4 : ℕ
  pub cru_escr5 : ℕ

-- `struct p4_counter_binding`
pub record P4CounterBinding : Type 0 where
  pub virt_counter : ℕ
  pub counter_address : ℕ
  pub cccr_address : ℕ

-- an element of the field `bindings` of `struct p4_event_binding`
pub record EscrBinding : Type 0 where
  pub virt_counter : ℕ
  pub escr_address : ℕ

-- `struct p4_event_binding`; the array `bindings` has two elements.
pub record P4EventBinding : Type 0 where
  pub escr_select : ℕ
  pub event_select : ℕ
  pub first : EscrBinding
  pub second : EscrBinding

abbrev pub ctr_bpu_0 : ℕ
ctr_bpu_0 = 2 ^ 0

abbrev pub ctr_ms_0 : ℕ
ctr_ms_0 = 2 ^ 1

abbrev pub ctr_flame_0 : ℕ
ctr_flame_0 = 2 ^ 2

abbrev pub ctr_iq_4 : ℕ
ctr_iq_4 = 2 ^ 3

abbrev pub ctr_bpu_2 : ℕ
ctr_bpu_2 = 2 ^ 4

abbrev pub ctr_ms_2 : ℕ
ctr_ms_2 = 2 ^ 5

abbrev pub ctr_flame_2 : ℕ
ctr_flame_2 = 2 ^ 6

abbrev pub ctr_iq_5 : ℕ
ctr_iq_5 = 2 ^ 7

abbrev bind : ℕ → ℕ → ℕ → P4CounterBinding
bind virt counter cccr = record {
  virt_counter = virt;
  counter_address = counter;
  cccr_address = cccr;
}

abbrev event : (escr_select event_select virt0 escr0 virt1 escr1 : ℕ) → P4EventBinding
event escr_select event_select virt0 escr0 virt1 escr1 = record {
  escr_select = escr_select;
  event_select = event_select;
  first = record { virt_counter = virt0; escr_address = escr0 };
  second = record { virt_counter = virt1; escr_address = escr1 };
}

abbrev pub p4_counters : P4Msrs → List P4CounterBinding
p4_counters m =
    bind ctr_bpu_0 m.bpu_perfctr0 m.bpu_cccr0
    ∷ bind ctr_ms_0 m.ms_perfctr0 m.ms_cccr0
    ∷ bind ctr_flame_0 m.flame_perfctr0 m.flame_cccr0
    ∷ bind ctr_iq_4 m.iq_perfctr4 m.iq_cccr4
    ∷ bind ctr_bpu_2 m.bpu_perfctr2 m.bpu_cccr2
    ∷ bind ctr_ms_2 m.ms_perfctr2 m.ms_cccr2
    ∷ bind ctr_flame_2 m.flame_perfctr2 m.flame_cccr2
    ∷ bind ctr_iq_5 m.iq_perfctr5 m.iq_cccr5
    ∷ []

abbrev pub p4_unused_cccr : P4Msrs → List ℕ
p4_unused_cccr m =
    m.bpu_cccr1 ∷ m.bpu_cccr3 ∷ m.ms_cccr1 ∷ m.ms_cccr3 ∷ m.flame_cccr1 ∷ m.flame_cccr3 ∷ m.iq_cccr0
    ∷ m.iq_cccr1 ∷ m.iq_cccr2 ∷ m.iq_cccr3 ∷ []

-- The events are, in this order: BRANCH_RETIRED, MISPRED_BRANCH_RETIRED, TC_DELIVER_MODE,
-- BPU_FETCH_REQUEST, ITLB_REFERENCE, MEMORY_CANCEL, MEMORY_COMPLETE, LOAD_PORT_REPLAY,
-- STORE_PORT_REPLAY, MOB_LOAD_REPLAY, PAGE_WALK_TYPE, BSQ_CACHE_REFERENCE, IOQ_ALLOCATION,
-- IOQ_ACTIVE_ENTRIES, FSB_DATA_ACTIVITY, BSQ_ALLOCATION, BSQ_ACTIVE_ENTRIES, X87_ASSIST,
-- SSE_INPUT_ASSIST, PACKED_SP_UOP, PACKED_DP_UOP, SCALAR_SP_UOP, SCALAR_DP_UOP, 64BIT_MMX_UOP,
-- 128BIT_MMX_UOP, X87_FP_UOP, X87_SIMD_MOVES_UOP, MACHINE_CLEAR, GLOBAL_POWER_EVENTS, TC_MS_XFER,
-- UOP_QUEUE_WRITES, FRONT_END_EVENT, EXECUTION_EVENT, REPLAY_EVENT, INSTR_RETIRED, UOPS_RETIRED,
-- UOP_TYPE, RETIRED_MISPRED_BRANCH_TYPE, RETIRED_BRANCH_TYPE.
abbrev pub p4_events : P4Msrs → List P4EventBinding
p4_events m =
    event 0x05 0x06 ctr_iq_4 m.cru_escr2 ctr_iq_5 m.cru_escr3
    ∷ event 0x04 0x03 ctr_iq_4 m.cru_escr0 ctr_iq_5 m.cru_escr1
    ∷ event 0x01 0x01 ctr_ms_0 m.tc_escr0 ctr_ms_2 m.tc_escr1
    ∷ event 0x00 0x03 ctr_bpu_0 m.bpu_escr0 ctr_bpu_2 m.bpu_escr1
    ∷ event 0x03 0x18 ctr_bpu_0 m.itlb_escr0 ctr_bpu_2 m.itlb_escr1
    ∷ event 0x05 0x02 ctr_flame_0 m.dac_escr0 ctr_flame_2 m.dac_escr1
    ∷ event 0x02 0x08 ctr_flame_0 m.saat_escr0 ctr_flame_2 m.saat_escr1
    ∷ event 0x02 0x04 ctr_flame_0 m.saat_escr0 ctr_flame_2 m.saat_escr1
    ∷ event 0x02 0x05 ctr_flame_0 m.saat_escr0 ctr_flame_2 m.saat_escr1
    ∷ event 0x02 0x03 ctr_bpu_0 m.mob_escr0 ctr_bpu_2 m.mob_escr1
    ∷ event 0x04 0x01 ctr_bpu_0 m.pmh_escr0 ctr_bpu_2 m.pmh_escr1
    ∷ event 0x07 0x0c ctr_bpu_0 m.bsu_escr0 ctr_bpu_2 m.bsu_escr1
    ∷ event 0x06 0x03 ctr_bpu_0 m.fsb_escr0 0 0
    ∷ event 0x06 0x1a ctr_bpu_2 m.fsb_escr1 0 0
    ∷ event 0x06 0x17 ctr_bpu_0 m.fsb_escr0 ctr_bpu_2 m.fsb_escr1
    ∷ event 0x07 0x05 ctr_bpu_0 m.bsu_escr0 0 0
    ∷ event 0x07 0x06 ctr_bpu_2 m.bsu_escr1 0 0
    ∷ event 0x05 0x03 ctr_iq_4 m.cru_escr2 ctr_iq_5 m.cru_escr3
    ∷ event 0x01 0x34 ctr_flame_0 m.firm_escr0 ctr_flame_2 m.firm_escr1
    ∷ event 0x01 0x08 ctr_flame_0 m.firm_escr0 ctr_flame_2 m.firm_escr1
    ∷ event 0x01 0x0c ctr_flame_0 m.firm_escr0 ctr_flame_2 m.firm_escr1
    ∷ event 0x01 0x0a ctr_flame_0 m.firm_escr0 ctr_flame_2 m.firm_escr1
    ∷ event 0x01 0x0e ctr_flame_0 m.firm_escr0 ctr_flame_2 m.firm_escr1
    ∷ event 0x01 0x02 ctr_flame_0 m.firm_escr0 ctr_flame_2 m.firm_escr1
    ∷ event 0x01 0x1a ctr_flame_0 m.firm_escr0 ctr_flame_2 m.firm_escr1
    ∷ event 0x01 0x04 ctr_flame_0 m.firm_escr0 ctr_flame_2 m.firm_escr1
    ∷ event 0x01 0x2e ctr_flame_0 m.firm_escr0 ctr_flame_2 m.firm_escr1
    ∷ event 0x05 0x02 ctr_iq_4 m.cru_escr2 ctr_iq_5 m.cru_escr3
    ∷ event 0x06 0x13 ctr_bpu_0 m.fsb_escr0 ctr_bpu_2 m.fsb_escr1
    ∷ event 0x00 0x05 ctr_ms_0 m.ms_escr0 ctr_ms_2 m.ms_escr1
    ∷ event 0x00 0x09 ctr_ms_0 m.ms_escr0 ctr_ms_2 m.ms_escr1
    ∷ event 0x05 0x08 ctr_iq_4 m.cru_escr2 ctr_iq_5 m.cru_escr3
    ∷ event 0x05 0x0c ctr_iq_4 m.cru_escr2 ctr_iq_5 m.cru_escr3
    ∷ event 0x05 0x09 ctr_iq_4 m.cru_escr2 ctr_iq_5 m.cru_escr3
    ∷ event 0x04 0x02 ctr_iq_4 m.cru_escr0 ctr_iq_5 m.cru_escr1
    ∷ event 0x04 0x01 ctr_iq_4 m.cru_escr0 ctr_iq_5 m.cru_escr1
    ∷ event 0x02 0x02 ctr_iq_4 m.rat_escr0 ctr_iq_5 m.rat_escr1
    ∷ event 0x02 0x05 ctr_ms_0 m.tbpu_escr0 ctr_ms_2 m.tbpu_escr1
    ∷ event 0x02 0x04 ctr_ms_0 m.tbpu_escr0 ctr_ms_2 m.tbpu_escr1
    ∷ []
