-- ===== src/PowerPc/Power4.antt =====
-- powerpc/op_model_power4.c: the eight counters of the POWER4 and the PPC970, in the RRPROFILE build on
-- kernels from 2.6.18 on.
pub mod Encode
pub mod Run
use rrprofile.Prelude.{
  ℕ, ◌+◌, ◌-◌, ◌*◌, ◌/◌, ◌%◌, ◌^◌, List, [], ◌∷◌, map, Bool, ◌&&◌, ◌||◌, not, ◌==◌, ltb, leb,
  if◌then◌else◌, get_or, set, uint_mod, ulong_mod, for_counters, add_ulong,
}
use Prim.Native.Nat.{bit_and, bit_or}
use rrprofile.CpuBuffer.{OprofileCpuBuffer, oprofile_add_sample_start, oprofile_add_sample_stop}
use rrprofile.PowerPc.{
  PpcCounterConfig, OpSystemConfig, PpcCpu, PpcShared, PpcMasks, no_ppc_config, ctr_read, ctr_write,
  is_negative, clear_mask, set_pmm, on_mmcr0, reset_of,
}
use rrprofile.PowerPc.Words.{Select, place, or_all}

-- `mmcr0_event1` and `mmcr0_event2`
abbrev pub mmcr0_event1 : ℕ → Select
mmcr0_event1 event = record { value = event; shift = 8; mask = 0x1F00 }

abbrev pub mmcr0_event2 : ℕ → Select
mmcr0_event2 event = record { value = event; shift = 1; mask = 0x3E }

-- `mmcr1_event3` to `mmcr1_event8`
abbrev pub mmcr1_event3 : ℕ → Select
mmcr1_event3 event = record { value = event; shift = 27; mask = 0xF8000000 }

abbrev pub mmcr1_event4 : ℕ → Select
mmcr1_event4 event = record { value = event; shift = 22; mask = 0x7C00000 }

abbrev pub mmcr1_event5 : ℕ → Select
mmcr1_event5 event = record { value = event; shift = 17; mask = 0x3E0000 }

abbrev pub mmcr1_event6 : ℕ → Select
mmcr1_event6 event = record { value = event; shift = 12; mask = 0x1F000 }

abbrev pub mmcr1_event7 : ℕ → Select
mmcr1_event7 event = record { value = event; shift = 7; mask = 0xF80 }

abbrev pub mmcr1_event8 : ℕ → Select
mmcr1_event8 event = record { value = event; shift = 2; mask = 0x7C }

-- `mmcr1_ttm0`, `mmcr1_ttm1` and `mmcr1_ttm3`
abbrev pub mmcr1_ttm0 : ℕ → Select
mmcr1_ttm0 value = record { value = value; shift = 62; mask = 0xC000000000000000 }

abbrev pub mmcr1_ttm1 : ℕ → Select
mmcr1_ttm1 value = record { value = value; shift = 59; mask = 0x1800000000000000 }

abbrev pub mmcr1_ttm3 : ℕ → Select
mmcr1_ttm3 value = record { value = value; shift = 53; mask = 0x60000000000000 }

-- `mmcr1_dbg0` to `mmcr1_dbg3`
abbrev pub mmcr1_dbg0 : ℕ → Select
mmcr1_dbg0 value = record { value = value; shift = 50; mask = 0xC000000000000 }

abbrev pub mmcr1_dbg1 : ℕ → Select
mmcr1_dbg1 value = record { value = value; shift = 48; mask = 0x3000000000000 }

abbrev pub mmcr1_dbg2 : ℕ → Select
mmcr1_dbg2 value = record { value = value; shift = 46; mask = 0xC00000000000 }

abbrev pub mmcr1_dbg3 : ℕ → Select
mmcr1_dbg3 value = record { value = value; shift = 44; mask = 0x300000000000 }

-- `mmcr1_event1_addr` to `mmcr1_event8_addr`
abbrev pub mmcr1_event1_addr : ℕ → Select
mmcr1_event1_addr value = record { value = value; shift = 39; mask = 0x8000000000 }

abbrev pub mmcr1_event2_addr : ℕ → Select
mmcr1_event2_addr value = record { value = value; shift = 38; mask = 0x4000000000 }

abbrev pub mmcr1_event3_addr : ℕ → Select
mmcr1_event3_addr value = record { value = value; shift = 33; mask = 0x200000000 }

abbrev pub mmcr1_event4_addr : ℕ → Select
mmcr1_event4_addr value = record { value = value; shift = 32; mask = 0x100000000 }

abbrev pub mmcr1_event5_addr : ℕ → Select
mmcr1_event5_addr value = record { value = value; shift = 36; mask = 0x1000000000 }

abbrev pub mmcr1_event6_addr : ℕ → Select
mmcr1_event6_addr value = record { value = value; shift = 37; mask = 0x2000000000 }

abbrev pub mmcr1_event7_addr : ℕ → Select
mmcr1_event7_addr value = record { value = value; shift = 34; mask = 0x400000000 }

abbrev pub mmcr1_event8_addr : ℕ → Select
mmcr1_event8_addr value = record { value = value; shift = 35; mask = 0x800000000 }

-- `mmcr1_spc`
abbrev pub mmcr1_spc : ℕ → Select
mmcr1_spc value = record { value = value; shift = 0; mask = 3 }

-- the values that `power4_reg_setup` collects for the unit and byte lane selects
pub record Muxes : Type 0 where
  pub ttm0 : ℕ
  pub ttm1 : ℕ
  pub ttm3 : ℕ
  pub spc : ℕ
  pub dbg0 : ℕ
  pub dbg1 : ℕ
  pub dbg2 : ℕ
  pub dbg3 : ℕ

abbrev pub no_muxes : Muxes
no_muxes = record { ttm0 = 0; ttm1 = 0; ttm3 = 0; spc = 0; dbg0 = 0; dbg1 = 0; dbg2 = 0; dbg3 = 0 }

-- `unitSelect`, `unitValue`, `byteLaneSelect` and `byteLaneValue`
abbrev pub unit_select : PpcCounterConfig → ℕ
unit_select config = config.unit_mask / 2 ^ 12 % 2 ^ 4

abbrev pub unit_value : PpcCounterConfig → ℕ
unit_value config = config.unit_mask / 2 ^ 8 % 2 ^ 4

abbrev pub byte_lane_select : PpcCounterConfig → ℕ
byte_lane_select config = config.unit_mask / 2 ^ 4 % 2 ^ 4

abbrev pub byte_lane_value : PpcCounterConfig → ℕ
byte_lane_value config = config.unit_mask % 2 ^ 4

-- `switch(unitSelect)`
unfoldable pub set_unit : (select value : ℕ) → Muxes → Muxes
set_unit select value m =
    if select == 1
    then record m { ttm0 = value }
    else if select == 2
    then record m { ttm1 = value }
    else if select == 3
    then record m { ttm3 = value }
    else if select == 4
    then record m { spc = value }
    else m

-- `switch (byteLaneSelect)`
unfoldable pub set_lane : (select value : ℕ) → Muxes → Muxes
set_lane select value m =
    if select == 1
    then record m { dbg0 = value }
    else if select == 2
    then record m { dbg1 = value }
    else if select == 3
    then record m { dbg2 = value }
    else if select == 4
    then record m { dbg3 = value }
    else m

-- the body of the loop over the counters that sets the muxes
unfoldable pub set_muxes : List PpcCounterConfig → ℕ → Muxes → Muxes
unfolding set_unit set_lane
set_muxes ctr i m =
    let config = get_or ctr i no_ppc_config in
    set_lane (byte_lane_select config) (byte_lane_value config)
      (set_unit (unit_select config) (unit_value config) m)

-- `ctrEvent[i]`
abbrev pub ctr_event : PpcCounterConfig → ℕ
ctr_event config = if config.enabled == 0 then 8 else bit_and config.event 0x1F

-- `ctrAddrSel[i]`
abbrev pub ctr_addr_sel : PpcCounterConfig → ℕ
ctr_addr_sel config = bit_and (config.event / 2 ^ 5) 1

-- a loop that fills an array of eight zeros from the configurations
abbrev pub fill : (PpcCounterConfig → ℕ) → (num_pmcs : ℕ) → List PpcCounterConfig → List ℕ
fill f num_pmcs ctr =
    for_counters (λ i a. set a i (f (get_or ctr i no_ppc_config))) num_pmcs 0
      (0 ∷ 0 ∷ 0 ∷ 0 ∷ 0 ∷ 0 ∷ 0 ∷ 0 ∷ [])

-- what is or-ed into `mmcr0_val` and `mmcr1_val`, in the order of the source
abbrev pub mmcr0_selects : (events : List ℕ) → List Select
mmcr0_selects events = mmcr0_event1 (get_or events 0 0) ∷ mmcr0_event2 (get_or events 1 0) ∷ []

abbrev pub mmcr1_selects : (events lanes : List ℕ) → Muxes → List Select
mmcr1_selects events lanes m =
    mmcr1_event3 (get_or events 2 0)
    ∷ mmcr1_event4 (get_or events 3 0)
    ∷ mmcr1_event5 (get_or events 4 0)
    ∷ mmcr1_event6 (get_or events 5 0)
    ∷ mmcr1_event7 (get_or events 6 0)
    ∷ mmcr1_event8 (get_or events 7 0)
    ∷ mmcr1_event1_addr (get_or lanes 0 0)
    ∷ mmcr1_event2_addr (get_or lanes 1 0)
    ∷ mmcr1_event3_addr (get_or lanes 2 0)
    ∷ mmcr1_event4_addr (get_or lanes 3 0)
    ∷ mmcr1_event5_addr (get_or lanes 4 0)
    ∷ mmcr1_event6_addr (get_or lanes 5 0)
    ∷ mmcr1_event7_addr (get_or lanes 6 0)
    ∷ mmcr1_event8_addr (get_or lanes 7 0)
    ∷ mmcr1_ttm0 m.ttm0
    ∷ mmcr1_ttm1 m.ttm1
    ∷ mmcr1_ttm3 m.ttm3
    ∷ mmcr1_dbg0 m.dbg0
    ∷ mmcr1_dbg1 m.dbg1
    ∷ mmcr1_dbg2 m.dbg2
    ∷ mmcr1_dbg3 m.dbg3
    ∷ mmcr1_spc m.spc
    ∷ []

-- the mask is cleared when the flag is set, and set when it is not
abbrev pub disable_unless : (flag mask : ℕ) → ℕ → ℕ
disable_unless flag mask x = if flag == 0 then bit_or x mask else clear_mask x mask

-- `num_pmcs` is `cur_cpu_spec->num_pmcs`.
unfoldable pub power4_reg_setup :
    PpcMasks → (num_pmcs : ℕ) → List PpcCounterConfig → OpSystemConfig → PpcShared → PpcShared
unfolding set_muxes
power4_reg_setup b num_pmcs ctr sys g =
    let lanes = fill ctr_addr_sel num_pmcs ctr in
    let events = fill ctr_event num_pmcs ctr in
    let muxes = for_counters (set_muxes ctr) num_pmcs 0 no_muxes in
    let selected = or_all 0 (map place (mmcr0_selects events)) % uint_mod in
    let resets =
      for_counters (λ i a. set a i (reset_of (get_or ctr i no_ppc_config))) num_pmcs 0
        g.reset_value in
    record g {
      mmcr0_val =
          disable_unless sys.enable_user b.problem_disable
            (disable_unless sys.enable_kernel b.kernel_disable selected);
      mmcr1_val = or_all 0 (map place (mmcr1_selects events lanes muxes));
      mmcra_val = 0;
      reset_value = resets;
    }
