-- ===== src/X86/P4/Fill.antt =====
-- `p4_fill_in_addresses` of x86/op_model_p4.c: the addresses of the counters and of the control registers.
pub mod Puts
pub mod Owned
use rrprofile.Prelude.{
  ℕ, zero, suc, ◌+◌, ◌-◌, ◌*◌, ◌%◌, ◌^◌, ◌<◌, ◌≤◌, ◌≡◌, ◌≢◌, refl, ap, sym, subst, ◌∙◌, arith, List,
  [], ◌∷◌, ◌++◌, length, Bool, true, false, ◌==◌, leb, ltb, if◌then◌else◌, get_or, set, ◌⊎◌, inl,
  inr, Bool-cases,
}
use rrprofile.X86.{OpMsr, OpMsrs, no_msr}
use rrprofile.X86.P4.{setup_num_counters, addr_increment, counter_at, num_counters_non_ht}
use rrprofile.X86.P4.Tables.{P4Msrs, p4_counters}

-- `msrs->controls[i].addr = a`
unfoldable pub put_addr : List OpMsr → ℕ → ℕ → List OpMsr
put_addr rs i a = let r = get_or rs i no_msr in set rs i (record r { addr = a })

-- A loop `for (addr = …; within(addr); ++i, addr += inc) msrs->controls[i].addr = addr;`: `i` and the
-- controls after it.
unfoldable pub fill_range :
    (fuel : ℕ) (within : ℕ → Bool) (inc addr : ℕ) → ℕ × List OpMsr → ℕ × List OpMsr
fill_range zero within inc addr s = s
fill_range (suc fuel) within inc addr (i, rs) =
    let rest = fill_range fuel within inc (addr + inc) (i + 1, put_addr rs i addr) in
    if within addr then rest else (i, rs)

-- `msrs->controls[i++].addr = a`
unfoldable pub fill_one : ℕ → ℕ × List OpMsr → ℕ × List OpMsr
unfolding put_addr
fill_one a (i, rs) = (i + 1, put_addr rs i a)

-- The loops with the test `addr <= last` and with `addr < end`. The address grows in each round, so that
-- the fuel is enough.
abbrev pub fill_to : (inc first last : ℕ) → ℕ × List OpMsr → ℕ × List OpMsr
fill_to inc first last s = fill_range (last + 1 - first) (λ a. leb a last) inc first s

abbrev pub fill_below : (inc first end : ℕ) → ℕ × List OpMsr → ℕ × List OpMsr
fill_below inc first end s = fill_range (end - first) (λ a. ltb a end) inc first s

module _ (m : P4Msrs) (smp_num_siblings stag x86_model : ℕ) where
  -- the loop over `num_counters`, from `i` on
  unfoldable pub fill_counters : ℕ → ℕ → List OpMsr → List OpMsr
  fill_counters zero i rs = rs
  fill_counters (suc n) i rs =
      fill_counters n (i + 1)
        (put_addr rs i (counter_at m (setup_num_counters smp_num_siblings) stag i))

  -- the rest of `p4_fill_in_addresses`: `i` at its end, and the controls
  unfoldable pub fill_controls : List OpMsr → ℕ × List OpMsr
  unfolding fill_range fill_one
  fill_controls rs =
      let inc = addr_increment smp_num_siblings in
      let cccrs = fill_to inc (m.bpu_cccr0 + stag) m.iq_cccr5 (0, rs) in
      let bsus = fill_below inc (m.bsu_escr0 + stag) m.iq_escr0 cccrs in
      let iqs =
        if leb 3 x86_model
        then fill_to inc (m.bsu_escr0 + stag) m.bsu_escr1 bsus
        else fill_to inc (m.iq_escr0 + stag) m.iq_escr1 bsus in
      let rats = fill_to inc (m.rat_escr0 + stag) m.ssu_escr0 iqs in
      let mss = fill_to inc (m.ms_escr0 + stag) m.tc_escr1 rats in
      let ixs = fill_to inc (m.ix_escr0 + stag) m.cru_escr3 mss in
      if setup_num_counters smp_num_siblings == num_counters_non_ht
      then fill_one m.cru_escr4 (fill_one m.cru_escr5 ixs)
      else if stag == 0
      then fill_one m.cru_escr4 ixs
      else fill_one m.cru_escr5 (fill_one m.cru_escr5 ixs)

  unfoldable pub p4_fill_in_addresses : OpMsrs → OpMsrs
  unfolding fill_counters fill_controls
  p4_fill_in_addresses msrs = record {
    counters = fill_counters (setup_num_counters smp_num_siblings) 0 msrs.counters;
    controls = (fill_controls msrs.controls).1;
  }
