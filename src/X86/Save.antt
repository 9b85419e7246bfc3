-- ===== src/X86/Save.antt =====
-- Saving and restoring the registers of a CPU (x86/nmi_int.c).
use rrprofile.Prelude.{
  ℕ, ◌≡◌, refl, arith, List, [], ◌∷◌, Bool, false, ◌==◌, ◌||◌, ◌&&◌, not, if◌then◌else◌,
}
use rrprofile.X86.{
  MsrFile, OpMsr, OpMsrs, wrmsr, save_msrs, restore_msrs, nmi_cpu_save_registers,
  nmi_restore_registers,
}

-- the address is in use in the array
abbrev pub uses : ℕ → List OpMsr → Bool
uses a [] = false
uses a (r ∷ rs) = (a == r.addr && not (r.addr == 0)) || uses a rs

-- Restoring what was saved from a file writes that file's values back, and touches nothing else.
restore-save :
    (a : ℕ) (file now : MsrFile) (rs : List OpMsr)
    → restore_msrs (save_msrs file rs) now a ≡ (if uses a rs then file a else now a)
unfolding restore_msrs save_msrs
restore-save a file now [] = refl
restore-save a file now (r ∷ rs) =
    ground
      (arith, restore-save a file now rs, restore-save a file (wrmsr r.addr (file r.addr) now) rs)

-- Whatever was done to the registers in between, `nmi_restore_registers` gives every register that the
-- counters and controls of the CPU use the value that it had when `nmi_cpu_save_registers` saved it,
-- and leaves every other register as it is.
pub restore-save_registers :
    (a : ℕ) (file now : MsrFile) (msrs : OpMsrs)
    → nmi_restore_registers (nmi_cpu_save_registers file msrs) now a
      ≡ (if uses a msrs.counters || uses a msrs.controls then file a else now a)
unfolding nmi_restore_registers nmi_cpu_save_registers
restore-save_registers a file now msrs = ground (
  arith,
  restore-save a file now msrs.controls,
  restore-save a file (restore_msrs (save_msrs file msrs.controls) now) msrs.counters,
)
