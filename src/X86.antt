-- ===== src/X86.antt =====
-- x86/op_x86_model.h and x86/op_counter.h: the registers that count, and the counters' configuration.
-- The model-specific registers of a CPU are a function from addresses, which `rdmsr` and `wrmsr` read
-- and update.
pub mod Save
pub mod Adapt
pub mod Ppro
pub mod Athlon
pub mod P4
pub mod Select
pub mod Idle
pub mod Nmi
pub mod Backtrace
use rrprofile.Prelude.{
  ℕ, zero, suc, ◌+◌, ◌-◌, ◌*◌, ◌%◌, ◌^◌, List, [], ◌∷◌, Bool, ◌==◌, if◌then◌else◌, not, leb, ltb,
  ◌&&◌, map, get_or, uint_mod, ulong_mod,
}
use Prim.Native.Nat.{bit_and, bit_or}

-- the two halves of a register, `struct op_saved_msr` as well
pub record OpSavedMsr : Type 0 where
  pub high : ℕ
  pub low : ℕ

abbrev pub MsrFile : Type 0
MsrFile = ℕ → OpSavedMsr

-- `struct op_msr`
pub record OpMsr : Type 0 where
  pub addr : ℕ
  pub saved : OpSavedMsr

-- `struct op_msrs`
pub record OpMsrs : Type 0 where
  pub counters : List OpMsr
  pub controls : List OpMsr

-- `struct op_counter_config`
pub record OpCounterConfig : Type 0 where
  pub count : ℕ
  pub enabled : ℕ
  pub event : ℕ
  pub kernel : ℕ
  pub user : ℕ
  pub unit_mask : ℕ

abbrev pub no_register : OpSavedMsr
no_register = record { high = 0; low = 0 }

abbrev pub no_msr : OpMsr
no_msr = record { addr = 0; saved = no_register }

abbrev pub no_config : OpCounterConfig
no_config = record { count = 0; enabled = 0; event = 0; kernel = 0; user = 0; unit_mask = 0 }

-- `wrmsr(addr, low, high)`
abbrev pub wrmsr : ℕ → OpSavedMsr → MsrFile → MsrFile
wrmsr addr value file a = if a == addr then value else file a

-- The `save` and `restore` loops over an array of `struct op_msr`; an address of 0 is not used.
unfoldable pub save_msrs : MsrFile → List OpMsr → List OpMsr
save_msrs file [] = []
save_msrs file (r ∷ rs) =
    (if r.addr == 0 then r else record r { saved = file r.addr }) ∷ save_msrs file rs

unfoldable pub restore_msrs : List OpMsr → MsrFile → MsrFile
restore_msrs [] file = file
restore_msrs (r ∷ rs) file =
    restore_msrs rs (if r.addr == 0 then file else wrmsr r.addr r.saved file)

-- `nmi_cpu_save_registers` of x86/nmi_int.c: counters, then controls
unfoldable pub nmi_cpu_save_registers : MsrFile → OpMsrs → OpMsrs
nmi_cpu_save_registers file msrs = record {
  counters = save_msrs file msrs.counters;
  controls = save_msrs file msrs.controls;
}

-- `nmi_restore_registers` of x86/nmi_int.c: controls, then counters
unfoldable pub nmi_restore_registers : OpMsrs → MsrFile → MsrFile
nmi_restore_registers msrs file = restore_msrs msrs.counters (restore_msrs msrs.controls file)

-- `CTR_WRITE(l, …)`, `CTRL_READ` and `CTRL_WRITE`: the negated count fills the register with ones.
abbrev pub ctr_value : ℕ → OpSavedMsr
ctr_value l = record { low = (uint_mod - l % uint_mod) % uint_mod; high = uint_mod - 1 }

-- `CTR_OVERFLOWED`
abbrev pub ctr_overflowed : ℕ → Bool
ctr_overflowed n = bit_and n (2 ^ 31) == 0

abbrev pub ctrl_set_active : ℕ → ℕ
ctrl_set_active n = bit_or n (2 ^ 22)

abbrev pub ctrl_set_inactive : ℕ → ℕ
ctrl_set_inactive n = bit_and n (uint_mod - 1 - 2 ^ 22)

abbrev pub ctrl_clear : ℕ → ℕ
ctrl_clear x = bit_and x (2 ^ 21)

abbrev pub ctrl_set_enable : ℕ → ℕ
ctrl_set_enable val = bit_or val (2 ^ 20)

abbrev pub ctrl_set_usr : ℕ → ℕ → ℕ
ctrl_set_usr val u = bit_or val ((u % 2) * 2 ^ 16)

abbrev pub ctrl_set_kern : ℕ → ℕ → ℕ
ctrl_set_kern val k = bit_or val ((k % 2) * 2 ^ 17)

-- `unit_mask` and `event` are unsigned longs; the result is an unsigned int.
abbrev pub ctrl_set_um : ℕ → ℕ → ℕ
ctrl_set_um val m = bit_or val ((m * 2 ^ 8) % uint_mod)

abbrev pub ctrl_set_event : ℕ → ℕ → ℕ
ctrl_set_event val e = bit_or val (e % uint_mod)
