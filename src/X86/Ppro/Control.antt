-- ===== src/X86/Ppro/Control.antt =====
-- `ppro_start` and `ppro_stop` of x86/op_model_ppro.c: one bit of one register.
use rrprofile.Prelude.{ℕ, ◌<◌, ◌≡◌, ◌≢◌, arith, ◌==◌, if◌then◌else◌}
use rrprofile.X86.{OpSavedMsr}
use rrprofile.Bits.{bit, bit-set_22, bit-clear_22}
use rrprofile.X86.Ppro.{Cpu, control_addr, ppro_start, ppro_stop}

abbrev pub control : Cpu → OpSavedMsr
control c = c.file (control_addr c 0)

-- On the first control register, `ppro_start` sets bit 22 and `ppro_stop` clears it; every other bit
-- of its lower half, its upper half, and every other register are left alone by both.
pub start_stop_bits :
    (tb k a : ℕ) (c : Cpu)
    → k < 32
    → a ≢ control_addr c 0
    → let on = ppro_start tb c in
      let off = ppro_stop c in
      (bit k (control on).low ≡ (if k == 22 then 1 else bit k (control c).low))
      × (bit k (control off).low ≡ (if k == 22 then 0 else bit k (control c).low))
      × ((control on).high ≡ (control c).high)
      × ((control off).high ≡ (control c).high)
      × (on.file a ≡ c.file a)
      × (off.file a ≡ c.file a)
unfolding ppro_start ppro_stop
start_stop_bits tb k a c small other =
    ground (arith, bit-set_22 k (control c).low, bit-clear_22 k (control c).low)
