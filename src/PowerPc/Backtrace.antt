-- ===== src/PowerPc/Backtrace.antt =====
-- powerpc/backtrace.c: the walk over the stack frames of the interrupted context, in the RRPROFILE build on
-- a 64-bit kernel from 2.6.17 on. The calls of `oprofile_add_trace` are the addresses in the results.
pub mod Frames
use rrprofile.Prelude.{
  ℕ, zero, suc, ◌+◌, ◌-◌, ◌%◌, List, [], ◌∷◌, ◌++◌, Bool, true, false, not, ◌==◌, if◌then◌else◌,
  Option, none, some, uint_mod,
}

-- `regs->gpr[1]`, `regs->link` and `user_mode(regs)`
pub record PpcRegs : Type 0 where
  pub gpr1 : ℕ
  pub link : ℕ
  pub user_mode : Bool

-- `access_ok` is the kernel's, and `read` gives the words of a frame that `__copy_from_user_inatomic` can
-- read: the stack pointer before it and the link register, of 64 bits or of 32.
module _ (access_ok : (sp size : ℕ) → Bool) (read64 read32 : ℕ → Option (ℕ × ℕ)) where
  unfoldable pub user_getsp64 : (sp : ℕ) → (is_first : Bool) → List ℕ × ℕ
  user_getsp64 sp is_first = if not (access_ok sp 24) then ([], 0) else elim (read64 sp) [
    | none ↦ ([], 0)
    | some (before, lr) ↦ (if is_first then [] else lr ∷ [], before)
  ]

  unfoldable pub user_getsp32 : (sp : ℕ) → (is_first : Bool) → List ℕ × ℕ
  user_getsp32 sp is_first =
      if not (access_ok (sp % uint_mod) 8) then ([], 0) else elim (read32 (sp % uint_mod)) [
        | none ↦ ([], 0)
        | some (before, lr) ↦ (if is_first then [] else lr ∷ [], before)
      ]

-- `validate_sp` is the kernel's, with the current task and the size of a frame; `stack_sp` and `stack_lr`
-- read the frame of a stack pointer that it accepts.
module _ (validate_sp : ℕ → Bool) (stack_sp stack_lr : ℕ → ℕ) (is_kernel_addr : ℕ → Bool) where
  unfoldable pub kernel_getsp : (sp : ℕ) → (is_first : Bool) → List ℕ × ℕ
  kernel_getsp sp is_first = if not (validate_sp sp) then ([], 0) else (
    if not is_first then (if is_kernel_addr (stack_lr sp) then stack_lr sp ∷ [] else []) else [],
    stack_sp sp,
  )

-- `while (depth--)`; `extra` is what a first round adds that does not end the loop.
unfoldable pub walk :
    (getsp : ℕ → Bool → List ℕ × ℕ) (extra : List ℕ) (depth sp : ℕ) (first_frame : Bool) → List ℕ
walk getsp extra zero sp first_frame = []
walk getsp extra (suc depth) sp first_frame =
    let (traced, before) = getsp sp first_frame in
    let rest = walk getsp extra depth before false in
    if before == 0 then traced else traced ++ ((if first_frame then extra else []) ++ rest)

-- a user context: one frame, then the loop
unfoldable pub user_walk : (getsp : ℕ → Bool → List ℕ × ℕ) (lr depth sp : ℕ) → List ℕ
unfolding walk
user_walk getsp lr zero sp = []
user_walk getsp lr (suc depth) sp =
    let (traced, before) = getsp sp true in
    if before == 0 then traced else traced ++ walk getsp (lr ∷ []) depth before true

-- `tif_32bit` is `test_thread_flag(TIF_32BIT)`.
module _ (kernel user64 user32 : ℕ → Bool → List ℕ × ℕ) (tif_32bit : Bool) where
  unfoldable pub op_powerpc_backtrace : PpcRegs → (depth : ℕ) → List ℕ
  unfolding walk user_walk
  op_powerpc_backtrace regs depth =
      let depth1 = (depth + 1) % uint_mod in
      if not regs.user_mode
      then walk kernel [] depth1 regs.gpr1 true
      else if not tif_32bit
      then user_walk user64 regs.link depth1 regs.gpr1
      else user_walk user32 regs.link depth1 regs.gpr1
