-- ===== src/X86/Backtrace.antt =====
-- x86/backtrace.c: the walk over the stack frames of an interrupted context, on a 64-bit kernel built
-- with CONFIG_FRAME_POINTER. A pointer is a number, NULL is 0; a function that calls `oprofile_add_trace`
-- gives the addresses that it hands over, in order.
pub mod Chain
use rrprofile.Prelude.{
  ℕ, zero, suc, ◌+◌, ◌-◌, ◌*◌, ◌/◌, ◌%◌, List, [], ◌∷◌, ◌++◌, Bool, true, false, not, ◌==◌, ltb,
  leb, ◌&&◌, if◌then◌else◌, Option, none, some, ulong_mod, uint_mod,
}

-- `struct frame_head`, `struct frame_head64` and `struct frame_head32`
pub record FrameHead : Type 0 where
  pub ebp : ℕ
  pub ret : ℕ

-- What the walk reads of `struct pt_regs` by the kernel's macros `user_mode`, `frame_pointer` and
-- `kernel_stack_pointer`.
pub record PtRegs : Type 0 where
  pub user_mode : Bool
  pub frame_pointer : ℕ
  pub kernel_stack_pointer : ℕ

-- `while (depth-- && valid(head)) head = dump(head);`
unfoldable pub walk : (valid : ℕ → Bool) (dump : ℕ → List ℕ × ℕ) → (depth head : ℕ) → List ℕ
walk valid dump zero head = []
walk valid dump (suc depth) head =
    let (traced, next) = dump head in
    let rest = walk valid dump depth next in if valid head then traced ++ rest else []

-- `memory` is what the kernel's memory holds at an address.
unfoldable pub dump_kernel_backtrace : (memory : ℕ → FrameHead) → ℕ → List ℕ × ℕ
dump_kernel_backtrace memory head =
    let frame = memory head in (frame.ret ∷ [], if leb frame.ebp head then 0 else frame.ebp)

-- `dump_user64_backtrace`, and `dump_user32_backtrace` with frames of half the size. `access_ok` is the
-- kernel's for a read of that many bytes; `copy` is `__copy_from_user_inatomic`: the first of the two
-- frames read, or none if there is a fault.
unfoldable pub dump_user_backtrace :
    (access_ok : ℕ → ℕ → Bool) (copy : ℕ → Option FrameHead) (size : ℕ) → ℕ → List ℕ × ℕ
dump_user_backtrace access_ok copy size head =
    if not (access_ok head size) then ([], 0) else elim (copy head) [
      | none ↦ ([], 0)
      | some frame ↦ if leb frame.ebp head then ([], 0) else (frame.ret ∷ [], frame.ebp)
    ]

-- `stack_base`: `thread_size` is the kernel's `THREAD_SIZE`, a power of two.
abbrev pub stack_base : (thread_size stack : ℕ) → ℕ
stack_base thread_size stack = (stack - stack % thread_size + thread_size) % ulong_mod

unfoldable pub valid_kernel_stack : (thread_size : ℕ) → PtRegs → ℕ → Bool
valid_kernel_stack thread_size regs headaddr =
    ltb regs.kernel_stack_pointer headaddr
    && ltb headaddr (stack_base thread_size regs.kernel_stack_pointer)

-- `tif_ia32` is `test_thread_flag(TIF_IA32)`; a task of that kind has frames of 32-bit words.
module _ (thread_size : ℕ) (memory : ℕ → FrameHead) (access_ok : ℕ → ℕ → Bool)
    (copy64 copy32 : ℕ → Option FrameHead) where
  unfoldable pub x86_backtrace : (tif_ia32 : Bool) → PtRegs → (depth : ℕ) → List ℕ
  x86_backtrace tif_ia32 regs depth =
      if not regs.user_mode
      then walk (valid_kernel_stack thread_size regs) (dump_kernel_backtrace memory) depth
          regs.frame_pointer
      else if not tif_ia32
      then walk (λ head. not (head == 0)) (dump_user_backtrace access_ok copy64 32) depth
          regs.frame_pointer
      else walk (λ head. not (head == 0)) (dump_user_backtrace access_ok copy32 16) depth
          (regs.frame_pointer % uint_mod)
