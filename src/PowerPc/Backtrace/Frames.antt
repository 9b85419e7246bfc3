-- ===== src/PowerPc/Backtrace/Frames.antt =====
-- The walk of powerpc/backtrace.c against the chain of the frames.
use rrprofile.Prelude.{
  ℕ, zero, suc, ◌+◌, ◌%◌, ◌<◌, ◌≡◌, refl, ap, sym, ◌∙◌, arith, List, [], ◌∷◌, ◌++◌, Bool, true,
  false, not, ◌==◌, if◌then◌else◌, Option, none, some, drop, ◌&&◌, uint_mod, Bool-cases, inl, inr,
  Option-cases,
}
use mathlib.Core.List.{append-nil}
use rrprofile.PowerPc.Backtrace.{
  PpcRegs, user_getsp64, user_getsp32, kernel_getsp, walk, user_walk, op_powerpc_backtrace,
}

-- A kind of frames: which stack pointers have one, the stack pointer before it, and what it adds.
pub record Frames : Type 0 where
  pub valid : ℕ → Bool
  pub before : ℕ → ℕ
  pub adds : ℕ → List ℕ

-- the frames from `sp` on, at most `depth`: each holds the stack pointer of the next
abbrev pub chain : Frames → (depth sp : ℕ) → List ℕ
chain f zero sp = []
chain f (suc depth) sp =
    let rest = chain f depth (f.before sp) in
    if f.valid sp then sp ∷ (if f.before sp == 0 then [] else rest) else []

abbrev pub gather : (ℕ → List ℕ) → List ℕ → List ℕ
gather adds [] = []
gather adds (sp ∷ sps) = adds sp ++ gather adds sps

-- what a walk in user space adds: the link register for the second frame, if that is not the last, and then
-- the frames after it
abbrev pub user_trace : Frames → (lr : ℕ) → (frames : List ℕ) → List ℕ
user_trace f lr [] = []
user_trace f lr (first ∷ []) = []
user_trace f lr (first ∷ second ∷ rest) =
    if f.before second == 0 then [] else lr ∷ gather f.adds rest

-- `getsp` visits a frame of this kind: it gives what the frame adds, unless it is the first, and goes on
-- at the frame before it.
IsVisit : (ℕ → Bool → List ℕ × ℕ) → Frames → Type 0
IsVisit getsp f =
    (sp : ℕ) (first : Bool)
    → getsp sp first
      ≡ (if f.valid sp then (if first then [] else f.adds sp, f.before sp) else ([], 0))

module _ (getsp : ℕ → Bool → List ℕ × ℕ) (f : Frames) (visit : IsVisit getsp f) where
  walk-gather :
      (extra : List ℕ) (depth sp : ℕ)
      → walk getsp extra depth sp false ≡ gather f.adds (chain f depth sp)
  unfolding walk IsVisit
  walk-gather extra zero sp = refl
  walk-gather extra (suc depth) sp =
      let more = walk-gather extra depth (f.before sp) in
      elim (Bool-cases (f.valid sp)) [
        | inr bad ↦ rw (visit sp false, bad) refl
        | inl good ↦ elim (Bool-cases (f.before sp == 0)) [
          | inl last ↦ rw (visit sp false, good, last) (sym (append-nil (f.adds sp)))
          | inr inner ↦ rw (visit sp false, good, inner) (ap (λ r. f.adds sp ++ r) more)
        ]
      ]

  walk-first :
      (extra : List ℕ) (depth sp : ℕ)
      → walk getsp extra (suc depth) sp true ≡ (
          if f.valid sp
          then (if f.before sp == 0
              then []
              else extra ++ gather f.adds (chain f depth (f.before sp)))
          else [])
  unfolding walk IsVisit
  walk-first extra depth sp =
      let more = walk-gather extra depth (f.before sp) in
      elim (Bool-cases (f.valid sp)) [
        | inr bad ↦ rw (visit sp true, bad) refl
        | inl good ↦ elim (Bool-cases (f.before sp == 0)) [
          | inl last ↦ rw (visit sp true, good, last) refl
          | inr inner ↦ rw (visit sp true, good, inner) (ap (λ r. extra ++ r) more)
        ]
      ]

  -- what a walk in the kernel adds: the frames after the first
  kernel-gather :
      (depth sp : ℕ)
      → walk getsp [] (suc depth) sp true ≡ gather f.adds (drop 1 (chain f (suc depth) sp))
  kernel-gather depth sp = elim (Bool-cases (f.valid sp)) [
    | inr bad ↦ walk-first [] depth sp ∙ rw bad refl
    | inl good ↦ elim (Bool-cases (f.before sp == 0)) [
      | inl last ↦ walk-first [] depth sp ∙ rw (good, last) refl
      | inr inner ↦ walk-first [] depth sp ∙ rw (good, inner) refl
    ]
  ]

  user-gather :
      (lr depth sp : ℕ)
      → user_walk getsp lr (suc depth) sp ≡ user_trace f lr (chain f (suc depth) sp)
  unfolding user_walk IsVisit walk
  user-gather lr zero sp = elim (Bool-cases (f.valid sp)) [
    | inr bad ↦ rw (visit sp true, bad) refl
    | inl good ↦ elim (Bool-cases (f.before sp == 0)) [
      | inl last ↦ rw (visit sp true, good, last) refl
      | inr inner ↦ rw (visit sp true, good, inner) refl
    ]
  ]
  user-gather lr (suc depth) sp =
      let second = f.before sp in
      let loop = walk-first (lr ∷ []) depth second in
      elim (Bool-cases (f.valid sp)) [
        | inr bad ↦ rw (visit sp true, bad) refl
        | inl good ↦ elim (Bool-cases (second == 0)) [
          | inl last ↦ rw (visit sp true, good, last) refl
          | inr inner ↦ elim (Bool-cases (f.valid second)) [
            | inr bad ↦ rw (visit sp true, good, inner, bad) (loop ∙ rw bad refl)
            | inl fine ↦ elim (Bool-cases (f.before second == 0)) [
              | inl last ↦ rw (visit sp true, good, inner, fine, last) (loop ∙ rw (fine, last) refl)
              | inr more ↦ rw (visit sp true, good, inner, fine, more) (loop ∙ rw (fine, more) refl)
            ]
          ]
        ]
      ]

-- the frames of the kernel's stack, of which those that return to the kernel add their return address
abbrev pub kernel_frames :
    (validate_sp : ℕ → Bool) (stack_sp stack_lr : ℕ → ℕ) (is_kernel_addr : ℕ → Bool) → Frames
kernel_frames validate_sp stack_sp stack_lr is_kernel_addr = record {
  valid = validate_sp;
  before = stack_sp;
  adds = λ sp. if is_kernel_addr (stack_lr sp) then stack_lr sp ∷ [] else [];
}

-- the frames of user space that can be read, all of which add their return address
abbrev readable : Option (ℕ × ℕ) → Bool
readable none = false
readable (some w) = true

abbrev words : Option (ℕ × ℕ) → ℕ × ℕ
words none = (0, 0)
words (some w) = w

abbrev pub user_frames :
    (access_ok : (sp size : ℕ) → Bool) (size : ℕ) (read : ℕ → Option (ℕ × ℕ)) (low : ℕ → ℕ) → Frames
user_frames access_ok size read low = record {
  valid = λ sp. access_ok (low sp) size && readable (read (low sp));
  before = λ sp. (words (read (low sp))).0;
  adds = λ sp. (words (read (low sp))).1 ∷ [];
}

module _ (access_ok : (sp size : ℕ) → Bool) (read64 read32 : ℕ → Option (ℕ × ℕ))
    (validate_sp : ℕ → Bool) (stack_sp stack_lr : ℕ → ℕ) (is_kernel_addr : ℕ → Bool) where
  kernel_getsp-IsVisit :
      IsVisit
        (kernel_getsp validate_sp stack_sp stack_lr is_kernel_addr)
        (kernel_frames validate_sp stack_sp stack_lr is_kernel_addr)
  unfolding IsVisit kernel_getsp
  kernel_getsp-IsVisit sp true = elim (Bool-cases (validate_sp sp)) [
    | inl good ↦ rw good refl
    | inr bad ↦ rw bad refl
  ]
  kernel_getsp-IsVisit sp false = elim (Bool-cases (validate_sp sp)) [
    | inl good ↦ rw good refl
    | inr bad ↦ rw bad refl
  ]

  user_getsp64-IsVisit :
      IsVisit (user_getsp64 access_ok read64 read32) (user_frames access_ok 24 read64 (λ sp. sp))
  unfolding IsVisit user_getsp64
  user_getsp64-IsVisit sp first = elim (Bool-cases (access_ok sp 24)) [
    | inr bad ↦ rw bad refl
    | inl good ↦ elim (Option-cases (read64 sp)) [
      | inl fault ↦ rw (good, fault) refl
      | inr (w, read) ↦ rw (good, read) refl
    ]
  ]

  user_getsp32-IsVisit :
      IsVisit
        (user_getsp32 access_ok read64 read32)
        (user_frames access_ok 8 read32 (λ sp. sp % uint_mod))
  unfolding IsVisit user_getsp32
  user_getsp32-IsVisit sp first = elim (Bool-cases (access_ok (sp % uint_mod) 8)) [
    | inr bad ↦ rw bad refl
    | inl good ↦ elim (Option-cases (read32 (sp % uint_mod))) [
      | inl fault ↦ rw (good, fault) refl
      | inr (w, read) ↦ rw (good, read) refl
    ]
  ]

  -- For a depth below the greatest unsigned int: the trace of an interrupted kernel context is the kernel
  -- addresses that the frames after the first return to, along the chain of at most `depth + 1` frames
  -- that `validate_sp` accepts; that of a user context is the link register, in place of the second
  -- frame's address, and the addresses that the frames after it return to, along the chain of at most
  -- `depth + 1` frames that can be read, of 64 bits or of 32, and it is empty if the second frame is
  -- missing or the last.
  pub op_powerpc_backtrace_lem :
      (tif_32bit : Bool) (regs : PpcRegs) (depth : ℕ)
      → depth + 1 < uint_mod
      → let kernel = kernel_frames validate_sp stack_sp stack_lr is_kernel_addr in
        let user64 = user_frames access_ok 24 read64 (λ sp. sp) in
        let user32 = user_frames access_ok 8 read32 (λ sp. sp % uint_mod) in
        op_powerpc_backtrace
          (kernel_getsp validate_sp stack_sp stack_lr is_kernel_addr)
          (user_getsp64 access_ok read64 read32)
          (user_getsp32 access_ok read64 read32)
          tif_32bit
          regs
          depth
        ≡ (if not regs.user_mode
            then gather kernel.adds (drop 1 (chain kernel (suc depth) regs.gpr1))
            else if not tif_32bit
            then user_trace user64 regs.link (chain user64 (suc depth) regs.gpr1)
            else user_trace user32 regs.link (chain user32 (suc depth) regs.gpr1))
  unfolding op_powerpc_backtrace
  op_powerpc_backtrace_lem tif regs depth small =
      let kernel = kernel_frames validate_sp stack_sp stack_lr is_kernel_addr in
      let user64 = user_frames access_ok 24 read64 (λ sp. sp) in
      let user32 = user_frames access_ok 8 read32 (λ sp. sp % uint_mod) in
      let rounds : (depth + 1) % uint_mod ≡ suc depth = omega arith in
      let in_kernel = kernel-gather _ kernel kernel_getsp-IsVisit depth regs.gpr1 in
      let in_user64 = user-gather _ user64 user_getsp64-IsVisit regs.link depth regs.gpr1 in
      let in_user32 = user-gather _ user32 user_getsp32-IsVisit regs.link depth regs.gpr1 in
      rw rounds (elim (Bool-cases regs.user_mode) [
        | inr off ↦ rw off in_kernel
        | inl on ↦ elim (Bool-cases tif) [
          | inr wide ↦ rw (on, wide) in_user64
          | inl narrow ↦ rw (on, narrow) in_user32
        ]
      ])
