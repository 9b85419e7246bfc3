-- ===== src/X86/Backtrace/Chain.antt =====
-- The frames that `x86_backtrace` visits form a chain that climbs the stack.
use rrprofile.Prelude.{
  ℕ, zero, suc, ◌<◌, ◌≤◌, ◌≡◌, refl, ap, arith, List, [], ◌∷◌, Bool, true, false, not, ◌==◌, leb,
  if◌then◌else◌, Option, none, some, ◌⊎◌, inl, inr, length, map, Bool-cases, Option-cases,
}
use rrprofile.X86.Backtrace.{
  FrameHead, PtRegs, walk, dump_kernel_backtrace, dump_user_backtrace, valid_kernel_stack,
  stack_base, x86_backtrace,
}

-- allowed frames at ever higher addresses, all above `low`
abbrev pub Climbs : (allowed : ℕ → Type 0) (low : ℕ) → List ℕ → Type 0
Climbs allowed low [] = Unit {0}
Climbs allowed low (h ∷ hs) = (low < h) × allowed h × Climbs allowed h hs

-- `trace` holds the return addresses of at most `depth` allowed frames that climb from `low`.
pub record IsTrace (ret : ℕ → ℕ) (allowed : ℕ → Type 0) (low depth : ℕ) (trace : List ℕ)
    : Type 0 where
  pub frames : List ℕ
  pub returns : trace ≡ map ret frames
  pub climbs : Climbs allowed low frames
  pub bounded : length frames ≤ depth

-- A dump hands over nothing and ends the walk, or it hands over the frame's return address and goes
-- on at a higher frame or ends the walk.
abbrev IsDump : (ret : ℕ → ℕ) (allowed : ℕ → Type 0) → ℕ → List ℕ × ℕ → Type 0
IsDump ret allowed h d =
    (d ≡ ([], 0)) ⊎ ((next : ℕ) × (d ≡ (ret h ∷ [], next)) × allowed h × ((next ≡ 0) ⊎ (h < next)))

module _ (ret : ℕ → ℕ) (allowed : ℕ → Type 0) where
  empty-IsTrace : (low depth : ℕ) → IsTrace ret allowed low depth []
  empty-IsTrace low depth = record {
    frames = [];
    returns = refl;
    climbs = tt;
    bounded = omega arith;
  }

  more-IsTrace :
      (low depth h : ℕ) (rest : List ℕ)
      → low < h
      → allowed h
      → IsTrace ret allowed h depth rest
      → IsTrace ret allowed low (suc depth) (ret h ∷ rest)
  more-IsTrace low depth h rest above ok t = record {
    frames = h ∷ t.frames;
    returns = ap (λ r. ret h ∷ r) t.returns;
    climbs = (above, ok, t.climbs);
    bounded = omega (arith, t.bounded);
  }

  module _ (valid : ℕ → Bool) (dump : ℕ → List ℕ × ℕ) (stop : valid 0 ≡ false)
      (step : (h : ℕ) → valid h ≡ true → IsDump ret allowed h (dump h)) where
    walk-null : (depth : ℕ) → walk valid dump depth 0 ≡ []
    unfolding walk
    walk-null zero = refl
    walk-null (suc depth) = rw stop refl

    walk-IsTrace :
        (depth head low : ℕ)
        → (valid head ≡ true → low < head)
        → IsTrace ret allowed low depth (walk valid dump depth head)
    unfolding walk
    walk-IsTrace zero head low above = empty-IsTrace low 0
    walk-IsTrace (suc depth) head low above = elim (Bool-cases (valid head)) [
      | inr ends ↦ rw ends (empty-IsTrace low (suc depth))
      | inl goes ↦ elim (step head goes) [
        | inl fault ↦ rw (goes, fault, walk-null depth) (empty-IsTrace low (suc depth))
        | inr (next, e, ok, inl last) ↦
            rw (goes, e, last, walk-null depth)
              (more-IsTrace low depth head [] (above goes) ok (empty-IsTrace head depth))
        | inr (next, e, ok, inr climbs) ↦
            rw (goes, e)
              (more-IsTrace low depth head (walk valid dump depth next) (above goes) ok
                (walk-IsTrace depth next head (λ h. climbs)))
      ]
    ]

-- the stack that the kernel was interrupted on
abbrev pub OnStack : (thread_size : ℕ) → PtRegs → ℕ → Type 0
OnStack thread_size regs h = h < stack_base thread_size regs.kernel_stack_pointer

-- the return address of the user frame at `h`, and that the kernel could read it
abbrev pub return_of : (ℕ → Option FrameHead) → ℕ → ℕ
return_of copy h = elim (copy h) [ none ↦ 0 | some frame ↦ frame.ret ]

abbrev pub IsReadable :
    (access_ok : ℕ → ℕ → Bool) (copy : ℕ → Option FrameHead) (size : ℕ) → ℕ → Type 0
IsReadable access_ok copy size h =
    (access_ok h size ≡ true) × ((frame : FrameHead) × (copy h ≡ some frame))

leb-climbs : (h e : ℕ) → leb e h ≡ false → h < e
leb-climbs h e l = ground (arith, l)

valid-OnStack :
    (thread_size : ℕ) (regs : PtRegs) (h : ℕ)
    → valid_kernel_stack thread_size regs h ≡ true
    → (regs.kernel_stack_pointer < h) × OnStack thread_size regs h
unfolding valid_kernel_stack
valid-OnStack thread_size regs h v = ground arith

null_off_stack : (thread_size : ℕ) (regs : PtRegs) → valid_kernel_stack thread_size regs 0 ≡ false
unfolding valid_kernel_stack
null_off_stack thread_size regs = ground arith

kernel-IsDump :
    (thread_size : ℕ) (memory : ℕ → FrameHead) (regs : PtRegs) (h : ℕ)
    → valid_kernel_stack thread_size regs h ≡ true
    → IsDump (λ a. (memory a).ret) (OnStack thread_size regs) h (dump_kernel_backtrace memory h)
unfolding dump_kernel_backtrace
kernel-IsDump thread_size memory regs h v =
    let ok = (valid-OnStack thread_size regs h v).1 in
    elim (Bool-cases (leb (memory h).ebp h)) [
      | inl last ↦ rw last (inr (0, refl, ok, inl refl))
      | inr more ↦ rw more (inr ((memory h).ebp, refl, ok, inr (leb-climbs h _ more)))
    ]

user-IsDump :
    (access_ok : ℕ → ℕ → Bool) (copy : ℕ → Option FrameHead) (size h : ℕ)
    → IsDump
        (return_of copy)
        (IsReadable access_ok copy size)
        h
        (dump_user_backtrace access_ok copy size h)
unfolding dump_user_backtrace
user-IsDump access_ok copy size h = elim (Bool-cases (access_ok h size)) [
  | inr bad ↦ rw bad (inl refl)
  | inl ok ↦ elim (Option-cases (copy h)) [
    | inl fault ↦ rw (ok, fault) (inl refl)
    | inr (frame, e) ↦ elim (Bool-cases (leb frame.ebp h)) [
      | inl last ↦ rw (ok, e, last) (inl refl)
      | inr more ↦
          rw (ok, e, more)
            (inr (
              frame.ebp,
              rw (return_of, e) refl,
              (refl, (frame, refl)),
              inr (leb-climbs h frame.ebp more),
            ))
    ]
  ]
]

module _ (thread_size : ℕ) (memory : ℕ → FrameHead) (access_ok : ℕ → ℕ → Bool)
    (copy64 copy32 : ℕ → Option FrameHead) where
  user_walk :
      (copy : ℕ → Option FrameHead) (size depth head : ℕ)
      → IsTrace
          (return_of copy)
          (IsReadable access_ok copy size)
          0
          depth
          (walk (λ h. not (h == 0)) (dump_user_backtrace access_ok copy size) depth head)
  user_walk copy size depth head =
      walk-IsTrace (return_of copy) (IsReadable access_ok copy size) (λ h. not (h == 0))
        (dump_user_backtrace access_ok copy size) refl (λ h v. user-IsDump access_ok copy size h)
        depth head 0 (λ v. ground (arith, v))

  -- the frames of the kernel's stack
  kernel-IsTrace :
      (tif_ia32 : Bool) (regs : PtRegs) (depth : ℕ)
      → regs.user_mode ≡ false
      → IsTrace
          (λ h. (memory h).ret)
          (OnStack thread_size regs)
          regs.kernel_stack_pointer
          depth
          (x86_backtrace thread_size memory access_ok copy64 copy32 tif_ia32 regs depth)
  unfolding x86_backtrace
  kernel-IsTrace tif_ia32 regs depth kernel = simp kernel (
      walk-IsTrace (λ h. (memory h).ret) (OnStack thread_size regs)
        (valid_kernel_stack thread_size regs) (dump_kernel_backtrace memory)
        (null_off_stack thread_size regs) (kernel-IsDump thread_size memory regs) depth
        regs.frame_pointer regs.kernel_stack_pointer
        (λ v. (valid-OnStack thread_size regs regs.frame_pointer v).0))

  -- the frames of user space
  user-IsTrace :
      (tif_ia32 : Bool) (regs : PtRegs) (depth : ℕ)
      → regs.user_mode ≡ true
      → IsTrace
          (return_of (if tif_ia32 then copy32 else copy64))
          (IsReadable access_ok (if tif_ia32 then copy32 else copy64) (if tif_ia32 then 16 else 32))
          0
          depth
          (x86_backtrace thread_size memory access_ok copy64 copy32 tif_ia32 regs depth)
  unfolding x86_backtrace
  user-IsTrace true regs depth user = simp user (user_walk copy32 16 depth _)
  user-IsTrace false regs depth user = simp user (user_walk copy64 32 depth _)

  -- The trace of an interrupted context holds the return addresses of at most `depth` frames at ever
  -- higher addresses, so that the walk never visits a frame twice, whatever the memory holds. In the
  -- kernel they lie above the stack pointer and below the base of its stack. In user space they
  -- lie above NULL, and each is one that the kernel may access and has read without a fault, in the
  -- layout of a 32-bit task or of a 64-bit one.
  pub x86_backtrace-IsTrace :
      (tif_ia32 : Bool) (regs : PtRegs) (depth : ℕ)
      → let trace = x86_backtrace thread_size memory access_ok copy64 copy32 tif_ia32 regs depth in
        let copy = if tif_ia32 then copy32 else copy64 in
        ((regs.user_mode ≡ false)
          × IsTrace
              (λ h. (memory h).ret)
              (OnStack thread_size regs)
              regs.kernel_stack_pointer
              depth
              trace)
        ⊎ ((regs.user_mode ≡ true)
            × IsTrace
                (return_of copy)
                (IsReadable access_ok copy (if tif_ia32 then 16 else 32))
                0
                depth
                trace)
  x86_backtrace-IsTrace tif_ia32 regs depth = elim (Bool-cases regs.user_mode) [
    | inl user ↦ inr (user, user-IsTrace tif_ia32 regs depth user)
    | inr kernel ↦ inl (kernel, kernel-IsTrace tif_ia32 regs depth kernel)
  ]
