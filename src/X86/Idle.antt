-- ===== src/X86/Idle.antt =====
-- x86/process.c: the idle routine is replaced by one that polls, and given back. This is the variant for
-- kernels after 2.6.39, where the kernel's symbols are looked up by name. Routines are addresses.
use rrprofile.Prelude.{
  ℕ, ◌≡◌, ◌≢◌, refl, arith, List, [], ◌∷◌, Bool, true, false, not, ◌==◌, ◌||◌, if◌then◌else◌,
  Option, none, some, ◌⊎◌, inl, inr, Bool-cases, ap, sym, ◌∙◌,
}

-- `pm_idle` is the kernel's variable that `pm_idle_p` points to (none if the pointer is NULL);
-- `install` and `uninstall` say whether the two routines of cpuidle were found, and `cpuidle` is
-- whether the last call of one of them has installed it.
pub record PollIdle : Type 0 where
  pub pm_idle : Option ℕ
  pub pm_idle_save : ℕ
  pub install : Bool
  pub uninstall : Bool
  pub cpuidle : Bool
  pub poll_idle_enabled : ℕ

-- `lookup` of the three symbols is given by what it finds.
unfoldable pub init_poll_idle :
    (pm_idle : Option ℕ) → (uninstall install : Bool) → PollIdle → PollIdle
init_poll_idle none uninstall install s = record s {
  pm_idle = none;
  uninstall = uninstall;
  install = install;
}
init_poll_idle (some f) uninstall install s = record s {
  pm_idle = some f;
  pm_idle_save = f;
  uninstall = uninstall;
  install = install;
}

-- the guard of the two functions below
abbrev pub unavailable : PollIdle → Bool
unavailable s = s.pm_idle_save == 0 || not s.install || not s.uninstall

-- `poll_idle` is the address of the routine that polls.
module _ (poll_idle : ℕ) where
  unfoldable pub enable_poll_idle : PollIdle → PollIdle
  enable_poll_idle s = elim s.pm_idle [
    | none ↦ s
    | some f ↦
        if unavailable s
        then s
        else if f == poll_idle
        then s
        else record s { pm_idle = some poll_idle; cpuidle = false }
  ]

  unfoldable pub disable_poll_idle : PollIdle → PollIdle
  disable_poll_idle s = elim s.pm_idle [
    | none ↦ s
    | some f ↦
        if unavailable s
        then s
        else if f == s.pm_idle_save
        then s
        else record s { pm_idle = some s.pm_idle_save; cpuidle = true }
  ]

  -- a run of enabling (true) and disabling (false)
  abbrev pub toggle : List Bool → PollIdle → PollIdle
  toggle [] s = s
  toggle (true ∷ cs) s = toggle cs (enable_poll_idle s)
  toggle (false ∷ cs) s = toggle cs (disable_poll_idle s)

  -- the state with the kernel's own routine `f` and cpuidle in place, and that with the polling one
  abbrev pub own : ℕ → (install uninstall : Bool) → ℕ → PollIdle
  own f install uninstall enabled = record {
    pm_idle = some f;
    pm_idle_save = f;
    install = install;
    uninstall = uninstall;
    cpuidle = true;
    poll_idle_enabled = enabled;
  }

  abbrev polling : ℕ → ℕ → PollIdle
  polling f enabled = record (own f true true enabled) { pm_idle = some poll_idle; cpuidle = false }

  module _ (f enabled : ℕ) (differs : f ≢ poll_idle) where
    not_polling : (f == poll_idle) ≡ false
    not_polling = ground arith

    not_own : (poll_idle == f) ≡ false
    not_own = ground arith

    same : (x : ℕ) → (x == x) ≡ true
    same x = ground arith

    enable-own :
        (install uninstall : Bool)
        → let s = own f install uninstall enabled in
          (enable_poll_idle s ≡ s)
          ⊎ ((f == 0) ≡ false)
            × (enable_poll_idle s ≡ polling f enabled)
            × (s ≡ own f true true enabled)
    unfolding enable_poll_idle
    enable-own false uninstall = elim (Bool-cases (f == 0)) [
      | inl null ↦ inl (rw null refl)
      | inr real ↦ inl (rw real refl)
    ]
    enable-own true false = elim (Bool-cases (f == 0)) [
      | inl null ↦ inl (rw null refl)
      | inr real ↦ inl (rw real refl)
    ]
    enable-own true true = elim (Bool-cases (f == 0)) [
      | inl null ↦ inl (rw null refl)
      | inr real ↦ inr (real, rw (real, not_polling) refl, refl)
    ]

    disable-own :
        (install uninstall : Bool)
        → let s = own f install uninstall enabled in disable_poll_idle s ≡ s
    unfolding disable_poll_idle
    disable-own install uninstall =
        elim (Bool-cases (unavailable (own f install uninstall enabled))) [
          | inl missing ↦ rw missing refl
          | inr found ↦ rw (found, same f) refl
        ]

    enable-polling : (f == 0) ≡ false → enable_poll_idle (polling f enabled) ≡ polling f enabled
    unfolding enable_poll_idle
    enable-polling real = rw (real, same poll_idle) refl

    disable-polling :
        (f == 0) ≡ false → disable_poll_idle (polling f enabled) ≡ own f true true enabled
    unfolding disable_poll_idle
    disable-polling real = rw (real, not_own) refl

    -- The states that a run of toggling reaches.
    abbrev Reached : Bool → Bool → PollIdle → Type 0
    Reached install uninstall t =
        let s = own f install uninstall enabled in
        (t ≡ s) ⊎ ((f == 0) ≡ false) × (t ≡ polling f enabled) × (s ≡ own f true true enabled)

    enable-Reached : (i u : Bool) (t : PollIdle) → Reached i u t → Reached i u (enable_poll_idle t)
    enable-Reached i u t (inl e) = rw e (enable-own i u)
    enable-Reached i u t (inr (real, e, all)) = rw e (inr (real, enable-polling real, all))

    disable-Reached :
        (i u : Bool) (t : PollIdle) → Reached i u t → disable_poll_idle t ≡ own f i u enabled
    disable-Reached i u t (inl e) = ap disable_poll_idle e ∙ disable-own i u
    disable-Reached i u t (inr (real, e, all)) =
        ap disable_poll_idle e ∙ disable-polling real ∙ sym all

    toggle-Reached :
        (cs : List Bool) (i u : Bool) (t : PollIdle) → Reached i u t → Reached i u (toggle cs t)
    toggle-Reached [] i u t r = r
    toggle-Reached (true ∷ cs) i u t r = toggle-Reached cs i u _ (enable-Reached i u t r)
    toggle-Reached (false ∷ cs) i u t r = toggle-Reached cs i u _ (inl (disable-Reached i u t r))

    -- Where the kernel's own idle routine and cpuidle are in place, and the routine is not the one that
    -- polls: after any run of enabling and disabling the polling, `disable_poll_idle` gives back exactly
    -- the state before it, whichever of cpuidle's routines were found.
    pub disable-toggle :
        (cs : List Bool) (install uninstall : Bool)
        → let s = own f install uninstall enabled in disable_poll_idle (toggle cs s) ≡ s
    disable-toggle cs i u =
        disable-Reached i u (toggle cs (own f i u enabled)) (toggle-Reached cs i u _ (inl refl))
