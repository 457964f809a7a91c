-- ===== src/System/Cleanup.antt =====
-- A descriptor that is opened and closed again, and the descriptors that were open before.
use edgar_vpn.Prelude.{
  ℕ, ◌≡◌, refl, sym, ◌∙◌, ap, Bool, true, false, not, ◌&&◌, ◌||◌, inl, inr, Option, none, some,
  Bool-cases, ◌==◌, ==_iff, arith,
}
use edgar_vpn.System.{Call, System, or_close}
use edgar_vpn.System.Hoare.{Ends, Triple, or_close-Triple}
use edgar_vpn.System.Laws.{Laws, Same, with, Fresh}

without_with : (f : ℕ → Bool) (fd x : ℕ) → f fd ≡ false → (not (x == fd) && with fd f x) ≡ f x
without_with f fd x fresh = elim (Bool-cases (x == fd)) [
  | inl same ↦ rw same (sym (rw ((==_iff x fd).0 same) fresh))
  | inr other ↦ rw other refl
]

module _ (sys : System) (f : ℕ → Bool) where
  -- The descriptors of `f` are open, and no other.
  abbrev pub Back : sys.State → Type 0
  Back s = Same f (sys.is_open s)

  -- The descriptor is open besides those of `f`.
  abbrev pub Held : ℕ → sys.State → Type 0
  Held fd s = (f fd ≡ false) × Same (with fd f) (sys.is_open s)

  -- What a device or a socket with this descriptor stands for.
  abbrev pub Holds : Option ℕ → sys.State → Type 0
  Holds none s = Back s
  Holds (some fd) s = Held fd s

  module _ (laws : Laws sys) where
    pub Held-close : (fd : ℕ) (s : sys.State) → Held fd s → Back (sys.close fd s)
    Held-close fd s (fresh, held) x =
        laws.close_open fd s (held fd ∙ itself) x
        ∙ ap (λ b. not (x == fd) && b) (held x)
        ∙ without_with f fd x fresh
      where
        itself : with fd f fd ≡ true
        itself = ground arith

    Held-close_keeping :
        (fd : ℕ) (s : sys.State) → Held fd s → Back (sys.set_errno (sys.errno s) (sys.close fd s))
    Held-close_keeping fd s held x =
        laws.set_errno-Same (sys.errno s) (sys.close fd s) x ∙ Held-close fd s held x

  -- A call that leaves the descriptors alone leaves this one held.
  pub Same-Held :
      (fd : ℕ) (s s' : sys.State) → Same (sys.is_open s) (sys.is_open s') → Held fd s → Held fd s'
  Same-Held fd s s' same (fresh, held) = (fresh, λ x. same x ∙ held x)

  pub Same-Holds :
      (o : Option ℕ) (s s' : sys.State)
      → Same (sys.is_open s) (sys.is_open s')
      → Holds o s
      → Holds o s'
  Same-Holds none s s' same back = λ x. same x ∙ back x
  Same-Holds (some fd) s s' same held = Same-Held fd s s' same held

module _ (sys : System) (f : ℕ → Bool) (laws : Laws sys) where
  Same-Ends :
      {A : Type 0} (fd : ℕ) (s : sys.State) (r : Option A × sys.State)
      → Same (sys.is_open s) (sys.is_open r.1)
      → Held sys f fd s
      → Ends (Held sys f fd) (λ a. Held sys f fd) r
  Same-Ends fd s (none, s') same held = Same-Held sys f fd s s' same held
  Same-Ends fd s (some a, s') same held = Same-Held sys f fd s s' same held

  -- A call that leaves the descriptors alone, and closes this one where it fails.
  pub or_close-Held :
      {A : Type 0} {fd : ℕ} (m : Call sys.State A)
      → ((s : sys.State) → Same (sys.is_open s) (sys.is_open (m s).1))
      → Triple (Back sys f) (Held sys f fd) (or_close sys fd m) (λ a. Held sys f fd)
  or_close-Held {fd = fd} m same =
      or_close-Triple sys fd (record { run = λ s held. Same-Ends fd s (m s) (same s) held })
        (Held-close_keeping sys f laws fd)

  Fresh-Held : {s s' : sys.State} {fd : ℕ} → Back sys f s → Fresh sys s fd s' → Held sys f fd s'
  Fresh-Held {fd = fd} back (unused, one_more) =
      (sym (back fd) ∙ unused, λ x. one_more x ∙ ap (λ b. (x == fd) || b) (back x))

  Fresh-Ends :
      (s : sys.State) (r : Option ℕ × sys.State)
      → Back sys f s
      → Ends (λ s'. Same (sys.is_open s) (sys.is_open s')) (λ fd s'. Fresh sys s fd s') r
      → Ends (Back sys f) (Held sys f) r
  Fresh-Ends s (none, s') back same = λ x. same x ∙ back x
  Fresh-Ends s (some fd, s') back fresh = Fresh-Held back fresh

  pub open_tun-Held : Triple (Back sys f) (Back sys f) sys.open_tun (Held sys f)
  open_tun-Held = record {
    run = λ s back. Fresh-Ends s (sys.open_tun s) back (laws.open_tun-Fresh s);
  }

  pub socket-Held : Triple (Back sys f) (Back sys f) sys.socket (Held sys f)
  socket-Held = record { run = λ s back. Fresh-Ends s (sys.socket s) back (laws.socket-Fresh s) }
