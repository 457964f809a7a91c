-- ===== src/System/Hoare.antt =====
-- What holds behind a call, whether it fails or not.
use edgar_vpn.Prelude.{ℕ, Option, none, some}
use edgar_vpn.System.{Call, and_then, ◌>>=◌, System, close_failed, or_close}

-- `F` where the call has failed, and else `Q` of its value.
abbrev pub Ends : {S A : Type 0} → (S → Type 0) → (A → S → Type 0) → Option A × S → Type 0
Ends F Q (none, s) = F s
Ends F Q (some a, s) = Q a s

-- The same for `m`, begun where `P` holds.
pub record Triple {S A : Type 0} (F P : S → Type 0) (m : Call S A) (Q : A → S → Type 0)
    : Type 0 where
  pub run : (s : S) → P s → Ends F Q (m s)

and_then-Ends :
    {S A B : Type 0} (F : S → Type 0) (Q : A → S → Type 0) (R : B → S → Type 0) (r : Option A × S)
    (k : A → Call S B)
    → Ends F Q r
    → ((a : A) → Triple F (Q a) (k a) R)
    → Ends F R (and_then r k)
and_then-Ends F Q R (none, s) k v next = v
and_then-Ends F Q R (some a, s) k v next = (next a).run s v

pub bind-Triple :
    {S A B : Type 0} {F P : S → Type 0} {Q : A → S → Type 0} {R : B → S → Type 0} {m : Call S A}
    {k : A → Call S B}
    → Triple F P m Q
    → ((a : A) → Triple F (Q a) (k a) R)
    → Triple F P (m >>= k) R
unfolding ◌>>=◌
bind-Triple {F = F} {Q = Q} {R = R} {m = m} {k = k} first next = record {
  run = λ s p. and_then-Ends F Q R (m s) k (first.run s p) next;
}

module _ (sys : System) where
  close_failed-Ends :
      {A : Type 0} (E F : sys.State → Type 0) (Q : A → sys.State → Type 0) (fd : ℕ)
      (r : Option A × sys.State)
      → Ends E Q r
      → ((s : sys.State) → E s → F (sys.set_errno (sys.errno s) (sys.close fd s)))
      → Ends F Q (close_failed sys fd r)
  unfolding close_failed
  close_failed-Ends E F Q fd (none, s) v closes = closes s v
  close_failed-Ends E F Q fd (some a, s) v closes = v

  pub or_close-Triple :
      {A : Type 0} {E F P : sys.State → Type 0} {Q : A → sys.State → Type 0} {m : Call sys.State A}
      (fd : ℕ)
      → Triple E P m Q
      → ((s : sys.State) → E s → F (sys.set_errno (sys.errno s) (sys.close fd s)))
      → Triple F P (or_close sys fd m) Q
  unfolding or_close
  or_close-Triple {E = E} {F = F} {Q = Q} {m = m} fd v closes = record {
    run = λ s p. close_failed-Ends E F Q fd (m s) (v.run s p) closes;
  }
