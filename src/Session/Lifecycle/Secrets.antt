-- ===== src/Session/Lifecycle/Secrets.antt =====
-- The ephemeral secret key through the life of a session.
use edgar_vpn.Prelude.{ℕ, ◌≡◌, refl, inl, inr, true, false, Bytes, arith, Option-cases, Bool-cases}
use edgar_vpn.Sodium.{Sodium}
use edgar_vpn.Crypto.{Role, derive_session_keys, wipe, secret_key_bytes, generate_keypair}
use edgar_vpn.Session.State.{
  Session, SessionState, handshake_pending, established, is_established, start_handshake,
}
use edgar_vpn.Session.Handshake.{session_init}
use edgar_vpn.Session.Handshake.Agreement.{HasKeyPair, refreshed}

-- While the handshake is pending, the session has a generated ephemeral key pair; once it is
-- established, nothing is left of the secret key.
abbrev pub KeyStage : Sodium → SessionState → Bytes → Bytes → Type 0
KeyStage lib handshake_pending pk sk =
    (seed : ℕ) × ((pk ≡ (lib.kx_keypair seed).0) × (sk ≡ (lib.kx_keypair seed).1))
KeyStage lib established pk sk =
    ((seed : ℕ) × (pk ≡ (lib.kx_keypair seed).0)) × (sk ≡ wipe secret_key_bytes)

pub record IsWiped (lib : Sodium) (s : Session) : Type 0 where
  pub stage : KeyStage lib s.state s.local_eph_pk s.local_eph_sk

pub pending_stage :
    (lib : Sodium) (st : SessionState) (pk sk : Bytes)
    → is_established st ≡ false
    → KeyStage lib st pk sk
    → (seed : ℕ) × ((pk ≡ (lib.kx_keypair seed).0) × (sk ≡ (lib.kx_keypair seed).1))
pending_stage lib handshake_pending pk sk down h = h
pending_stage lib established pk sk down h = absurd (ground arith)

pub stage_public :
    (lib : Sodium) (st : SessionState) (pk sk : Bytes)
    → KeyStage lib st pk sk
    → (seed : ℕ) × (pk ≡ (lib.kx_keypair seed).0)
stage_public lib handshake_pending pk sk (seed, pair) = (seed, pair.0)
stage_public lib established pk sk h = h.0

module _ (lib : Sodium) where
  pub start_handshake-IsWiped : (seed : ℕ) (s : Session) → IsWiped lib (start_handshake lib seed s)
  unfolding start_handshake generate_keypair
  start_handshake-IsWiped seed s = record { stage = (seed, (refl, refl)) }

  pub session_init-IsWiped :
      (now seed : ℕ) (role : Role) (pk sk peer : Bytes)
      → (session_init lib now seed role pk sk peer).1 ≡ true
      → IsWiped lib (session_init lib now seed role pk sk peer).0
  unfolding session_init
  session_init-IsWiped now seed role pk sk peer ok =
      elim (Option-cases (derive_session_keys lib role pk sk peer)) [
        | inl bad ↦ absurd (ground arith)
        | inr (keys, good) ↦ rw (good, session_init) (start_handshake-IsWiped seed _)
      ]

  -- The session by which a responder answers has a key pair at hand.
  pub refreshed-HasKeyPair :
      (seed : ℕ) (s : Session) → IsWiped lib s → (sr : ℕ) × HasKeyPair lib (refreshed lib seed s) sr
  unfolding start_handshake generate_keypair
  refreshed-HasKeyPair seed s v = elim (Bool-cases (is_established s.state)) [
    | inl up ↦ rw up (seed, (refl, refl))
    | inr down ↦ rw down (pending_stage lib s.state s.local_eph_pk s.local_eph_sk down v.stage)
  ]

  pub refreshed-IsWiped :
      (seed : ℕ) (s : Session) → IsWiped lib s → IsWiped lib (refreshed lib seed s)
  refreshed-IsWiped seed s v = elim (Bool-cases (is_established s.state)) [
    | inl up ↦ rw up (start_handshake-IsWiped seed s)
    | inr down ↦ rw down v
  ]
