-- ===== src/Session/Handshake/Cases.antt =====
-- The outcomes of `session_build_init` and of a refused `session_handle_init`, for proofs that
-- follow a session through its operations.
use edgar_vpn.Prelude.{
  size_pred, ℕ, ◌≡◌, ◌⊎◌, inl, inr, none, some, ◌∷◌, Bytes, arith, drop, Option-cases, Bool-cases,
  leb, length, ltb, ◌==◌, ◌&&◌, not, ap, sym, ◌∙◌,
}
use edgar_vpn.Sodium.{Sodium, SessionKeys}
use edgar_vpn.Crypto.{
  initiator, responder, role_is, seal, derive_session_keys, crypto_open, wipe, secret_key_bytes,
  public_key_bytes,
}
use edgar_vpn.Session.State.{Session, msg_handshake_init, has_type, handshake_msg_len}
use edgar_vpn.Session.Handshake.{build_init, answer_init, handle_init}
use edgar_vpn.Session.Handshake.Agreement.{sent_init, refreshed}

module _ (lib : Sodium) (s : Session) where
  pub build_init-eq-none :
      (out_len : ℕ) → (build_init lib s out_len).1 ≡ none → (build_init lib s out_len).0 ≡ s
  unfolding build_init
  build_init-eq-none out_len e = ground arith

  -- A message is built by an initiator only, and sealed under the counter that it held.
  pub build_init-eq-some :
      (out_len : ℕ) {message : Bytes}
      → (build_init lib s out_len).1 ≡ some message
      → (packet : Bytes) × (s.role ≡ initiator)
        × (seal lib s.static_keys.tx s.handshake_counter s.local_eph_pk (size_pred out_len)
            ≡ some packet)
        × (message ≡ msg_handshake_init ∷ packet)
        × ((build_init lib s out_len).0 ≡ sent_init s)
  unfolding build_init
  build_init-eq-some out_len e =
      elim (Option-cases
        (seal lib s.static_keys.tx s.handshake_counter s.local_eph_pk (size_pred out_len))) [
          | inl bad ↦ absurd (ground arith)
          | inr (packet, good) ↦ (packet, ground arith, good, ground arith, ground arith)
        ]

  -- Where it cannot answer, a responder is left as it was or without its ephemeral secret key.
  answer_init-eq-none :
      (pk : Bytes) (counter out_len : ℕ)
      → (answer_init lib s pk counter out_len).1 ≡ none
      → ((answer_init lib s pk counter out_len).0 ≡ s)
        ⊎ ((keys : SessionKeys) × ((answer_init lib s pk counter out_len).0
              ≡ record s { data_keys = keys; local_eph_sk = wipe secret_key_bytes }))
  unfolding answer_init
  answer_init-eq-none pk counter out_len e =
      elim (Option-cases (derive_session_keys lib s.role s.local_eph_pk s.local_eph_sk pk)) [
        | inl bad ↦ inl (ground arith)
        | inr (keys, good) ↦ inr (keys, ground arith)
      ]

-- Either a check refuses the message, or the answer is what `answer_init` makes of it.
pub handle_init_reaches :
    (lib : Sodium) (seed : ℕ) (s : Session) (input : Bytes) (out_len : ℕ)
    → (handle_init lib seed s input out_len ≡ (s, none))
      ⊎ ((pk : Bytes) × (counter : ℕ) × (crypto_open lib s.static_keys.rx
              (drop 1 input)
              public_key_bytes
            ≡ some (pk, counter))
          × (handle_init lib seed s input out_len
              ≡ answer_init lib (refreshed lib seed s) pk counter out_len))
unfolding handle_init
handle_init_reaches lib seed s input out_len =
    elim (Option-cases (crypto_open lib s.static_keys.rx (drop 1 input) public_key_bytes)) [
      | inl bad ↦ inl (ground arith)
      | inr ((pk, counter), good) ↦
          elim (Bool-cases (
            role_is s.role responder
            && (has_type msg_handshake_init input
                && (not (ltb out_len handshake_msg_len)
                    && (length pk == public_key_bytes
                        && not (
                            s.have_seen_handshake
                            && leb counter s.highest_handshake_counter_seen)))))) [
                              | inl passes ↦ inr (pk, counter, good, ground arith)
                              | inr stops ↦ inl (ground arith)
                            ]
    ]

-- A refused message leaves the session as it was, or went as far as answering it.
pub handle_init-eq-none :
    (lib : Sodium) (seed : ℕ) (s : Session) (input : Bytes) (out_len : ℕ)
    → (handle_init lib seed s input out_len).1 ≡ none
    → ((handle_init lib seed s input out_len).0 ≡ s)
      ⊎ ((handle_init lib seed s input out_len).0 ≡ refreshed lib seed s)
      ⊎ ((keys : SessionKeys) × ((handle_init lib seed s input out_len).0
            ≡ record (refreshed lib seed s) {
              data_keys = keys;
              local_eph_sk = wipe secret_key_bytes;
            }))
handle_init-eq-none lib seed s input out_len e =
    elim (handle_init_reaches lib seed s input out_len) [
      | inl e' ↦ inl (ap (λ o. o.0) e')
      | inr (pk, counter, good, e') ↦
          elim (answer_init-eq-none lib (refreshed lib seed s) pk counter out_len
            (sym (ap (λ o. o.1) e') ∙ e)) [
              | inl same ↦ inr (inl (ap (λ o. o.0) e' ∙ same))
              | inr (keys, wiped) ↦ inr (inr (keys, ap (λ o. o.0) e' ∙ wiped))
            ]
    ]
