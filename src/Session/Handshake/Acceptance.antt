-- ===== src/Session/Handshake/Acceptance.antt =====
-- When a handshake message is accepted, and what follows for replayed and forged messages.
use edgar_vpn.Prelude.{
  size_pred, ℕ, ◌≤◌, ◌≡◌, sym, ◌∙◌, ap, ◌⊎◌, inl, inr, true, false, none, some, ◌∷◌, Bytes, arith,
  drop, Option-cases,
}
use edgar_vpn.Sodium.{Sodium, SessionKeys}
use edgar_vpn.Crypto.{
  initiator, responder, derive_session_keys, seal, crypto_open, public_key_bytes,
}
use edgar_vpn.Session.State.{
  Session, handshake_pending, msg_handshake_init, msg_handshake_response, has_type,
}
use edgar_vpn.Session.Handshake.{answer_init, handle_init, handle_response}
use edgar_vpn.Session.Handshake.Agreement.{
  Unseen, answered, completed, refreshed, refreshed-role, refreshed-static_keys,
}

-- All that holds where a responder in state `s` answers `input` by `reply` and is left in `s'`.
pub record InitAccepted (lib : Sodium) (fresh : ℕ) (s : Session) (input : Bytes) (out_len : ℕ)
    (s' : Session) (reply : Bytes) : Type 0 where
  pub pk : Bytes
  pub counter : ℕ
  pub keys : SessionKeys
  pub packet : Bytes
  pub is_responder : s.role ≡ responder
  pub tagged : has_type msg_handshake_init input ≡ true
  pub authentic :
      crypto_open lib s.static_keys.rx (drop 1 input) public_key_bytes ≡ some (pk, counter)
  pub unseen : Unseen s counter
  pub derived :
      lib.kx_server_session_keys
        (refreshed lib fresh s).local_eph_pk
        (refreshed lib fresh s).local_eph_sk
        pk
      ≡ some keys
  pub after : s' ≡ answered (refreshed lib fresh s) keys counter
  pub reply_packet : reply ≡ msg_handshake_response ∷ packet
  pub reply_sealed :
      seal lib s.static_keys.tx counter (refreshed lib fresh s).local_eph_pk (size_pred out_len)
      ≡ some packet

module _ (lib : Sodium) where
  answer_init-eq-some :
      (s : Session) (pk : Bytes) (counter out_len : ℕ) {s' : Session} {reply : Bytes}
      → s.role ≡ responder
      → answer_init lib s pk counter out_len ≡ (s', some reply)
      → (keys : SessionKeys) × (packet : Bytes) × (lib.kx_server_session_keys s.local_eph_pk
            s.local_eph_sk pk
          ≡ some keys)
        × (seal lib s.static_keys.tx counter s.local_eph_pk (size_pred out_len) ≡ some packet)
        × (s' ≡ answered s keys counter)
        × (reply ≡ msg_handshake_response ∷ packet)
  unfolding answer_init derive_session_keys
  answer_init-eq-some s pk counter out_len role e =
      elim (Option-cases (lib.kx_server_session_keys s.local_eph_pk s.local_eph_sk pk)) [
        | inl bad ↦ absurd (ground arith)
        | inr (keys, good) ↦
            elim (Option-cases
              (seal lib s.static_keys.tx counter s.local_eph_pk (size_pred out_len))) [
                | inl bad ↦ absurd (ground arith)
                | inr (packet, sealed) ↦ (keys, packet, good, sealed, ground arith, ground arith)
              ]
      ]

  -- Past its checks a responder goes on to answer.
  handle_init-eq-some :
      (fresh : ℕ) (s : Session) (input : Bytes) (out_len : ℕ) {s' : Session} {reply : Bytes}
      → handle_init lib fresh s input out_len ≡ (s', some reply)
      → (pk : Bytes) × (counter : ℕ) × (s.role ≡ responder)
        × (crypto_open lib s.static_keys.rx (drop 1 input) public_key_bytes ≡ some (pk, counter))
        × (has_type msg_handshake_init input ≡ true)
        × Unseen s counter
        × (answer_init lib (refreshed lib fresh s) pk counter out_len ≡ (s', some reply))
  unfolding handle_init
  handle_init-eq-some fresh s input out_len e =
      elim (Option-cases (crypto_open lib s.static_keys.rx (drop 1 input) public_key_bytes)) [
        | inl bad ↦ absurd (ground arith)
        | inr ((pk, counter), good) ↦
            (pk, counter, ground arith, good, ground arith, ground arith, ground arith)
      ]

  -- A responder that answers has all the reasons of `InitAccepted`.
  pub handle_init-InitAccepted :
      (fresh : ℕ) (s : Session) (input : Bytes) (out_len : ℕ) {s' : Session} {reply : Bytes}
      → handle_init lib fresh s input out_len ≡ (s', some reply)
      → InitAccepted lib fresh s input out_len s' reply
  handle_init-InitAccepted fresh s input out_len e =
      let (pk, counter, role, good, tag, unseen, e') =
        handle_init-eq-some fresh s input out_len e in
      let (keys, packet, derived, sealed, left, wrote) =
        answer_init-eq-some (refreshed lib fresh s) pk counter out_len
          (refreshed-role lib fresh s ∙ role) e' in
      record {
        pk = pk;
        counter = counter;
        keys = keys;
        packet = packet;
        is_responder = role;
        tagged = tag;
        authentic = good;
        unseen = unseen;
        derived = derived;
        after = left;
        reply_packet = wrote;
        reply_sealed =
            ap (λ k. seal lib k.tx counter (refreshed lib fresh s).local_eph_pk (size_pred out_len))
              (sym (refreshed-static_keys lib fresh s))
            ∙ sealed;
      }

  -- A message that does not authenticate, or whose counter is not above the highest one seen, is
  -- refused, and the session stays as it was.
  pub handle_init_refuses :
      (fresh : ℕ) (s : Session) (input : Bytes) (out_len : ℕ)
      → (crypto_open lib s.static_keys.rx (drop 1 input) public_key_bytes ≡ none)
        ⊎ ((pk : Bytes) × (counter : ℕ) × (crypto_open lib s.static_keys.rx
                (drop 1 input)
                public_key_bytes
              ≡ some (pk, counter))
            × (s.have_seen_handshake ≡ true)
            × (counter ≤ s.highest_handshake_counter_seen))
      → handle_init lib fresh s input out_len ≡ (s, none)
  unfolding handle_init
  handle_init_refuses fresh s input out_len (inl bad) = ground arith
  handle_init_refuses fresh s input out_len (inr (pk, counter, good, seen, low)) = ground arith

  -- An initiator establishes a session only by a message that opens under its static key to a
  -- public key and the very counter of its outstanding attempt.
  pub handle_response-eq-true :
      (s : Session) (input : Bytes) {s' : Session}
      → handle_response lib s input ≡ (s', true)
      → (pk : Bytes) × (keys : SessionKeys) × (s.role ≡ initiator)
        × (s.state ≡ handshake_pending)
        × (crypto_open lib s.static_keys.rx (drop 1 input) public_key_bytes
            ≡ some (pk, s.pending_handshake_counter))
        × (lib.kx_client_session_keys s.local_eph_pk s.local_eph_sk pk ≡ some keys)
        × (s' ≡ completed s keys)
  unfolding handle_response derive_session_keys
  handle_response-eq-true s input e =
      elim (Option-cases (crypto_open lib s.static_keys.rx (drop 1 input) public_key_bytes)) [
        | inl bad ↦ absurd (ground arith)
        | inr ((pk, counter), good) ↦
            elim (Option-cases (lib.kx_client_session_keys s.local_eph_pk s.local_eph_sk pk)) [
              | inl bad ↦ absurd (ground arith)
              | inr (keys, derived) ↦
                  (pk, keys, ground arith, ground arith, ground arith, derived, ground arith)
            ]
      ]

  -- A refused response leaves the session as it was.
  pub handle_response-eq-false :
      (s : Session) (input : Bytes)
      → (handle_response lib s input).1 ≡ false
      → (handle_response lib s input).0 ≡ s
  unfolding handle_response
  handle_response-eq-false s input e = ground arith
