-- ===== src/Peer/Inbound/Authentic.antt =====
-- What a datagram can do to the peers, by whether it authenticates under one of their keys.
use edgar_vpn.Prelude.{
  ℕ, suc, zero, ◌≡◌, refl, ap, inl, inr, false, ◌&&◌, none, List, [], ◌∷◌, Bytes, arith, drop,
  length, Option-cases, Bool-cases, ◌==◌,
}
use mathlib.Core.List
use edgar_vpn.Sodium.{Sodium}
use edgar_vpn.Crypto.{role_is, responder, initiator, crypto_open, public_key_bytes}
use edgar_vpn.Config.{Config}
use edgar_vpn.Session.State.{
  Session, has_type, msg_handshake_init, msg_handshake_response, msg_data, handshake_msg_len,
}
use edgar_vpn.Session.Handshake.{handle_response}
use edgar_vpn.Session.Handshake.Acceptance.{handle_init_refuses}
use edgar_vpn.Session.Channel.{Opened, open_data}
use edgar_vpn.Peer.State.{PeerSession, Net, SockAddr, max_packet_size, Effect}
use edgar_vpn.Peer.Outbound.{at_index}
use edgar_vpn.Peer.Inbound.{
  find_peer_by_addr, find_responder_for_init, handle_unknown_init, handle_known, handle_udp,
  keep_looking,
}

-- A datagram that opens under neither of a peer's keys to receive with.
abbrev pub IsForged : Sodium → Bytes → PeerSession → Type 0
IsForged lib input p =
    (crypto_open lib p.session.static_keys.rx (drop 1 input) public_key_bytes ≡ none)
    × (crypto_open lib p.session.data_keys.rx (drop 1 input) max_packet_size ≡ none)

abbrev pub AllForged : Sodium → Bytes → List PeerSession → Type 0
AllForged lib input [] = Unit
AllForged lib input (p ∷ peers) = IsForged lib input p × AllForged lib input peers

-- A peer without its statistics of what was refused.
abbrev pub essence : PeerSession → PeerSession
essence p = record p { stat_auth_failures = 0; stat_drops = 0 }

-- What a handler does at an index it does to one peer of the list.
at_index-harmless :
    (f : PeerSession → PeerSession × List Effect) (i : ℕ) (lib : Sodium) (input : Bytes)
    (peers : List PeerSession)
    → ((p : PeerSession) → IsForged lib input p → (essence (f p).0 ≡ essence p) × ((f p).1 ≡ []))
    → AllForged lib input peers
    → (List.map essence (at_index f i peers).0 ≡ List.map essence peers)
      × ((at_index f i peers).1 ≡ [])
unfolding at_index
at_index-harmless f i lib input [] quiet forged = (refl, refl)
at_index-harmless f zero lib input (p ∷ peers) quiet forged =
    let (same, silent) = quiet p forged.0 in (ap (λ q. q ∷ List.map essence peers) same, silent)
at_index-harmless f (suc i) lib input (p ∷ peers) quiet forged =
    let (same, silent) = at_index-harmless f i lib input peers quiet forged.1 in
    (ap (λ qs. essence p ∷ qs) same, silent)

module _ (lib : Sodium) (input : Bytes) where
  find_responder_for_init-forged :
      (seed : ℕ → ℕ) (peers : List PeerSession)
      → AllForged lib input peers
      → find_responder_for_init lib seed peers input ≡ (peers, none)
  unfolding find_responder_for_init keep_looking
  find_responder_for_init-forged seed [] forged = refl
  find_responder_for_init-forged seed (p ∷ peers) forged =
      let later = find_responder_for_init-forged (λ i. seed (suc i)) peers forged.1 in
      let refused =
        handle_init_refuses lib (seed 0) p.session input handshake_msg_len (inl forged.0.0) in
      elim (Bool-cases (role_is p.config.role responder)) [
        | inl asks ↦ rw (asks, ap (λ o. o.1) refused, ap (λ o. o.0) refused, later) refl
        | inr skips ↦ rw (skips, later) refl
      ]

  handle_response-forged :
      (s : Session)
      → crypto_open lib s.static_keys.rx (drop 1 input) public_key_bytes ≡ none
      → handle_response lib s input ≡ (s, false)
  unfolding handle_response
  handle_response-forged s bad = ground arith

  open_data-forged :
      (s : Session) (room : ℕ)
      → crypto_open lib s.data_keys.rx (drop 1 input) room ≡ none
      → open_data lib s input room ≡ record { session = s; written = none; result = none }
  unfolding open_data
  open_data-forged s room bad = ground arith

  handle_known-forged :
      (net : Net) (seed t : ℕ) (p : PeerSession)
      → IsForged lib input p
      → (essence (handle_known lib net seed t input p).0 ≡ essence p)
        × ((handle_known lib net seed t input p).1 ≡ [])
  unfolding handle_known
  handle_known-forged net seed t p forged =
      let init = handle_init_refuses lib seed p.session input handshake_msg_len (inl forged.0) in
      let response = handle_response-forged p.session forged.0 in
      let packet = open_data-forged p.session max_packet_size forged.1 in
      elim (Bool-cases (has_type msg_handshake_init input && role_is p.config.role responder)) [
        | inl asks ↦ rw (asks, ap (λ o. o.1) init, ap (λ o. o.0) init) (refl, refl)
        | inr other ↦
            elim (Bool-cases
              (has_type msg_handshake_response input && role_is p.config.role initiator)) [
                | inl answers ↦
                    rw (other, answers, ap (λ o. o.1) response, ap (λ o. o.0) response) (refl, refl)
                | inr last ↦ elim (Bool-cases (has_type msg_data input)) [
                  | inl sends ↦
                      rw
                        (
                          other,
                          last,
                          sends,
                          ap (λ (o : Opened). o.result) packet,
                          ap (λ (o : Opened). o.session) packet,
                        )
                        (refl, refl)
                  | inr unknown ↦ rw (other, last, unknown) (refl, refl)
                ]
              ]
      ]

handle_unknown_init-forged :
    (lib : Sodium) (net : Net) (seed : ℕ → ℕ) (t : ℕ) (from : SockAddr) (input : Bytes)
    (peers : List PeerSession)
    → AllForged lib input peers
    → handle_unknown_init lib net seed t from input peers ≡ (peers, [])
unfolding handle_unknown_init
handle_unknown_init-forged lib net seed t from input peers forged =
    let found = find_responder_for_init-forged lib input seed peers forged in
    rw (ap (λ o. o.1) found, ap (λ o. o.0) found, handle_unknown_init) refl

-- A datagram that no peer's keys open does nothing: whatever its source and its type, no session,
-- address or timer changes, nothing is sent and nothing reaches the TUN device; only the counts of
-- refused and dropped messages may go up.
pub handle_udp-forged :
    (lib : Sodium) (net : Net) (seed : ℕ → ℕ) (t : ℕ) (from : SockAddr) (input : Bytes)
    (cfg : Config) (peers : List PeerSession)
    → AllForged lib input peers
    → (List.map essence (handle_udp lib net seed t from input cfg peers).0 ≡ List.map essence peers)
      × ((handle_udp lib net seed t from input cfg peers).1 ≡ [])
unfolding handle_udp
handle_udp-forged lib net seed t from input cfg peers forged =
    let quiet = handle_unknown_init-forged lib net seed t from input peers forged in
    elim (Bool-cases (length cfg.peers == 0)) [
      | inl alone ↦ rw alone (refl, refl)
      | inr some_peer ↦ elim (Bool-cases (length input == 0)) [
        | inl nothing ↦ rw (some_peer, nothing) (refl, refl)
        | inr bytes ↦ elim (Option-cases (find_peer_by_addr peers from)) [
          | inl unknown ↦ elim (Bool-cases (has_type msg_handshake_init input)) [
            | inl init ↦ rw (some_peer, bytes, unknown, init, quiet) (refl, refl)
            | inr other ↦ rw (some_peer, bytes, unknown, other) (refl, refl)
          ]
          | inr (i, known) ↦
              rw (some_peer, bytes, known)
                (at_index-harmless (handle_known lib net (seed i) t input) i lib input peers
                  (handle_known-forged lib input net (seed i) t) forged)
        ]
      ]
    ]
