-- ===== src/Peer/Inbound.antt =====
-- src/main.c: `find_peer_by_addr`, `find_responder_for_init`, and the handler of a datagram.
pub mod Authentic
pub mod Writes
pub mod Learned
use edgar_vpn.Prelude.{
  ℕ, zero, suc, ◌+◌, Bool, true, false, not, ◌&&◌, Option, none, some, List, [], ◌∷◌, Bytes, u64,
  ◌==◌, if◌then◌else◌, length,
}
use mathlib.Core.Option
use edgar_vpn.Sodium.{Sodium}
use edgar_vpn.Crypto.{role_is, initiator, responder}
use edgar_vpn.Config.{Config, ConfigPeer}
use edgar_vpn.Session.State.{
  Session, has_type, handshake_msg_len, msg_handshake_init, msg_handshake_response, msg_data,
}
use edgar_vpn.Session.Handshake.{handle_init, handle_response}
use edgar_vpn.Session.Channel.{Opened, open_data}
use edgar_vpn.Peer.State.{
  PeerSession, Net, Effect, sent, wrote, SockAddr, max_packet_size, increment, same_addr,
}
use edgar_vpn.Peer.Outbound.{at_index}

-- `find_peer_by_addr`: an index, or `none` for NULL.
unfoldable pub find_peer_by_addr : List PeerSession → SockAddr → Option ℕ
find_peer_by_addr [] from = none
find_peer_by_addr (p ∷ peers) from =
    let rest = Option.map suc (find_peer_by_addr peers from) in
    if p.addr_resolved && same_addr p.addr from then some 0 else rest

-- A completed handshake at the time `t`.
abbrev pub handshaken : ℕ → PeerSession → PeerSession
handshaken t ps = record ps {
  last_rx_activity_ms = t;
  last_tx_activity_ms = t;
  last_handshake_completed_ms = t;
  stat_handshakes = increment ps.stat_handshakes;
}

-- The search goes on behind a peer that does not match.
unfoldable pub keep_looking :
    PeerSession → List PeerSession × Option (ℕ × Bytes) → List PeerSession × Option (ℕ × Bytes)
keep_looking p later = (p ∷ later.0, Option.map (λ found. (suc found.0, found.1)) later.1)

module _ (lib : Sodium) where
  -- `find_responder_for_init`: the peers as the attempts leave them, and the matching index with
  -- the response. `seed i` is what the attempt at the peer `i` steps ahead draws.
  unfoldable pub find_responder_for_init :
      (ℕ → ℕ) → List PeerSession → Bytes → List PeerSession × Option (ℕ × Bytes)
  unfolding keep_looking
  find_responder_for_init seed [] input = ([], none)
  find_responder_for_init seed (p ∷ peers) input =
      let later = find_responder_for_init (λ i. seed (suc i)) peers input in
      if not (role_is p.config.role responder)
      then keep_looking p later
      else let (session, response) = handle_init lib (seed 0) p.session input handshake_msg_len in
        elim response [
          | some reply ↦ (record p { session = session } ∷ peers, some (0, reply))
          | none ↦ keep_looking (record p { session = session }) later
        ]

  module _ (net : Net) where
    -- A HANDSHAKE_INIT from a source that no peer is known by.
    unfoldable pub handle_unknown_init :
        (ℕ → ℕ) → ℕ → SockAddr → Bytes → List PeerSession → List PeerSession × List Effect
    unfolding find_responder_for_init at_index
    handle_unknown_init seed t from input peers =
        let (tried, found) = find_responder_for_init seed peers input in
        elim found [
          | none ↦ (tried, [])
          | some (i, reply) ↦
              if net.sends reply from
              then at_index
                  (λ ps. (
                    handshaken t (record ps { addr = from; addr_resolved = true }),
                    sent reply from ∷ [],
                  ))
                  i tried
              else (tried, [])
        ]

    -- A datagram from the address of a peer.
    unfoldable pub handle_known : ℕ → ℕ → Bytes → PeerSession → PeerSession × List Effect
    handle_known seed t input ps =
        if has_type msg_handshake_init input && role_is ps.config.role responder
        then (let (session, response) = handle_init lib seed ps.session input handshake_msg_len in
            let ps' = record ps { session = session } in
            elim response [
              | none ↦ (record ps' { stat_auth_failures = increment ps.stat_auth_failures }, [])
              | some reply ↦
                  if net.sends reply ps.addr
                  then (handshaken t ps', sent reply ps.addr ∷ [])
                  else (ps', [])
            ])
        else if has_type msg_handshake_response input && role_is ps.config.role initiator
        then (let (session, accepted) = handle_response lib ps.session input in
            let ps' = record ps { session = session } in
            if accepted
            then (
              record ps' {
                last_rx_activity_ms = t;
                last_handshake_completed_ms = t;
                stat_handshakes = increment ps.stat_handshakes;
              },
              [],
            )
            else (record ps' { stat_auth_failures = increment ps.stat_auth_failures }, []))
        else if has_type msg_data input
        then (let o = open_data lib ps.session input max_packet_size in
            let ps' = record ps { session = o.session } in
            elim o.result [
              | none ↦ (
                record ps' {
                  stat_auth_failures = increment ps.stat_auth_failures;
                  stat_drops = increment ps.stat_drops;
                },
                [],
              )
              | some len ↦
                  let plain = Option.get_or o.written [] in
                  if len == 0
                  then (record ps' { last_rx_activity_ms = t }, [])
                  else if net.writes plain
                  then (
                    record ps' {
                      last_rx_activity_ms = t;
                      stat_packets_rx = increment ps.stat_packets_rx;
                      stat_bytes_rx = u64 (ps.stat_bytes_rx + length input);
                    },
                    wrote plain ∷ [],
                  )
                  else (ps', [])
            ])
        else (record ps { stat_drops = increment ps.stat_drops }, [])

    -- The handler of a datagram that `udp_recv` returned with its source.
    unfoldable pub handle_udp :
        (ℕ → ℕ) → ℕ → SockAddr → Bytes → Config → List PeerSession → List PeerSession × List Effect
    unfolding handle_unknown_init handle_known at_index find_peer_by_addr
    handle_udp seed t from input cfg peers =
        if length cfg.peers == 0
        then (peers, [])
        else if length input == 0
        then (peers, [])
        else elim (find_peer_by_addr peers from) [
          | none ↦
              if has_type msg_handshake_init input
              then handle_unknown_init seed t from input peers
              else (peers, [])
          | some i ↦ at_index (handle_known (seed i) t input) i peers
        ]
