-- ===== src/Peer/Outbound.antt =====
-- src/main.c: what the daemon sends of its own accord, `initiate_handshake` and the handler of a
-- packet that was read from the TUN device.
pub mod Delivery
use edgar_vpn.Prelude.{
  ℕ, zero, suc, ◌+◌, Bool, true, false, not, Option, none, some, List, [], ◌∷◌, Bytes, u64, ◌==◌,
  if◌then◌else◌, length, get_elem?, set,
}
use edgar_vpn.Sodium.{Sodium}
use edgar_vpn.Config.{Config, ConfigPeer}
use edgar_vpn.Routing.{parse_ipv4_dest, find_peer_for_dest}
use edgar_vpn.Session.State.{Session, is_established, start_handshake}
use edgar_vpn.Session.Handshake.{build_init}
use edgar_vpn.Session.Channel.{seal_data}
use edgar_vpn.Peer.State.{PeerSession, Net, Effect, sent, SockAddr, sealed_buf_size, increment}

-- The peer at an index, handled in place.
unfoldable pub at_index :
    (PeerSession → PeerSession × List Effect)
    → ℕ
    → List PeerSession
    → List PeerSession × List Effect
at_index f i [] = ([], [])
at_index f zero (p ∷ peers) = let (p', out) = f p in (p' ∷ peers, out)
at_index f (suc i) (p ∷ peers) = let (rest, out) = at_index f i peers in (p ∷ rest, out)

module _ (lib : Sodium) (net : Net) where
  -- `udp_send` of a message, if one was built.
  unfoldable pub emit : Option Bytes → SockAddr → List Effect
  emit none addr = []
  emit (some message) addr = if net.sends message addr then sent message addr ∷ [] else []

  -- The second half of `initiate_handshake`, with the address known.
  unfoldable pub send_init : ℕ → ℕ → ℕ → PeerSession → PeerSession × List Effect
  unfolding emit
  send_init seed buf_len now ps =
      let (session, message) = build_init lib (start_handshake lib seed ps.session) buf_len in
      (
        record ps { session = session; last_rx_activity_ms = now; last_tx_activity_ms = now },
        emit message ps.addr,
      )

  -- `initiate_handshake`, with the random bits `seed`.
  unfoldable pub initiate_handshake : ℕ → ℕ → ℕ → PeerSession → PeerSession × List Effect
  unfolding send_init
  initiate_handshake seed buf_len now ps =
      if ps.addr_resolved
      then send_init seed buf_len now ps
      else let waiting = record ps { last_rx_activity_ms = now } in
        elim (net.resolve ps.config.host ps.config.port) [
          | none ↦ (waiting, [])
          | some addr ↦
              send_init seed buf_len now (record waiting { addr = addr; addr_resolved = true })
        ]

  -- A packet for a peer: dropped while its session is not established, else sealed and sent.
  -- `t` is the time of `monotonic_ms()`.
  unfoldable pub send_packet : ℕ → Bytes → PeerSession → PeerSession × List Effect
  send_packet t packet ps =
      if not (is_established ps.session.state)
      then (record ps { stat_drops = increment ps.stat_drops }, [])
      else let (session, message) = seal_data lib ps.session packet sealed_buf_size in
        let tried = record ps { session = session } in
        elim message [
          | none ↦ (tried, [])
          | some sealed ↦
              if net.sends sealed ps.addr
              then (
                record tried {
                  last_tx_activity_ms = t;
                  stat_packets_tx = increment ps.stat_packets_tx;
                  stat_bytes_tx = u64 (ps.stat_bytes_tx + length sealed);
                },
                sent sealed ps.addr ∷ [],
              )
              else (tried, [])
        ]

  -- The handler of `n` bytes that `tun_read` returned. Without peers they are only logged.
  unfoldable pub handle_tun : ℕ → Bytes → Config → List PeerSession → List PeerSession × List Effect
  unfolding send_packet at_index
  handle_tun t packet cfg peers =
      if length cfg.peers == 0 then (peers, []) else elim (parse_ipv4_dest packet) [
        | none ↦ (peers, [])
        | some dest ↦ elim (find_peer_for_dest cfg dest) [
          | none ↦ (peers, [])
          | some i ↦ at_index (send_packet t packet) i peers
        ]
      ]
