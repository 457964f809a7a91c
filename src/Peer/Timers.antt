-- ===== src/Peer/Timers.antt =====
-- src/main.c: the timers that every round of the loop checks.
pub mod Liveness
pub mod Alive
pub mod Retry
use edgar_vpn.Prelude.{
  ℕ, zero, suc, ◌+◌, Bool, true, false, ◌&&◌, Option, none, some, List, [], ◌∷◌, ◌++◌, Bytes, u64,
  leb, ◌==◌, if◌then◌else◌, length,
}
use edgar_vpn.Sodium.{Sodium}
use edgar_vpn.Crypto.{role_is, initiator}
use edgar_vpn.Session.State.{Session, is_established}
use edgar_vpn.Session.Channel.{seal_data}
use edgar_vpn.Peer.State.{
  PeerSession, Net, Effect, sent, SockAddr, sealed_buf_size, increment, since,
  keepalive_interval_ms, session_timeout_ms, key_rotation_interval_ms, stats_interval_ms,
}
use edgar_vpn.Peer.Outbound.{initiate_handshake}

module _ (lib : Sodium) (net : Net) where
  -- The keepalive: an empty DATA message to an established peer that was sent nothing for a while.
  unfoldable pub keep_alive : ℕ → PeerSession → PeerSession × List Effect
  unfolding since
  keep_alive now ps =
      if ps.addr_resolved
        && (is_established ps.session.state
            && leb keepalive_interval_ms (since now ps.last_tx_activity_ms))
      then (let (session, message) = seal_data lib ps.session [] sealed_buf_size in
          let tried = record ps { session = session; last_tx_activity_ms = now } in
          elim message [
            | none ↦ (tried, [])
            | some sealed ↦
                if net.sends sealed ps.addr
                then (
                  record tried {
                    stat_packets_tx = increment ps.stat_packets_tx;
                    stat_bytes_tx = u64 (ps.stat_bytes_tx + length sealed);
                  },
                  sent sealed ps.addr ∷ [],
                )
                else (tried, [])
          ])
      else (ps, [])

  -- The recovery of a silent session, and else the rotation of old keys.
  unfoldable pub refresh_keys : ℕ → ℕ → PeerSession → PeerSession × List Effect
  unfolding since initiate_handshake
  refresh_keys seed now ps =
      if role_is ps.config.role initiator
        && leb session_timeout_ms (since now ps.last_rx_activity_ms)
      then initiate_handshake lib net seed sealed_buf_size now ps
      else if role_is ps.config.role initiator
          && (is_established ps.session.state
              && leb key_rotation_interval_ms (since now ps.last_handshake_completed_ms))
      then initiate_handshake lib net seed sealed_buf_size now ps
      else (ps, [])

  -- One peer in the loop over the timers.
  unfoldable pub tick_peer : ℕ → ℕ → PeerSession → PeerSession × List Effect
  unfolding keep_alive refresh_keys
  tick_peer seed now ps =
      let (ps', kept) = keep_alive now ps in
      let (ps'', refreshed) = refresh_keys seed now ps' in (ps'', kept ++ refreshed)

-- The loop over all peers; the system answers each of them anew.
unfoldable pub tick :
    Sodium → (ℕ → Net) → (ℕ → ℕ) → ℕ → List PeerSession → List PeerSession × List Effect
unfolding tick_peer
tick lib net seed now [] = ([], [])
tick lib net seed now (p ∷ peers) =
    let (p', out) = tick_peer lib (net 0) (seed 0) now p in
    let (rest, more) = tick lib (λ i. net (suc i)) (λ i. seed (suc i)) now peers in
    (p' ∷ rest, out ++ more)

-- The statistics are logged, and the time of that kept, once per interval.
unfoldable pub stats_due : ℕ → ℕ → ℕ
unfolding since
stats_due now last_stats_ms =
    if leb stats_interval_ms (since now last_stats_ms) then now else last_stats_ms
