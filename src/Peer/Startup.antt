-- ===== src/Peer/Startup.antt =====
-- src/main.c: how `main` fills the peers before its loop begins.
pub mod Started
use edgar_vpn.Prelude.{
  ℕ, suc, Bool, true, false, Option, none, some, List, [], ◌∷◌, ◌++◌, Bytes, if◌then◌else◌,
}
use edgar_vpn.Sodium.{Sodium}
use edgar_vpn.Crypto.{role_is, initiator, derive_public_key}
use edgar_vpn.Config.{Config, ConfigPeer}
use edgar_vpn.Session.State.{Session}
use edgar_vpn.Session.Handshake.{session_init, zero_session}
use edgar_vpn.Peer.State.{PeerSession, SockAddr, Net, Effect, sealed_buf_size}
use edgar_vpn.Peer.Outbound.{initiate_handshake}

-- What the system gives while one peer is set up: the wall clock, the monotonic clock at its two
-- readings, the random bits of the two key pairs, and the answers of the network.
pub record Moment : Type 0 where
  pub wall : ℕ
  pub first_ms : ℕ
  pub second_ms : ℕ
  pub first_seed : ℕ
  pub second_seed : ℕ
  pub net : Net

-- A zeroed `peer_session_t` with its `config`.
abbrev pub blank_peer : ConfigPeer → PeerSession
blank_peer config = record {
  config = config;
  addr_resolved = false;
  addr = record { sin_addr = 0; sin_port = 0 };
  session = zero_session;
  last_rx_activity_ms = 0;
  last_tx_activity_ms = 0;
  last_handshake_completed_ms = 0;
  stat_packets_tx = 0;
  stat_bytes_tx = 0;
  stat_packets_rx = 0;
  stat_bytes_rx = 0;
  stat_handshakes = 0;
  stat_auth_failures = 0;
  stat_drops = 0;
}

module _ (lib : Sodium) (private_key local_pk : Bytes) where
  -- One round of the loop: the peer, or `none` where its session cannot be initialized.
  unfoldable pub start_peer : Moment → ConfigPeer → Option (PeerSession × List Effect)
  unfolding session_init initiate_handshake
  start_peer now config =
      let (session, ready) =
        session_init lib now.wall now.first_seed config.role local_pk private_key
          config.public_key in
      let ps = record (blank_peer config) {
        session = session;
        last_rx_activity_ms = now.first_ms;
      } in
      if ready
      then if role_is config.role initiator
        then some (initiate_handshake lib now.net now.second_seed sealed_buf_size now.second_ms ps)
        else some (ps, [])
      else none

  -- The loop: the peers, `none` where `main` gives up, and what was sent till then.
  unfoldable pub start_peers :
      (ℕ → Moment) → List ConfigPeer → Option (List PeerSession) × List Effect
  unfolding start_peer
  start_peers now [] = (some [], [])
  start_peers now (config ∷ configs) =
      let later = start_peers (λ i. now (suc i)) configs in
      elim (start_peer (now 0) config) [
        | none ↦ (none, [])
        | some (ps, out) ↦ elim later.0 [
          | none ↦ (none, out ++ later.1)
          | some rest ↦ (some (ps ∷ rest), out ++ later.1)
        ]
      ]

-- The start-up of all peers of a configuration.
unfoldable pub start_up : Sodium → (ℕ → Moment) → Config → Option (List PeerSession) × List Effect
unfolding start_peers
start_up lib now cfg =
    start_peers lib cfg.private_key (derive_public_key lib cfg.private_key) now cfg.peers
