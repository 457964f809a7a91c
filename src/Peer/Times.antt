-- ===== src/Peer/Times.antt =====
-- The times that a peer keeps, through the handlers of one peer: none is later than the clock.
use edgar_vpn.Prelude.{ℕ, ◌≤◌, inl, inr, [], Bytes, arith, Option-cases}
use edgar_vpn.Sodium.{Sodium}
use edgar_vpn.Session.State.{handshake_msg_len}
use edgar_vpn.Session.Handshake.{handle_init}
use edgar_vpn.Session.Channel.{seal_data, open_data}
use edgar_vpn.Peer.State.{PeerSession, Net, sealed_buf_size, max_packet_size}
use edgar_vpn.Peer.Outbound.{send_init, initiate_handshake, send_packet}
use edgar_vpn.Peer.Inbound.{handle_known}
use edgar_vpn.Peer.Timers.{keep_alive, refresh_keys, tick_peer}

abbrev pub Within : ℕ → PeerSession → Type 0
Within t p =
    (p.last_rx_activity_ms ≤ t) × (p.last_tx_activity_ms ≤ t) × (p.last_handshake_completed_ms ≤ t)

pub Within-mono : (s t : ℕ) (p : PeerSession) → s ≤ t → Within s p → Within t p
Within-mono s t p le v = (omega arith, omega arith, omega arith)

module _ (lib : Sodium) (net : Net) (t : ℕ) (p : PeerSession) (v : Within t p) where
  pub send_packet-Within : (packet : Bytes) → Within t (send_packet lib net t packet p).0
  unfolding send_packet
  send_packet-Within packet =
      elim (Option-cases (seal_data lib p.session packet sealed_buf_size).1) [
        | inl bad ↦ (ground arith, ground arith, ground arith)
        | inr (m, made) ↦ (ground arith, ground arith, ground arith)
      ]

  pub keep_alive-Within : Within t (keep_alive lib net t p).0
  unfolding keep_alive
  keep_alive-Within = elim (Option-cases (seal_data lib p.session [] sealed_buf_size).1) [
    | inl bad ↦ (ground arith, ground arith, ground arith)
    | inr (m, made) ↦ (ground arith, ground arith, ground arith)
  ]

  pub initiate_handshake-Within : (seed n : ℕ) → Within t (initiate_handshake lib net seed n t p).0
  unfolding initiate_handshake send_init
  initiate_handshake-Within seed n = elim (Option-cases (net.resolve p.config.host p.config.port)) [
    | inl bad ↦ (ground arith, ground arith, ground arith)
    | inr (addr, good) ↦ (ground arith, ground arith, ground arith)
  ]

  pub handle_known-Within :
      (seed : ℕ) (input : Bytes) → Within t (handle_known lib net seed t input p).0
  unfolding handle_known
  handle_known-Within seed input =
      elim (Option-cases (handle_init lib seed p.session input handshake_msg_len).1) [
        | inl bad ↦ elim (Option-cases (open_data lib p.session input max_packet_size).result) [
          | inl closed ↦ (ground arith, ground arith, ground arith)
          | inr (n, opened) ↦ (ground arith, ground arith, ground arith)
        ]
        | inr (m, made) ↦
            elim (Option-cases (open_data lib p.session input max_packet_size).result) [
              | inl closed ↦ (ground arith, ground arith, ground arith)
              | inr (n, opened) ↦ (ground arith, ground arith, ground arith)
            ]
      ]

module _ (lib : Sodium) (net : Net) (seed t : ℕ) (p : PeerSession) (v : Within t p) where
  refresh_keys-Within : Within t (refresh_keys lib net seed t p).0
  unfolding refresh_keys
  refresh_keys-Within =
      let begun = initiate_handshake-Within lib net t p v seed sealed_buf_size in
      (ground arith, ground arith, ground arith)

pub tick_peer-Within :
    (lib : Sodium) (net : Net) (seed t : ℕ) (p : PeerSession)
    → Within t p
    → Within t (tick_peer lib net seed t p).0
unfolding tick_peer
tick_peer-Within lib net seed t p v =
    refresh_keys-Within lib net seed t (keep_alive lib net t p).0 (keep_alive-Within lib net t p v)
