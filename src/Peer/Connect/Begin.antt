-- ===== src/Peer/Connect/Begin.antt =====
-- The start-up of a daemon with one peer, and the first datagram that a responder gets.
use edgar_vpn.Prelude.{
  ℕ, ◌≡◌, ◌≢◌, refl, ap, ◌∙◌, true, false, some, [], ◌∷◌, ◌++◌, Bytes, arith, length, u64,
}
use edgar_vpn.Sodium.{Sodium, SessionKeys}
use edgar_vpn.Crypto.{Role, initiator, responder, role_is, derive_session_keys, derive_public_key}
use edgar_vpn.Config.{Config, ConfigPeer}
use edgar_vpn.Session.State.{
  Session, has_type, msg_handshake_init, handshake_msg_len, start_handshake,
}
use edgar_vpn.Session.Handshake.{zero_session, session_init, handle_init}
use edgar_vpn.Peer.State.{PeerSession, Net, SockAddr, sent, sealed_buf_size}
use edgar_vpn.Peer.Outbound.{at_index, send_init, initiate_handshake}
use edgar_vpn.Peer.Inbound.{
  find_peer_by_addr, find_responder_for_init, handshaken, handle_unknown_init, handle_udp,
}
use edgar_vpn.Peer.Startup.{Moment, blank_peer, start_peer, start_peers, start_up}

-- The session that `session_init` makes, and the peer with it.
abbrev pub fresh_session : Sodium → Moment → Role → SessionKeys → Session
fresh_session lib now role keys =
    start_handshake lib now.first_seed
      (record zero_session { role = role; static_keys = keys; handshake_counter = u64 now.wall })

abbrev pub fresh_peer : Sodium → Moment → ConfigPeer → SessionKeys → PeerSession
fresh_peer lib now config keys = record (blank_peer config) {
  session = fresh_session lib now config.role keys;
  last_rx_activity_ms = now.first_ms;
}

module _ (lib : Sodium) (now : ℕ → Moment) (cfg : Config) (config : ConfigPeer) where
  module _ {keys : SessionKeys} (alone : cfg.peers ≡ config ∷ [])
      (derived : derive_session_keys lib config.role
          (derive_public_key lib cfg.private_key)
          cfg.private_key
          config.public_key
        ≡ some keys) where
    session_made :
        session_init lib
          (now 0).wall
          (now 0).first_seed
          config.role
          (derive_public_key lib cfg.private_key)
          cfg.private_key
          config.public_key
        ≡ (fresh_session lib (now 0) config.role keys, true)
    unfolding session_init
    session_made = rw (derived, session_init) refl

    -- Only its own peer is started.
    waiting_peer :
        config.role ≡ responder
        → start_peer lib cfg.private_key (derive_public_key lib cfg.private_key) (now 0) config
          ≡ some (fresh_peer lib (now 0) config keys, [])
    unfolding start_peer
    waiting_peer role =
        let waits : role_is config.role initiator ≡ false = ground arith in
        rw (start_peer, session_made, waits) refl

    -- A responder waits.
    pub responder_starts :
        config.role ≡ responder
        → start_up lib now cfg ≡ (some (fresh_peer lib (now 0) config keys ∷ []), [])
    unfolding start_up start_peers
    responder_starts role = rw (start_up, alone, start_peers, waiting_peer role) refl

    abbrev pub resolved_peer : SockAddr → PeerSession
    resolved_peer to = record (fresh_peer lib (now 0) config keys) {
      last_rx_activity_ms = (now 0).second_ms;
      addr = to;
      addr_resolved = true;
    }

    beginning_peer :
        {to : SockAddr}
        → config.role ≡ initiator
        → (now 0).net.resolve config.host config.port ≡ some to
        → start_peer lib cfg.private_key (derive_public_key lib cfg.private_key) (now 0) config
          ≡ some (
              send_init lib
                (now 0).net
                (now 0).second_seed
                sealed_buf_size
                (now 0).second_ms
                (resolved_peer to))
    unfolding start_peer initiate_handshake
    beginning_peer role found =
        let begins : role_is config.role initiator ≡ true = ground arith in
        rw (start_peer, session_made, begins, found, ap (λ o. o.0) session_made) refl

    -- An initiator resolves the address of its peer and sends the INIT.
    pub initiator_starts :
        {to : SockAddr}
        → config.role ≡ initiator
        → (now 0).net.resolve config.host config.port ≡ some to
        → let begun =
            send_init lib
              (now 0).net
              (now 0).second_seed
              sealed_buf_size
              (now 0).second_ms
              (resolved_peer to) in
          start_up lib now cfg ≡ (some (begun.0 ∷ []), begun.1 ++ [])
    unfolding start_up start_peers
    initiator_starts role found = rw (start_up, alone, start_peers, beginning_peer role found) refl

module _ (lib : Sodium) (net : Net) where
  found_first :
      (seed : ℕ → ℕ) (input : Bytes) (q : PeerSession) {s : Session} {reply : Bytes}
      → q.config.role ≡ responder
      → handle_init lib (seed 0) q.session input handshake_msg_len ≡ (s, some reply)
      → find_responder_for_init lib seed (q ∷ []) input
        ≡ (record q { session = s } ∷ [], some (0, reply))
  unfolding find_responder_for_init
  found_first seed input q role made =
      let answers : role_is q.config.role responder ≡ true = ground arith in
      rw (answers, find_responder_for_init, made, ap (λ o. o.0) made) refl

  -- A responder that no datagram came to before is found by the INIT, and learns its source.
  pub first_answer :
      (seed : ℕ → ℕ) (u : ℕ) (from : SockAddr) (input : Bytes) (cfg : Config) (q : PeerSession)
      {s : Session} {reply : Bytes}
      → length cfg.peers ≢ 0
      → q.addr_resolved ≡ false
      → q.config.role ≡ responder
      → has_type msg_handshake_init input ≡ true
      → handle_init lib (seed 0) q.session input handshake_msg_len ≡ (s, some reply)
      → net.sends reply from ≡ true
      → handle_udp lib net seed u from input cfg (q ∷ []) ≡ (
        handshaken u (record q { session = s; addr = from; addr_resolved = true }) ∷ [],
        sent reply from ∷ [],
      )
  unfolding handle_udp handle_unknown_init find_peer_by_addr at_index
  first_answer seed u from [] cfg q some_peer unknown role tagged made goes = absurd (ground arith)
  first_answer seed u from (c ∷ input) cfg q some_peer unknown role tagged made goes =
      let handled : handle_udp lib net seed u from (c ∷ input) cfg (q ∷ [])
          ≡ handle_unknown_init lib net seed u from (c ∷ input) (q ∷ []) =
        ground arith in
      let found = found_first seed (c ∷ input) q role made in
      handled ∙ rw (handle_unknown_init, found, goes, ap (λ o. o.0) found) refl
