-- ===== src/Peer/Connect/Fresh.antt =====
-- Two daemons that were only just started.
use edgar_vpn.Prelude.{
  ℕ, ◌≡◌, ◌≢◌, refl, ap, ◌∙◌, inl, true, some, [], ◌∷◌, ◌++◌, Bytes, arith, length, get_elem?,
}
use edgar_vpn.Sodium.{Sodium, Laws, DerivesLaw, SessionKeys}
use edgar_vpn.Crypto.{
  Role, initiator, responder, derive_session_keys, derive_public_key, generate_keypair,
}
use edgar_vpn.Config.{Config, ConfigPeer}
use edgar_vpn.Session.State.{
  established, has_type, msg_handshake_response, handshake_msg_len, start_handshake,
}
use edgar_vpn.Session.Handshake.{handle_response}
use edgar_vpn.Session.Handshake.Agreement.{KeysMatch, handshake_completes}
use edgar_vpn.Session.Handshake.Acceptance.{handle_init-InitAccepted}
use edgar_vpn.Peer.State.{PeerSession, Net, SockAddr, sent, sealed_buf_size}
use edgar_vpn.Peer.Outbound.{send_init}
use edgar_vpn.Peer.Inbound.{find_peer_by_addr, handle_udp}
use edgar_vpn.Peer.Startup.{Moment, start_up}
use edgar_vpn.Peer.Connect.Begin.{
  fresh_peer, resolved_peer, responder_starts, initiator_starts, first_answer,
}
use edgar_vpn.Peer.Connect.Steps.{send_init_sends, initiator_accepts}

-- A configuration with this one peer, and the generated keys of the two sides.
pub record Knows (lib : Sodium) (cfg : Config) (config : ConfigPeer) (role : Role) (own other : ℕ)
    : Type 0 where
  pub alone : cfg.peers ≡ config ∷ []
  pub role_is : config.role ≡ role
  pub secret : cfg.private_key ≡ (lib.kx_keypair own).1
  pub public : config.public_key ≡ (lib.kx_keypair other).0

module _ (lib : Sodium) (base : DerivesLaw lib) {cfg : Config} {config : ConfigPeer}
    {own other : ℕ} where
  client_derives :
      {keys : SessionKeys}
      → Knows lib cfg config initiator own other
      → lib.kx_client_session_keys
          (lib.kx_keypair own).0
          (lib.kx_keypair own).1
          (lib.kx_keypair other).0
        ≡ some keys
      → derive_session_keys lib config.role
          (derive_public_key lib cfg.private_key)
          cfg.private_key
          config.public_key
        ≡ some keys
  unfolding derive_session_keys derive_public_key
  client_derives k agreed =
      rw (k.role_is, k.secret, k.public, base.scalarmult_base-kx_keypair own) agreed

  server_derives :
      {keys : SessionKeys}
      → Knows lib cfg config responder own other
      → lib.kx_server_session_keys
          (lib.kx_keypair own).0
          (lib.kx_keypair own).1
          (lib.kx_keypair other).0
        ≡ some keys
      → derive_session_keys lib config.role
          (derive_public_key lib cfg.private_key)
          cfg.private_key
          config.public_key
        ≡ some keys
  unfolding derive_session_keys derive_public_key
  server_derives k agreed =
      rw (k.role_is, k.secret, k.public, base.scalarmult_base-kx_keypair own) agreed

linked :
    (lib : Sodium) (cfg : Config) (config : ConfigPeer)
    → cfg.peers ≡ config ∷ []
    → length cfg.peers ≢ 0
linked lib cfg config alone = rw alone (omega arith)

known_by : (p : PeerSession) → p.addr_resolved ≡ true → find_peer_by_addr (p ∷ []) p.addr ≡ some 0
unfolding find_peer_by_addr
known_by p resolved = ground arith

-- Two daemons that know only each other, one as initiator and one as responder, with the keys of
-- two generated pairs, are connected by two messages from their start on. The start-up of the first
-- sends an INIT to the address that the name of its peer resolves to; the second, which has no
-- address of its peer, answers the INIT to where it came from and knows its peer by that address
-- from then on; and once the answer has arrived both sessions are established, and each sends with
-- the data key that the other receives with. The key exchanges of the static and of the ephemeral
-- pairs succeed, and so do the system's calls to resolve the name and to send.
pub fresh_daemons_connect :
    (lib : Sodium) (laws : Laws lib) (base : DerivesLaw lib) (now_a now_b : ℕ → Moment)
    (cfg_a cfg_b : Config) (a b : ConfigPeer) (ka kb : ℕ) (static keys : SessionKeys)
    (net_a net_b : Net) (seed_a seed_b : ℕ → ℕ) (u v : ℕ) (to from_a : SockAddr)
    → Knows lib cfg_a a initiator ka kb
    → Knows lib cfg_b b responder kb ka
    → lib.kx_client_session_keys (lib.kx_keypair ka).0 (lib.kx_keypair ka).1 (lib.kx_keypair kb).0
      ≡ some static
    → lib.kx_client_session_keys
        (lib.kx_keypair (now_a 0).second_seed).0
        (lib.kx_keypair (now_a 0).second_seed).1
        (lib.kx_keypair (now_b 0).first_seed).0
      ≡ some keys
    → (now_a 0).net.resolve a.host a.port ≡ some to
    → ((message : Bytes) → (now_a 0).net.sends message to ≡ true)
    → ((message : Bytes) → net_b.sends message from_a ≡ true)
    → (init reply : Bytes) × (p q p' q' : PeerSession) × (start_up lib now_a cfg_a
        ≡ (some (p ∷ []), sent init to ∷ []))
      × (start_up lib now_b cfg_b ≡ (some (q ∷ []), []))
      × (handle_udp lib net_b seed_b u from_a init cfg_b (q ∷ [])
          ≡ (q' ∷ [], sent reply from_a ∷ []))
      × (get_elem? (handle_udp lib net_a seed_a v to reply cfg_a (p ∷ [])).0 0 ≡ some p')
      × (p'.session.state ≡ established)
      × (q'.session.state ≡ established)
      × KeysMatch p'.session.data_keys q'.session.data_keys
      × (find_peer_by_addr (q' ∷ []) from_a ≡ some 0)
unfolding start_handshake generate_keypair send_init
fresh_daemons_connect lib laws base now_a now_b cfg_a cfg_b a b ka kb static keys net_a net_b seed_a
      seed_b u v to from_a knows_b knows_a exchange agreed resolved a_sends b_sends =
    let crossed : SessionKeys = record { rx = static.tx; tx = static.rx } in
    let derived_a = client_derives lib base knows_b exchange in
    let derived_b = server_derives lib base knows_a (laws.kx_agree ka kb static exchange) in
    let waiting = resolved_peer lib now_a cfg_a a {keys = static} knows_b.alone derived_a to in
    let p =
      (send_init lib (now_a 0).net (now_a 0).second_seed sealed_buf_size (now_a 0).second_ms
        waiting).0 in
    let q = fresh_peer lib (now_b 0) b crossed in
    let (init, reply, built, answers, accepts) =
      handshake_completes lib laws (start_handshake lib (now_a 0).second_seed waiting.session)
        q.session (now_a 0).second_seed (now_b 0).first_seed (seed_b 0) sealed_buf_size
        handshake_msg_len keys knows_b.role_is refl (refl, refl) knows_a.role_is (refl, refl)
        (refl, refl) (omega arith) (inl refl) agreed (omega arith) (omega arith) in
    let (out, session, config) =
      send_init_sends lib (now_a 0).net (now_a 0).second_seed (now_a 0).second_ms waiting built
        (a_sends init) in
    let started_a =
      initiator_starts lib now_a cfg_a a {keys = static} knows_b.alone derived_a knows_b.role_is
        resolved in
    let accepted =
      handle_init-InitAccepted lib (seed_b 0) q.session init handshake_msg_len answers in
    let answered_b =
      first_answer lib net_b seed_b u from_a init cfg_b q (linked lib cfg_b b knows_a.alone) refl
        knows_a.role_is accepted.tagged answers (b_sends reply) in
    let (p', at_p', p_left) =
      initiator_accepts lib net_a seed_a v 0 to reply cfg_a (p ∷ []) p refl (known_by p refl)
        (linked lib cfg_a a knows_b.alone) knows_b.role_is
        (ap (has_type msg_handshake_response) accepted.reply_packet)
        (ap (λ s. handle_response lib s reply) session ∙ accepts) in
    (
      init,
      reply,
      p,
      q,
      p',
      _,
      started_a ∙ ap (λ es. (some (p ∷ []), es ++ [])) out,
      responder_starts lib now_b cfg_b b {keys = crossed} knows_a.alone derived_b knows_a.role_is,
      answered_b,
      at_p',
      ap (λ s. s.state) p_left,
      refl,
      (ap (λ s. s.data_keys.tx) p_left, ap (λ s. s.data_keys.rx) p_left),
      known_by _ refl,
    )
