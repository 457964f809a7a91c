-- ===== src/Peer/Connect.antt =====
-- From an initiator's attempt to two established sessions: the handlers of src/main.c in two
-- daemons.
mod Steps
mod Begin
pub mod Fresh
use edgar_vpn.Prelude.{
  ℕ, suc, zero, ◌^◌, ◌≤◌, ◌<◌, ◌≡◌, ◌≢◌, refl, ap, ◌∙◌, sym, true, false, some, List, [], ◌∷◌,
  Bytes, arith, length, ◌==◌, get_elem?,
}
use mathlib.Core.Path.{subst}
use edgar_vpn.Sodium.{Sodium, Laws, SessionKeys}
use edgar_vpn.Crypto.{initiator, responder, generate_keypair}
use edgar_vpn.Config.{Config}
use edgar_vpn.Session.State.{
  Session, established, has_type, msg_handshake_init, msg_handshake_response, handshake_msg_len,
  start_handshake,
}
use edgar_vpn.Session.Handshake.{build_init, handle_init, handle_response}
use edgar_vpn.Session.Handshake.Agreement.{
  HasKeyPair, KeysMatch, Unseen, refreshed, handshake_completes,
}
use edgar_vpn.Session.Handshake.Acceptance.{handle_init-InitAccepted}
use edgar_vpn.Peer.State.{PeerSession, Net, SockAddr, Effect, sent, sealed_buf_size}
use edgar_vpn.Peer.Outbound.{at_index, emit, send_init, initiate_handshake}
use edgar_vpn.Peer.Outbound.Delivery.{at_index-get_elem?}
use edgar_vpn.Peer.Inbound.{find_peer_by_addr, handle_known, handle_udp}
use edgar_vpn.Peer.Tunnel.{find_peer_by_addr-at_index}
use edgar_vpn.Peer.Connect.Steps.{initiator_begins, responder_answers, initiator_accepts}

-- Three steps connect two daemons. Where an initiator with a resolved address begins a handshake
-- with a peer whose configured keys match, and each daemon knows the other's source address: the
-- INIT that it sends is answered to its own address, and once the answer has arrived both sessions
-- are established, and each sends with the data key that the other receives with. The responder
-- has not seen the counter, the system sends the two messages, and the key exchange of the two
-- generated pairs succeeds.
pub peers_connect :
    (lib : Sodium) (laws : Laws lib) (here there : Net) (seed_here seed_there : ℕ → ℕ)
    (si sr t u v : ℕ) (from_here from_there : SockAddr) (cfg_here cfg_there : Config)
    (peers_here peers_there : List PeerSession) (p q : PeerSession) (keys : SessionKeys) {i j : ℕ}
    → get_elem? peers_here i ≡ some p
    → get_elem? peers_there j ≡ some q
    → find_peer_by_addr peers_here from_there ≡ some i
    → find_peer_by_addr peers_there from_here ≡ some j
    → length cfg_here.peers ≢ 0
    → length cfg_there.peers ≢ 0
    → p.addr_resolved ≡ true
    → p.config.role ≡ initiator
    → q.config.role ≡ responder
    → p.session.role ≡ initiator
    → q.session.role ≡ responder
    → HasKeyPair lib (refreshed lib (seed_there j) q.session) sr
    → KeysMatch p.session.static_keys q.session.static_keys
    → p.session.handshake_counter < 2 ^ 64
    → Unseen q.session p.session.handshake_counter
    → lib.kx_client_session_keys (lib.kx_keypair si).0 (lib.kx_keypair si).1 (lib.kx_keypair sr).0
      ≡ some keys
    → ((message : Bytes) → here.sends message p.addr ≡ true)
    → ((message : Bytes) → there.sends message q.addr ≡ true)
    → (init reply : Bytes) × (p' q' : PeerSession) × ((at_index
          (initiate_handshake lib here si sealed_buf_size t)
          i
          peers_here).1
        ≡ sent init p.addr ∷ [])
      × ((handle_udp lib there seed_there u from_here init cfg_there peers_there).1
          ≡ sent reply q.addr ∷ [])
      × (get_elem? (handle_udp lib there seed_there u from_here init cfg_there peers_there).0 j
          ≡ some q')
      × (get_elem?
            (handle_udp lib here seed_here v from_there reply cfg_here
              (at_index (initiate_handshake lib here si sealed_buf_size t) i peers_here).0).0
            i
          ≡ some p')
      × (p'.session.state ≡ established)
      × (q'.session.state ≡ established)
      × KeysMatch p'.session.data_keys q'.session.data_keys
unfolding start_handshake generate_keypair
peers_connect lib laws here there seed_here seed_there si sr t u v from_here from_there cfg_here
      cfg_there peers_here peers_there p q keys {i} {j} at_p at_q knows_there knows_here some_here
      some_there resolved p_role q_role p_begins q_answers pair match small unseen agreed here_sends
      there_sends =
    let (init, reply, built, answers, accepts) =
      handshake_completes lib laws (start_handshake lib si p.session) q.session si sr (seed_there j)
        sealed_buf_size handshake_msg_len keys p_begins refl (refl, refl) q_answers pair match small
        unseen agreed (omega arith) (omega arith) in
    let a = handle_init-InitAccepted lib (seed_there j) q.session init handshake_msg_len answers in
    let waiting = (at_index (initiate_handshake lib here si sealed_buf_size t) i peers_here).0 in
    let (p1, first, at_p1, session, config, same) =
      initiator_begins lib here si t i peers_here from_there p at_p resolved built
        (here_sends init) in
    let (q', second, at_q', q_left) =
      responder_answers lib there seed_there u j from_here init cfg_there peers_there q at_q
        knows_here some_there q_role a.tagged answers (there_sends reply) in
    let (p', at_p', p_left) =
      initiator_accepts lib here seed_here v i from_there reply cfg_here waiting p1 at_p1
        (same ∙ knows_there) some_here (ap (λ c. c.role) config ∙ p_role)
        (ap (has_type msg_handshake_response) a.reply_packet)
        (ap (λ s. handle_response lib s reply) session ∙ accepts) in
    (
      init,
      reply,
      p',
      q',
      first,
      second,
      at_q',
      at_p',
      ap (λ s. s.state) p_left,
      ap (λ s. s.state) q_left,
      (
        ap (λ s. s.data_keys.tx) p_left ∙ sym (ap (λ s. s.data_keys.rx) q_left),
        ap (λ s. s.data_keys.rx) p_left ∙ sym (ap (λ s. s.data_keys.tx) q_left),
      ),
    )
