-- ===== src/Peer/Connect/Steps.antt =====
-- The steps of a handshake between two daemons: the handlers of src/main.c at one peer.
use edgar_vpn.Prelude.{
  ℕ, suc, zero, ◌≡◌, ◌≢◌, refl, ap, ◌∙◌, sym, true, false, some, List, [], ◌∷◌, Bytes, arith,
  length, ◌==◌, get_elem?,
}
use edgar_vpn.Sodium.{Sodium}
use edgar_vpn.Crypto.{initiator, responder}
use edgar_vpn.Config.{Config}
use edgar_vpn.Session.State.{
  Session, has_type, msg_handshake_init, msg_handshake_response, handshake_msg_len, start_handshake,
}
use edgar_vpn.Session.Handshake.{build_init, handle_init, handle_response}
use edgar_vpn.Peer.State.{PeerSession, Net, SockAddr, Effect, sent, sealed_buf_size}
use edgar_vpn.Peer.Outbound.{at_index, emit, send_init, initiate_handshake}
use edgar_vpn.Peer.Outbound.Delivery.{at_index-get_elem?}
use edgar_vpn.Peer.Inbound.{find_peer_by_addr, handle_known, handle_udp}
use edgar_vpn.Peer.Tunnel.{find_peer_by_addr-at_index}

-- Two handlers that agree on the peer at an index do the same there.
at_index-agree :
    (f g : PeerSession → PeerSession × List Effect) (i : ℕ) (peers : List PeerSession)
    {p : PeerSession}
    → get_elem? peers i ≡ some p
    → f p ≡ g p
    → at_index f i peers ≡ at_index g i peers
unfolding at_index
at_index-agree f g i [] at agree = absurd (ground arith)
at_index-agree f g zero (q ∷ peers) {p} at agree =
    let same : q ≡ p = ground arith in
    let here : f q ≡ g q = ap f same ∙ agree ∙ sym (ap g same) in rw here refl
at_index-agree f g (suc i) (q ∷ peers) at agree = rw (at_index-agree f g i peers at agree) refl

tagged_is_full : (t : ℕ) (input : Bytes) → has_type t input ≡ true → (length input == 0) ≡ false
tagged_is_full t [] tagged = ground arith
tagged_is_full t (b ∷ rest) tagged = ground arith

handle_udp_attributed :
    (lib : Sodium) (net : Net) (seed : ℕ → ℕ) (u : ℕ) (from : SockAddr) (t : ℕ) (input : Bytes)
    (cfg : Config) (peers : List PeerSession) {j : ℕ}
    → length cfg.peers ≢ 0
    → has_type t input ≡ true
    → find_peer_by_addr peers from ≡ some j
    → handle_udp lib net seed u from input cfg peers
      ≡ at_index (handle_known lib net (seed j) u input) j peers
unfolding handle_udp
handle_udp_attributed lib net seed u from t input cfg peers some_peer tagged known =
    let full = tagged_is_full t input tagged in ground arith

module _ (lib : Sodium) (net : Net) where
  initiate_resolved :
      (seed now : ℕ) (p : PeerSession)
      → p.addr_resolved ≡ true
      → initiate_handshake lib net seed sealed_buf_size now p
        ≡ send_init lib net seed sealed_buf_size now p
  unfolding initiate_handshake
  initiate_resolved seed now p resolved = rw (resolved, initiate_handshake) refl

  pub send_init_sends :
      (seed now : ℕ) (p : PeerSession) {s : Session} {init : Bytes}
      → build_init lib (start_handshake lib seed p.session) sealed_buf_size ≡ (s, some init)
      → net.sends init p.addr ≡ true
      → ((send_init lib net seed sealed_buf_size now p).1 ≡ sent init p.addr ∷ [])
        × ((send_init lib net seed sealed_buf_size now p).0.session ≡ s)
        × ((send_init lib net seed sealed_buf_size now p).0.config ≡ p.config)
  unfolding send_init emit
  send_init_sends seed now p built goes =
      let message = ap (λ o. o.1) built in
      let left = ap (λ o. o.0) built in (ground arith, ground arith, refl)

  handle_known_init :
      (fresh u : ℕ) (input : Bytes) (q : PeerSession) {s : Session} {reply : Bytes}
      → q.config.role ≡ responder
      → has_type msg_handshake_init input ≡ true
      → handle_init lib fresh q.session input handshake_msg_len ≡ (s, some reply)
      → net.sends reply q.addr ≡ true
      → ((handle_known lib net fresh u input q).1 ≡ sent reply q.addr ∷ [])
        × ((handle_known lib net fresh u input q).0.session ≡ s)
  unfolding handle_known
  handle_known_init fresh u input q role tagged answers goes =
      let message = ap (λ o. o.1) answers in
      let left = ap (λ o. o.0) answers in (ground arith, ground arith)

  handle_known_response :
      (fresh v : ℕ) (input : Bytes) (p : PeerSession) {s : Session}
      → p.config.role ≡ initiator
      → has_type msg_handshake_response input ≡ true
      → handle_response lib p.session input ≡ (s, true)
      → (handle_known lib net fresh v input p).0.session ≡ s
  unfolding handle_known
  handle_known_response fresh v input p role tagged accepts =
      let accepted = ap (λ o. o.1) accepts in let left = ap (λ o. o.0) accepts in ground arith

  -- The three steps, each with the peer that it leaves at its index.
  pub initiator_begins :
      (seed now i : ℕ) (peers : List PeerSession) (from : SockAddr) (p : PeerSession) {s : Session}
      {init : Bytes}
      → get_elem? peers i ≡ some p
      → p.addr_resolved ≡ true
      → build_init lib (start_handshake lib seed p.session) sealed_buf_size ≡ (s, some init)
      → net.sends init p.addr ≡ true
      → let o = at_index (initiate_handshake lib net seed sealed_buf_size now) i peers in
        (p' : PeerSession) × (o.1 ≡ sent init p.addr ∷ [])
        × (get_elem? o.0 i ≡ some p')
        × (p'.session ≡ s)
        × (p'.config ≡ p.config)
        × (find_peer_by_addr o.0 from ≡ find_peer_by_addr peers from)
  unfolding send_init
  initiator_begins seed now i peers from p at resolved built goes =
      let f = initiate_handshake lib net seed sealed_buf_size now in
      let g = send_init lib net seed sealed_buf_size now in
      let begun = at_index-agree f g i peers at (initiate_resolved seed now p resolved) in
      let (out, session, config) = send_init_sends seed now p built goes in
      let there = at_index-get_elem? g i peers at in
      rw begun (
        (g p).0,
        there.0 ∙ out,
        there.1,
        session,
        config,
        find_peer_by_addr-at_index g i peers from (λ x. refl) (λ x. refl),
      )

  pub responder_answers :
      (seed : ℕ → ℕ) (u j : ℕ) (from : SockAddr) (input : Bytes) (cfg : Config)
      (peers : List PeerSession) (q : PeerSession) {s : Session} {reply : Bytes}
      → get_elem? peers j ≡ some q
      → find_peer_by_addr peers from ≡ some j
      → length cfg.peers ≢ 0
      → q.config.role ≡ responder
      → has_type msg_handshake_init input ≡ true
      → handle_init lib (seed j) q.session input handshake_msg_len ≡ (s, some reply)
      → net.sends reply q.addr ≡ true
      → let o = handle_udp lib net seed u from input cfg peers in
        (q' : PeerSession) × (o.1 ≡ sent reply q.addr ∷ [])
        × (get_elem? o.0 j ≡ some q')
        × (q'.session ≡ s)
  responder_answers seed u j from input cfg peers q at known some_peer role tagged answers goes =
      let f = handle_known lib net (seed j) u input in
      let handled =
        handle_udp_attributed lib net seed u from msg_handshake_init input cfg peers some_peer
          tagged known in
      let (out, session) = handle_known_init (seed j) u input q role tagged answers goes in
      let there = at_index-get_elem? f j peers at in
      rw handled ((f q).0, there.0 ∙ out, there.1, session)

  pub initiator_accepts :
      (seed : ℕ → ℕ) (v i : ℕ) (from : SockAddr) (input : Bytes) (cfg : Config)
      (peers : List PeerSession) (p : PeerSession) {s : Session}
      → get_elem? peers i ≡ some p
      → find_peer_by_addr peers from ≡ some i
      → length cfg.peers ≢ 0
      → p.config.role ≡ initiator
      → has_type msg_handshake_response input ≡ true
      → handle_response lib p.session input ≡ (s, true)
      → (p' : PeerSession) × (get_elem? (handle_udp lib net seed v from input cfg peers).0 i
          ≡ some p')
        × (p'.session ≡ s)
  initiator_accepts seed v i from input cfg peers p at known some_peer role tagged accepts =
      let f = handle_known lib net (seed i) v input in
      let handled =
        handle_udp_attributed lib net seed v from msg_handshake_response input cfg peers some_peer
          tagged known in
      rw handled (
        (f p).0,
        (at_index-get_elem? f i peers at).1,
        handle_known_response (seed i) v input p role tagged accepts,
      )
