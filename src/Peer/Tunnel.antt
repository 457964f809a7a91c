-- ===== src/Peer/Tunnel.antt =====
-- From the TUN device of one daemon to that of another: the handlers of src/main.c on both sides.
use edgar_vpn.Prelude.{
  ℕ, suc, zero, ◌^◌, ◌≤◌, ◌<◌, ◌≡◌, ◌≢◌, refl, ap, ◌∙◌, sym, inl, inr, true, false, none, some,
  List, [], ◌∷◌, Bytes, arith, length, Option-cases, ◌==◌, get_elem?,
}
use edgar_vpn.Sodium.{Sodium, Laws}
use edgar_vpn.Config.{Config}
use edgar_vpn.Routing.{parse_ipv4_dest, find_peer_for_dest}
use edgar_vpn.Session.State.{Session, established, msg_data}
use edgar_vpn.Session.Replay.Refines.{Represents, is_fresh}
use edgar_vpn.Session.Channel.{Opened, seal_data, open_data}
use edgar_vpn.Session.Channel.Cases.{seal_data-eq-some}
use edgar_vpn.Session.Channel.Delivery.{delivered_once}
use edgar_vpn.Peer.State.{
  PeerSession, Net, SockAddr, Effect, sent, wrote, sealed_buf_size, max_packet_size,
}
use edgar_vpn.Peer.Outbound.{at_index, send_packet, handle_tun}
use edgar_vpn.Peer.Outbound.Delivery.{at_index-get_elem?, handle_tun_routed}
use edgar_vpn.Peer.Inbound.{find_peer_by_addr, handle_known, handle_udp}

-- A packet that has a destination is not empty.
parsed_packet :
    (packet : Bytes) {dest : ℕ} → parse_ipv4_dest packet ≡ some dest → (length packet == 0) ≡ false
unfolding parse_ipv4_dest
parsed_packet packet e = ground arith

-- A sealed packet goes out to an established peer.
send_packet_sends :
    (lib : Sodium) (net : Net) (t : ℕ) (packet : Bytes) (p : PeerSession) {s : Session}
    {message : Bytes}
    → p.session.state ≡ established
    → seal_data lib p.session packet sealed_buf_size ≡ (s, some message)
    → net.sends message p.addr ≡ true
    → (send_packet lib net t packet p).1 ≡ sent message p.addr ∷ []
unfolding send_packet
send_packet_sends lib net t packet p up made goes =
    let message_made = ap (λ o. o.1) made in ground arith

-- What a DATA message does at the peer that it comes from.
handle_known_data :
    (lib : Sodium) (net : Net) (seed t : ℕ) (rest : Bytes) (q : PeerSession)
    → ((handle_known lib net seed t (msg_data ∷ rest) q).0.session
        ≡ (open_data lib q.session (msg_data ∷ rest) max_packet_size).session)
      × ((handle_known lib net seed t (msg_data ∷ rest) q).0.addr ≡ q.addr)
      × ((handle_known lib net seed t (msg_data ∷ rest) q).0.addr_resolved ≡ q.addr_resolved)
unfolding handle_known
handle_known_data lib net seed t rest q =
    elim (Option-cases (open_data lib q.session (msg_data ∷ rest) max_packet_size).result) [
      | inl refused ↦ (ground arith, ground arith, ground arith)
      | inr (n, opened) ↦ (ground arith, ground arith, ground arith)
    ]

handle_known_opened :
    (lib : Sodium) (net : Net) (seed t : ℕ) (rest text : Bytes) (q : PeerSession) {s : Session}
    → open_data lib q.session (msg_data ∷ rest) max_packet_size
      ≡ record { session = s; written = some text; result = some (length text) }
    → (length text == 0) ≡ false
    → net.writes text ≡ true
    → (handle_known lib net seed t (msg_data ∷ rest) q).1 ≡ wrote text ∷ []
unfolding handle_known
handle_known_opened lib net seed t rest text q o full goes =
    let result = ap (λ (o : Opened). o.result) o in
    let written = ap (λ (o : Opened). o.written) o in ground arith

handle_known_refused :
    (lib : Sodium) (net : Net) (seed t : ℕ) (rest : Bytes) (q : PeerSession)
    → (open_data lib q.session (msg_data ∷ rest) max_packet_size).result ≡ none
    → (handle_known lib net seed t (msg_data ∷ rest) q).1 ≡ []
unfolding handle_known
handle_known_refused lib net seed t rest q refused = ground arith

-- The datagram of a known peer is handled there.
handle_udp_known :
    (lib : Sodium) (net : Net) (seed : ℕ → ℕ) (t : ℕ) (from : SockAddr) (b : ℕ) (rest : Bytes)
    (cfg : Config) (peers : List PeerSession) {j : ℕ}
    → length cfg.peers ≢ 0
    → find_peer_by_addr peers from ≡ some j
    → handle_udp lib net seed t from (b ∷ rest) cfg peers
      ≡ at_index (handle_known lib net (seed j) t (b ∷ rest)) j peers
unfolding handle_udp
handle_udp_known lib net seed t from b rest cfg peers some_peer known = ground arith

-- A handler that leaves its peer's address alone leaves the search for addresses alone.
pub find_peer_by_addr-at_index :
    (f : PeerSession → PeerSession × List Effect) (j : ℕ) (peers : List PeerSession)
    (from : SockAddr)
    → ((q : PeerSession) → (f q).0.addr ≡ q.addr)
    → ((q : PeerSession) → (f q).0.addr_resolved ≡ q.addr_resolved)
    → find_peer_by_addr (at_index f j peers).0 from ≡ find_peer_by_addr peers from
unfolding find_peer_by_addr at_index
find_peer_by_addr-at_index f j [] from addr known = refl
find_peer_by_addr-at_index f zero (p ∷ peers) from addr known = rw (addr p, known p) refl
find_peer_by_addr-at_index f (suc j) (p ∷ peers) from addr known =
    rw (find_peer_by_addr-at_index f j peers from addr known) refl

-- A packet that one daemon reads from its TUN device, with a route to an established peer, is sent
-- in one datagram; and the other daemon, where that datagram comes from the address of a peer whose
-- session is established with the key that the first sends with, and has not accepted the counter,
-- writes just that packet to its own TUN device. The datagram does nothing visible when it arrives
-- again. The packet fits the read buffer, and the system's calls succeed.
pub tunnel_delivers :
    (lib : Sodium) (laws : Laws lib) (here there : Net) (seed : ℕ → ℕ) (t u v : ℕ) (from : SockAddr)
    (cfg_here cfg_there : Config) (peers_here peers_there : List PeerSession) (packet : Bytes)
    (seen : List ℕ) (p q : PeerSession) {dest i j : ℕ}
    → parse_ipv4_dest packet ≡ some dest
    → find_peer_for_dest cfg_here dest ≡ some i
    → get_elem? peers_here i ≡ some p
    → p.session.state ≡ established
    → length cfg_there.peers ≢ 0
    → find_peer_by_addr peers_there from ≡ some j
    → get_elem? peers_there j ≡ some q
    → q.session.state ≡ established
    → p.session.data_keys.tx ≡ q.session.data_keys.rx
    → p.session.tx_counter < 2 ^ 64
    → length packet ≤ max_packet_size
    → Represents q.session seen
    → is_fresh seen p.session.tx_counter ≡ true
    → ((message : Bytes) → here.sends message p.addr ≡ true)
    → there.writes packet ≡ true
    → (message : Bytes) × (peers_after : List PeerSession) × ((handle_tun lib here t packet cfg_here
          peers_here).1
        ≡ sent message p.addr ∷ [])
      × (handle_udp lib there seed u from message cfg_there peers_there
          ≡ (peers_after, wrote packet ∷ []))
      × ((handle_udp lib there seed v from message cfg_there peers_after).1 ≡ [])
tunnel_delivers lib laws here there seed t u v from cfg_here cfg_there peers_here peers_there packet
      seen p q {dest} {i} {j} parsed routed at_p up_p some_peer known at_q up_q key small fits
      stands fresh sends writes =
    let (m, s, made, opened, still, again) =
      delivered_once lib laws p.session q.session packet sealed_buf_size max_packet_size seen up_p
        up_q key small (omega arith) fits stands fresh in
    let (sealed, up, by, shape, after) =
      seal_data-eq-some lib p.session packet sealed_buf_size (ap (λ o. o.1) made) in
    let goes = send_packet_sends lib here t packet p up_p made (sends m) in
    let out = at_index-get_elem? (send_packet lib here t packet) i peers_here at_p in
    let handled = handle_tun_routed lib here t packet cfg_here peers_here parsed routed in
    let arrives = ap (λ x. open_data lib q.session x max_packet_size) (sym shape) ∙ opened in
    let left =
      at_index-get_elem? (handle_known lib there (seed j) u (msg_data ∷ sealed)) j peers_there
        at_q in
    let first =
      handle_udp_known lib there seed u from msg_data sealed cfg_there peers_there some_peer
        known in
    let writes_it =
      handle_known_opened lib there (seed j) u sealed packet q arrives (parsed_packet packet parsed)
        writes in
    let after_first : List PeerSession =
      (at_index (handle_known lib there (seed j) u (msg_data ∷ sealed)) j peers_there).0 in
    let q' : PeerSession = (handle_known lib there (seed j) u (msg_data ∷ sealed) q).0 in
    let kept =
      (handle_known_data lib there (seed j) u sealed q).0
      ∙ ap (λ (o : Opened). o.session) arrives in
    let known' =
      find_peer_by_addr-at_index (handle_known lib there (seed j) u (msg_data ∷ sealed)) j
        peers_there from (λ r. (handle_known_data lib there (seed j) u sealed r).1)
        (λ r. (handle_known_data lib there (seed j) u sealed r).2)
      ∙ known in
    let second =
      handle_udp_known lib there seed v from msg_data sealed cfg_there after_first some_peer
        known' in
    let left' =
      at_index-get_elem? (handle_known lib there (seed j) v (msg_data ∷ sealed)) j after_first
        left.1 in
    let refused : (open_data lib q'.session (msg_data ∷ sealed) max_packet_size).result ≡ none =
      ap (λ σ. (open_data lib σ (msg_data ∷ sealed) max_packet_size).result) kept
      ∙ ap (λ x. (open_data lib s x max_packet_size).result) (sym shape)
      ∙ ap (λ (o : Opened). o.result) again in
    (
      msg_data ∷ sealed,
      after_first,
      ap (λ o. o.1) handled ∙ out.0 ∙ goes ∙ ap (λ x. sent x p.addr ∷ []) shape,
      first ∙ ap (λ e. (after_first, e)) (left.0 ∙ writes_it),
      ap (λ o. o.1) second ∙ left'.0 ∙ handle_known_refused lib there (seed j) v sealed q' refused,
    )
