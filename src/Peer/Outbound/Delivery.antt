-- ===== src/Peer/Outbound/Delivery.antt =====
-- What leaves the daemon for a packet that was read from the TUN device.
use edgar_vpn.Prelude.{
  ℕ, suc, zero, ◌+◌, ◌-◌, ◌≡◌, refl, ap, ◌∙◌, sym, inl, inr, false, some, List, [], ◌∷◌, Bytes,
  arith, length, Option-cases, ◌==◌, get_elem?, u64,
}
use edgar_vpn.Sodium.{Sodium}
use edgar_vpn.Crypto.{seal}
use edgar_vpn.Config.{Config, ConfigPeer}
use edgar_vpn.Routing.{parse_ipv4_dest, find_from, find_peer_for_dest}
use edgar_vpn.Session.State.{established, msg_data}
use edgar_vpn.Session.Channel.{seal_data}
use edgar_vpn.Session.Channel.Cases.{seal_data-eq-some}
use edgar_vpn.Peer.State.{PeerSession, Net, Effect, sent, sealed_buf_size}
use edgar_vpn.Peer.Outbound.{at_index, send_packet, handle_tun}

-- What a handler lets out at an index comes from the peer there, which it leaves as it does.
pub at_index-effect :
    (f : PeerSession → PeerSession × List Effect) (i : ℕ) (peers : List PeerSession) {e : Effect}
    {es : List Effect}
    → (at_index f i peers).1 ≡ e ∷ es
    → (p : PeerSession) × (get_elem? peers i ≡ some p)
      × ((f p).1 ≡ e ∷ es)
      × (get_elem? (at_index f i peers).0 i ≡ some (f p).0)
unfolding at_index
at_index-effect f i [] out = absurd (ground arith)
at_index-effect f zero (p ∷ peers) out = (p, refl, out, refl)
at_index-effect f (suc i) (p ∷ peers) out = at_index-effect f i peers out

-- The handler of the peer at an index decides what comes of it.
pub at_index-get_elem? :
    (f : PeerSession → PeerSession × List Effect) (i : ℕ) (peers : List PeerSession)
    {p : PeerSession}
    → get_elem? peers i ≡ some p
    → ((at_index f i peers).1 ≡ (f p).1) × (get_elem? (at_index f i peers).0 i ≡ some (f p).0)
unfolding at_index
at_index-get_elem? f i [] at = absurd (ground arith)
at_index-get_elem? f zero (q ∷ peers) {p} at =
    let same : q ≡ p = ground arith in (ap (λ x. (f x).1) same, ap (λ x. some (f x).0) same)
at_index-get_elem? f (suc i) (q ∷ peers) at = at_index-get_elem? f i peers at

-- A route is found only among peers.
routed_peers :
    (i : ℕ) (peers : List ConfigPeer) (dest : ℕ) {k : ℕ}
    → find_from i peers dest ≡ some k
    → (length peers == 0) ≡ false
unfolding find_from
routed_peers i [] dest found = absurd (ground arith)
routed_peers i (p ∷ peers) dest found = ground arith

-- A packet with a route is for the peer at that index.
pub handle_tun_routed :
    (lib : Sodium) (net : Net) (t : ℕ) (packet : Bytes) (cfg : Config) (peers : List PeerSession)
    {dest i : ℕ}
    → parse_ipv4_dest packet ≡ some dest
    → find_peer_for_dest cfg dest ≡ some i
    → handle_tun lib net t packet cfg peers ≡ at_index (send_packet lib net t packet) i peers
unfolding handle_tun find_peer_for_dest
handle_tun_routed lib net t packet cfg peers {dest} parsed found =
    rw (routed_peers 0 cfg.peers dest found, parsed, found) refl

module _ (lib : Sodium) (net : Net) (t : ℕ) (packet : Bytes) where
  send_packet-sent :
      (p : PeerSession) {e : Effect} {es : List Effect}
      → (send_packet lib net t packet p).1 ≡ e ∷ es
      → (sealed : Bytes) × (p.session.state ≡ established)
        × (seal lib p.session.data_keys.tx p.session.tx_counter packet (sealed_buf_size - 1)
            ≡ some sealed)
        × (e ≡ sent (msg_data ∷ sealed) p.addr)
        × (es ≡ [])
        × ((send_packet lib net t packet p).0.session
            ≡ record p.session { tx_counter = u64 (p.session.tx_counter + 1) })
  unfolding send_packet
  send_packet-sent p out = elim (Option-cases (seal_data lib p.session packet sealed_buf_size).1) [
    | inl refused ↦ absurd (ground arith)
    | inr (message, made) ↦
        let (sealed, up, by, shape, after) =
          seal_data-eq-some lib p.session packet sealed_buf_size made in
        (sealed, up, by, ground arith, ground arith, ground arith)
  ]

  -- For a packet from the TUN device nothing leaves but one DATA message: to the first peer whose
  -- AllowedIPs cover the destination, whose session is established, sealed under the session's key
  -- and counter, which the session then moves past.
  pub handle_tun-sent :
      (cfg : Config) (peers : List PeerSession) {e : Effect} {es : List Effect}
      → (handle_tun lib net t packet cfg peers).1 ≡ e ∷ es
      → (dest i : ℕ) × (p p' : PeerSession) × (sealed : Bytes) × (parse_ipv4_dest packet
          ≡ some dest)
        × (find_peer_for_dest cfg dest ≡ some i)
        × (get_elem? peers i ≡ some p)
        × (p.session.state ≡ established)
        × (seal lib p.session.data_keys.tx p.session.tx_counter packet (sealed_buf_size - 1)
            ≡ some sealed)
        × (e ≡ sent (msg_data ∷ sealed) p.addr)
        × (es ≡ [])
        × (get_elem? (handle_tun lib net t packet cfg peers).0 i ≡ some p')
        × (p'.session ≡ record p.session { tx_counter = u64 (p.session.tx_counter + 1) })
  unfolding handle_tun
  handle_tun-sent cfg peers out = elim (Option-cases (parse_ipv4_dest packet)) [
    | inl foreign ↦ absurd (ground arith)
    | inr (dest, parsed) ↦ elim (Option-cases (find_peer_for_dest cfg dest)) [
      | inl unrouted ↦ absurd (ground arith)
      | inr (i, found) ↦
          let handled = handle_tun_routed lib net t packet cfg peers parsed found in
          let (p, at, effect, left) =
            at_index-effect (send_packet lib net t packet) i peers
              (sym (ap (λ o. o.1) handled) ∙ out) in
          let (sealed, up, by, shape, only, after) = send_packet-sent p effect in
          (
            dest,
            i,
            p,
            (send_packet lib net t packet p).0,
            sealed,
            parsed,
            found,
            at,
            up,
            by,
            shape,
            only,
            ap (λ o. get_elem? o.0 i) handled ∙ left,
            after,
          )
    ]
  ]
