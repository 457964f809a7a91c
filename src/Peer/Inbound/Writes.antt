-- ===== src/Peer/Inbound/Writes.antt =====
-- Where the packets come from that reach the TUN device.
use edgar_vpn.Prelude.{
  ℕ, ◌≡◌, ◌≢◌, ap, ◌∙◌, sym, inl, inr, true, ◌&&◌, some, List, [], ◌∷◌, Bytes, arith, drop, length,
  Option-cases, Bool-cases, get_elem?,
}
use edgar_vpn.Sodium.{Sodium}
use edgar_vpn.Crypto.{role_is, responder, initiator, crypto_open}
use edgar_vpn.Config.{Config}
use edgar_vpn.Session.State.{
  established, has_type, msg_handshake_init, msg_handshake_response, handshake_msg_len,
}
use edgar_vpn.Session.Replay.{check_and_mark}
use edgar_vpn.Session.Handshake.{handle_init}
use edgar_vpn.Session.Channel.{Opened}
use edgar_vpn.Session.Channel.Cases.{open_data_cases}
use edgar_vpn.Peer.State.{PeerSession, Net, SockAddr, max_packet_size, Effect, wrote, sent}
use edgar_vpn.Peer.Outbound.{at_index}
use edgar_vpn.Peer.Outbound.Delivery.{at_index-effect}
use edgar_vpn.Peer.Inbound.{
  find_peer_by_addr, find_responder_for_init, handle_unknown_init, handle_known, handle_udp,
  handshaken,
}

module _ (lib : Sodium) (net : Net) (input : Bytes) where
  at_index_no_write :
      (g : PeerSession → PeerSession) (reply : Bytes) (from : SockAddr) (i : ℕ)
      (peers : List PeerSession) {text : Bytes} {es : List Effect}
      → (at_index (λ ps. (g ps, sent reply from ∷ [])) i peers).1 ≢ wrote text ∷ es
  at_index_no_write g reply from i peers out =
      let (p, at, effect, left) =
        at_index-effect (λ ps. (g ps, sent reply from ∷ [])) i peers out in
      ground arith

  handle_known-wrote :
      (seed t : ℕ) (p : PeerSession) {text : Bytes} {es : List Effect}
      → (handle_known lib net seed t input p).1 ≡ wrote text ∷ es
      → (counter : ℕ) × (p.session.state ≡ established)
        × (crypto_open lib p.session.data_keys.rx (drop 1 input) max_packet_size
            ≡ some (text, counter))
        × ((check_and_mark p.session counter).1 ≡ true)
        × (length text ≢ 0)
        × (es ≡ [])
        × ((handle_known lib net seed t input p).0.session ≡ (check_and_mark p.session counter).0)
  unfolding handle_known
  handle_known-wrote seed t p {text} out =
      elim (Bool-cases (has_type msg_handshake_init input && role_is p.config.role responder)) [
        | inl asks ↦
            elim (Option-cases (handle_init lib seed p.session input handshake_msg_len).1) [
              | inl refused ↦ absurd (ground arith)
              | inr (reply, answered) ↦ absurd (ground arith)
            ]
        | inr other ↦
            elim (Bool-cases
              (has_type msg_handshake_response input && role_is p.config.role initiator)) [
                | inl answers ↦ absurd (ground arith)
                | inr last ↦ elim (open_data_cases lib p.session input max_packet_size) [
                  | inl closed ↦
                      let none_left = ap (λ (o : Opened). o.result) closed in absurd (ground arith)
                  | inr (plain, counter, up, opens, o) ↦
                      let result = ap (λ (o : Opened). o.result) o in
                      let written = ap (λ (o : Opened). o.written) o in
                      let session = ap (λ (o : Opened). o.session) o in
                      let kept : plain ≡ text = ground arith in
                      let fresh : (check_and_mark p.session counter).1 ≡ true = ground arith in
                      (
                        counter,
                        up,
                        opens ∙ ap (λ b. some (b, counter)) kept,
                        fresh,
                        ground arith,
                        ground arith,
                        ground arith,
                      )
                ]
              ]
      ]

  handle_unknown_init_writes_nothing :
      (seed : ℕ → ℕ) (t : ℕ) (from : SockAddr) (peers : List PeerSession) {text : Bytes}
      {es : List Effect}
      → (handle_unknown_init lib net seed t from input peers).1 ≢ wrote text ∷ es
  unfolding handle_unknown_init
  handle_unknown_init_writes_nothing seed t from peers {text} {es} out =
      elim (Option-cases (find_responder_for_init lib seed peers input).1) [
        | inl missing ↦ ground arith
        | inr ((i, reply), found) ↦ elim (Bool-cases (net.sends reply from)) [
          | inl goes ↦
              at_index_no_write
                (λ ps. handshaken t (record ps { addr = from; addr_resolved = true })) reply from i
                (find_responder_for_init lib seed peers input).0 {text = text} {es = es}
                (ground arith)
          | inr fails ↦ ground arith
        ]
      ]

-- A packet reaches the TUN device only out of a datagram from the known address of a peer, whose
-- session is established and with whose data key it opens to that packet, not empty, under a
-- counter that is fresh to the session; and the session keeps the mark of that counter. Nothing
-- else leaves the daemon for that datagram.
pub handle_udp-wrote :
    (lib : Sodium) (net : Net) (seed : ℕ → ℕ) (t : ℕ) (from : SockAddr) (input : Bytes)
    (cfg : Config) (peers : List PeerSession) {text : Bytes} {es : List Effect}
    → (handle_udp lib net seed t from input cfg peers).1 ≡ wrote text ∷ es
    → (i counter : ℕ) × (p p' : PeerSession) × (find_peer_by_addr peers from ≡ some i)
      × (get_elem? peers i ≡ some p)
      × (p.session.state ≡ established)
      × (crypto_open lib p.session.data_keys.rx (drop 1 input) max_packet_size
          ≡ some (text, counter))
      × ((check_and_mark p.session counter).1 ≡ true)
      × (length text ≢ 0)
      × (es ≡ [])
      × (get_elem? (handle_udp lib net seed t from input cfg peers).0 i ≡ some p')
      × (p'.session ≡ (check_and_mark p.session counter).0)
unfolding handle_udp
handle_udp-wrote lib net seed t from input cfg peers {text} {es} out =
    elim (Option-cases (find_peer_by_addr peers from)) [
      | inl unknown ↦
          let quiet =
            handle_unknown_init_writes_nothing lib net input seed t from peers {text = text}
              {es = es} in
          absurd (ground arith)
      | inr (i, known) ↦
          let handled : handle_udp lib net seed t from input cfg peers
              ≡ at_index (handle_known lib net (seed i) t input) i peers =
            ground arith in
          let (p, at, effect, left) =
            at_index-effect (handle_known lib net (seed i) t input) i peers
              (sym (ap (λ o. o.1) handled) ∙ out) in
          let (counter, up, opens, fresh, full, only, mark) =
            handle_known-wrote lib net input (seed i) t p effect in
          (
            i,
            counter,
            p,
            (handle_known lib net (seed i) t input p).0,
            known,
            at,
            up,
            opens,
            fresh,
            full,
            only,
            ap (λ o. get_elem? o.0 i) handled ∙ left,
            mark,
          )
    ]
