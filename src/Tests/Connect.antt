-- ===== src/Tests/Connect.antt =====
-- Two daemons whose peers come to an established session.
use edgar_vpn.Prelude.{◌≡◌, refl, inl, some, [], ◌∷◌, Bytes, arith, get_elem?}
use edgar_vpn.Crypto.{initiator, responder}
use edgar_vpn.Session.State.{established}
use edgar_vpn.Session.Handshake.Agreement.{KeysMatch}
use edgar_vpn.Peer.State.{PeerSession, sent, sealed_buf_size}
use edgar_vpn.Peer.Outbound.{at_index, initiate_handshake}
use edgar_vpn.Peer.Inbound.{find_peer_by_addr, handle_udp}
use edgar_vpn.Peer.Connect.{peers_connect}
use edgar_vpn.Tests.Toy.{toy, toy-Laws}
use edgar_vpn.Tests.Session.{alice, bob, agreed}
use edgar_vpn.Tests.Routing.{two_peers, peer, ten_eight}
use edgar_vpn.Tests.Peer.{with_session, home, fine}

abbrev to_begin : PeerSession
to_begin = record (with_session alice) { config = record (peer ten_eight 16) { role = initiator } }

abbrev to_answer : PeerSession
to_answer = record (with_session bob) { config = record (peer ten_eight 16) { role = responder } }

peers_connect_example :
    (init reply : Bytes) × (p' q' : PeerSession) × ((at_index
        (initiate_handshake toy fine 5 sealed_buf_size 100)
        0
        (to_begin ∷ [])).1
      ≡ sent init home ∷ [])
    × ((handle_udp toy fine (λ i. 9) 200 home init two_peers (to_answer ∷ [])).1
        ≡ sent reply home ∷ [])
    × (get_elem? (handle_udp toy fine (λ i. 9) 200 home init two_peers (to_answer ∷ [])).0 0
        ≡ some q')
    × (get_elem?
          (handle_udp toy fine
            (λ i. 8)
            300
            home
            reply
            two_peers
            (at_index (initiate_handshake toy fine 5 sealed_buf_size 100) 0 (to_begin ∷ [])).0).0
          0
        ≡ some p')
    × (p'.session.state ≡ established)
    × (q'.session.state ≡ established)
    × KeysMatch p'.session.data_keys q'.session.data_keys
unfolding find_peer_by_addr
peers_connect_example =
    peers_connect toy toy-Laws fine fine (λ i. 8) (λ i. 9) 5 6 100 200 300 home home two_peers
      two_peers (to_begin ∷ []) (to_answer ∷ []) to_begin to_answer agreed refl refl refl refl
      (omega arith) (omega arith) refl refl refl refl refl (refl, refl) (refl, refl) (omega arith)
      (inl refl) refl (λ m. refl) (λ m. refl)
