-- ===== src/Tests/Learned.antt =====
-- A HANDSHAKE_INIT from a source that no peer is known by.
use edgar_vpn.Prelude.{◌≡◌, refl, true, false, List, [], ◌∷◌}
use edgar_vpn.Crypto.{responder, crypto_open, build_nonce, get_counter, seal, derive_session_keys}
use edgar_vpn.Session.State.{has_type, msg_handshake_init}
use edgar_vpn.Session.Handshake.{handle_init, answer_init}
use edgar_vpn.Peer.State.{PeerSession, SockAddr, sent}
use edgar_vpn.Peer.Inbound.{find_peer_by_addr, handle_udp}
use edgar_vpn.Peer.Inbound.Learned.{Learns, handle_udp-Learns}
use edgar_vpn.Tests.Toy.{toy}
use edgar_vpn.Tests.Session.{bob, init_message, reply_message}
use edgar_vpn.Tests.Routing.{two_peers, peer, ten_eight}
use edgar_vpn.Tests.Peer.{with_session, fine}

abbrev pub elsewhere : SockAddr
elsewhere = record { sin_addr = 9; sin_port = 4 }

abbrev waiting : List PeerSession
waiting =
    record (with_session bob) {
      addr_resolved = false;
      config = record (peer ten_eight 16) { role = responder };
    }
    ∷ []

answers :
    (handle_udp toy fine (λ i. i) 300 elsewhere init_message two_peers waiting).1
    ≡ sent reply_message elsewhere ∷ []
unfolding handle_udp handle_init crypto_open build_nonce get_counter answer_init derive_session_keys
    seal
answers = refl

handle_udp-Learns_example :
    (has_type msg_handshake_init init_message ≡ true)
    × (elsewhere ≡ elsewhere)
    × Learns toy
        (λ i. i)
        elsewhere
        init_message
        waiting
        (handle_udp toy fine (λ i. i) 300 elsewhere init_message two_peers waiting).0
        reply_message
unfolding find_peer_by_addr
handle_udp-Learns_example =
    handle_udp-Learns toy fine (λ i. i) 300 elsewhere elsewhere init_message reply_message two_peers
      waiting refl answers
