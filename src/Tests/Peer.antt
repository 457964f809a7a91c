-- ===== src/Tests/Peer.antt =====
-- Two daemons with a peer each, a packet between them, forged datagrams and the timers.
use edgar_vpn.Prelude.{
  ℕ, ◌+◌, ◌≡◌, ◌≢◌, refl, true, some, none, List, [], ◌∷◌, Bytes, arith, length, drop, get_elem?,
  u64,
}
use mathlib.Core.List
use edgar_vpn.Crypto.{
  initiator, derive_session_keys, seal, crypto_open, build_nonce, put_counter, get_counter,
}
use edgar_vpn.Routing.{parse_ipv4_dest, find_peer_for_dest, matches, prefix_mask}
use edgar_vpn.Session.State.{Session, established, msg_data}
use edgar_vpn.Session.Channel.{seal_data, open_data}
use edgar_vpn.Session.Window.{replay_bit_get, replay_bit_set}
use edgar_vpn.Session.Replay.{check_and_mark}
use edgar_vpn.Session.Replay.Refines.{is_fresh, highest}
use edgar_vpn.Peer.State.{since, PeerSession, SockAddr, Net, Effect, sent, wrote, max_packet_size}
use edgar_vpn.Peer.Outbound.{handle_tun, at_index, send_packet}
use edgar_vpn.Peer.Outbound.Delivery.{handle_tun-sent}
use edgar_vpn.Peer.Inbound.{handle_udp, find_peer_by_addr, handle_known}
use edgar_vpn.Peer.Inbound.Authentic.{essence, AllForged, handle_udp-forged}
use edgar_vpn.Peer.Inbound.Writes.{handle_udp-wrote}
use edgar_vpn.Peer.Timers.{tick}
use edgar_vpn.Peer.Timers.Liveness.{AllSettled}
use edgar_vpn.Peer.Timers.Alive.{SentKeepalive, tick_keeps_alive}
use edgar_vpn.Peer.Timers.Retry.{SentInit, tick_retries}
use edgar_vpn.Peer.Loop.Clock.{AllWithin}
use edgar_vpn.Peer.Startup.{Moment, start_up}
use edgar_vpn.Peer.Startup.Started.{AllStarted, start_up-AllStarted}
use edgar_vpn.Peer.Tunnel.{tunnel_delivers}
use edgar_vpn.Tests.Toy.{toy, toy-Laws}
use edgar_vpn.Tests.Session.{alice_up, bob_marked, marked_stands}
use edgar_vpn.Tests.Routing.{header, two_peers, ten_eight_one_seven, ten_eight, peer, second_peer}

abbrev pub home : SockAddr
home = record { sin_addr = 7; sin_port = 51820 }

abbrev pub fine : Net
fine = record { sends = λ m a. true; writes = λ p. true; resolve = λ h p. some home }

abbrev pub with_session : Session → PeerSession
with_session s = record {
  config = peer ten_eight 16;
  addr_resolved = true;
  addr = home;
  session = s;
  last_rx_activity_ms = 100;
  last_tx_activity_ms = 100;
  last_handshake_completed_ms = 100;
  stat_packets_tx = 0;
  stat_bytes_tx = 0;
  stat_packets_rx = 0;
  stat_bytes_rx = 0;
  stat_handshakes = 0;
  stat_auth_failures = 0;
  stat_drops = 0;
}

-- The second of two peers is the one that the packet is routed to.
abbrev of_alice : List PeerSession
of_alice = with_session bob_marked ∷ with_session alice_up ∷ []

abbrev of_bob : List PeerSession
of_bob = with_session bob_marked ∷ []

parsed : parse_ipv4_dest header ≡ some ten_eight_one_seven
unfolding parse_ipv4_dest
parsed = refl

tunnel_delivers_example :
    (message : Bytes) × (peers_after : List PeerSession) × ((handle_tun toy fine 200 header
        two_peers of_alice).1
      ≡ sent message home ∷ [])
    × (handle_udp toy fine (λ i. i) 300 home message two_peers of_bob
        ≡ (peers_after, wrote header ∷ []))
    × ((handle_udp toy fine (λ i. i) 400 home message two_peers peers_after).1 ≡ [])
unfolding find_peer_by_addr check_and_mark is_fresh highest
tunnel_delivers_example =
    tunnel_delivers toy toy-Laws fine fine (λ i. i) 200 300 400 home two_peers two_peers of_alice
      of_bob header (7 ∷ []) (with_session alice_up) (with_session bob_marked) parsed second_peer
      refl refl (omega arith) refl refl refl refl (omega arith) (omega arith) marked_stands refl
      (λ m. refl) refl

abbrev quiet : List Effect
quiet = []

-- The datagram of that packet, sent and received.
abbrev datagram : Bytes
unfolding send_packet seal_data seal build_nonce put_counter
datagram = elim (seal_data toy alice_up header 2073).1 [ none ↦ [] | some m ↦ m ]

goes_out : (handle_tun toy fine 200 header two_peers of_alice).1 ≡ sent datagram home ∷ []
unfolding handle_tun send_packet seal_data seal build_nonce put_counter find_peer_for_dest matches
    prefix_mask parse_ipv4_dest at_index
goes_out = refl

comes_in : (handle_udp toy fine (λ i. i) 300 home datagram two_peers of_bob).1 ≡ wrote header ∷ []
unfolding handle_udp handle_known find_peer_by_addr open_data crypto_open get_counter build_nonce
    put_counter check_and_mark at_index datagram replay_bit_get replay_bit_set
comes_in = refl

handle_tun-sent_example :
    (dest i : ℕ) × (p p' : PeerSession) × (sealed : Bytes) × (parse_ipv4_dest header ≡ some dest)
    × (find_peer_for_dest two_peers dest ≡ some i)
    × (get_elem? of_alice i ≡ some p)
    × (p.session.state ≡ established)
    × (seal toy p.session.data_keys.tx p.session.tx_counter header 2072 ≡ some sealed)
    × (sent datagram home ≡ sent (msg_data ∷ sealed) p.addr)
    × (quiet ≡ [])
    × (get_elem? (handle_tun toy fine 200 header two_peers of_alice).0 i ≡ some p')
    × (p'.session ≡ record p.session { tx_counter = u64 (p.session.tx_counter + 1) })
handle_tun-sent_example = handle_tun-sent toy fine 200 header two_peers of_alice goes_out

handle_udp-wrote_example :
    (i counter : ℕ) × (p p' : PeerSession) × (find_peer_by_addr of_bob home ≡ some i)
    × (get_elem? of_bob i ≡ some p)
    × (p.session.state ≡ established)
    × (crypto_open toy p.session.data_keys.rx (drop 1 datagram) max_packet_size
        ≡ some (header, counter))
    × ((check_and_mark p.session counter).1 ≡ true)
    × (length header ≢ 0)
    × (quiet ≡ [])
    × (get_elem? (handle_udp toy fine (λ i. i) 300 home datagram two_peers of_bob).0 i ≡ some p')
    × (p'.session ≡ (check_and_mark p.session counter).0)
handle_udp-wrote_example =
    handle_udp-wrote toy fine (λ i. i) 300 home datagram two_peers of_bob comes_in

tick_keeps_alive_example :
    SentKeepalive toy (with_session alice_up) (tick toy (λ i. fine) (λ i. i) 50000 of_alice).1
    × AllSettled 50000 (tick toy (λ i. fine) (λ i. i) 50000 of_alice).0
unfolding since
tick_keeps_alive_example =
    tick_keeps_alive toy toy-Laws (λ i. fine) (λ i. i) 50000 1 of_alice {p = with_session alice_up}
      refl refl (omega arith) (λ m. refl)

abbrev calling : PeerSession
calling = record (with_session alice_up) {
  config = record (peer ten_eight 16) { role = initiator };
}

tick_retries_example :
    SentInit toy 1 calling
      (tick toy (λ i. fine) (λ i. i) 50000 (with_session bob_marked ∷ calling ∷ [])).1
unfolding since
tick_retries_example =
    tick_retries toy toy-Laws (λ i. fine) (λ i. i) 50000 1 (with_session bob_marked ∷ calling ∷ [])
      {p = calling} refl refl refl refl (omega arith) (λ m. refl)

abbrev noise : Bytes
noise = 3 ∷ 1 ∷ 2 ∷ []

noise_is_forged : AllForged toy noise of_bob
unfolding crypto_open check_and_mark
noise_is_forged = ((refl, refl), tt)

handle_udp-forged_example :
    (List.map essence (handle_udp toy fine (λ i. i) 300 home noise two_peers of_bob).0
      ≡ List.map essence of_bob)
    × ((handle_udp toy fine (λ i. i) 300 home noise two_peers of_bob).1 ≡ [])
handle_udp-forged_example =
    handle_udp-forged toy fine (λ i. i) 300 home noise two_peers of_bob noise_is_forged

abbrev pub launch : Moment
launch = record {
  wall = 1000;
  first_ms = 5;
  second_ms = 6;
  first_seed = 1;
  second_seed = 2;
  net = fine;
}

-- Two peers are configured, and both come up.
abbrev pub fresh_peers : List PeerSession
unfolding start_up
fresh_peers = elim (start_up toy (λ i. launch) two_peers).0 [ none ↦ [] | some ps ↦ ps ]

pub comes_up : (start_up toy (λ i. launch) two_peers).0 ≡ some fresh_peers
unfolding start_up derive_session_keys
comes_up = refl

pub fresh_peers-AllWithin : AllWithin 10 fresh_peers
unfolding start_up derive_session_keys
fresh_peers-AllWithin =
    ((omega arith, omega arith, omega arith), ((omega arith, omega arith, omega arith), tt))

start_up-AllStarted_example : AllStarted two_peers.peers fresh_peers
start_up-AllStarted_example = start_up-AllStarted toy (λ i. launch) two_peers comes_up
