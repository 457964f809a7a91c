-- ===== src/Tests/Loop.antt =====
-- A daemon with two peers, through three rounds of its loop.
use edgar_vpn.Prelude.{ℕ, ◌+◌, ◌*◌, some, none, List, [], ◌∷◌, ◌++◌, arith}
use edgar_vpn.Crypto.{derive_public_key}
use edgar_vpn.Peer.Startup.{start_up}
use edgar_vpn.Peer.Loop.{Polled, interrupted, polled, Round, tun_turn, udp_turn, main_loop}
use edgar_vpn.Peer.Loop.Ages.{AgeTrue, AgesTrue, all_kept, main_loop-AgesTrue}
use edgar_vpn.Peer.Loop.Unique.{AllUnique, daemon_IsUnique}
use edgar_vpn.Peer.History.{Histories, Follows, AllYielded}
use edgar_vpn.Peer.History.Startup.{all_initialized}
use edgar_vpn.Tests.Toy.{toy}
use edgar_vpn.Tests.Routing.{header, two_peers}
use edgar_vpn.Tests.Peer.{fine, home, launch, fresh_peers, fresh_peers-AllWithin, comes_up}

abbrev round_at : ℕ → Polled → Round
round_at ms outcome = record {
  outcome = outcome;
  tun_ms = ms;
  udp_ms = ms;
  timer_ms = ms;
  tun_net = fine;
  udp_net = fine;
  timer_net = λ i. fine;
  udp_seed = λ i. i;
  timer_seed = λ i. i;
}

-- A packet and a datagram, a signal, and a round long after.
abbrev pub three_rounds : List Round
three_rounds =
    round_at 100 (polled (some (some header)) (some (some (home, 3 ∷ 1 ∷ []))))
    ∷ round_at 200 interrupted
    ∷ round_at 60000 (polled none (some none))
    ∷ []

daemon_IsUnique_example :
    let fresh =
      all_initialized toy two_peers.private_key
        (derive_public_key toy two_peers.private_key)
        (λ i. launch)
        two_peers.peers in
    let life =
      main_loop toy two_peers three_rounds (record { peers = fresh_peers; last_stats_ms = 5 }) in
    (h : Histories) × Follows toy (2 + 5 * 3) fresh h life.0.peers
    × AllYielded toy fresh h ((start_up toy (λ i. launch) two_peers).1 ++ life.1)
    × AllUnique toy fresh h
daemon_IsUnique_example =
    daemon_IsUnique toy (λ i. launch) two_peers 5 three_rounds comes_up (λ i. omega arith)

main_loop-AgesTrue_example :
    let d =
      (main_loop toy two_peers three_rounds
        (record { peers = fresh_peers; last_stats_ms = 5 })).0 in
    let r = round_at 70000 (polled none none) in
    let peers = (udp_turn toy two_peers r none (tun_turn toy two_peers r none d.peers).0).0 in
    AgesTrue 70000 peers
    × AgesTrue 70000 (all_kept toy (λ i. fine) 70000 peers)
    × AgeTrue 70000 d.last_stats_ms
main_loop-AgesTrue_example =
    main_loop-AgesTrue toy two_peers 10 three_rounds
      (record { peers = fresh_peers; last_stats_ms = 5 }) (round_at 70000 (polled none none)) none
      none
      (
        omega arith,
        omega arith,
        omega arith,
        (omega arith, omega arith, omega arith, (omega arith, omega arith, omega arith, tt)),
      )
      fresh_peers-AllWithin (omega arith) (omega arith, omega arith, omega arith, tt) (omega arith)
