-- ===== src/Tests/Life.antt =====
-- Two daemons' worth of sessions through three rounds: their states and what they send.
use edgar_vpn.Prelude.{◌≡◌, [], ◌∷◌, ◌++◌}
use edgar_vpn.Session.Handshake.{build_init, handle_init}
use edgar_vpn.Session.Channel.{seal_data, open_data}
use edgar_vpn.Session.Trace.{run}
use edgar_vpn.Session.Lifecycle.{Course}
use edgar_vpn.Session.Lifecycle.Moves.{run-Course}
use edgar_vpn.Session.Lifecycle.Secrets.{IsWiped}
use edgar_vpn.Session.Bounds.{FitsIn, operations_fit}
use edgar_vpn.Peer.Startup.{start_up}
use edgar_vpn.Peer.Loop.{main_loop}
use edgar_vpn.Peer.History.Keeps.{AllSessions}
use edgar_vpn.Peer.Sessions.{daemon-AllWiped}
use edgar_vpn.Peer.Wire.{AllMessages, daemon-AllMessages}
use edgar_vpn.Peer.Wire.Buffers.{AllFit}
use edgar_vpn.Tests.Toy.{toy, toy-Laws}
use edgar_vpn.Tests.Session.{alice, alice_up, some_ops}
use edgar_vpn.Tests.Routing.{two_peers}
use edgar_vpn.Tests.Peer.{launch, fresh_peers, comes_up}
use edgar_vpn.Tests.Loop.{three_rounds}

run-Course_example :
    ((run toy alice some_ops).0.role ≡ alice.role)
    × Course alice.role alice.state (run toy alice some_ops).1 (run toy alice some_ops).0.state
run-Course_example = run-Course toy alice some_ops

operations_fit_example :
    FitsIn 57 (build_init toy alice_up 57).1
    × FitsIn 57 (handle_init toy 9 alice_up [] 57).1
    × FitsIn 57 (seal_data toy alice_up (69 ∷ []) 57).1
    × FitsIn 57 (open_data toy alice_up [] 57).written
operations_fit_example = operations_fit toy toy-Laws alice_up 9 57 (69 ∷ []) []

daemon-AllWiped_example :
    AllSessions
      (IsWiped toy)
      (main_loop toy two_peers three_rounds
        (record { peers = fresh_peers; last_stats_ms = 5 })).0.peers
daemon-AllWiped_example =
    daemon-AllWiped toy toy-Laws (λ i. launch) two_peers 5 three_rounds comes_up

daemon-AllMessages_example :
    let out =
      (start_up toy (λ i. launch) two_peers).1
      ++ (main_loop toy two_peers three_rounds
          (record { peers = fresh_peers; last_stats_ms = 5 })).1 in
    AllMessages out × AllFit out
daemon-AllMessages_example =
    daemon-AllMessages toy toy-Laws (λ i. launch) two_peers 5 three_rounds comes_up
