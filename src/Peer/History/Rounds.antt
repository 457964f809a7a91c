-- ===== src/Peer/History/Rounds.antt =====
-- Whole rounds of the loop, by the operations that they make on the sessions.
use edgar_vpn.Prelude.{
  ℕ, suc, ◌+◌, ◌*◌, ◌≡◌, ◌⊎◌, refl, inl, inr, true, Option, none, some, List, [], ◌∷◌, ◌++◌, Bytes,
  arith, length, take, Option-cases, Bool-cases, ◌==◌,
}
use edgar_vpn.Sodium.{Sodium}
use edgar_vpn.Config.{Config}
use edgar_vpn.Session.State.{has_type, msg_handshake_init}
use edgar_vpn.Peer.State.{PeerSession, Net, SockAddr, sent, max_packet_size, sealed_buf_size}
use edgar_vpn.Peer.Inbound.{
  find_peer_by_addr, handshaken, find_responder_for_init, handle_unknown_init, handle_known,
  handle_udp,
}
use edgar_vpn.Peer.Timers.{tick_peer, tick}
use edgar_vpn.Peer.Loop.{
  Polled, interrupted, poll_failed, polled, Round, Daemon, tun_turn, udp_turn, timer_turn, turn,
  main_loop,
}
use edgar_vpn.Peer.History.{ActsOnAll}
use edgar_vpn.Peer.History.Compose.{ActsOnAll-then, ActsOnAll-mono, AllYielded-append}
use edgar_vpn.Peer.History.Handlers.{handle_known-Acts, tick_peer-Acts}
use edgar_vpn.Peer.History.Peers.{
  front, idle-ActsOnAll, AllYielded-first, AllYielded-other, at_index-ActsOnAll,
  handle_tun-ActsOnAll, find_responder_for_init-Follows, Follows-at_index, AllYielded-at_index,
}

module _ (lib : Sodium) where
  handle_unknown_init-ActsOnAll :
      (net : Net) (seed : ℕ → ℕ) (t : ℕ) (from : SockAddr) (input : Bytes)
      (peers : List PeerSession)
      → ActsOnAll lib 1 peers (handle_unknown_init lib net seed t from input peers)
  unfolding handle_unknown_init
  handle_unknown_init-ActsOnAll net seed t from input peers =
      let r = find_responder_for_init lib seed peers input in
      let (h, v, y) = find_responder_for_init-Follows lib seed peers input from in
      let learned =
        λ (p : PeerSession). handshaken t (record p { addr = from; addr_resolved = true }) in
      elim (Option-cases r.1) [
        | inl missing ↦ rw (missing, handle_unknown_init) (h, v, tt)
        | inr ((i, reply), found) ↦ elim (Bool-cases (net.sends reply from)) [
          | inr fails ↦ rw (found, fails, handle_unknown_init) (h, v, tt)
          | inl goes ↦
              rw (found, goes, handle_unknown_init)
                (
                  h,
                  Follows-at_index lib (λ p. (learned p, sent reply from ∷ [])) 1 i peers r.0 h
                      (λ p. refl) (λ p. refl) v,
                  AllYielded-at_index lib learned (sent reply from) i peers r.0 h (rw found at y),
                )
        ]
      ]

  pub handle_udp-ActsOnAll :
      (net : Net) (seed : ℕ → ℕ) (t : ℕ) (from : SockAddr) (input : Bytes) (cfg : Config)
      (peers : List PeerSession)
      → ActsOnAll lib 1 peers (handle_udp lib net seed t from input cfg peers)
  unfolding handle_udp
  handle_udp-ActsOnAll net seed t from input cfg peers = elim (Bool-cases (length cfg.peers == 0)) [
    | inl alone ↦ rw alone (idle-ActsOnAll lib 1 peers)
    | inr linked ↦ elim (Bool-cases (length input == 0)) [
      | inl empty ↦ rw (linked, empty) (idle-ActsOnAll lib 1 peers)
      | inr full ↦ elim (Option-cases (find_peer_by_addr peers from)) [
        | inr (i, known) ↦
            rw (linked, full, known)
              (at_index-ActsOnAll lib 1 (handle_known lib net (seed i) t input)
                (handle_known-Acts lib net (seed i) t input) i peers)
        | inl unknown ↦ elim (Bool-cases (has_type msg_handshake_init input)) [
          | inl asks ↦
              rw (linked, full, unknown, asks)
                (handle_unknown_init-ActsOnAll net seed t from input peers)
          | inr other ↦ rw (linked, full, unknown, other) (idle-ActsOnAll lib 1 peers)
        ]
      ]
    ]
  ]

  tick-ActsOnAll :
      (net : ℕ → Net) (seed : ℕ → ℕ) (now : ℕ) (peers : List PeerSession)
      → ActsOnAll lib 3 peers (tick lib net seed now peers)
  unfolding tick
  tick-ActsOnAll net seed now [] = idle-ActsOnAll lib 3 []
  tick-ActsOnAll net seed now (p ∷ peers) =
      let (ops, few, s, c, all) = tick_peer-Acts lib (net 0) (seed 0) now p in
      let (h, v, more) = tick-ActsOnAll (λ i. net (suc i)) (λ i. seed (suc i)) now peers in
      let first = tick_peer lib (net 0) (seed 0) now p in
      let rest = tick lib (λ i. net (suc i)) (λ i. seed (suc i)) now peers in
      (
        front ops h,
        (few, s, c, v),
        AllYielded-append lib (p ∷ peers) (front ops h) first.1 rest.1
            (AllYielded-first lib p peers (front ops h) first.1 all)
            (AllYielded-other lib p peers (front ops h) rest.1 more),
      )

module _ (lib : Sodium) (cfg : Config) (r : Round) where
  tun_turn-ActsOnAll :
      (packet : Option (Option Bytes)) (peers : List PeerSession)
      → ActsOnAll lib 1 peers (tun_turn lib cfg r packet peers)
  unfolding tun_turn
  tun_turn-ActsOnAll none peers = idle-ActsOnAll lib 1 peers
  tun_turn-ActsOnAll (some none) peers = idle-ActsOnAll lib 1 peers
  tun_turn-ActsOnAll (some (some packet)) peers =
      handle_tun-ActsOnAll lib r.tun_net r.tun_ms (take max_packet_size packet) cfg peers

  udp_turn-ActsOnAll :
      (datagram : Option (Option (SockAddr × Bytes))) (peers : List PeerSession)
      → ActsOnAll lib 1 peers (udp_turn lib cfg r datagram peers)
  unfolding udp_turn
  udp_turn-ActsOnAll none peers = idle-ActsOnAll lib 1 peers
  udp_turn-ActsOnAll (some none) peers = idle-ActsOnAll lib 1 peers
  udp_turn-ActsOnAll (some (some (from, input))) peers =
      handle_udp-ActsOnAll lib r.udp_net r.udp_seed r.udp_ms from (take sealed_buf_size input) cfg
        peers

  timer_turn-ActsOnAll :
      (d : Daemon)
      → ActsOnAll lib 3 d.peers ((timer_turn lib cfg r d).0.peers, (timer_turn lib cfg r d).1)
  unfolding timer_turn
  timer_turn-ActsOnAll d = elim (Bool-cases (length cfg.peers == 0)) [
    | inl alone ↦ rw alone (idle-ActsOnAll lib 3 d.peers)
    | inr linked ↦ rw linked (tick-ActsOnAll lib r.timer_net r.timer_seed r.timer_ms d.peers)
  ]

  turn-ActsOnAll :
      (packet : Option (Option Bytes)) (datagram : Option (Option (SockAddr × Bytes))) (d : Daemon)
      → ActsOnAll lib 5 d.peers
          ((turn lib cfg r packet datagram d).0.peers, (turn lib cfg r packet datagram d).1)
  unfolding turn
  turn-ActsOnAll packet datagram d =
      let a = tun_turn lib cfg r packet d.peers in
      let b = udp_turn lib cfg r datagram a.0 in
      let d' : Daemon = record d { peers = b.0 } in
      let c = timer_turn lib cfg r d' in
      ActsOnAll-then lib 1 4 d.peers a.0 c.0.peers a.1 (b.1 ++ c.1)
        (tun_turn-ActsOnAll packet d.peers)
        (ActsOnAll-then lib 1 3 a.0 b.0 c.0.peers b.1 c.1 (udp_turn-ActsOnAll datagram a.0)
          (timer_turn-ActsOnAll d'))

-- The outcomes of `poll`.
pub polled_cases :
    (o : Polled)
    → (o ≡ interrupted)
      ⊎ (o ≡ poll_failed)
      ⊎ ((packet : Option (Option Bytes)) × (datagram : Option (Option (SockAddr × Bytes))) × (o
            ≡ polled packet datagram))
polled_cases interrupted = inl refl
polled_cases poll_failed = inr (inl refl)
polled_cases (polled packet datagram) = inr (inr (packet, datagram, refl))

-- Over any rounds of the loop each peer's session goes through at most five operations a round,
-- and whatever is sent or written to the TUN device comes from one of them.
pub main_loop-ActsOnAll :
    (lib : Sodium) (cfg : Config) (rounds : List Round) (d : Daemon)
    → ActsOnAll lib
        (5 * length rounds)
        d.peers
        ((main_loop lib cfg rounds d).0.peers, (main_loop lib cfg rounds d).1)
unfolding main_loop
main_loop-ActsOnAll lib cfg [] d = idle-ActsOnAll lib (5 * 0) d.peers
main_loop-ActsOnAll lib cfg (r ∷ rounds) d = elim (polled_cases r.outcome) [
  | inl signal ↦
      let rest = main_loop lib cfg rounds d in
      rw (signal, main_loop)
        (ActsOnAll-mono lib (5 * length rounds) (5 * suc (length rounds)) d.peers
          (rest.0.peers, rest.1) (omega arith) (main_loop-ActsOnAll lib cfg rounds d))
  | inr (inl failed) ↦ rw (failed, main_loop) (idle-ActsOnAll lib (5 * suc (length rounds)) d.peers)
  | inr (inr (packet, datagram, ready)) ↦
      let now = turn lib cfg r packet datagram d in
      let rest = main_loop lib cfg rounds now.0 in
      let both =
        ActsOnAll-then lib 5 (5 * length rounds) d.peers now.0.peers rest.0.peers now.1 rest.1
          (turn-ActsOnAll lib cfg r packet datagram d) (main_loop-ActsOnAll lib cfg rounds now.0) in
      rw (ready, main_loop)
        (ActsOnAll-mono lib (5 + 5 * length rounds) (5 * suc (length rounds)) d.peers
          (rest.0.peers, now.1 ++ rest.1) (omega arith) both)
]
