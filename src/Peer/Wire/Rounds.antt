-- ===== src/Peer/Wire/Rounds.antt =====
-- What leaves the daemon fits the buffers, through whole rounds of the loop.
use edgar_vpn.Prelude.{
  ℕ, suc, ◌≤◌, ◌≡◌, inl, inr, true, Option, none, some, List, [], ◌∷◌, Bytes, arith, length, take,
  Option-cases, Bool-cases, ◌==◌,
}
use edgar_vpn.Sodium.{Sodium, Laws}
use edgar_vpn.Config.{Config}
use edgar_vpn.Routing.{parse_ipv4_dest, find_peer_for_dest}
use edgar_vpn.Session.State.{has_type, msg_handshake_init, handshake_msg_len}
use edgar_vpn.Session.Handshake.{handle_init}
use edgar_vpn.Peer.State.{PeerSession, Net, sent, SockAddr, sealed_buf_size, max_packet_size}
use edgar_vpn.Peer.Outbound.{send_packet, handle_tun}
use edgar_vpn.Peer.Inbound.{
  find_peer_by_addr, find_responder_for_init, keep_looking, handle_known, handle_unknown_init,
  handle_udp, handshaken,
}
use edgar_vpn.Peer.Timers.{tick}
use edgar_vpn.Peer.Loop.{Round, Daemon, tun_turn, udp_turn, timer_turn, turn, main_loop}
use edgar_vpn.Peer.History.Rounds.{polled_cases}
use edgar_vpn.Peer.Wire.Buffers.{
  AllFit, AllFit-append, at_index-AllFit, send_packet-AllFit, tick_peer-AllFit, reply_fits,
  handle_known-AllFit,
}

module _ (lib : Sodium) (laws : Laws lib) where
  handle_tun-AllFit :
      (net : Net) (t : ℕ) (packet : Bytes) (cfg : Config) (peers : List PeerSession)
      → AllFit (handle_tun lib net t packet cfg peers).1
  unfolding handle_tun
  handle_tun-AllFit net t packet cfg peers = elim (Bool-cases (length cfg.peers == 0)) [
    | inl alone ↦ rw alone tt
    | inr linked ↦ elim (Option-cases (parse_ipv4_dest packet)) [
      | inl foreign ↦ rw (linked, foreign) tt
      | inr (dest, parsed) ↦ elim (Option-cases (find_peer_for_dest cfg dest)) [
        | inl unrouted ↦ rw (linked, parsed, unrouted) tt
        | inr (i, found) ↦
            rw (linked, parsed, found)
              (at_index-AllFit (send_packet lib net t packet)
                (send_packet-AllFit lib laws net t packet) i peers)
      ]
    ]
  ]

  found_fits :
      (seed : ℕ → ℕ) (peers : List PeerSession) (input : Bytes) {i : ℕ} {reply : Bytes}
      → (find_responder_for_init lib seed peers input).1 ≡ some (i, reply)
      → length reply ≤ sealed_buf_size
  unfolding find_responder_for_init keep_looking
  found_fits seed [] input e = absurd (ground arith)
  found_fits seed (p ∷ peers) input {i} {reply} e =
      elim (Option-cases (find_responder_for_init lib (λ i. seed (suc i)) peers input).1) [
        | inr ((j, later), found) ↦
            let rest = found_fits (λ i. seed (suc i)) peers input found in
            elim (Option-cases (handle_init lib (seed 0) p.session input handshake_msg_len).1) [
              | inl refused ↦ ground arith
              | inr (answer, made) ↦
                  let small = reply_fits lib laws (seed 0) input p made in ground arith
            ]
        | inl missing ↦
            elim (Option-cases (handle_init lib (seed 0) p.session input handshake_msg_len).1) [
              | inl refused ↦ absurd (ground arith)
              | inr (answer, made) ↦
                  let small = reply_fits lib laws (seed 0) input p made in ground arith
            ]
      ]

  handle_unknown_init-AllFit :
      (net : Net) (seed : ℕ → ℕ) (t : ℕ) (from : SockAddr) (input : Bytes)
      (peers : List PeerSession)
      → AllFit (handle_unknown_init lib net seed t from input peers).1
  unfolding handle_unknown_init
  handle_unknown_init-AllFit net seed t from input peers =
      let r = find_responder_for_init lib seed peers input in
      elim (Option-cases r.1) [
        | inl missing ↦ rw (missing, handle_unknown_init) tt
        | inr ((i, reply), found) ↦
            let small = found_fits seed peers input found in
            elim (Bool-cases (net.sends reply from)) [
              | inr fails ↦ rw (found, fails, handle_unknown_init) tt
              | inl goes ↦
                  rw (found, goes, handle_unknown_init)
                    (at_index-AllFit
                      (λ p. (
                        handshaken t (record p { addr = from; addr_resolved = true }),
                        sent reply from ∷ [],
                      ))
                      (λ p. (small, tt)) i r.0)
            ]
      ]

  handle_udp-AllFit :
      (net : Net) (seed : ℕ → ℕ) (t : ℕ) (from : SockAddr) (input : Bytes) (cfg : Config)
      (peers : List PeerSession)
      → AllFit (handle_udp lib net seed t from input cfg peers).1
  unfolding handle_udp
  handle_udp-AllFit net seed t from input cfg peers = elim (Bool-cases (length cfg.peers == 0)) [
    | inl alone ↦ rw alone tt
    | inr linked ↦ elim (Bool-cases (length input == 0)) [
      | inl empty ↦ rw (linked, empty) tt
      | inr full ↦ elim (Option-cases (find_peer_by_addr peers from)) [
        | inr (i, known) ↦
            rw (linked, full, known)
              (at_index-AllFit (handle_known lib net (seed i) t input)
                (handle_known-AllFit lib laws net (seed i) t input) i peers)
        | inl unknown ↦ elim (Bool-cases (has_type msg_handshake_init input)) [
          | inl asks ↦
              rw (linked, full, unknown, asks)
                (handle_unknown_init-AllFit net seed t from input peers)
          | inr other ↦ rw (linked, full, unknown, other) tt
        ]
      ]
    ]
  ]

  tick-AllFit :
      (net : ℕ → Net) (seed : ℕ → ℕ) (now : ℕ) (peers : List PeerSession)
      → AllFit (tick lib net seed now peers).1
  unfolding tick
  tick-AllFit net seed now [] = tt
  tick-AllFit net seed now (p ∷ peers) =
      AllFit-append _ _ (tick_peer-AllFit lib laws (net 0) (seed 0) now p)
        (tick-AllFit (λ i. net (suc i)) (λ i. seed (suc i)) now peers)

  module _ (cfg : Config) (r : Round) where
    tun_turn-AllFit :
        (packet : Option (Option Bytes)) (peers : List PeerSession)
        → AllFit (tun_turn lib cfg r packet peers).1
    unfolding tun_turn
    tun_turn-AllFit none peers = tt
    tun_turn-AllFit (some none) peers = tt
    tun_turn-AllFit (some (some packet)) peers =
        handle_tun-AllFit r.tun_net r.tun_ms (take max_packet_size packet) cfg peers

    udp_turn-AllFit :
        (datagram : Option (Option (SockAddr × Bytes))) (peers : List PeerSession)
        → AllFit (udp_turn lib cfg r datagram peers).1
    unfolding udp_turn
    udp_turn-AllFit none peers = tt
    udp_turn-AllFit (some none) peers = tt
    udp_turn-AllFit (some (some (from, input))) peers =
        handle_udp-AllFit r.udp_net r.udp_seed r.udp_ms from (take sealed_buf_size input) cfg peers

    timer_turn-AllFit : (d : Daemon) → AllFit (timer_turn lib cfg r d).1
    unfolding timer_turn
    timer_turn-AllFit d = elim (Bool-cases (length cfg.peers == 0)) [
      | inl alone ↦ rw alone tt
      | inr linked ↦ rw linked (tick-AllFit r.timer_net r.timer_seed r.timer_ms d.peers)
    ]

    turn-AllFit :
        (packet : Option (Option Bytes)) (datagram : Option (Option (SockAddr × Bytes)))
        (d : Daemon)
        → AllFit (turn lib cfg r packet datagram d).1
    unfolding turn
    turn-AllFit packet datagram d =
        let a = tun_turn lib cfg r packet d.peers in
        let b = udp_turn lib cfg r datagram a.0 in
        AllFit-append a.1 _ (tun_turn-AllFit packet d.peers) (
          AllFit-append b.1 _ (udp_turn-AllFit datagram a.0)
            (timer_turn-AllFit (record d { peers = b.0 })))

  pub main_loop-AllFit :
      (cfg : Config) (rounds : List Round) (d : Daemon) → AllFit (main_loop lib cfg rounds d).1
  unfolding main_loop
  main_loop-AllFit cfg [] d = tt
  main_loop-AllFit cfg (r ∷ rounds) d = elim (polled_cases r.outcome) [
    | inl signal ↦ rw (signal, main_loop) (main_loop-AllFit cfg rounds d)
    | inr (inl failed) ↦ rw (failed, main_loop) tt
    | inr (inr (packet, datagram, ready)) ↦
        rw (ready, main_loop)
          (AllFit-append (turn lib cfg r packet datagram d).1 _
            (turn-AllFit cfg r packet datagram d)
            (main_loop-AllFit cfg rounds (turn lib cfg r packet datagram d).0))
  ]
