-- ===== src/Peer/Loop/Clock.antt =====
-- The times that the peers keep, through whole rounds of the loop.
use edgar_vpn.Prelude.{
  ℕ, zero, suc, ◌≤◌, inl, inr, true, Option, none, some, List, [], ◌∷◌, Bytes, arith, length, take,
  Option-cases, Bool-cases, ◌==◌,
}
use edgar_vpn.Sodium.{Sodium}
use edgar_vpn.Crypto.{role_is, responder}
use edgar_vpn.Config.{Config}
use edgar_vpn.Routing.{parse_ipv4_dest, find_peer_for_dest}
use edgar_vpn.Session.State.{has_type, msg_handshake_init, handshake_msg_len}
use edgar_vpn.Session.Handshake.{handle_init}
use edgar_vpn.Peer.State.{
  PeerSession, Net, SockAddr, Effect, sent, max_packet_size, sealed_buf_size,
}
use edgar_vpn.Peer.Times.{
  Within, Within-mono, send_packet-Within, handle_known-Within, tick_peer-Within,
}
use edgar_vpn.Peer.Outbound.{at_index, send_packet, handle_tun}
use edgar_vpn.Peer.Inbound.{
  find_peer_by_addr, keep_looking, handshaken, find_responder_for_init, handle_unknown_init,
  handle_known, handle_udp,
}
use edgar_vpn.Peer.Timers.{tick}
use edgar_vpn.Peer.Loop.{Round, Daemon, tun_turn, udp_turn, timer_turn, turn, main_loop}
use edgar_vpn.Peer.History.Rounds.{polled_cases}

abbrev pub AllWithin : ℕ → List PeerSession → Type 0
AllWithin t [] = Unit
AllWithin t (p ∷ peers) = Within t p × AllWithin t peers

pub AllWithin-mono :
    (s t : ℕ) (peers : List PeerSession) → s ≤ t → AllWithin s peers → AllWithin t peers
AllWithin-mono s t [] le v = tt
AllWithin-mono s t (p ∷ peers) le v = (Within-mono s t p le v.0, AllWithin-mono s t peers le v.1)

at_index-AllWithin :
    (t : ℕ) (f : PeerSession → PeerSession × List Effect)
    → ((p : PeerSession) → Within t p → Within t (f p).0)
    → (i : ℕ) (peers : List PeerSession) → AllWithin t peers
    → AllWithin t (at_index f i peers).0
unfolding at_index
at_index-AllWithin t f keep i [] v = tt
at_index-AllWithin t f keep zero (p ∷ peers) v = (keep p v.0, v.1)
at_index-AllWithin t f keep (suc i) (p ∷ peers) v = (v.0, at_index-AllWithin t f keep i peers v.1)

module _ (lib : Sodium) (t : ℕ) where
  handle_tun-AllWithin :
      (net : Net) (packet : Bytes) (cfg : Config) (peers : List PeerSession)
      → AllWithin t peers
      → AllWithin t (handle_tun lib net t packet cfg peers).0
  unfolding handle_tun
  handle_tun-AllWithin net packet cfg peers v = elim (Bool-cases (length cfg.peers == 0)) [
    | inl alone ↦ rw alone v
    | inr linked ↦ elim (Option-cases (parse_ipv4_dest packet)) [
      | inl foreign ↦ rw (linked, foreign) v
      | inr (dest, parsed) ↦ elim (Option-cases (find_peer_for_dest cfg dest)) [
        | inl unrouted ↦ rw (linked, parsed, unrouted) v
        | inr (i, found) ↦
            rw (linked, parsed, found)
              (at_index-AllWithin t (send_packet lib net t packet)
                (λ p w. send_packet-Within lib net t p w packet) i peers v)
      ]
    ]
  ]

  find_responder_for_init-AllWithin :
      (seed : ℕ → ℕ) (peers : List PeerSession) (input : Bytes)
      → AllWithin t peers
      → AllWithin t (find_responder_for_init lib seed peers input).0
  unfolding find_responder_for_init keep_looking
  find_responder_for_init-AllWithin seed [] input v = tt
  find_responder_for_init-AllWithin seed (p ∷ peers) input v =
      let rest = find_responder_for_init-AllWithin (λ i. seed (suc i)) peers input v.1 in
      elim (Bool-cases (role_is p.config.role responder)) [
        | inr skipped ↦ rw skipped (v.0, rest)
        | inl asked ↦
            elim (Option-cases (handle_init lib (seed 0) p.session input handshake_msg_len).1) [
              | inl refused ↦ rw (asked, refused) (v.0, rest)
              | inr (reply, made) ↦ rw (asked, made) (v.0, v.1)
            ]
      ]

  handle_unknown_init-AllWithin :
      (net : Net) (seed : ℕ → ℕ) (from : SockAddr) (input : Bytes) (peers : List PeerSession)
      → AllWithin t peers
      → AllWithin t (handle_unknown_init lib net seed t from input peers).0
  unfolding handle_unknown_init
  handle_unknown_init-AllWithin net seed from input peers v =
      let r = find_responder_for_init lib seed peers input in
      let tried = find_responder_for_init-AllWithin seed peers input v in
      elim (Option-cases r.1) [
        | inl missing ↦ rw (missing, handle_unknown_init) tried
        | inr ((i, reply), found) ↦ elim (Bool-cases (net.sends reply from)) [
          | inr fails ↦ rw (found, fails, handle_unknown_init) tried
          | inl goes ↦
              rw (found, goes, handle_unknown_init)
                (at_index-AllWithin t
                  (λ p. (
                    handshaken t (record p { addr = from; addr_resolved = true }),
                    sent reply from ∷ [],
                  ))
                  (λ p w. (omega arith, omega arith, omega arith)) i r.0 tried)
        ]
      ]

  handle_udp-AllWithin :
      (net : Net) (seed : ℕ → ℕ) (from : SockAddr) (input : Bytes) (cfg : Config)
      (peers : List PeerSession)
      → AllWithin t peers
      → AllWithin t (handle_udp lib net seed t from input cfg peers).0
  unfolding handle_udp
  handle_udp-AllWithin net seed from input cfg peers v = elim (Bool-cases (length cfg.peers == 0)) [
    | inl alone ↦ rw alone v
    | inr linked ↦ elim (Bool-cases (length input == 0)) [
      | inl empty ↦ rw (linked, empty) v
      | inr full ↦ elim (Option-cases (find_peer_by_addr peers from)) [
        | inr (i, known) ↦
            rw (linked, full, known)
              (at_index-AllWithin t (handle_known lib net (seed i) t input)
                (λ p w. handle_known-Within lib net t p w (seed i) input) i peers v)
        | inl unknown ↦ elim (Bool-cases (has_type msg_handshake_init input)) [
          | inl asks ↦
              rw (linked, full, unknown, asks)
                (handle_unknown_init-AllWithin net seed from input peers v)
          | inr other ↦ rw (linked, full, unknown, other) v
        ]
      ]
    ]
  ]

  tick-AllWithin :
      (net : ℕ → Net) (seed : ℕ → ℕ) (peers : List PeerSession)
      → AllWithin t peers
      → AllWithin t (tick lib net seed t peers).0
  unfolding tick
  tick-AllWithin net seed [] v = tt
  tick-AllWithin net seed (p ∷ peers) v = (
    tick_peer-Within lib (net 0) (seed 0) t p v.0,
    tick-AllWithin (λ i. net (suc i)) (λ i. seed (suc i)) peers v.1,
  )

-- A clock that does not run back, from `t` on, and where it is after the rounds.
abbrev pub ClockFrom : ℕ → List Round → Type 0
ClockFrom t [] = Unit
ClockFrom t (r ∷ rounds) =
    (t ≤ r.tun_ms) × (r.tun_ms ≤ r.udp_ms) × (r.udp_ms ≤ r.timer_ms) × ClockFrom r.timer_ms rounds

abbrev pub clock_after : ℕ → List Round → ℕ
clock_after t [] = t
clock_after t (r ∷ rounds) = clock_after r.timer_ms rounds

pub clock_after_grows :
    (t : ℕ) (rounds : List Round) → ClockFrom t rounds → t ≤ clock_after t rounds
clock_after_grows t [] c = omega arith
clock_after_grows t (r ∷ rounds) (a, b, d, rest) =
    omega (arith, clock_after_grows r.timer_ms rounds rest)

module _ (lib : Sodium) (cfg : Config) (r : Round) where
  pub tun_turn-AllWithin :
      (packet : Option (Option Bytes)) (peers : List PeerSession)
      → AllWithin r.tun_ms peers
      → AllWithin r.tun_ms (tun_turn lib cfg r packet peers).0
  unfolding tun_turn
  tun_turn-AllWithin none peers v = v
  tun_turn-AllWithin (some none) peers v = v
  tun_turn-AllWithin (some (some packet)) peers v =
      handle_tun-AllWithin lib r.tun_ms r.tun_net (take max_packet_size packet) cfg peers v

  pub udp_turn-AllWithin :
      (datagram : Option (Option (SockAddr × Bytes))) (peers : List PeerSession)
      → AllWithin r.udp_ms peers
      → AllWithin r.udp_ms (udp_turn lib cfg r datagram peers).0
  unfolding udp_turn
  udp_turn-AllWithin none peers v = v
  udp_turn-AllWithin (some none) peers v = v
  udp_turn-AllWithin (some (some (from, input))) peers v =
      handle_udp-AllWithin lib r.udp_ms r.udp_net r.udp_seed from (take sealed_buf_size input) cfg
        peers v

  timer_turn-AllWithin :
      (d : Daemon)
      → AllWithin r.timer_ms d.peers
      → AllWithin r.timer_ms (timer_turn lib cfg r d).0.peers
  unfolding timer_turn
  timer_turn-AllWithin d v = elim (Bool-cases (length cfg.peers == 0)) [
    | inl alone ↦ rw alone v
    | inr linked ↦ rw linked (tick-AllWithin lib r.timer_ms r.timer_net r.timer_seed d.peers v)
  ]

  turn-AllWithin :
      (t : ℕ) (packet : Option (Option Bytes)) (datagram : Option (Option (SockAddr × Bytes)))
      (d : Daemon)
      → t ≤ r.tun_ms
      → r.tun_ms ≤ r.udp_ms
      → r.udp_ms ≤ r.timer_ms
      → AllWithin t d.peers
      → AllWithin r.timer_ms (turn lib cfg r packet datagram d).0.peers
  unfolding turn
  turn-AllWithin t packet datagram d a b c v =
      let after_tun = tun_turn lib cfg r packet d.peers in
      let after_udp = udp_turn lib cfg r datagram after_tun.0 in
      let v1 = tun_turn-AllWithin packet d.peers (AllWithin-mono t r.tun_ms d.peers a v) in
      let v2 =
        udp_turn-AllWithin datagram after_tun.0
          (AllWithin-mono r.tun_ms r.udp_ms after_tun.0 b v1) in
      timer_turn-AllWithin (record d { peers = after_udp.0 })
        (AllWithin-mono r.udp_ms r.timer_ms after_udp.0 c v2)

pub main_loop-AllWithin :
    (lib : Sodium) (cfg : Config) (t : ℕ) (rounds : List Round) (d : Daemon)
    → ClockFrom t rounds
    → AllWithin t d.peers
    → AllWithin (clock_after t rounds) (main_loop lib cfg rounds d).0.peers
unfolding main_loop
main_loop-AllWithin lib cfg t [] d clock v = v
main_loop-AllWithin lib cfg t (r ∷ rounds) d (a, b, c, rest) v =
    let grows = clock_after_grows r.timer_ms rounds rest in
    elim (polled_cases r.outcome) [
      | inl signal ↦
          rw (signal, main_loop)
            (main_loop-AllWithin lib cfg r.timer_ms rounds d rest
              (AllWithin-mono t r.timer_ms d.peers (omega arith) v))
      | inr (inl failed) ↦
          rw (failed, main_loop)
            (AllWithin-mono t (clock_after r.timer_ms rounds) d.peers (omega arith) v)
      | inr (inr (packet, datagram, ready)) ↦
          rw (ready, main_loop)
            (main_loop-AllWithin lib cfg r.timer_ms rounds (turn lib cfg r packet datagram d).0 rest
              (turn-AllWithin lib cfg r t packet datagram d a b c v))
    ]
