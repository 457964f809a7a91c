-- ===== src/Peer/Loop/Ages.antt =====
-- The subtractions of the timers, each at the moment at which it is made.
use edgar_vpn.Prelude.{
  ℕ, suc, ◌+◌, ◌^◌, ◌≤◌, ◌<◌, ◌≡◌, Option, List, [], ◌∷◌, Bytes, arith, inl, inr, length, ◌==◌,
  Bool-cases,
}
use edgar_vpn.Sodium.{Sodium}
use edgar_vpn.Config.{Config}
use edgar_vpn.Peer.State.{PeerSession, SockAddr, Net, since}
use edgar_vpn.Peer.Times.{keep_alive-Within}
use edgar_vpn.Peer.Timers.{keep_alive, stats_due}
use edgar_vpn.Peer.Loop.{Round, Daemon, tun_turn, udp_turn, timer_turn, turn, main_loop}
use edgar_vpn.Peer.Loop.Clock.{
  AllWithin, AllWithin-mono, ClockFrom, clock_after, clock_after_grows, tun_turn-AllWithin,
  udp_turn-AllWithin, main_loop-AllWithin,
}
use edgar_vpn.Peer.History.Rounds.{polled_cases}

-- The age that the timers compute in `uint64_t` is the time that has really gone by.
abbrev pub AgeTrue : ℕ → ℕ → Type 0
AgeTrue now before = since now before + before ≡ now

abbrev pub AgesTrue : ℕ → List PeerSession → Type 0
AgesTrue now [] = Unit
AgesTrue now (p ∷ peers) =
    AgeTrue now p.last_rx_activity_ms
    × AgeTrue now p.last_tx_activity_ms
    × AgeTrue now p.last_handshake_completed_ms
    × AgesTrue now peers

AgeTrue-intro : (now before : ℕ) → before ≤ now → now < 2 ^ 64 → AgeTrue now before
unfolding since
AgeTrue-intro now before le small = omega arith

AllWithin-AgesTrue :
    (now : ℕ) (peers : List PeerSession) → now < 2 ^ 64 → AllWithin now peers → AgesTrue now peers
AllWithin-AgesTrue now [] small v = tt
AllWithin-AgesTrue now (p ∷ peers) small ((a, b, c), rest) = (
  AgeTrue-intro now p.last_rx_activity_ms a small,
  AgeTrue-intro now p.last_tx_activity_ms b small,
  AgeTrue-intro now p.last_handshake_completed_ms c small,
  AllWithin-AgesTrue now peers small rest,
)

-- The peers between their keepalive and the check of their keys.
abbrev pub all_kept : Sodium → (ℕ → Net) → ℕ → List PeerSession → List PeerSession
all_kept lib net now [] = []
all_kept lib net now (p ∷ peers) =
    (keep_alive lib (net 0) now p).0 ∷ all_kept lib (λ i. net (suc i)) now peers

all_kept-AllWithin :
    (lib : Sodium) (net : ℕ → Net) (now : ℕ) (peers : List PeerSession)
    → AllWithin now peers
    → AllWithin now (all_kept lib net now peers)
all_kept-AllWithin lib net now [] v = tt
all_kept-AllWithin lib net now (p ∷ peers) v = (
  keep_alive-Within lib (net 0) now p v.0,
  all_kept-AllWithin lib (λ i. net (suc i)) now peers v.1,
)

-- The statistics' time through a round, and through the loop.
turn_stats :
    (lib : Sodium) (cfg : Config) (r : Round) (packet : Option (Option Bytes))
    (datagram : Option (Option (SockAddr × Bytes))) (d : Daemon)
    → d.last_stats_ms ≤ r.timer_ms
    → (turn lib cfg r packet datagram d).0.last_stats_ms ≤ r.timer_ms
unfolding turn timer_turn stats_due
turn_stats lib cfg r packet datagram d le = elim (Bool-cases (length cfg.peers == 0)) [
  | inl alone ↦ ground arith
  | inr linked ↦ ground arith
]

main_loop_stats :
    (lib : Sodium) (cfg : Config) (t : ℕ) (rounds : List Round) (d : Daemon)
    → ClockFrom t rounds
    → d.last_stats_ms ≤ t
    → (main_loop lib cfg rounds d).0.last_stats_ms ≤ clock_after t rounds
unfolding main_loop
main_loop_stats lib cfg t [] d clock le = le
main_loop_stats lib cfg t (r ∷ rounds) d (a, b, c, rest) le =
    let grows = clock_after_grows r.timer_ms rounds rest in
    elim (polled_cases r.outcome) [
      | inl signal ↦
          rw (signal, main_loop) (main_loop_stats lib cfg r.timer_ms rounds d rest (omega arith))
      | inr (inl failed) ↦ rw (failed, main_loop) (omega arith)
      | inr (inr (packet, datagram, ready)) ↦
          rw (ready, main_loop)
            (main_loop_stats lib cfg r.timer_ms rounds (turn lib cfg r packet datagram d).0 rest
              (turn_stats lib cfg r packet datagram d (omega arith)))
    ]

-- While the clock does not run back, and stays below 2^64, no subtraction of the timers wraps
-- round, in any round that follows any others: of each of a peer's times, the age that the round
-- computes once it has handled a packet and a datagram is the time that has gone by since; it
-- still is for the peers as their keepalives leave them; and so is the age of the statistics.
pub main_loop-AgesTrue :
    (lib : Sodium) (cfg : Config) (t : ℕ) (rounds : List Round) (d : Daemon) (r : Round)
    (packet : Option (Option Bytes)) (datagram : Option (Option (SockAddr × Bytes)))
    → ClockFrom t rounds
    → AllWithin t d.peers
    → d.last_stats_ms ≤ t
    → ClockFrom (clock_after t rounds) (r ∷ [])
    → r.timer_ms < 2 ^ 64
    → let d' = (main_loop lib cfg rounds d).0 in
      let peers = (udp_turn lib cfg r datagram (tun_turn lib cfg r packet d'.peers).0).0 in
      AgesTrue r.timer_ms peers
      × AgesTrue r.timer_ms (all_kept lib r.timer_net r.timer_ms peers)
      × AgeTrue r.timer_ms d'.last_stats_ms
main_loop-AgesTrue lib cfg t rounds d r packet datagram clock v stats (a, b, c, end) small =
    let d' = (main_loop lib cfg rounds d).0 in
    let tun = tun_turn lib cfg r packet d'.peers in
    let udp = udp_turn lib cfg r datagram tun.0 in
    let v0 = main_loop-AllWithin lib cfg t rounds d clock v in
    let v1 =
      tun_turn-AllWithin lib cfg r packet d'.peers (AllWithin-mono _ r.tun_ms d'.peers a v0) in
    let v2 = udp_turn-AllWithin lib cfg r datagram tun.0 (AllWithin-mono _ r.udp_ms tun.0 b v1) in
    let v3 = AllWithin-mono _ r.timer_ms udp.0 c v2 in
    let le = main_loop_stats lib cfg t rounds d clock stats in
    (
      AllWithin-AgesTrue r.timer_ms udp.0 small v3,
      AllWithin-AgesTrue r.timer_ms (all_kept lib r.timer_net r.timer_ms udp.0) small
          (all_kept-AllWithin lib r.timer_net r.timer_ms udp.0 v3),
      AgeTrue-intro r.timer_ms d'.last_stats_ms (omega arith) small,
    )
