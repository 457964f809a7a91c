-- ===== src/Peer/Loop.antt =====
-- src/main.c: the poll loop. A round is what the system answers while it runs; the rounds of a list
-- are those that begin before a signal clears `g_running`.
pub mod Unique
pub mod Clock
pub mod Ages
pub mod Monotonic
pub mod Signals
use edgar_vpn.Prelude.{
  ℕ, Option, none, some, List, [], ◌∷◌, ◌++◌, Bytes, ◌==◌, if◌then◌else◌, length, take,
}
use edgar_vpn.Sodium.{Sodium}
use edgar_vpn.Config.{Config}
use edgar_vpn.Peer.State.{PeerSession, SockAddr, Net, Effect, max_packet_size, sealed_buf_size}
use edgar_vpn.Peer.Outbound.{handle_tun}
use edgar_vpn.Peer.Inbound.{handle_udp}
use edgar_vpn.Peer.Timers.{tick, stats_due}

-- The outcome of `poll`: a signal, another error, or what is there to be read. For each of the two
-- descriptors, `none` is no POLLIN, and `some none` a read that fails.
pub data Polled : Type 0 where
  interrupted poll_failed : Polled
  polled : Option (Option Bytes) → Option (Option (SockAddr × Bytes)) → Polled

-- One round: the times of `monotonic_ms()`, the answers of the network and the random bits, for
-- the handler of either descriptor and for the timers.
pub record Round : Type 0 where
  pub outcome : Polled
  pub tun_ms : ℕ
  pub udp_ms : ℕ
  pub timer_ms : ℕ
  pub tun_net : Net
  pub udp_net : Net
  pub timer_net : ℕ → Net
  pub udp_seed : ℕ → ℕ
  pub timer_seed : ℕ → ℕ

-- The local variables that a round changes.
pub record Daemon : Type 0 where
  pub peers : List PeerSession
  pub last_stats_ms : ℕ

module _ (lib : Sodium) (cfg : Config) where
  -- A read fills at most the buffer.
  unfoldable pub tun_turn :
      Round → Option (Option Bytes) → List PeerSession → List PeerSession × List Effect
  unfolding handle_tun
  tun_turn r none peers = (peers, [])
  tun_turn r (some none) peers = (peers, [])
  tun_turn r (some (some packet)) peers =
      handle_tun lib r.tun_net r.tun_ms (take max_packet_size packet) cfg peers

  unfoldable pub udp_turn :
      Round → Option (Option (SockAddr × Bytes)) → List PeerSession → List PeerSession × List Effect
  unfolding handle_udp
  udp_turn r none peers = (peers, [])
  udp_turn r (some none) peers = (peers, [])
  udp_turn r (some (some (from, input))) peers =
      handle_udp lib r.udp_net r.udp_seed r.udp_ms from (take sealed_buf_size input) cfg peers

  unfoldable pub timer_turn : Round → Daemon → Daemon × List Effect
  unfolding tick stats_due
  timer_turn r d =
      if length cfg.peers == 0
      then (d, [])
      else let (peers, out) = tick lib r.timer_net r.timer_seed r.timer_ms d.peers in
        (record { peers = peers; last_stats_ms = stats_due r.timer_ms d.last_stats_ms }, out)

  -- The body of the loop behind `poll`.
  unfoldable pub turn :
      Round
      → Option (Option Bytes)
      → Option (Option (SockAddr × Bytes))
      → Daemon
      → Daemon × List Effect
  unfolding tun_turn udp_turn timer_turn
  turn r packet datagram d =
      let (peers, out) = tun_turn r packet d.peers in
      let (peers', out') = udp_turn r datagram peers in
      let (d', out'') = timer_turn r (record d { peers = peers' }) in (d', out ++ (out' ++ out''))

  -- The loop, to the end of the rounds or an error of `poll`.
  unfoldable pub main_loop : List Round → Daemon → Daemon × List Effect
  unfolding turn
  main_loop [] d = (d, [])
  main_loop (r ∷ rounds) d = elim r.outcome [
    | interrupted ↦ main_loop rounds d
    | poll_failed ↦ (d, [])
    | polled packet datagram ↦
        let (d', out) = turn r packet datagram d in
        let (d'', more) = main_loop rounds d' in (d'', out ++ more)
  ]
