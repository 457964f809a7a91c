-- ===== src/Peer/Loop/Unique.antt =====
-- The whole life of the daemon: its start-up and any rounds of its loop.
use edgar_vpn.Prelude.{
  ℕ, suc, ◌+◌, ◌*◌, ◌^◌, ◌<◌, ◌≡◌, some, List, [], ◌∷◌, ◌++◌, Bytes, arith, length,
}
use edgar_vpn.Sodium.{Sodium}
use edgar_vpn.Crypto.{derive_public_key}
use edgar_vpn.Config.{Config, ConfigPeer}
use edgar_vpn.Session.Trace.{run, IsUnique, AllSealed, empty_ledger}
use edgar_vpn.Session.Trace.Unique.{session_IsUnique}
use edgar_vpn.Peer.State.{PeerSession}
use edgar_vpn.Peer.Startup.{Moment, start_up}
use edgar_vpn.Peer.Loop.{Round, Daemon, main_loop}
use edgar_vpn.Peer.History.{Histories, later, Follows, AllYielded}
use edgar_vpn.Peer.History.Compose.{ActsOnAll-then}
use edgar_vpn.Peer.History.Startup.{all_initialized, AllReady, start_up-ActsOnAll}
use edgar_vpn.Peer.History.Rounds.{main_loop-ActsOnAll}

-- No operation on any of the sessions uses a counter that was used under the same key, and each
-- message is encrypted under its key with the nonce of the counter that it carries.
abbrev pub AllUnique : Sodium → List PeerSession → Histories → Type 0
AllUnique lib [] h = Unit
AllUnique lib (p ∷ peers) h =
    (IsUnique empty_ledger (run lib p.session (h 0)).1 × AllSealed lib p.session (h 0))
    × AllUnique lib peers (later h)

Follows-AllUnique :
    (lib : Sodium) (sk pk : Bytes) (n : ℕ) (now : ℕ → Moment) (configs : List ConfigPeer)
    (h : Histories) (peers : List PeerSession)
    → AllReady lib sk pk now configs
    → ((i : ℕ) → (now i).wall + n < 2 ^ 64)
    → Follows lib n (all_initialized lib sk pk now configs) h peers
    → AllUnique lib (all_initialized lib sk pk now configs) h
Follows-AllUnique lib sk pk n now [] h peers ready early v = tt
Follows-AllUnique lib sk pk n now (config ∷ configs) h [] ready early v = absurd v
Follows-AllUnique lib sk pk n now (config ∷ configs) h (p ∷ peers) ready early (few, s, c, rest) =
    let bound = early 0 in
    (
      session_IsUnique lib (now 0).wall (now 0).first_seed config.role pk sk config.public_key (h 0)
          ready.0 (omega arith),
      Follows-AllUnique lib sk pk n (λ i. now (suc i)) configs (later h) peers ready.1
          (λ i. early (suc i)) rest,
    )

-- From its start-up on, through any rounds of its loop and whatever comes from the network, the
-- daemon is a history of session operations for each peer, at most two and five more for each
-- round. Every message that it sends was built, and every packet that it writes to the TUN device
-- was accepted, by one of these operations. While clock and rounds leave the counters below 2^64,
-- the messages that a history seals under one key all carry different counters, and so do those
-- that it accepts; and each was encrypted under the key of its kind with the nonce of its counter.
pub daemon_IsUnique :
    (lib : Sodium) (now : ℕ → Moment) (cfg : Config) (stats : ℕ) (rounds : List Round)
    {peers : List PeerSession}
    → (start_up lib now cfg).0 ≡ some peers
    → ((i : ℕ) → (now i).wall + (2 + 5 * length rounds) < 2 ^ 64)
    → let fresh =
        all_initialized lib cfg.private_key (derive_public_key lib cfg.private_key) now cfg.peers in
      let life = main_loop lib cfg rounds (record { peers = peers; last_stats_ms = stats }) in
      (h : Histories) × Follows lib (2 + 5 * length rounds) fresh h life.0.peers
      × AllYielded lib fresh h ((start_up lib now cfg).1 ++ life.1)
      × AllUnique lib fresh h
daemon_IsUnique lib now cfg stats rounds {peers} e early =
    let sk = cfg.private_key in
    let pk = derive_public_key lib sk in
    let fresh = all_initialized lib sk pk now cfg.peers in
    let d : Daemon = record { peers = peers; last_stats_ms = stats } in
    let life = main_loop lib cfg rounds d in
    let (ready, begun) = start_up-ActsOnAll lib now cfg e in
    let (h, v, all) =
      ActsOnAll-then lib 2 (5 * length rounds) fresh peers life.0.peers (start_up lib now cfg).1
        life.1 begun (main_loop-ActsOnAll lib cfg rounds d) in
    (
      h,
      v,
      all,
      Follows-AllUnique lib sk pk (2 + 5 * length rounds) now cfg.peers h life.0.peers ready early
          v,
    )
