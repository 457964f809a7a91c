-- ===== src/Peer/Sessions.antt =====
-- src/main.c: what holds of every session of the daemon, always.
use edgar_vpn.Prelude.{ℕ, ◌≡◌, some, List}
use edgar_vpn.Sodium.{Sodium, Laws}
use edgar_vpn.Config.{Config}
use edgar_vpn.Session.Lifecycle.Secrets.{IsWiped, session_init-IsWiped}
use edgar_vpn.Session.Lifecycle.Wiped.{step-IsWiped}
use edgar_vpn.Peer.State.{PeerSession}
use edgar_vpn.Peer.Startup.{Moment, start_up}
use edgar_vpn.Peer.Loop.{Round, main_loop}
use edgar_vpn.Peer.History.Keeps.{AllSessions, daemon_keeps}

-- After the start-up and any rounds of the loop, whatever came from the network: a session whose
-- handshake is pending holds an ephemeral key pair as it was generated, and of an established
-- session the ephemeral secret key is wiped, and only its public key is still a generated one.
pub daemon-AllWiped :
    (lib : Sodium) (laws : Laws lib) (now : ℕ → Moment) (cfg : Config) (stats : ℕ)
    (rounds : List Round) {peers : List PeerSession}
    → (start_up lib now cfg).0 ≡ some peers
    → AllSessions
        (IsWiped lib)
        (main_loop lib cfg rounds (record { peers = peers; last_stats_ms = stats })).0.peers
daemon-AllWiped lib laws now cfg stats rounds e =
    daemon_keeps lib (IsWiped lib) (step-IsWiped lib laws) (session_init-IsWiped lib) now cfg stats
      rounds e
