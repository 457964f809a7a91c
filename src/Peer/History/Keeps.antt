-- ===== src/Peer/History/Keeps.antt =====
-- What every operation keeps of a session holds of the sessions of the daemon, always.
use edgar_vpn.Prelude.{ℕ, suc, ◌*◌, ◌≡◌, sym, true, some, List, [], ◌∷◌, Bytes, length}
use mathlib.Core.Path.{subst}
use edgar_vpn.Sodium.{Sodium}
use edgar_vpn.Crypto.{Role, derive_public_key}
use edgar_vpn.Config.{Config, ConfigPeer}
use edgar_vpn.Session.State.{Session}
use edgar_vpn.Session.Handshake.{session_init}
use edgar_vpn.Session.Trace.{Op, step, run}
use edgar_vpn.Peer.State.{PeerSession}
use edgar_vpn.Peer.Startup.{Moment, start_up}
use edgar_vpn.Peer.Loop.{Round, Daemon, main_loop}
use edgar_vpn.Peer.History.{Histories, later, Follows}
use edgar_vpn.Peer.History.Startup.{all_initialized, AllReady, start_up-ActsOnAll}
use edgar_vpn.Peer.History.Rounds.{main_loop-ActsOnAll}

abbrev pub AllSessions : (Session → Type 0) → List PeerSession → Type 0
AllSessions Holds [] = Unit
AllSessions Holds (p ∷ peers) = Holds p.session × AllSessions Holds peers

-- A property of sessions that every operation keeps.
module _ (lib : Sodium) (Holds : Session → Type 0)
    (step_keeps : (s : Session) (op : Op) → Holds s → Holds (step lib s op).0) where
  pub run_keeps : (s : Session) (ops : List Op) → Holds s → Holds (run lib s ops).0
  unfolding run
  run_keeps s [] v = v
  run_keeps s (op ∷ ops) v = run_keeps (step lib s op).0 ops (step_keeps s op v)

  pub Follows-AllSessions :
      (n : ℕ) (peers : List PeerSession) (h : Histories) (after : List PeerSession)
      → Follows lib n peers h after
      → AllSessions Holds peers
      → AllSessions Holds after
  Follows-AllSessions n [] h [] v all = tt
  Follows-AllSessions n [] h (q ∷ after) v all = absurd v
  Follows-AllSessions n (p ∷ peers) h [] v all = absurd v
  Follows-AllSessions n (p ∷ peers) h (q ∷ after) v all = (
    subst Holds (sym v.1) (run_keeps p.session (h 0) all.0),
    Follows-AllSessions n peers (later h) after v.3 all.1,
  )

  module _
      (fresh_holds : (now seed : ℕ) (role : Role) (pk sk peer : Bytes)
        → (session_init lib now seed role pk sk peer).1 ≡ true
        → Holds (session_init lib now seed role pk sk peer).0) where
    pub AllReady-AllSessions :
        (sk pk : Bytes) (now : ℕ → Moment) (configs : List ConfigPeer)
        → AllReady lib sk pk now configs
        → AllSessions Holds (all_initialized lib sk pk now configs)
    AllReady-AllSessions sk pk now [] ready = tt
    AllReady-AllSessions sk pk now (config ∷ configs) ready = (
      fresh_holds (now 0).wall (now 0).first_seed config.role pk sk config.public_key ready.0,
      AllReady-AllSessions sk pk (λ i. now (suc i)) configs ready.1,
    )

    -- From the start-up on, through any rounds of the loop.
    pub daemon_keeps :
        (now : ℕ → Moment) (cfg : Config) (stats : ℕ) (rounds : List Round)
        {peers : List PeerSession}
        → (start_up lib now cfg).0 ≡ some peers
        → AllSessions Holds
            (main_loop lib cfg rounds (record { peers = peers; last_stats_ms = stats })).0.peers
    daemon_keeps now cfg stats rounds {peers} e =
        let sk = cfg.private_key in
        let pk = derive_public_key lib sk in
        let d : Daemon = record { peers = peers; last_stats_ms = stats } in
        let (ready, begun) = start_up-ActsOnAll lib now cfg e in
        let (h, begins, sent) = begun in
        let (k, goes_on, more) = main_loop-ActsOnAll lib cfg rounds d in
        Follows-AllSessions (5 * length rounds) peers k (main_loop lib cfg rounds d).0.peers goes_on
          (Follows-AllSessions 2 (all_initialized lib sk pk now cfg.peers) h peers begins
            (AllReady-AllSessions sk pk now cfg.peers ready))
