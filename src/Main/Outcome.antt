-- ===== src/Main/Outcome.antt =====
-- src/main.c: what `main` returns, and what has left the daemon by then.
use edgar_vpn.Prelude.{
  Bool, true, false, ℕ, ◌+◌, ◌*◌, ◌^◌, ◌<◌, ◌≡◌, refl, Option, none, some, inl, inr, ◌⊎◌, List, [],
  ◌++◌, Bool-cases, Option-cases, length, arith,
}
use edgar_vpn.Sodium.{Sodium}
use edgar_vpn.Crypto.{crypto_init, derive_public_key}
use edgar_vpn.Config.{Config}
use edgar_vpn.Config.Values.{Inet}
use edgar_vpn.Config.Load.{config_load}
use edgar_vpn.Peer.State.{PeerSession, Effect}
use edgar_vpn.Peer.Startup.{start_up}
use edgar_vpn.Peer.Loop.{Daemon, main_loop}
use edgar_vpn.Peer.Loop.Unique.{AllUnique, daemon_IsUnique}
use edgar_vpn.Peer.History.{Histories, AllYielded}
use edgar_vpn.Peer.History.Startup.{all_initialized}
use edgar_vpn.System.{System}
use edgar_vpn.Tun.{TunDevice, tun_open, tun_configure}
use edgar_vpn.Udp.{UdpSocket, udp_bind}
use edgar_vpn.Main.{Run, rounds_of, config_path, serve, set_up, open_up, main}

module _ (lib : Sodium) (inet : Inet) (sys : System) (run : Run) where
  -- The configuration of a run, where it loads.
  abbrev pub loaded : Option Config
  loaded = config_load lib inet (run.files (config_path run.config_file))

  abbrev pub begun : Config → Option (List PeerSession) × List Effect
  begun cfg = start_up lib run.moments cfg

  abbrev pub lived : Config → List PeerSession → Daemon × List Effect
  lived cfg peers =
      main_loop lib cfg (rounds_of run) (record { peers = peers; last_stats_ms = run.stats_ms })

  -- The loop was reached: all that was sent comes from the start-up and the loop.
  abbrev pub Served : Config → ℕ → List Effect → Type 0
  Served cfg status out =
      (status ≡ 0)
      × (peers : List PeerSession) × ((begun cfg).0 ≡ some peers)
      × (out ≡ (begun cfg).1 ++ (lived cfg peers).1)

  -- It was not: only what went before the peer that does not start was sent.
  abbrev pub Refused : Config → ℕ → List Effect → Type 0
  Refused cfg status out = (status ≡ 1) × ((begun cfg).0 ≡ none) × (out ≡ (begun cfg).1)

  abbrev pub configured : Config → TunDevice → sys.State → Option ℕ × sys.State
  configured cfg tun s = tun_configure sys inet tun cfg.tun_address cfg.tun_netmask s

  abbrev pub bound : Config → TunDevice → sys.State → Bool × (UdpSocket × sys.State)
  bound cfg tun s = udp_bind sys cfg.listen_port (configured cfg tun s).1

  -- With the device open: it is configured and the socket bound, or the first of the two that
  -- fails.
  abbrev pub Ready : Config → TunDevice → sys.State → Type 0
  Ready cfg tun s =
      (done : ℕ) × ((configured cfg tun s).0 ≡ some done) × ((bound cfg tun s).0 ≡ true)

  abbrev pub Broken : Config → TunDevice → sys.State → Type 0
  Broken cfg tun s =
      ((configured cfg tun s).0 ≡ none)
      ⊎ ((done : ℕ) × ((configured cfg tun s).0 ≡ some done) × ((bound cfg tun s).0 ≡ false))

  abbrev pub SetUp : Config → TunDevice → sys.State → ℕ → List Effect → Type 0
  SetUp cfg tun s status out =
      (Ready cfg tun s × (Served cfg status out ⊎ Refused cfg status out))
      ⊎ (Broken cfg tun s × (status ≡ 1) × (out ≡ []))

  abbrev pub opened : Config → sys.State → Bool × (TunDevice × sys.State)
  opened cfg s = tun_open sys (some cfg.tun_name) s

  abbrev pub Outcome : Config → sys.State → ℕ → List Effect → Type 0
  Outcome cfg s status out =
      (((opened cfg s).0 ≡ true) × SetUp cfg (opened cfg s).1.0 (opened cfg s).1.1 status out)
      ⊎ (((opened cfg s).0 ≡ false) × (status ≡ 1) × (out ≡ []))

  serve-Outcome :
      (cfg : Config) (tun : TunDevice) (udp : UdpSocket) (s : sys.State)
      → let e = serve lib inet sys run cfg tun udp s in Served cfg e.0 e.1 ⊎ Refused cfg e.0 e.1
  unfolding serve
  serve-Outcome cfg tun udp s = elim (Option-cases (begun cfg).0) [
    | inl fails ↦ rw (fails, serve) (inr (refl, refl, refl))
    | inr (peers, goes) ↦ rw (goes, serve) (inl (refl, peers, refl, refl))
  ]

  set_up-Outcome :
      (cfg : Config) (tun : TunDevice) (s : sys.State)
      → let e = set_up lib inet sys run cfg tun s in SetUp cfg tun s e.0 e.1
  unfolding set_up
  set_up-Outcome cfg tun s = elim (Option-cases (configured cfg tun s).0) [
    | inl fails ↦ rw (fails, set_up) (inr (inl refl, refl, refl))
    | inr (done, goes) ↦ elim (Bool-cases (bound cfg tun s).0) [
      | inl binds ↦
          let b = bound cfg tun s in
          rw (goes, binds, set_up) (inl ((done, refl, refl), serve-Outcome cfg tun b.1.0 b.1.1))
      | inr taken ↦ rw (goes, taken, set_up) (inr (inr (done, refl, refl), refl, refl))
    ]
  ]

  open_up-Outcome :
      (cfg : Config) (s : sys.State)
      → let e = open_up lib inet sys run cfg s in Outcome cfg s e.0 e.1
  unfolding open_up
  open_up-Outcome cfg s =
      let o = opened cfg s in
      elim (Bool-cases o.0) [
        | inl goes ↦ rw (goes, open_up) (inl (refl, set_up-Outcome cfg o.1.0 o.1.1))
        | inr fails ↦ rw (fails, open_up) (inr (refl, refl, refl))
      ]

  -- `main` ends in one of four ways. Libsodium does not initialize, or no configuration loads: the
  -- status is 1 and nothing was sent. With a configuration, one of the TUN device, its addresses
  -- and the UDP socket is the first that the system refuses: again 1 and nothing. The three are
  -- granted, and a peer's session cannot be initialized: 1, and what was sent went out before
  -- that. Or all sessions are initialized: 0, and what was sent is what the start-up and the loop
  -- sent.
  pub main-Outcome :
      (s : sys.State)
      → let e = main lib inet sys run s in
        ((cfg : Config) × (crypto_init lib ≡ true) × (loaded ≡ some cfg) × Outcome cfg s e.0 e.1)
        ⊎ (((crypto_init lib ≡ false) ⊎ (loaded ≡ none)) × (e.0 ≡ 1) × (e.1 ≡ []))
  unfolding main
  main-Outcome s = elim (Bool-cases (crypto_init lib)) [
    | inr broken ↦ rw (broken, main) (inr (inl refl, refl, refl))
    | inl ready ↦ elim (Option-cases loaded) [
      | inl refused ↦ rw (ready, refused, main) (inr (inr refl, refl, refl))
      | inr (cfg, fits) ↦ rw (ready, fits, main) (inl (cfg, refl, refl, open_up-Outcome cfg s))
    ]
  ]

-- All that was sent is yielded by histories of session operations in which no counter is used
-- twice.
abbrev pub AllFromHistories : (lib : Sodium) → Run → Config → List Effect → Type 0
AllFromHistories lib run cfg out =
    let fresh =
      all_initialized lib cfg.private_key (derive_public_key lib cfg.private_key) run.moments
        cfg.peers in
    (h : Histories) × AllYielded lib fresh h out × AllUnique lib fresh h

module _ (lib : Sodium) (inet : Inet) (run : Run) where
  abbrev Early : Type 0
  Early = (i : ℕ) → (run.moments i).wall + (2 + 5 * length (rounds_of run)) < 2 ^ 64

  Served-AllFromHistories :
      (sys : System) (cfg : Config) (status : ℕ) (out : List Effect)
      → Early
      → Served lib inet sys run cfg status out
      → AllFromHistories lib run cfg out
  Served-AllFromHistories sys cfg status out early (zero_status, peers, goes, all) =
      let (h, v, yielded, unique) =
        daemon_IsUnique lib run.moments cfg run.stats_ms (rounds_of run) goes early in
      rw all (h, yielded, unique)

-- When `main` returns 0, a configuration was loaded, and every message that was sent and every
-- packet that was written to the TUN device comes from histories of session operations, one for
-- each of its peers. While clock and rounds leave the counters below 2^64, the messages that a
-- history seals under one key all carry different counters, and so do those that it accepts; and
-- each was encrypted under the key of its kind with the nonce of its counter.
pub main-AllFromHistories :
    (lib : Sodium) (inet : Inet) (sys : System) (run : Run) (s : sys.State)
    → ((i : ℕ) → (run.moments i).wall + (2 + 5 * length (rounds_of run)) < 2 ^ 64)
    → (main lib inet sys run s).0 ≡ 0
    → (cfg : Config) × (config_load lib inet (run.files (config_path run.config_file)) ≡ some cfg)
      × AllFromHistories lib run cfg (main lib inet sys run s).1
main-AllFromHistories lib inet sys run s early well = elim (main-Outcome lib inet sys run s) [
  | inl (cfg, init, fits, inl (opens, inl (ready, inl served))) ↦
      (cfg, fits, Served-AllFromHistories lib inet run sys cfg _ _ early served)
  | inl (cfg, init, fits, inl (opens, inl (ready, inr (failed, none_up, out)))) ↦
      absurd (ground arith)
  | inl (cfg, init, fits, inl (opens, inr (broken, failed, out))) ↦ absurd (ground arith)
  | inl (cfg, init, fits, inr (shut, failed, out)) ↦ absurd (ground arith)
  | inr (cause, failed, out) ↦ absurd (ground arith)
]
