-- ===== src/Main.antt =====
-- src/main.c: `main` as a whole, from its first line to its return. Logging is left out.
pub mod Exit
pub mod Outcome
use edgar_vpn.Prelude.{
  ℕ, Bool, true, false, Option, none, some, List, [], ◌∷◌, ◌++◌, Bytes, if◌then◌else◌,
}
use edgar_vpn.Sodium.{Sodium}
use edgar_vpn.Crypto.{crypto_init}
use edgar_vpn.Config.{Config}
use edgar_vpn.Config.Values.{Inet}
use edgar_vpn.Config.Load.{config_load}
use edgar_vpn.Peer.State.{PeerSession, Effect}
use edgar_vpn.Peer.Startup.{Moment, start_up}
use edgar_vpn.Peer.Loop.{Round, main_loop}
use edgar_vpn.Peer.Loop.Signals.{Happening, rounds_while}
use edgar_vpn.System.{System}
use edgar_vpn.Tun.{TunDevice, tun_open, tun_configure, tun_close}
use edgar_vpn.Udp.{UdpSocket, udp_bind, udp_close}

-- `DEFAULT_CONFIG_PATH`
abbrev pub default_config_path : Bytes
default_config_path =
    47 ∷ 101 ∷ 116 ∷ 99 ∷ 47 ∷ 101 ∷ 100 ∷ 103 ∷ 97 ∷ 114 ∷ 118 ∷ 112 ∷ 110 ∷ 47 ∷ 101 ∷ 100 ∷ 103
    ∷ 97 ∷ 114 ∷ 118 ∷ 112 ∷ 110 ∷ 46 ∷ 99 ∷ 111 ∷ 110 ∷ 102 ∷ []

-- The path that CONFIG_FILE gives, `none` where it is not set.
unfoldable pub config_path : Option Bytes → Bytes
config_path none = default_config_path
config_path (some []) = default_config_path
config_path (some (c ∷ path)) = c ∷ path

-- What a run of the program meets: the environment and the files, the moments of the start-up, the
-- clock before the loop, and what happens from then on.
pub record Run : Type 0 where
  pub config_file : Option Bytes
  pub files : Bytes → Option Bytes
  pub moments : ℕ → Moment
  pub stats_ms : ℕ
  pub happenings : List Happening

-- The rounds of the loop that begin: `g_running` is set at first.
abbrev pub rounds_of : Run → List Round
rounds_of run = rounds_while true run.happenings

module _ (lib : Sodium) (inet : Inet) (sys : System) where
  -- The exit status, what left the daemon, and the state of the system.
  abbrev pub Exit : Type 0
  Exit = ℕ × List Effect × sys.State

  -- `udp_close(&udp); tun_close(&tun);`
  unfoldable pub shut_down : UdpSocket → TunDevice → sys.State → sys.State
  unfolding udp_close tun_close
  shut_down udp tun s = (tun_close sys tun (udp_close sys udp s).1).1

  module _ (run : Run) where
    -- From the peers on.
    unfoldable pub serve : Config → TunDevice → UdpSocket → sys.State → Exit
    unfolding start_up main_loop shut_down
    serve cfg tun udp s =
        let (started, out) = start_up lib run.moments cfg in
        let s' = sys.traffic out s in
        elim started [
          | none ↦ (1, out, shut_down udp tun s')
          | some peers ↦
              let (d, more) =
                main_loop lib cfg (rounds_of run)
                  (record { peers = peers; last_stats_ms = run.stats_ms }) in
              (0, out ++ more, shut_down udp tun (sys.traffic more s'))
        ]

    -- From `tun_configure` on.
    unfoldable pub set_up : Config → TunDevice → sys.State → Exit
    unfolding tun_configure udp_bind serve tun_close
    set_up cfg tun s =
        let (configured, s') = tun_configure sys inet tun cfg.tun_address cfg.tun_netmask s in
        elim configured [
          | none ↦ (1, [], (tun_close sys tun s').1)
          | some done ↦
              let (bound, opened) = udp_bind sys cfg.listen_port s' in
              let (udp, s'') = opened in
              if bound then serve cfg tun udp s'' else (1, [], (tun_close sys tun s'').1)
        ]

    -- From `tun_open` on.
    unfoldable pub open_up : Config → sys.State → Exit
    unfolding tun_open set_up
    open_up cfg s =
        let (opened, made) = tun_open sys (some cfg.tun_name) s in
        let (tun, s') = made in if opened then set_up cfg tun s' else (1, [], s')

    -- `main`
    unfoldable pub main : sys.State → Exit
    unfolding config_load open_up config_path crypto_init
    main s =
        if crypto_init lib
        then elim (config_load lib inet (run.files (config_path run.config_file))) [
          | none ↦ (1, [], s)
          | some cfg ↦ open_up cfg s
        ]
        else (1, [], s)
