-- ===== src/Main/Exit.antt =====
-- src/main.c: the descriptors when `main` returns.
use edgar_vpn.Prelude.{ℕ, refl, Bool, some, inl, inr, Bool-cases, Option-cases}
use edgar_vpn.Sodium.{Sodium}
use edgar_vpn.Crypto.{crypto_init}
use edgar_vpn.Config.{Config}
use edgar_vpn.Config.Values.{Inet}
use edgar_vpn.Config.Load.{config_load}
use edgar_vpn.Peer.Startup.{start_up}
use edgar_vpn.System.{System}
use edgar_vpn.System.Laws.{Laws, Same}
use edgar_vpn.System.Cleanup.{Back, Holds, Same-Holds}
use edgar_vpn.Tun.{TunDevice, tun_open, tun_configure}
use edgar_vpn.Tun.Cleanup.{tun_open-Holds, tun_configure-Same, tun_close-Back}
use edgar_vpn.Udp.{UdpSocket, udp_bind, udp_close}
use edgar_vpn.Udp.Cleanup.{udp_bind-Holds, udp_close-Back}
use edgar_vpn.Main.{Run, config_path, shut_down, serve, set_up, open_up, main}

module _ (lib : Sodium) (inet : Inet) (sys : System) (laws : Laws sys) where
  shut_down-Back :
      (f : ℕ → Bool) (tun : TunDevice) (udp : UdpSocket) (before s : sys.State)
      → Holds sys f tun.fd before
      → Holds sys (sys.is_open before) udp.fd s
      → Back sys f (shut_down lib inet sys udp tun s)
  unfolding shut_down
  shut_down-Back f tun udp before s tun_holds udp_holds =
      let closed = (udp_close sys udp s).1 in
      tun_close-Back sys laws f tun closed (
        Same-Holds sys f tun.fd before closed
          (udp_close-Back sys laws (sys.is_open before) udp s udp_holds) tun_holds)

  module _ (run : Run) (f : ℕ → Bool) where
    serve-Back :
        (cfg : Config) (tun : TunDevice) (udp : UdpSocket) (before s : sys.State)
        → Holds sys f tun.fd before
        → Holds sys (sys.is_open before) udp.fd s
        → Back sys f (serve lib inet sys run cfg tun udp s).2
    unfolding serve
    serve-Back cfg tun udp before s tun_holds udp_holds =
        let begun = start_up lib run.moments cfg in
        let s' = sys.traffic begun.1 s in
        let still =
          Same-Holds sys (sys.is_open before) udp.fd s s' (laws.traffic-Same begun.1 s) udp_holds in
        elim (Option-cases begun.0) [
          | inl fails ↦ rw (fails, serve) (shut_down-Back f tun udp before s' tun_holds still)
          | inr (peers, goes) ↦
              rw (goes, serve)
                (shut_down-Back f tun udp before _ tun_holds
                  (Same-Holds sys (sys.is_open before) udp.fd s' _ (laws.traffic-Same _ s') still))
        ]

    set_up-Back :
        (cfg : Config) (tun : TunDevice) (s : sys.State)
        → Holds sys f tun.fd s
        → Back sys f (set_up lib inet sys run cfg tun s).2
    unfolding set_up
    set_up-Back cfg tun s holds =
        let made = tun_configure sys inet tun cfg.tun_address cfg.tun_netmask s in
        let holds' =
          Same-Holds sys f tun.fd s made.1
            (tun_configure-Same sys laws inet tun cfg.tun_address cfg.tun_netmask s) holds in
        let bound = udp_bind sys cfg.listen_port made.1 in
        let v = udp_bind-Holds sys laws (sys.is_open made.1) cfg.listen_port made.1 (λ x. refl) in
        elim (Option-cases made.0) [
          | inl fails ↦ rw (fails, set_up) (tun_close-Back sys laws f tun made.1 holds')
          | inr (done, goes) ↦ elim (Bool-cases bound.0) [
            | inl binds ↦
                rw (goes, binds, set_up) (serve-Back cfg tun bound.1.0 made.1 bound.1.1 holds' v.0)
            | inr refused ↦
                rw (goes, refused, set_up)
                  (tun_close-Back sys laws f tun bound.1.1
                    (Same-Holds sys f tun.fd made.1 bound.1.1 (v.1 refused) holds'))
          ]
        ]

    open_up-Back :
        (cfg : Config) (s : sys.State)
        → Back sys f s
        → Back sys f (open_up lib inet sys run cfg s).2
    unfolding open_up
    open_up-Back cfg s back =
        let opened = tun_open sys (some cfg.tun_name) s in
        let v = tun_open-Holds sys laws f (some cfg.tun_name) s back in
        elim (Bool-cases opened.0) [
          | inl goes ↦ rw (goes, open_up) (set_up-Back cfg opened.1.0 opened.1.1 v.0)
          | inr fails ↦ rw (fails, open_up) (v.1 fails)
        ]

-- Whatever the system, the files and the peers answer, when `main` returns the descriptors are
-- open that were open when it began, and no other: the TUN device and the UDP socket are closed
-- on every path, and only where they are open.
pub main-Same :
    (lib : Sodium) (inet : Inet) (sys : System) (laws : Laws sys) (run : Run) (s : sys.State)
    → Same (sys.is_open s) (sys.is_open (main lib inet sys run s).2)
unfolding main
main-Same lib inet sys laws run s = elim (Bool-cases (crypto_init lib)) [
  | inr broken ↦ rw (broken, main) (λ x. refl)
  | inl ready ↦
      elim (Option-cases (config_load lib inet (run.files (config_path run.config_file)))) [
        | inl refused ↦ rw (ready, refused, main) (λ x. refl)
        | inr (cfg, loaded) ↦
            rw (ready, loaded, main)
              (open_up-Back lib inet sys laws run (sys.is_open s) cfg s (λ x. refl))
      ]
]
