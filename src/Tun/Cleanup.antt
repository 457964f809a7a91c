-- ===== src/Tun/Cleanup.antt =====
-- src/tun.c: the descriptors behind `tun_open` and `tun_configure`.
use mathlib.Core.Path.{subst}
use edgar_vpn.Prelude.{false, ℕ, ◌≡◌, refl, Bool, Option, none, some, inl, inr, Bytes, Option-cases}
use edgar_vpn.Config.Values.{Inet}
use edgar_vpn.System.{System, tunsetiff, siocsifaddr, siocsifnetmask, siocgifflags, siocsifflags}
use edgar_vpn.System.Hoare.{Ends, Triple, bind-Triple}
use edgar_vpn.System.Laws.{Laws, Same}
use edgar_vpn.System.Cleanup.{
  Back, Held, or_close-Held, Held-close, Holds, socket-Held, open_tun-Held,
}
use edgar_vpn.Tun.{
  TunDevice, tun_request, opened_tun, tun_open, tun_close, set_ifreq_ipv4, tun_configure,
}

module _ (sys : System) (laws : Laws sys) where
  set_ifreq_ipv4-Same :
      (inet : Inet) (text : Bytes) (s : sys.State)
      → Same (sys.is_open s) (sys.is_open (set_ifreq_ipv4 sys inet text s).1)
  unfolding set_ifreq_ipv4
  set_ifreq_ipv4-Same inet text s x = elim (Option-cases (inet.inet_pton text)) [
    | inl bad ↦ rw (bad, set_ifreq_ipv4) (laws.set_errno-Same 22 s x)
    | inr (a, good) ↦ rw (good, set_ifreq_ipv4) refl
  ]

  tun_configure-Back :
      (f : ℕ → Bool) (inet : Inet) (dev : TunDevice) (ipv4_address netmask : Bytes)
      → Triple
          (Back sys f)
          (Back sys f)
          (tun_configure sys inet dev ipv4_address netmask)
          (λ done. Back sys f)
  unfolding tun_configure
  tun_configure-Back f inet dev ipv4_address netmask = bind-Triple (socket-Held sys f laws) (λ sock.
      bind-Triple (or_close-Held sys f laws _ (set_ifreq_ipv4-Same inet ipv4_address)) (λ addr.
        bind-Triple (or_close-Held sys f laws _ (laws.ioctl-Same sock siocsifaddr _)) (λ ifr.
          bind-Triple (or_close-Held sys f laws _ (set_ifreq_ipv4-Same inet netmask)) (λ mask.
            bind-Triple (or_close-Held sys f laws _ (laws.ioctl-Same sock siocsifnetmask _))
              (λ masked.
                bind-Triple (or_close-Held sys f laws _ (laws.ioctl-Same sock siocgifflags _))
                  (λ got.
                    bind-Triple (or_close-Held sys f laws _ (laws.ioctl-Same sock siocsifflags _))
                      (λ raised. record { run = λ s held. Held-close sys f laws sock s held })))))))

  tun_request-Held :
      (f : ℕ → Bool) (name_hint : Option Bytes)
      → Triple (Back sys f) (Back sys f) (tun_request sys name_hint) (λ opened. Held sys f opened.0)
  unfolding tun_request
  tun_request-Held f name_hint = bind-Triple (open_tun-Held sys f laws) (λ fd.
      bind-Triple (or_close-Held sys f laws _ (laws.ioctl-Same fd tunsetiff _))
        (λ ifr. record { run = λ s held. held }))

  opened_tun-Holds :
      (f : ℕ → Bool) (r : Option (ℕ × Bytes) × sys.State)
      → Ends (Back sys f) (λ opened. Held sys f opened.0) r
      → let o = opened_tun sys r in Holds sys f o.1.0.fd o.1.1 × (o.0 ≡ false → Back sys f o.1.1)
  unfolding opened_tun
  opened_tun-Holds f (none, s) v = (v, λ e. v)
  opened_tun-Holds f (some (fd, given), s) v = (v, λ e. cc)

  -- The device that `tun_open` leaves holds its descriptor besides those that were open, or none.
  pub tun_open-Holds :
      (f : ℕ → Bool) (name_hint : Option Bytes) (s : sys.State)
      → Back sys f s
      → let o = tun_open sys name_hint s in
        Holds sys f o.1.0.fd o.1.1 × (o.0 ≡ false → Back sys f o.1.1)
  unfolding tun_open
  tun_open-Holds f name_hint s back =
      opened_tun-Holds f (tun_request sys name_hint s) ((tun_request-Held f name_hint).run s back)

  pub tun_close-Back :
      (f : ℕ → Bool) (dev : TunDevice) (s : sys.State)
      → Holds sys f dev.fd s
      → Back sys f (tun_close sys dev s).1
  unfolding tun_close
  tun_close-Back f dev s holds = elim (Option-cases dev.fd) [
    | inl shut ↦ rw (shut, tun_close) (subst (λ d. Holds sys f d s) shut holds)
    | inr (fd, is_open) ↦
        rw (is_open, tun_close)
          (Held-close sys f laws fd s (subst (λ d. Holds sys f d s) is_open holds))
  ]

  -- `tun_configure` leaves the descriptors alone, on every one of its paths.
  pub tun_configure-Same :
      (inet : Inet) (dev : TunDevice) (ipv4_address netmask : Bytes) (s : sys.State)
      → Same (sys.is_open s) (sys.is_open (tun_configure sys inet dev ipv4_address netmask s).1)
  tun_configure-Same inet dev ipv4_address netmask s =
      both (sys.is_open s) (tun_configure sys inet dev ipv4_address netmask s)
        ((tun_configure-Back (sys.is_open s) inet dev ipv4_address netmask).run s (λ x. refl))
    where
      both :
          (f : ℕ → Bool) (r : Option ℕ × sys.State)
          → Ends (Back sys f) (λ done. Back sys f) r
          → Back sys f r.1
      both f (none, s) v = v
      both f (some a, s) v = v
