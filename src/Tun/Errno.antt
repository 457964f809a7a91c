-- ===== src/Tun/Errno.antt =====
-- src/tun.c: the result and `errno` of `tun_configure`, against the same calls without cleanup.
use edgar_vpn.Prelude.{ℕ, ◌-◌, ◌≡◌, refl, Option, none, some, Bytes, bit_or, take}
use edgar_vpn.Config.Values.{Inet}
use edgar_vpn.Config.Load.{ifnamsiz}
use edgar_vpn.System.{
  Call, and_then, ◌>>=◌, System, ifr_addr, ifr_flags, siocsifaddr, siocsifnetmask, siocgifflags,
  siocsifflags, close_failed, or_close,
}
use edgar_vpn.System.Laws.{Laws}
use edgar_vpn.Tun.{TunDevice, set_ifreq_ipv4, tun_configure, flags_of, iff_up_running}

module _ (sys : System) where
  -- Both fail with the same `errno`, or both give the same value and the same state.
  abbrev pub Alike : {A : Type 0} → Option A × sys.State → Option A × sys.State → Type 0
  Alike (none, s) (none, s') = sys.errno s ≡ sys.errno s'
  Alike (some a, s) (some a', s') = (a ≡ a') × (s ≡ s')
  Alike _ _ = ⊥

  record Imitates {A : Type 0} (m n : Call sys.State A) : Type 0 where
    pub run : (s : sys.State) → Alike (m s) (n s)

  and_then-Alike :
      {A B : Type 0} (k l : A → Call sys.State B) (r q : Option A × sys.State)
      → Alike r q
      → ((a : A) → Imitates (k a) (l a))
      → Alike (and_then r k) (and_then q l)
  and_then-Alike k l (none, s) (none, s') v next = v
  and_then-Alike k l (some a, s) (some a', s') (e, f) next = rw (e, f) ((next a').run s')
  and_then-Alike k l (none, s) (some a, s') v next = absurd v
  and_then-Alike k l (some a, s) (none, s') v next = absurd v

  bind-Imitates :
      {A B : Type 0} {m n : Call sys.State A} {k l : A → Call sys.State B}
      → Imitates m n
      → ((a : A) → Imitates (k a) (l a))
      → Imitates (m >>= k) (n >>= l)
  unfolding ◌>>=◌
  bind-Imitates {m = m} {n = n} {k = k} {l = l} first next = record {
    run = λ s. and_then-Alike k l (m s) (n s) (first.run s) next;
  }

  Alike-refl : {A : Type 0} (r : Option A × sys.State) → Alike r r
  Alike-refl (none, s) = refl
  Alike-refl (some a, s) = (refl, refl)

  itself : {A : Type 0} {m : Call sys.State A} → Imitates m m
  itself {m = m} = record { run = λ s. Alike-refl (m s) }

  module _ (laws : Laws sys) where
    close_failed-Alike :
        {A : Type 0} (fd : ℕ) (r : Option A × sys.State) → Alike (close_failed sys fd r) r
    unfolding close_failed
    close_failed-Alike fd (none, s) = laws.errno-set_errno (sys.errno s) (sys.close fd s)
    close_failed-Alike fd (some a, s) = (refl, refl)

    or_close-Imitates :
        {A : Type 0} {m : Call sys.State A} (fd : ℕ) → Imitates (or_close sys fd m) m
    unfolding or_close
    or_close-Imitates {m = m} fd = record { run = λ s. close_failed-Alike fd (m s) }

  -- The calls of `tun_configure` on its socket, without the cleanup of the ones that fail.
  unfoldable pub configure_steps : Inet → TunDevice → Bytes → Bytes → ℕ → Call sys.State ℕ
  configure_steps inet dev ipv4_address netmask sock = do
    addr ← set_ifreq_ipv4 sys inet ipv4_address
    ifr ←
        sys.ioctl sock siocsifaddr
          (record { ifr_name = take (ifnamsiz - 1) dev.name; ifr_data = ifr_addr addr })
    mask ← set_ifreq_ipv4 sys inet netmask
    masked ← sys.ioctl sock siocsifnetmask (record ifr { ifr_data = ifr_addr mask })
    got ← sys.ioctl sock siocgifflags masked
    raised ←
        sys.ioctl sock siocsifflags
          (record got { ifr_data = ifr_flags (bit_or (flags_of got.ifr_data) iff_up_running) })
    λ s. (some 0, sys.close sock s)

  configure-Imitates :
      (laws : Laws sys) (inet : Inet) (dev : TunDevice) (ipv4_address netmask : Bytes)
      → Imitates
          (tun_configure sys inet dev ipv4_address netmask)
          (sys.socket >>= configure_steps inet dev ipv4_address netmask)
  unfolding tun_configure configure_steps
  configure-Imitates laws inet dev ipv4_address netmask = bind-Imitates itself (λ sock.
      bind-Imitates (or_close-Imitates laws sock) (λ addr.
        bind-Imitates (or_close-Imitates laws sock) (λ ifr.
          bind-Imitates (or_close-Imitates laws sock) (λ mask.
            bind-Imitates (or_close-Imitates laws sock) (λ masked.
              bind-Imitates (or_close-Imitates laws sock)
                (λ got. bind-Imitates (or_close-Imitates laws sock) (λ raised. itself)))))))

-- Closing the socket where a call fails costs nothing: `tun_configure` gives the same result as
-- the calls without that cleanup, with the same `errno` where it fails and the same state where
-- it succeeds.
pub tun_configure-Alike :
    (sys : System) (laws : Laws sys) (inet : Inet) (dev : TunDevice) (ipv4_address netmask : Bytes)
    (s : sys.State)
    → Alike sys
        (tun_configure sys inet dev ipv4_address netmask s)
        ((sys.socket >>= configure_steps sys inet dev ipv4_address netmask) s)
tun_configure-Alike sys laws inet dev ipv4_address netmask =
    (configure-Imitates sys laws inet dev ipv4_address netmask).run
