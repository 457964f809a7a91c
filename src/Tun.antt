-- ===== src/Tun.antt =====
-- src/tun.c: the TUN device. A result of 0 or -1 is a Boolean or a `Call`.
pub mod Cleanup
pub mod Configured
pub mod Errno
use edgar_vpn.Prelude.{ℕ, ◌-◌, Bool, true, false, Option, none, some, [], Bytes, bit_or, take}
use edgar_vpn.Config.Values.{Inet}
use edgar_vpn.Config.Load.{ifnamsiz}
use edgar_vpn.System.{
  Call, and_then, ◌>>=◌, pure, IfrData, ifr_zero, ifr_flags, ifr_addr, Ifreq, Request, tunsetiff,
  siocsifaddr, siocsifnetmask, siocgifflags, siocsifflags, System, close_failed, or_close,
}

-- `tun_device_t`; a descriptor of -1 is `none`.
pub record TunDevice : Type 0 where
  pub fd : Option ℕ
  pub name : Bytes

abbrev pub closed_tun : TunDevice
closed_tun = record { fd = none; name = [] }

-- `IFF_TUN | IFF_NO_PI`, `IFF_UP | IFF_RUNNING` and `EINVAL`.
abbrev pub iff_tun_no_pi : ℕ
iff_tun_no_pi = 4097

abbrev pub iff_up_running : ℕ
iff_up_running = 65

abbrev einval : ℕ
einval = 22

-- `ifr_flags` as it is read from the union: behind an address, its `sa_family`, AF_INET.
unfoldable pub flags_of : IfrData → ℕ
flags_of ifr_zero = 0
flags_of (ifr_flags flags) = flags
flags_of (ifr_addr a) = 2

module _ (sys : System) where
  -- The calls of `tun_open`: the descriptor, and the name that the kernel gave.
  unfoldable pub tun_request : Option Bytes → Call sys.State (ℕ × Bytes)
  tun_request name_hint = do
    fd ← sys.open_tun
    ifr ← or_close sys fd (
        sys.ioctl fd tunsetiff (record {
          ifr_name = elim name_hint [ none ↦ [] | some hint ↦ take (ifnamsiz - 1) hint ];
          ifr_data = ifr_flags iff_tun_no_pi;
        }))
    pure (fd, ifr.ifr_name)

  -- `tun_open`: without the descriptor, the device stays as its first lines leave it.
  unfoldable pub opened_tun : Option (ℕ × Bytes) × sys.State → Bool × (TunDevice × sys.State)
  opened_tun (none, s) = (false, (closed_tun, s))
  opened_tun (some (fd, given), s) =
      (true, (record { fd = some fd; name = take (ifnamsiz - 1) given }, s))

  unfoldable pub tun_open : Option Bytes → sys.State → Bool × (TunDevice × sys.State)
  unfolding tun_request opened_tun
  tun_open name_hint s = opened_tun (tun_request name_hint s)

  -- `set_ifreq_ipv4`: the address that it copies into the structure.
  unfoldable pub set_ifreq_ipv4 : Inet → Bytes → Call sys.State ℕ
  set_ifreq_ipv4 inet text s = elim (inet.inet_pton text) [
    | none ↦ (none, sys.set_errno einval s)
    | some a ↦ (some a, s)
  ]

  -- `tun_configure`
  unfoldable pub tun_configure : Inet → TunDevice → Bytes → Bytes → Call sys.State ℕ
  tun_configure inet dev ipv4_address netmask = do
    sock ← sys.socket
    addr ← or_close sys sock (set_ifreq_ipv4 inet ipv4_address)
    ifr ← or_close sys sock (
        sys.ioctl sock siocsifaddr
          (record { ifr_name = take (ifnamsiz - 1) dev.name; ifr_data = ifr_addr addr }))
    mask ← or_close sys sock (set_ifreq_ipv4 inet netmask)
    masked ←
        or_close sys sock (sys.ioctl sock siocsifnetmask (record ifr { ifr_data = ifr_addr mask }))
    got ← or_close sys sock (sys.ioctl sock siocgifflags masked)
    raised ← or_close sys sock (
        sys.ioctl sock siocsifflags
          (record got { ifr_data = ifr_flags (bit_or (flags_of got.ifr_data) iff_up_running) }))
    λ s. (some 0, sys.close sock s)

  -- `tun_read` and `tun_write`
  unfoldable pub tun_read : TunDevice → ℕ → Call sys.State Bytes
  tun_read dev buf_len = sys.read dev.fd buf_len

  unfoldable pub tun_write : TunDevice → Bytes → Call sys.State ℕ
  tun_write dev buf = sys.write dev.fd buf

  -- `tun_close`
  unfoldable pub tun_close : TunDevice → sys.State → TunDevice × sys.State
  tun_close dev s = elim dev.fd [
    | none ↦ (dev, s)
    | some fd ↦ (record dev { fd = none }, sys.close fd s)
  ]
