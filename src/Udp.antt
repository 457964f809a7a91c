-- ===== src/Udp.antt =====
-- src/udp.c: the UDP socket. Addresses are as in `sockaddr_in`, in network byte order.
pub mod Cleanup
use edgar_vpn.Prelude.{ℕ, ◌+◌, ◌*◌, ◌/◌, ◌%◌, ◌^◌, Bool, true, false, Option, none, some, Bytes}
use edgar_vpn.Peer.State.{SockAddr}
use edgar_vpn.System.{Call, and_then, ◌>>=◌, pure, System, close_failed, or_close}

-- `udp_socket_t`; a descriptor of -1 is `none`.
pub record UdpSocket : Type 0 where
  pub fd : Option ℕ

-- `htons` on a little-endian machine.
unfoldable pub htons : ℕ → ℕ
htons x = x / 2 ^ 8 % 2 ^ 8 + x % 2 ^ 8 * 2 ^ 8

module _ (sys : System) where
  -- The calls of `udp_bind`. INADDR_ANY is 0.
  unfoldable pub udp_request : ℕ → Call sys.State ℕ
  unfolding htons
  udp_request port = do
    fd ← sys.socket
    bound ← or_close sys fd (sys.bind fd (record { sin_addr = 0; sin_port = htons port }))
    pure fd

  -- `udp_bind`
  unfoldable pub opened_udp : Option ℕ × sys.State → Bool × (UdpSocket × sys.State)
  opened_udp (none, s) = (false, (record { fd = none }, s))
  opened_udp (some fd, s) = (true, (record { fd = some fd }, s))

  unfoldable pub udp_bind : ℕ → sys.State → Bool × (UdpSocket × sys.State)
  unfolding udp_request opened_udp
  udp_bind port s = opened_udp (udp_request port s)

  -- `udp_resolve`
  unfoldable pub udp_resolve : Bytes → ℕ → Call sys.State SockAddr
  unfolding htons
  udp_resolve host port = do
    found ← sys.getaddrinfo host
    pure (record found { sin_port = htons port })

  -- `udp_send` and `udp_recv`
  unfoldable pub udp_send : UdpSocket → Bytes → SockAddr → Call sys.State ℕ
  udp_send sock buf dest = sys.sendto sock.fd buf dest

  unfoldable pub udp_recv : UdpSocket → ℕ → Call sys.State (Bytes × SockAddr)
  udp_recv sock buf_len = sys.recvfrom sock.fd buf_len

  -- `udp_close`
  unfoldable pub udp_close : UdpSocket → sys.State → UdpSocket × sys.State
  udp_close sock s = elim sock.fd [
    | none ↦ (sock, s)
    | some fd ↦ (record sock { fd = none }, sys.close fd s)
  ]
