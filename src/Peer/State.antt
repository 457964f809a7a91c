-- ===== src/Peer/State.antt =====
-- src/main.c: `peer_session_t`, the constants of the timers, and the operating system as the
-- handlers meet it. Logging changes no state and is left out.
use edgar_vpn.Prelude.{ℕ, ◌+◌, ◌-◌, ◌^◌, Bool, Option, Bytes, u64, ◌==◌, ◌&&◌}
use edgar_vpn.Config.{ConfigPeer}
use edgar_vpn.Session.State.{Session, data_overhead}

-- The address and the port of a `sockaddr_in`.
pub record SockAddr : Type 0 where
  pub sin_addr : ℕ
  pub sin_port : ℕ

-- `MAX_PACKET_SIZE`, `SEALED_BUF_SIZE`, and the intervals in milliseconds.
abbrev pub max_packet_size : ℕ
max_packet_size = 2048

abbrev pub sealed_buf_size : ℕ
sealed_buf_size = data_overhead + max_packet_size

abbrev pub keepalive_interval_ms : ℕ
keepalive_interval_ms = 5000

abbrev pub session_timeout_ms : ℕ
session_timeout_ms = 15000

abbrev pub key_rotation_interval_ms : ℕ
key_rotation_interval_ms = 45000

abbrev pub stats_interval_ms : ℕ
stats_interval_ms = 30000

-- `peer_session_t`
pub record PeerSession : Type 0 where
  pub config : ConfigPeer
  pub addr_resolved : Bool
  pub addr : SockAddr
  pub session : Session
  pub last_rx_activity_ms : ℕ
  pub last_tx_activity_ms : ℕ
  pub last_handshake_completed_ms : ℕ
  pub stat_packets_tx : ℕ
  pub stat_bytes_tx : ℕ
  pub stat_packets_rx : ℕ
  pub stat_bytes_rx : ℕ
  pub stat_handshakes : ℕ
  pub stat_auth_failures : ℕ
  pub stat_drops : ℕ

-- What the system answers during the handling of one event: whether `udp_send` and `tun_write`
-- succeed, and the address that `udp_resolve` finds.
pub record Net : Type 0 where
  pub sends : Bytes → SockAddr → Bool
  pub writes : Bytes → Bool
  pub resolve : Bytes → ℕ → Option SockAddr

-- What leaves the daemon: a datagram that was sent, a packet that was written to the TUN device.
pub data Effect : Type 0 where
  sent : Bytes → SockAddr → Effect
  wrote : Bytes → Effect

-- `now - then` in `uint64_t`.
unfoldable pub since : ℕ → ℕ → ℕ
since now before = u64 (now + 2 ^ 64 - before)

-- `counter++` and `counter += n` on a `uint64_t` statistic.
abbrev pub increment : ℕ → ℕ
increment counter = u64 (counter + 1)

abbrev pub same_addr : SockAddr → SockAddr → Bool
same_addr a b = a.sin_addr == b.sin_addr && a.sin_port == b.sin_port
