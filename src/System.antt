-- ===== src/System.antt =====
-- The operating system, as src/tun.c, src/udp.c and src/main.c call it, and the calls that fail
-- with -1 and `errno`. The system is not part of the repository: its calls are the fields of a
-- record, and `System.Laws` states what its manual promises.
pub mod Hoare
pub mod Laws
pub mod Cleanup
use edgar_vpn.Prelude.{ℕ, Bool, Option, none, some, List, Bytes}
use edgar_vpn.Peer.State.{SockAddr, Effect}

-- A call on a state: `none` is -1.
abbrev pub Call : Type 0 → Type 0 → Type 0
Call S A = S → Option A × S

module _ {S A B : Type 0} where
  abbrev pub and_then : Option A × S → (A → Call S B) → Option B × S
  and_then (none, s) k = (none, s)
  and_then (some a, s) k = k a s

  infixl 5 ◌>>=◌
  unfoldable pub ◌>>=◌ : Call S A → (A → Call S B) → Call S B
  (m >>= k) s = and_then (m s) k

abbrev pub pure : {S A : Type 0} → A → Call S A
pure a = λ s. (some a, s)

-- The union of `struct ifreq`, as far as it is used: the zeros of `memset`, `ifr_flags`, and an
-- IPv4 address in `ifr_addr` or `ifr_netmask`, which lie at the same place.
pub data IfrData : Type 0 where
  ifr_zero : IfrData
  ifr_flags ifr_addr : ℕ → IfrData

pub record Ifreq : Type 0 where
  pub ifr_name : Bytes
  pub ifr_data : IfrData

-- The requests of `ioctl`.
pub data Request : Type 0 where
  tunsetiff siocsifaddr siocsifnetmask siocgifflags siocsifflags : Request

-- An interface: its address and netmask, and IFF_UP of its flags.
pub record Interface : Type 0 where
  pub address : ℕ
  pub netmask : ℕ
  pub up : Bool

pub record System : Type 1 where
  pub State : Type 0
  -- What can be seen of a state: `errno`, the descriptors that are open, those of them that are
  -- sockets, and the interface of a name.
  pub errno : State → ℕ
  pub is_open : State → ℕ → Bool
  pub is_socket : State → ℕ → Bool
  pub interface : State → Bytes → Interface
  pub set_errno : ℕ → State → State
  -- `open("/dev/net/tun", O_RDWR)` and `socket(AF_INET, SOCK_DGRAM, 0)`
  pub open_tun : Call State ℕ
  pub socket : Call State ℕ
  -- `ioctl` with the structure that it leaves.
  pub ioctl : ℕ → Request → Ifreq → Call State Ifreq
  pub bind : ℕ → SockAddr → Call State ℕ
  pub close : ℕ → State → State
  -- `read` and `recvfrom` with the size of the buffer, `write` and `sendto`; -1 as a descriptor is
  -- `none`.
  pub read : Option ℕ → ℕ → Call State Bytes
  pub write : Option ℕ → Bytes → Call State ℕ
  pub recvfrom : Option ℕ → ℕ → Call State (Bytes × SockAddr)
  pub sendto : Option ℕ → Bytes → SockAddr → Call State ℕ
  -- The first address that `getaddrinfo` finds for AF_INET and SOCK_DGRAM.
  pub getaddrinfo : Bytes → Call State SockAddr
  -- The state behind all that the start-up and the poll loop ask of the system.
  pub traffic : List Effect → State → State

module _ (sys : System) {A : Type 0} where
  -- `int saved_errno = errno; close(fd); errno = saved_errno; return -1;`
  unfoldable pub close_failed : ℕ → Option A × sys.State → Option A × sys.State
  close_failed fd (none, s) = (none, sys.set_errno (sys.errno s) (sys.close fd s))
  close_failed fd (some a, s) = (some a, s)

  -- A call that closes the descriptor where it fails.
  unfoldable pub or_close : ℕ → Call sys.State A → Call sys.State A
  unfolding close_failed
  or_close fd m s = close_failed fd (m s)
