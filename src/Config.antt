-- ===== src/Config.antt =====
-- include/config.h: what a configuration file is parsed to. Fixed-size character arrays are the
-- strings that they hold, without the terminating zero.
pub mod Words
pub mod Text
pub mod Values
pub mod Load
pub mod Sheet
use edgar_vpn.Prelude.{ℕ, Bool, List, Bytes}
use edgar_vpn.Crypto.{Role}

-- `CONFIG_MAX_NAME`, `CONFIG_MAX_HOST` and `CONFIG_MAX_PEERS`
abbrev pub config_max_name : ℕ
config_max_name = 64

abbrev pub config_max_host : ℕ
config_max_host = 256

abbrev pub config_max_peers : ℕ
config_max_peers = 8

-- `config_peer_t`
pub record ConfigPeer : Type 0 where
  pub host : Bytes
  pub port : ℕ
  pub public_key : Bytes
  pub role : Role
  pub allowed_address : ℕ
  pub allowed_prefix : ℕ

-- `edgarvpn_config_t`; `peers` has `peer_count` entries.
pub record Config : Type 0 where
  pub name : Bytes
  pub tun_name : Bytes
  pub tun_address : Bytes
  pub tun_netmask : Bytes
  pub listen_port : ℕ
  pub has_private_key : Bool
  pub private_key : Bytes
  pub peers : List ConfigPeer
