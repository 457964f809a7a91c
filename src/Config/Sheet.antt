-- ===== src/Config/Sheet.antt =====
-- A configuration file as one writes it by hand (docs/CONFIGURATION.md), to compare what
-- `config_load` of src/config.c reads from it: what the file is meant to say, its text, and the
-- `Config` that it stands for.
pub mod Lines
pub mod Keys
pub mod Written
pub mod Peers
pub mod Interface
pub mod RoundTrip
use edgar_vpn.Prelude.{
  ℕ, ◌+◌, ◌≤◌, ◌<◌, ◌≡◌, true, some, List, [], ◌∷◌, ◌++◌, Bytes, length, codes, Graphic,
}
use edgar_vpn.Sodium.{Sodium, HasSize}
use edgar_vpn.Crypto.{Role, initiator, responder, encode_base64}
use edgar_vpn.Routing.{prefix_mask}
use edgar_vpn.Config.{ConfigPeer, Config, config_max_peers}
use edgar_vpn.Config.Text.Decimal.{decimal}
use edgar_vpn.Config.Values.{Inet}
use edgar_vpn.Config.Values.Printed.{Without}

-- A [Peer] section; `allowed_text` is the address as it is written.
pub record SheetPeer : Type 0 where
  pub host : Bytes
  pub port : ℕ
  pub public_key : Bytes
  pub role : Role
  pub allowed_text : Bytes
  pub allowed_address : ℕ
  pub allowed_prefix : ℕ

-- The [Interface] section, and the peers.
pub record Sheet : Type 0 where
  pub name : Bytes
  pub device : Bytes
  pub address : Bytes
  pub prefix : ℕ
  pub netmask : Bytes
  pub listen_port : ℕ
  pub private_key : Bytes
  pub peers : List SheetPeer

-- A line: a first character, what follows it, and a value or the end of a header.
pub record Line : Type 0 where
  pub start : ℕ
  pub middle : Bytes
  pub value : Bytes

abbrev pub text : Line → Bytes
text l = (l.start ∷ l.middle) ++ l.value

abbrev pub line : ℕ → Bytes → Bytes → Line
line start middle value = record { start = start; middle = middle; value = value }

unfoldable pub print : List Line → Bytes
print [] = []
print (l ∷ lines) = ((l.start ∷ l.middle) ++ (l.value ++ (10 ∷ []))) ++ print lines

abbrev pub role_text : Role → Bytes
role_text initiator = codes "initiator"
role_text responder = codes "responder"

-- The lines of a peer, and those of the interface.
abbrev pub endpoint_line : SheetPeer → Line
endpoint_line p = line 69 (codes "ndpoint = ") (p.host ++ (58 ∷ decimal p.port))

abbrev pub role_line : Role → Line
role_line role = line 82 (codes "ole = ") (role_text role)

abbrev pub allowed_line : SheetPeer → Line
allowed_line p = line 65 (codes "llowedIPs = ") (p.allowed_text ++ (47 ∷ decimal p.allowed_prefix))

abbrev pub address_line : Sheet → Line
address_line s = line 65 (codes "ddress = ") (s.address ++ (47 ∷ decimal s.prefix))

abbrev pub listen_port_line : Sheet → Line
listen_port_line s = line 76 (codes "istenPort = ") (decimal s.listen_port)

module _ (lib : Sodium) where
  abbrev pub public_key_line : SheetPeer → Line
  public_key_line p = line 80 (codes "ublicKey = ") (encode_base64 lib p.public_key)

  abbrev pub private_key_line : Sheet → Line
  private_key_line s = line 80 (codes "rivateKey = ") (encode_base64 lib s.private_key)

  abbrev pub peer_lines : SheetPeer → List Line → List Line
  peer_lines p rest =
      line 91 (codes "Peer") (codes "]")
      ∷ endpoint_line p
      ∷ public_key_line p
      ∷ role_line p.role
      ∷ allowed_line p
      ∷ rest

  abbrev pub all_peer_lines : List SheetPeer → List Line
  all_peer_lines [] = []
  all_peer_lines (p ∷ peers) = peer_lines p (all_peer_lines peers)

  abbrev pub sheet_lines : Sheet → List Line
  sheet_lines s =
      line 91 (codes "Interface") (codes "]")
      ∷ line 78 (codes "ame = ") s.name
      ∷ line 68 (codes "eviceName = ") s.device
      ∷ address_line s
      ∷ listen_port_line s
      ∷ private_key_line s
      ∷ all_peer_lines s.peers

-- What the sheet stands for.
abbrev pub peer_meant : SheetPeer → ConfigPeer
peer_meant p = record {
  host = p.host;
  port = p.port;
  public_key = p.public_key;
  role = p.role;
  allowed_address = p.allowed_address;
  allowed_prefix = p.allowed_prefix;
}

abbrev pub peers_meant : List SheetPeer → List ConfigPeer
peers_meant [] = []
peers_meant (p ∷ peers) = peer_meant p ∷ peers_meant peers

abbrev pub config_meant : Sheet → Config
config_meant s = record {
  name = s.name;
  tun_name = s.device;
  tun_address = s.address;
  tun_netmask = s.netmask;
  listen_port = s.listen_port;
  has_private_key = true;
  private_key = s.private_key;
  peers = peers_meant s.peers;
}

-- A value that can be written on a line: neither spaces nor control characters, and not empty.
abbrev pub Plain : ℕ → Bytes → Type 0
Plain n value = Graphic value × (0 < length value) × (length value < n)

pub record PeerWritable (inet : Inet) (p : SheetPeer) : Type 0 where
  pub host : Plain 230 p.host
  pub port : (0 < p.port) × (p.port ≤ 65535)
  pub public_key : HasSize 32 p.public_key
  pub allowed : Plain 400 p.allowed_text
  pub no_slash : Without 47 p.allowed_text
  pub known : inet.inet_pton p.allowed_text ≡ some p.allowed_address
  pub prefix : p.allowed_prefix ≤ 32

abbrev pub AllWritable : Inet → List SheetPeer → Type 0
AllWritable inet [] = Unit
AllWritable inet (p ∷ peers) = PeerWritable inet p × AllWritable inet peers

-- `parsed` is the number that the address of the interface is read as.
pub record Writable (inet : Inet) (s : Sheet) (parsed : ℕ) : Type 0 where
  pub name : Plain 64 s.name
  pub device : Plain 16 s.device
  pub address : Plain 16 s.address
  pub no_slash : Without 47 s.address
  pub known : inet.inet_pton s.address ≡ some parsed
  pub prefix : s.prefix ≤ 32
  pub masked : inet.inet_ntop (prefix_mask s.prefix) 16 ≡ some s.netmask
  pub listen_port : (0 < s.listen_port) × (s.listen_port ≤ 65535)
  pub private_key : HasSize 32 s.private_key
  pub peers : AllWritable inet s.peers
  pub few : length s.peers ≤ config_max_peers
