-- ===== src/Config/Load.antt =====
-- `config_load` of src/config.c, line by line. Messages to stderr are left out; every failure is
-- `none`, since the file is closed and -1 returned at once.
pub mod Peers
mod Fits
mod Keys
pub mod Valid
use edgar_vpn.Prelude.{
  ℕ, ◌+◌, ◌-◌, Bool, true, false, not, ◌&&◌, ◌||◌, Option, none, some, List, [], ◌∷◌, ◌++◌, Bytes,
  leb, ◌==◌, if◌then◌else◌, length, replicate,
}
use edgar_vpn.Sodium.{Sodium}
use edgar_vpn.Crypto.{Role, initiator, responder, decode_base64, public_key_bytes, secret_key_bytes}
use edgar_vpn.Config.{ConfigPeer, Config, config_max_name, config_max_host, config_max_peers}
use edgar_vpn.Config.Words.{
  word_interface, word_peer, word_name, word_device_name, word_address, word_listen_port,
  word_private_key, word_endpoint, word_public_key, word_role, word_allowed_ips, word_initiator,
  word_responder, default_name, default_device,
}
use edgar_vpn.Config.Text.{trim, same_word, split_first, fgets_parts, c_string}
use edgar_vpn.Config.Values.{
  Inet, config_max_line, port_value, parse_cidr, parse_ip_prefix, parse_endpoint_value,
}

-- `IFNAMSIZ` and `INET_ADDRSTRLEN` of the system's headers, and `CONFIG_DEFAULT_PORT`.
abbrev pub ifnamsiz : ℕ
ifnamsiz = 16

abbrev pub inet_addrstrlen : ℕ
inet_addrstrlen = 16

abbrev default_port : ℕ
default_port = 51820

-- `section_t`
pub data Section : Type 0 where
  section_none section_interface section_peer : Section

-- The local variables of the loop. `cur` points to the last peer.
pub record Loader : Type 0 where
  pub cfg : Config
  pub section : Section
  pub have_address : Bool
  pub have_endpoint : Bool
  pub have_pubkey : Bool
  pub have_role : Bool
  pub have_allowed : Bool

abbrev pub in_peer : Section → Bool
in_peer section_none = false
in_peer section_interface = false
in_peer section_peer = true

-- `!have_endpoint || !have_pubkey || !have_role || !have_allowed`, negated.
abbrev pub has_all : Loader → Bool
has_all l = l.have_endpoint && (l.have_pubkey && (l.have_role && l.have_allowed))

-- A zeroed `config_peer_t`; the role with the value 0 is `initiator`.
abbrev pub zero_peer : ConfigPeer
zero_peer = record {
  host = [];
  port = 0;
  public_key = replicate public_key_bytes 0;
  role = initiator;
  allowed_address = 0;
  allowed_prefix = 0;
}

abbrev pub first_loader : Loader
first_loader = record {
  cfg = record {
    name = default_name;
    tun_name = [];
    tun_address = [];
    tun_netmask = [];
    listen_port = default_port;
    has_private_key = false;
    private_key = replicate secret_key_bytes 0;
    peers = [];
  };
  section = section_none;
  have_address = false;
  have_endpoint = false;
  have_pubkey = false;
  have_role = false;
  have_allowed = false;
}

-- An assignment through `cur`.
unfoldable pub update_last : (ConfigPeer → ConfigPeer) → List ConfigPeer → List ConfigPeer
update_last f [] = []
update_last f (p ∷ []) = f p ∷ []
update_last f (p ∷ q ∷ peers) = p ∷ update_last f (q ∷ peers)

abbrev pub set_cur : (ConfigPeer → ConfigPeer) → Loader → Loader
set_cur f l = record l { cfg = record l.cfg { peers = update_last f l.cfg.peers } }

-- A section header with this name.
unfoldable pub enter_section : Bytes → Loader → Option Loader
unfolding same_word
enter_section section_name l =
    if in_peer l.section && not (has_all l)
    then none
    else if same_word section_name word_interface
    then some (record l { section = section_interface })
    else if same_word section_name word_peer
    then if leb config_max_peers (length l.cfg.peers)
      then none
      else some (record l {
        cfg = record l.cfg { peers = l.cfg.peers ++ (zero_peer ∷ []) };
        section = section_peer;
        have_endpoint = false;
        have_pubkey = false;
        have_role = false;
        have_allowed = false;
      })
    else none

-- What `config_load` does behind its loop.
unfoldable pub finish_load : Loader → Option Config
finish_load l =
    if in_peer l.section && not (has_all l)
    then none
    else if not l.have_address
    then none
    else if not (length l.cfg.peers == 0) && not l.cfg.has_private_key
    then none
    else if length l.cfg.tun_name == 0
    then some (record l.cfg { tun_name = default_device })
    else some l.cfg

module _ (lib : Sodium) (inet : Inet) where
  unfoldable pub interface_key : Bytes → Bytes → Loader → Option Loader
  unfolding same_word parse_cidr port_value
  interface_key key value l =
      if same_word key word_name
      then if leb config_max_name (length value)
        then none
        else some (record l { cfg = record l.cfg { name = value } })
      else if same_word key word_device_name
      then if leb ifnamsiz (length value)
        then none
        else some (record l { cfg = record l.cfg { tun_name = value } })
      else if same_word key word_address
      then elim (parse_cidr inet value inet_addrstrlen inet_addrstrlen) [
        | none ↦ none
        | some (address, mask) ↦ some (record l {
          cfg = record l.cfg { tun_address = address; tun_netmask = mask };
          have_address = true;
        })
      ]
      else if same_word key word_listen_port
      then elim (port_value value) [
        | none ↦ none
        | some port ↦ some (record l { cfg = record l.cfg { listen_port = port } })
      ]
      else if same_word key word_private_key
      then elim (decode_base64 lib value secret_key_bytes) [
        | none ↦ none
        | some bytes ↦
            some (record l { cfg = record l.cfg { private_key = bytes; has_private_key = true } })
      ]
      else none

  unfoldable pub peer_key : Bytes → Bytes → Loader → Option Loader
  unfolding same_word parse_endpoint_value parse_ip_prefix update_last
  peer_key key value l =
      if same_word key word_endpoint
      then elim (parse_endpoint_value value config_max_host) [
        | none ↦ none
        | some (host, port) ↦
            some (record (set_cur (λ p. record p { host = host; port = port }) l) {
              have_endpoint = true;
            })
      ]
      else if same_word key word_public_key
      then elim (decode_base64 lib value public_key_bytes) [
        | none ↦ none
        | some bytes ↦
            some (record (set_cur (λ p. record p { public_key = bytes }) l) { have_pubkey = true })
      ]
      else if same_word key word_role
      then if same_word value word_initiator
        then some (record (set_cur (λ p. record p { role = initiator }) l) { have_role = true })
        else if same_word value word_responder
        then some (record (set_cur (λ p. record p { role = responder }) l) { have_role = true })
        else none
      else if same_word key word_allowed_ips
      then elim (parse_ip_prefix inet value) [
        | none ↦ none
        | some (address, prefix) ↦
            some
              (record (set_cur
                (λ p. record p { allowed_address = address; allowed_prefix = prefix }) l) {
                  have_allowed = true;
                })
      ]
      else none

  -- A line that is neither empty, a comment nor a section header.
  unfoldable pub key_line : Bytes → Loader → Option Loader
  unfolding interface_key peer_key
  key_line trimmed l = elim (split_first 61 trimmed) [
    | none ↦ none
    | some (key, value) ↦ elim l.section [
      | section_none ↦ none
      | section_interface ↦ interface_key (trim key) (trim value) l
      | section_peer ↦ peer_key (trim key) (trim value) l
    ]
  ]

  -- A line after `trim`.
  unfoldable pub trimmed_line : Bytes → Loader → Option Loader
  unfolding key_line enter_section
  trimmed_line [] l = some l
  trimmed_line (c ∷ s) l =
      if c == 35 || c == 59
      then some l
      else if c == 91
      then elim (split_first 93 s) [
        | none ↦ none
        | some (section_name, rest) ↦ enter_section section_name l
      ]
      else key_line (c ∷ s) l

  unfoldable pub load_lines : List Bytes → Loader → Option Loader
  unfolding trimmed_line
  load_lines [] l = some l
  load_lines (line ∷ lines) l = elim (trimmed_line (trim (c_string line)) l) [
    | none ↦ none
    | some l' ↦ load_lines lines l'
  ]

  -- `config_load`, on the contents of the file, `none` where it does not open.
  unfoldable pub config_load : Option Bytes → Option Config
  unfolding load_lines finish_load fgets_parts
  config_load none = none
  config_load (some contents) =
      elim (load_lines (fgets_parts config_max_line (config_max_line - 1) [] contents)
        first_loader) [ none ↦ none | some l ↦ finish_load l ]
