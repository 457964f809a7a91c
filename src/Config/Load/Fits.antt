-- ===== src/Config/Load/Fits.antt =====
-- The state of the loop of `config_load` between two lines, through section headers and the keys
-- of [Interface].
use edgar_vpn.Prelude.{
  ◌≤◌, ◌<◌, ◌≡◌, refl, ◌⊎◌, inl, inr, true, false, not, ◌&&◌, some, [], ◌∷◌, ◌++◌, Bytes, arith,
  length, length-append, Option-cases, Bool-cases,
}
use mathlib.Core.Path.{subst}
use edgar_vpn.Sodium.{Sodium}
use edgar_vpn.Crypto.{decode_base64, secret_key_bytes}
use edgar_vpn.Config.{config_max_name, config_max_peers}
use edgar_vpn.Config.Words.{
  word_interface, word_name, word_device_name, word_address, word_listen_port,
}
use edgar_vpn.Config.Text.{same_word}
use edgar_vpn.Config.Values.{Inet, port_value, parse_cidr}
use edgar_vpn.Config.Values.Bounds.{port_value_bound, cidr_bound, decoded_length}
use edgar_vpn.Config.Load.{
  Loader, section_interface, section_peer, in_peer, has_all, zero_peer, first_loader, enter_section,
  interface_key, ifnamsiz, inet_addrstrlen,
}
use edgar_vpn.Config.Load.Peers.{AllValid, PeersFit, complete-AllValid, PeersFit-begin}

-- The state of the loop between two lines.
pub record Fits (l : Loader) : Type 0 where
  pub peers : PeersFit l.have_endpoint l.have_pubkey l.have_allowed l.cfg.peers
  pub few : length l.cfg.peers ≤ config_max_peers
  pub port : (0 < l.cfg.listen_port) × (l.cfg.listen_port ≤ 65535)
  pub device : length l.cfg.tun_name < ifnamsiz
  pub name : length l.cfg.name < config_max_name
  pub address : length l.cfg.tun_address < inet_addrstrlen
  pub key : length l.cfg.private_key ≡ secret_key_bytes
  pub complete : (in_peer l.section ≡ true) ⊎ (has_all l ≡ true) ⊎ (l.cfg.peers ≡ [])

pub first_loader-Fits : Fits first_loader
first_loader-Fits = record {
  peers = tt;
  few = omega arith;
  port = (omega arith, omega arith);
  device = omega arith;
  name = omega arith;
  address = omega arith;
  key = refl;
  complete = inr (inr refl);
}

-- Where the last peer is, or is taken to be, complete, all are.
pub Fits-AllValid :
    (l : Loader) → Fits l → (has_all l ≡ true) ⊎ (l.cfg.peers ≡ []) → AllValid l.cfg.peers
Fits-AllValid l v (inl all) =
    complete-AllValid l.have_endpoint l.have_pubkey l.have_allowed l.cfg.peers v.peers
      (ground arith) (ground arith) (ground arith)
Fits-AllValid l v (inr nil) = rw nil tt

-- A new [Peer] section.
abbrev begun : Loader → Loader
begun l = record l {
  cfg = record l.cfg { peers = l.cfg.peers ++ (zero_peer ∷ []) };
  section = section_peer;
  have_endpoint = false;
  have_pubkey = false;
  have_role = false;
  have_allowed = false;
}

-- A section header leads on only where the peers so far are complete.
pub may_enter :
    (l : Loader)
    → Fits l
    → (in_peer l.section && not (has_all l)) ≡ false
    → (has_all l ≡ true) ⊎ (l.cfg.peers ≡ [])
may_enter l v free = elim v.complete [ inl here ↦ inl (ground arith) | inr rest ↦ rest ]

pub enter_section-Fits :
    (section_name : Bytes) (l : Loader) {l' : Loader}
    → Fits l
    → enter_section section_name l ≡ some l'
    → Fits l'
unfolding enter_section
enter_section-Fits section_name l {l'} v e =
    let free : (in_peer l.section && not (has_all l)) ≡ false = ground arith in
    let all = may_enter l v free in
    elim (Bool-cases (same_word section_name word_interface)) [
      | inl face ↦
          let after : record l { section = section_interface } ≡ l' = ground arith in
          subst Fits after (record {
            peers = v.peers;
            few = v.few;
            port = v.port;
            device = v.device;
            name = v.name;
            address = v.address;
            key = v.key;
            complete = inr all;
          })
      | inr other ↦
          let room : length l.cfg.peers < config_max_peers = ground arith in
          let after : begun l ≡ l' = ground arith in
          let longer = length-append l.cfg.peers (zero_peer ∷ []) in
          subst Fits after (record {
            peers = PeersFit-begin l.cfg.peers (Fits-AllValid l v all);
            few = omega arith;
            port = v.port;
            device = v.device;
            name = v.name;
            address = v.address;
            key = v.key;
            complete = inl refl;
          })
    ]

module _ (lib : Sodium) (inet : Inet) where
  pub interface_key-Fits :
      (key value : Bytes) (l : Loader) {l' : Loader}
      → Fits l
      → interface_key lib inet key value l ≡ some l'
      → Fits l'
  unfolding interface_key
  interface_key-Fits key value l {l'} v e = elim (Bool-cases (same_word key word_name)) [
    | inl is_name ↦
        let short : length value < config_max_name = ground arith in
        let after : record l { cfg = record l.cfg { name = value } } ≡ l' = ground arith in
        subst Fits after (record {
          peers = v.peers;
          few = v.few;
          port = v.port;
          device = v.device;
          name = short;
          address = v.address;
          key = v.key;
          complete = v.complete;
        })
    | inr n1 ↦ elim (Bool-cases (same_word key word_device_name)) [
      | inl is_device ↦
          let short : length value < ifnamsiz = ground arith in
          let after : record l { cfg = record l.cfg { tun_name = value } } ≡ l' = ground arith in
          subst Fits after (record {
            peers = v.peers;
            few = v.few;
            port = v.port;
            device = short;
            name = v.name;
            address = v.address;
            key = v.key;
            complete = v.complete;
          })
      | inr n2 ↦ elim (Bool-cases (same_word key word_address)) [
        | inl is_address ↦
            elim (Option-cases (parse_cidr inet value inet_addrstrlen inet_addrstrlen)) [
              | inl bad ↦ absurd (ground arith)
              | inr ((address, mask), good) ↦
                  let after : record l {
                    cfg = record l.cfg { tun_address = address; tun_netmask = mask };
                    have_address = true;
                  }
                      ≡ l' =
                    ground arith in
                  subst Fits after (record {
                    peers = v.peers;
                    few = v.few;
                    port = v.port;
                    device = v.device;
                    name = v.name;
                    address = cidr_bound inet value inet_addrstrlen inet_addrstrlen good;
                    key = v.key;
                    complete = v.complete;
                  })
            ]
        | inr n3 ↦ elim (Bool-cases (same_word key word_listen_port)) [
          | inl is_port ↦ elim (Option-cases (port_value value)) [
            | inl bad ↦ absurd (ground arith)
            | inr (port, good) ↦
                let after : record l { cfg = record l.cfg { listen_port = port } } ≡ l' =
                  ground arith in
                subst Fits after (record {
                  peers = v.peers;
                  few = v.few;
                  port = port_value_bound value good;
                  device = v.device;
                  name = v.name;
                  address = v.address;
                  key = v.key;
                  complete = v.complete;
                })
          ]
          | inr n4 ↦ elim (Option-cases (decode_base64 lib value secret_key_bytes)) [
            | inl bad ↦ absurd (ground arith)
            | inr (bytes, good) ↦
                let after : record l {
                  cfg = record l.cfg { private_key = bytes; has_private_key = true };
                }
                    ≡ l' =
                  ground arith in
                subst Fits after (record {
                  peers = v.peers;
                  few = v.few;
                  port = v.port;
                  device = v.device;
                  name = v.name;
                  address = v.address;
                  key = decoded_length lib value secret_key_bytes good;
                  complete = v.complete;
                })
          ]
        ]
      ]
    ]
  ]
