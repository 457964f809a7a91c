-- ===== src/Config/Load/Valid.antt =====
-- What a configuration holds that `config_load` accepts.
use edgar_vpn.Prelude.{
  ◌-◌, ◌≤◌, ◌<◌, ◌≡◌, refl, sym, ◌∙◌, ◌⊎◌, inl, inr, true, false, not, ◌&&◌, ◌||◌, Option, none,
  some, List, [], ◌∷◌, Bytes, arith, length, ◌==◌, Option-cases, Bool-cases,
}
use mathlib.Core.Path.{subst}
use edgar_vpn.Sodium.{Sodium}
use edgar_vpn.Crypto.{secret_key_bytes}
use edgar_vpn.Config.{Config, ConfigPeer, config_max_name, config_max_peers}
use edgar_vpn.Config.Text.{split_first, trim, c_string, fgets_parts}
use edgar_vpn.Config.Values.{Inet, config_max_line}
use edgar_vpn.Config.Load.{
  Loader, Section, section_none, section_interface, section_peer, in_peer, has_all, first_loader,
  key_line, trimmed_line, load_lines, finish_load, config_load, ifnamsiz, inet_addrstrlen,
}
use edgar_vpn.Config.Load.Peers.{AllValid}
use edgar_vpn.Config.Load.Fits.{
  Fits, first_loader-Fits, Fits-AllValid, may_enter, enter_section-Fits, interface_key-Fits,
}
use edgar_vpn.Config.Load.Keys.{peer_key-Fits}

-- The three sections.
section_cases : (s : Section) → (s ≡ section_none) ⊎ (s ≡ section_interface) ⊎ (s ≡ section_peer)
section_cases section_none = inl refl
section_cases section_interface = inr (inl refl)
section_cases section_peer = inr (inr refl)

module _ (lib : Sodium) (inet : Inet) where
  key_line-Fits :
      (line : Bytes) (l : Loader) {l' : Loader}
      → Fits l
      → key_line lib inet line l ≡ some l'
      → Fits l'
  unfolding key_line
  key_line-Fits line l {l'} v e = elim (Option-cases (split_first 61 line)) [
    | inl bad ↦ absurd (ground arith)
    | inr ((key, value), parts) ↦ elim (section_cases l.section) [
      | inl nowhere ↦ absurd (ground arith)
      | inr (inl face) ↦ interface_key-Fits lib inet (trim key) (trim value) l v (ground arith)
      | inr (inr peer) ↦
          peer_key-Fits lib inet (trim key) (trim value) l v (ground arith) (ground arith)
    ]
  ]

  trimmed_line-Fits :
      (line : Bytes) (l : Loader) {l' : Loader}
      → Fits l
      → trimmed_line lib inet line l ≡ some l'
      → Fits l'
  unfolding trimmed_line
  trimmed_line-Fits [] l {l'} v e = subst Fits {x = l} (ground arith) v
  trimmed_line-Fits (c ∷ s) l {l'} v e = elim (Bool-cases (c == 35 || c == 59)) [
    | inl comment ↦ subst Fits {x = l} (ground arith) v
    | inr other ↦ elim (Bool-cases (c == 91)) [
      | inl header ↦ elim (Option-cases (split_first 93 s)) [
        | inl bad ↦ absurd (ground arith)
        | inr ((name, rest), parts) ↦ enter_section-Fits name l v (ground arith)
      ]
      | inr keyed ↦ key_line-Fits (c ∷ s) l v (ground arith)
    ]
  ]

  load_lines-Fits :
      (lines : List Bytes) (l : Loader) {l' : Loader}
      → Fits l
      → load_lines lib inet lines l ≡ some l'
      → Fits l'
  unfolding load_lines
  load_lines-Fits [] l {l'} v e = subst Fits {x = l} (ground arith) v
  load_lines-Fits (line ∷ lines) l {l'} v e =
      elim (Option-cases (trimmed_line lib inet (trim (c_string line)) l)) [
        | inl bad ↦ absurd (ground arith)
        | inr (m, good) ↦
            load_lines-Fits lines m (trimmed_line-Fits (trim (c_string line)) l v good)
              (ground arith)
      ]

no_peers : (peers : List ConfigPeer) → (length peers == 0) ≡ true → peers ≡ []
no_peers [] e = refl
no_peers (p ∷ peers) e = absurd (ground arith)

-- What the checks behind the loop add.
finish_load_valid :
    (l : Loader) {cfg : Config}
    → Fits l
    → finish_load l ≡ some cfg
    → AllValid cfg.peers
      × (length cfg.peers ≤ config_max_peers)
      × (0 < cfg.listen_port)
      × (cfg.listen_port ≤ 65535)
      × (0 < length cfg.tun_name)
      × (length cfg.tun_name < ifnamsiz)
      × (length cfg.name < config_max_name)
      × (length cfg.tun_address < inet_addrstrlen)
      × (length cfg.private_key ≡ secret_key_bytes)
      × ((cfg.peers ≡ []) ⊎ (cfg.has_private_key ≡ true))
unfolding finish_load
finish_load_valid l {cfg} v e =
    let free : (in_peer l.section && not (has_all l)) ≡ false = ground arith in
    let valid = Fits-AllValid l v (may_enter l v free) in
    let same : l.cfg.peers ≡ cfg.peers = ground arith in
    let few = v.few in
    let port = v.port in
    let device = v.device in
    let name = v.name in
    let address = v.address in
    let key = v.key in
    (
      subst AllValid same valid,
      ground arith,
      ground arith,
      ground arith,
      ground arith,
      ground arith,
      ground arith,
      ground arith,
      ground arith,
      elim (Bool-cases (length l.cfg.peers == 0)) [
        | inl alone ↦ inl (sym same ∙ no_peers l.cfg.peers alone)
        | inr peers ↦ inr (ground arith)
      ],
    )

-- An accepted configuration is fit for use: at most eight peers, every one with a host name that
-- is not empty and fits its buffer, a port within 1 and 65535, a public key of full length and a
-- prefix of at most 32; a port to listen on within 1 and 65535; a device name, a name and an
-- address that fit their buffers, the device name not empty; and a private key of full length,
-- which the file gave if there is a peer. The netmask, which inet_ntop writes, is not spoken of.
pub config_load-AllValid :
    (lib : Sodium) (inet : Inet) (file : Option Bytes) {cfg : Config}
    → config_load lib inet file ≡ some cfg
    → AllValid cfg.peers
      × (length cfg.peers ≤ config_max_peers)
      × (0 < cfg.listen_port)
      × (cfg.listen_port ≤ 65535)
      × (0 < length cfg.tun_name)
      × (length cfg.tun_name < ifnamsiz)
      × (length cfg.name < config_max_name)
      × (length cfg.tun_address < inet_addrstrlen)
      × (length cfg.private_key ≡ secret_key_bytes)
      × ((cfg.peers ≡ []) ⊎ (cfg.has_private_key ≡ true))
unfolding config_load
config_load-AllValid lib inet none e = absurd (ground arith)
config_load-AllValid lib inet (some contents) {cfg} e =
    elim (Option-cases (
      load_lines lib inet (fgets_parts config_max_line (config_max_line - 1) [] contents)
        first_loader)) [
          | inl bad ↦ absurd (ground arith)
          | inr (l, good) ↦
              finish_load_valid l {cfg = cfg}
                (load_lines-Fits lib inet
                  (fgets_parts config_max_line (config_max_line - 1) [] contents) first_loader
                  first_loader-Fits good)
                (ground arith)
        ]
