-- ===== src/Config/Sheet/Keys.antt =====
-- The keys of a sheet, as `config_load` of src/config.c takes them: each sets its own field.
use edgar_vpn.Prelude.{
  ℕ, ◌<◌, ◌≡◌, refl, true, false, some, ◌++◌, Bytes, codes, length, Graphic, leb, arith,
}
use edgar_vpn.Sodium.{Sodium}
use edgar_vpn.Crypto.{Role, initiator, responder, decode_base64}
use edgar_vpn.Config.{config_max_host}
use edgar_vpn.Config.Text.{same_word, split_first, trim}
use edgar_vpn.Config.Text.Lines.{trim-Graphic}
use edgar_vpn.Config.Values.{Inet, port_value, parse_cidr, parse_ip_prefix, parse_endpoint_value}
use edgar_vpn.Config.Load.{
  Loader, section_interface, section_peer, set_cur, key_line, interface_key, peer_key, trimmed_line,
}
use edgar_vpn.Config.Sheet.{role_text}

abbrev pub in_interface : Loader → Loader
in_interface l = record l { section = section_interface }

abbrev pub in_a_peer : Loader → Loader
in_a_peer l = record l { section = section_peer }

module _ (lib : Sodium) (inet : Inet) (l : Loader) (value : Bytes) (v : Graphic value) where
  pub name_loads :
      length value < 64
      → trimmed_line lib inet (codes "Name = " ++ value) (in_interface l)
        ≡ some (record (in_interface l) { cfg = record l.cfg { name = value } })
  unfolding trimmed_line key_line interface_key split_first same_word trim
  name_loads short =
      let fits : leb 64 (length value) ≡ false = ground arith in
      rw (trim-Graphic value v, fits) refl

  pub device_loads :
      length value < 16
      → trimmed_line lib inet (codes "DeviceName = " ++ value) (in_interface l)
        ≡ some (record (in_interface l) { cfg = record l.cfg { tun_name = value } })
  unfolding trimmed_line key_line interface_key split_first same_word trim
  device_loads short =
      let fits : leb 16 (length value) ≡ false = ground arith in
      rw (trim-Graphic value v, fits) refl

  pub address_loads :
      {address mask : Bytes}
      → parse_cidr inet value 16 16 ≡ some (address, mask)
      → trimmed_line lib inet (codes "Address = " ++ value) (in_interface l)
        ≡ some (record (in_interface l) {
          cfg = record l.cfg { tun_address = address; tun_netmask = mask };
          have_address = true;
        })
  unfolding trimmed_line key_line interface_key split_first same_word trim
  address_loads parsed = rw (trim-Graphic value v, parsed) refl

  pub listen_port_loads :
      {port : ℕ}
      → port_value value ≡ some port
      → trimmed_line lib inet (codes "ListenPort = " ++ value) (in_interface l)
        ≡ some (record (in_interface l) { cfg = record l.cfg { listen_port = port } })
  unfolding trimmed_line key_line interface_key split_first same_word trim
  listen_port_loads parsed = rw (trim-Graphic value v, parsed) refl

  pub private_key_loads :
      {key : Bytes}
      → decode_base64 lib value 32 ≡ some key
      → trimmed_line lib inet (codes "PrivateKey = " ++ value) (in_interface l)
        ≡ some (record (in_interface l) {
          cfg = record l.cfg { private_key = key; has_private_key = true };
        })
  unfolding trimmed_line key_line interface_key split_first same_word trim
  private_key_loads parsed = rw (trim-Graphic value v, parsed) refl

  pub endpoint_loads :
      {host : Bytes} {port : ℕ}
      → parse_endpoint_value value config_max_host ≡ some (host, port)
      → trimmed_line lib inet (codes "Endpoint = " ++ value) (in_a_peer l)
        ≡ some (record (set_cur (λ p. record p { host = host; port = port }) (in_a_peer l)) {
          have_endpoint = true;
        })
  unfolding trimmed_line key_line peer_key split_first same_word trim
  endpoint_loads parsed = rw (trim-Graphic value v, parsed) refl

  pub public_key_loads :
      {key : Bytes}
      → decode_base64 lib value 32 ≡ some key
      → trimmed_line lib inet (codes "PublicKey = " ++ value) (in_a_peer l)
        ≡ some (record (set_cur (λ p. record p { public_key = key }) (in_a_peer l)) {
          have_pubkey = true;
        })
  unfolding trimmed_line key_line peer_key split_first same_word trim
  public_key_loads parsed = rw (trim-Graphic value v, parsed) refl

  pub allowed_loads :
      {address prefix : ℕ}
      → parse_ip_prefix inet value ≡ some (address, prefix)
      → trimmed_line lib inet (codes "AllowedIPs = " ++ value) (in_a_peer l)
        ≡ some
            (record (set_cur
              (λ p. record p { allowed_address = address; allowed_prefix = prefix })
              (in_a_peer l)) { have_allowed = true })
  unfolding trimmed_line key_line peer_key split_first same_word trim
  allowed_loads parsed = rw (trim-Graphic value v, parsed) refl

pub role_loads :
    (lib : Sodium) (inet : Inet) (l : Loader) (role : Role)
    → trimmed_line lib inet (codes "Role = " ++ role_text role) (in_a_peer l)
      ≡ some (record (set_cur (λ p. record p { role = role }) (in_a_peer l)) { have_role = true })
unfolding trimmed_line key_line peer_key split_first same_word trim
role_loads lib inet l initiator = refl
role_loads lib inet l responder = refl
