-- ===== src/Config/Sheet/Interface.antt =====
-- The [Interface] section of a sheet, through the loop of `config_load` of src/config.c.
use edgar_vpn.Prelude.{ℕ, ◌<◌, ◌≡◌, refl, ◌∙◌, true, some, List, [], ◌∷◌, codes, length, arith}
use edgar_vpn.Sodium.{Sodium, KeyTextLaws}
use edgar_vpn.Config.Text.{same_word, split_first}
use edgar_vpn.Config.Text.Decimal.{
  decimal, decimal-Digits, decimal_size, decimal_first, Digits-Graphic,
}
use edgar_vpn.Config.Values.{Inet}
use edgar_vpn.Config.Values.Printed.{parse_cidr_printed, port_value-decimal}
use edgar_vpn.Config.Load.{
  Loader, section_interface, first_loader, trimmed_line, load_lines, enter_section,
}
use edgar_vpn.Config.Sheet.{
  Line, line, Sheet, config_meant, all_peer_lines, address_line, listen_port_line, private_key_line,
  sheet_lines, Writable,
}
use edgar_vpn.Config.Sheet.Lines.{parts, reads}
use edgar_vpn.Config.Sheet.Keys.{
  in_interface, name_loads, device_loads, address_loads, listen_port_loads, private_key_loads,
}
use edgar_vpn.Config.Sheet.Written.{
  line-IsLine, marked-Graphic, marked_size, decode-encode, encoded-IsLine,
}

-- What is read of the [Interface] section.
abbrev pub interface_done : Sheet → Loader
interface_done s = record first_loader {
  cfg = record (config_meant s) { peers = [] };
  section = section_interface;
  have_address = true;
}

module _ (lib : Sodium) (laws : KeyTextLaws lib) (inet : Inet) where
  header_read :
      trimmed_line lib inet (codes "[Interface]") first_loader
      ≡ some (record first_loader { section = section_interface })
  unfolding trimmed_line enter_section split_first same_word
  header_read = refl

  module _ (s : Sheet) (parsed : ℕ) (w : Writable inet s parsed) (rest : List Line)
      (l : Loader) where
    name_reads :
        load_lines lib inet (parts (line 78 (codes "ame = ") s.name ∷ rest)) (in_interface l)
        ≡ load_lines lib inet
            (parts rest)
            (record (in_interface l) { cfg = record l.cfg { name = s.name } })
    name_reads =
        let (graphic, filled, short) = w.name in
        reads lib inet (line 78 (codes "ame = ") s.name) rest (in_interface l)
          (line-IsLine 78 (codes "ame = ") s.name (ground arith) refl (omega arith) graphic filled
            (omega arith))
          (name_loads lib inet l s.name graphic short)

    device_reads :
        load_lines lib inet
          (parts (line 68 (codes "eviceName = ") s.device ∷ rest))
          (in_interface l)
        ≡ load_lines lib inet
            (parts rest)
            (record (in_interface l) { cfg = record l.cfg { tun_name = s.device } })
    device_reads =
        let (graphic, filled, short) = w.device in
        reads lib inet (line 68 (codes "eviceName = ") s.device) rest (in_interface l)
          (line-IsLine 68 (codes "eviceName = ") s.device (ground arith) refl (omega arith) graphic
            filled (omega arith))
          (device_loads lib inet l s.device graphic short)

    address_reads :
        load_lines lib inet (parts (address_line s ∷ rest)) (in_interface l)
        ≡ load_lines lib inet (parts rest) (record (in_interface l) {
          cfg = record l.cfg { tun_address = s.address; tun_netmask = s.netmask };
          have_address = true;
        })
    address_reads =
        let (text_graphic, filled, short) = w.address in
        let graphic = marked-Graphic 47 s.prefix s.address (omega arith) text_graphic in
        let size = marked_size 47 s.prefix s.address in
        reads lib inet (address_line s) rest (in_interface l)
          (line-IsLine 65 (codes "ddress = ") (address_line s).value (ground arith) refl
            (omega arith) graphic (omega arith) (omega arith))
          (address_loads lib inet l (address_line s).value graphic (
            parse_cidr_printed inet s.address s.prefix parsed w.no_slash w.prefix w.known short
              w.masked))

    listen_port_reads :
        load_lines lib inet (parts (listen_port_line s ∷ rest)) (in_interface l)
        ≡ load_lines lib inet
            (parts rest)
            (record (in_interface l) { cfg = record l.cfg { listen_port = s.listen_port } })
    listen_port_reads =
        let graphic = Digits-Graphic (decimal s.listen_port) (decimal-Digits s.listen_port) in
        let size = decimal_size s.listen_port in
        let (d, t, is) = decimal_first s.listen_port in
        let filled : 0 < length (decimal s.listen_port) = rw is (omega arith) in
        reads lib inet (listen_port_line s) rest (in_interface l)
          (line-IsLine 76 (codes "istenPort = ") (listen_port_line s).value (ground arith) refl
            (omega arith) graphic filled (omega arith))
          (listen_port_loads lib inet l (listen_port_line s).value graphic
            (port_value-decimal s.listen_port w.listen_port.0 w.listen_port.1))

    private_key_reads :
        load_lines lib inet (parts (private_key_line lib s ∷ rest)) (in_interface l)
        ≡ load_lines lib inet (parts rest) (record (in_interface l) {
          cfg = record l.cfg { private_key = s.private_key; has_private_key = true };
        })
    private_key_reads =
        let is_line =
          encoded-IsLine lib laws s.private_key 80 (codes "rivateKey = ") w.private_key
            (ground arith) refl (omega arith) in
        reads lib inet (private_key_line lib s) rest (in_interface l) is_line (
          private_key_loads lib inet l (private_key_line lib s).value is_line.graphic
            (decode-encode lib laws s.private_key w.private_key))

  -- The six lines of the section.
  pub interface_read :
      (s : Sheet) (parsed : ℕ)
      → Writable inet s parsed
      → load_lines lib inet (parts (sheet_lines lib s)) first_loader
        ≡ load_lines lib inet (parts (all_peer_lines lib s.peers)) (interface_done s)
  interface_read s parsed w =
      let rest = all_peer_lines lib s.peers in
      let after_port = private_key_line lib s ∷ rest in
      let after_address = listen_port_line s ∷ after_port in
      let after_device = address_line s ∷ after_address in
      let after_name = line 68 (codes "eviceName = ") s.device ∷ after_device in
      let l0 : Loader = in_interface first_loader in
      let l1 : Loader = record l0 { cfg = record l0.cfg { name = s.name } } in
      let l2 : Loader = record l1 { cfg = record l1.cfg { tun_name = s.device } } in
      let l3 : Loader = record l2 {
        cfg = record l2.cfg { tun_address = s.address; tun_netmask = s.netmask };
        have_address = true;
      } in
      let l4 : Loader = record l3 { cfg = record l3.cfg { listen_port = s.listen_port } } in
      reads lib inet (line 91 (codes "Interface") (codes "]"))
        (line 78 (codes "ame = ") s.name ∷ after_name) first_loader
        (line-IsLine 91 (codes "Interface") (codes "]") (ground arith) refl (omega arith)
          (ground arith) (omega arith) (omega arith))
        header_read
      ∙ name_reads s parsed w after_name l0
      ∙ device_reads s parsed w after_device l1
      ∙ address_reads s parsed w after_address l2
      ∙ listen_port_reads s parsed w after_port l3
      ∙ private_key_reads s parsed w rest l4
