-- ===== src/Config/Sheet/Peers.antt =====
-- The [Peer] sections of a sheet, through the loop of `config_load` of src/config.c.
use edgar_vpn.Prelude.{
  ◌<◌, ◌≡◌, refl, ◌∙◌, ap, true, false, not, ◌&&◌, Bool, some, List, [], ◌∷◌, ◌++◌, codes, length,
  leb, arith,
}
use edgar_vpn.Sodium.{Sodium, KeyTextLaws}
use edgar_vpn.Crypto.{Role, initiator, responder}
use edgar_vpn.Config.{ConfigPeer}
use edgar_vpn.Config.Text.{same_word, split_first}
use edgar_vpn.Config.Values.{Inet}
use edgar_vpn.Config.Values.Printed.{parse_endpoint_printed, parse_ip_prefix_printed}
use edgar_vpn.Config.Load.{
  Loader, section_peer, in_peer, has_all, zero_peer, update_last, set_cur, trimmed_line, load_lines,
  enter_section,
}
use edgar_vpn.Config.Sheet.{
  Line, line, SheetPeer, endpoint_line, public_key_line, role_line, allowed_line, peer_lines,
  peer_meant, PeerWritable,
}
use edgar_vpn.Config.Sheet.Written.{
  line-IsLine, marked-Graphic, marked_size, decode-encode, encoded-IsLine,
}
use edgar_vpn.Config.Sheet.Lines.{IsLine, parts, reads}
use edgar_vpn.Config.Sheet.Keys.{endpoint_loads, public_key_loads, role_loads, allowed_loads}

update_last-append :
    (f : ConfigPeer → ConfigPeer) (ps : List ConfigPeer) (p : ConfigPeer)
    → update_last f (ps ++ (p ∷ [])) ≡ ps ++ (f p ∷ [])
unfolding update_last
update_last-append f [] p = refl
update_last-append f (q ∷ []) p = refl
update_last-append f (q ∷ r ∷ ps) p = ap (λ rest. q ∷ rest) (update_last-append f (r ∷ ps) p)

-- The loader while it reads the keys of a peer.
abbrev building : Loader → ConfigPeer → Bool → Bool → Bool → Bool → Loader
building l q endpoint pubkey role allowed = record l {
  cfg = record l.cfg { peers = l.cfg.peers ++ (q ∷ []) };
  section = section_peer;
  have_endpoint = endpoint;
  have_pubkey = pubkey;
  have_role = role;
  have_allowed = allowed;
}

abbrev pub peer_done : SheetPeer → Loader → Loader
peer_done p l = building l (peer_meant p) true true true true

module _ (lib : Sodium) (inet : Inet) (l : Loader) where
  header_loads :
      (in_peer l.section && not (has_all l)) ≡ false
      → leb 8 (length l.cfg.peers) ≡ false
      → trimmed_line lib inet (codes "[Peer]") l
        ≡ some (building l zero_peer false false false false)
  unfolding trimmed_line enter_section split_first same_word
  header_loads ready few = rw (ready, few) refl

  -- An assignment through `cur`.
  assigned :
      (f : ConfigPeer → ConfigPeer) (q : ConfigPeer) (a b c d : Bool)
      → set_cur f (building l q a b c d) ≡ building l (f q) a b c d
  assigned f q a b c d =
      ap
        (λ ps. record (building l q a b c d) {
          cfg = record (building l q a b c d).cfg { peers = ps };
        })
        (update_last-append f l.cfg.peers q)

  -- The keys of a peer that is being read, one by one.
  module _ (laws : KeyTextLaws lib) (p : SheetPeer) (w : PeerWritable inet p)
      (rest : List Line) where
    endpoint_reads :
        (q : ConfigPeer)
        → load_lines lib inet
            (parts (endpoint_line p ∷ rest))
            (building l q false false false false)
          ≡ load_lines lib inet
              (parts rest)
              (building l (record q { host = p.host; port = p.port }) true false false false)
    endpoint_reads q =
        let (host_graphic, host_some, host_short) = w.host in
        let graphic = marked-Graphic 58 p.port p.host (omega arith) host_graphic in
        let size = marked_size 58 p.port p.host in
        let b = building l q false false false false in
        reads lib inet (endpoint_line p) rest b
          (line-IsLine 69 (codes "ndpoint = ") (endpoint_line p).value (ground arith) refl
            (omega arith) graphic (omega arith) (omega arith))
          (endpoint_loads lib inet b (endpoint_line p).value graphic
              (parse_endpoint_printed p.host p.port host_some host_short w.port.0 w.port.1)
            ∙ ap (λ (x : Loader). some (record x { have_endpoint = true }))
                (assigned (λ r. record r { host = p.host; port = p.port }) q false false false
                  false))

    public_key_reads :
        (q : ConfigPeer)
        → load_lines lib inet
            (parts (public_key_line lib p ∷ rest))
            (building l q true false false false)
          ≡ load_lines lib inet
              (parts rest)
              (building l (record q { public_key = p.public_key }) true true false false)
    public_key_reads q =
        let is_line =
          encoded-IsLine lib laws p.public_key 80 (codes "ublicKey = ") w.public_key (ground arith)
            refl (omega arith) in
        let b = building l q true false false false in
        reads lib inet (public_key_line lib p) rest b is_line (
          public_key_loads lib inet b (public_key_line lib p).value is_line.graphic
            (decode-encode lib laws p.public_key w.public_key)
          ∙ ap (λ (x : Loader). some (record x { have_pubkey = true }))
              (assigned (λ r. record r { public_key = p.public_key }) q true false false false))

    role-IsLine : (r : Role) → IsLine (role_line r)
    role-IsLine initiator =
        line-IsLine 82 (codes "ole = ") (codes "initiator") (ground arith) refl (omega arith)
          (ground arith) (omega arith) (omega arith)
    role-IsLine responder =
        line-IsLine 82 (codes "ole = ") (codes "responder") (ground arith) refl (omega arith)
          (ground arith) (omega arith) (omega arith)

    role_reads :
        (q : ConfigPeer)
        → load_lines lib inet (parts (role_line p.role ∷ rest)) (building l q true true false false)
          ≡ load_lines lib inet
              (parts rest)
              (building l (record q { role = p.role }) true true true false)
    role_reads q =
        let b = building l q true true false false in
        reads lib inet (role_line p.role) rest b (role-IsLine p.role) (
          role_loads lib inet b p.role
          ∙ ap (λ (x : Loader). some (record x { have_role = true }))
              (assigned (λ r. record r { role = p.role }) q true true false false))

    allowed_reads :
        (q : ConfigPeer)
        → load_lines lib inet (parts (allowed_line p ∷ rest)) (building l q true true true false)
          ≡ load_lines lib inet (parts rest) (
              building l
                (record q {
                  allowed_address = p.allowed_address;
                  allowed_prefix = p.allowed_prefix;
                })
                true
                true
                true
                true)
    allowed_reads q =
        let (text_graphic, text_some, text_short) = w.allowed in
        let graphic =
          marked-Graphic 47 p.allowed_prefix p.allowed_text (omega arith) text_graphic in
        let size = marked_size 47 p.allowed_prefix p.allowed_text in
        let b = building l q true true true false in
        reads lib inet (allowed_line p) rest b
          (line-IsLine 65 (codes "llowedIPs = ") (allowed_line p).value (ground arith) refl
            (omega arith) graphic (omega arith) (omega arith))
          (allowed_loads lib inet b (allowed_line p).value graphic (
              parse_ip_prefix_printed inet p.allowed_text p.allowed_prefix p.allowed_address
                w.no_slash w.prefix w.known text_short)
            ∙ ap (λ (x : Loader). some (record x { have_allowed = true }))
                (assigned
                  (λ r. record r {
                    allowed_address = p.allowed_address;
                    allowed_prefix = p.allowed_prefix;
                  })
                  q true true true false))

  -- The five lines of a section, and the loading goes on with the rest.
  pub peer_reads :
      (laws : KeyTextLaws lib) (p : SheetPeer) (rest : List Line)
      → PeerWritable inet p
      → (in_peer l.section && not (has_all l)) ≡ false
      → length l.cfg.peers < 8
      → load_lines lib inet (parts (peer_lines lib p rest)) l
        ≡ load_lines lib inet (parts rest) (peer_done p l)
  peer_reads laws p rest w ready few =
      let after_role = allowed_line p ∷ rest in
      let after_key = role_line p.role ∷ after_role in
      let after_endpoint = public_key_line lib p ∷ after_key in
      let q1 : ConfigPeer = record zero_peer { host = p.host; port = p.port } in
      let q2 : ConfigPeer = record q1 { public_key = p.public_key } in
      let q3 : ConfigPeer = record q2 { role = p.role } in
      reads lib inet (line 91 (codes "Peer") (codes "]")) (endpoint_line p ∷ after_endpoint) l
        (line-IsLine 91 (codes "Peer") (codes "]") (ground arith) refl (omega arith) (ground arith)
          (omega arith) (omega arith))
        (header_loads ready (ground arith))
      ∙ endpoint_reads laws p w after_endpoint zero_peer
      ∙ public_key_reads laws p w after_key q1
      ∙ role_reads laws p w after_role q2
      ∙ allowed_reads laws p w rest q3
