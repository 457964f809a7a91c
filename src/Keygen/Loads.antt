-- ===== src/Keygen/Loads.antt =====
-- What tools/keygen.c prints, read by src/config.c.
use edgar_vpn.Prelude.{
  ℕ, ◌≡◌, refl, sym, ◌∙◌, ap, true, some, [], ◌∷◌, ◌++◌, Bytes, codes, length, Graphic, arith,
}
use mathlib.Core.Path.{subst}
use edgar_vpn.Sodium.{Sodium}
use edgar_vpn.Crypto.{decode_base64}
use edgar_vpn.Keygen.{private_line, public_line}
use edgar_vpn.Config.Values.{Inet}
use edgar_vpn.Config.Load.{
  Loader, section_interface, section_peer, set_cur, key_line, interface_key, peer_key, trimmed_line,
}
use edgar_vpn.Config.Text.Lines.{Clean, trim-Graphic, as_trimmed}
use edgar_vpn.Config.Text.{same_word, split_first, trim, c_string}

module _ (lib : Sodium) (inet : Inet) (l : Loader) (d : ℕ) (t bytes : Bytes) where
  -- A text that decodes to a key.
  abbrev Spells : ℕ → Type 0
  Spells size = Graphic (d ∷ t) × (lib.base642bin (d ∷ t) size ≡ some bytes) × (length bytes ≡ size)

  private_trimmed_line :
      Spells 32
      → trimmed_line lib inet
          (codes "PrivateKey = " ++ (d ∷ t))
          (record l { section = section_interface })
        ≡ some (record l {
          section = section_interface;
          cfg = record l.cfg { private_key = bytes; has_private_key = true };
        })
  unfolding trimmed_line key_line interface_key split_first same_word decode_base64 trim
  private_trimmed_line (graphic, decoded, size) =
      rw (trim-Graphic (d ∷ t) graphic, decoded, size) refl

  public_trimmed_line :
      Spells 32
      → trimmed_line lib inet
          (codes "PublicKey  = " ++ (d ∷ t))
          (record l { section = section_peer })
        ≡ some
            (record (set_cur
              (λ p. record p { public_key = bytes })
              (record l { section = section_peer })) { have_pubkey = true })
  unfolding trimmed_line key_line peer_key split_first same_word decode_base64 trim
  public_trimmed_line (graphic, decoded, size) =
      rw (trim-Graphic (d ∷ t) graphic, decoded, size) refl

-- A text of this length has a first character.
first_char : (s : Bytes) → length s ≡ 44 → (d : ℕ) × (t : Bytes) × (s ≡ d ∷ t)
first_char [] e = absurd (omega arith)
first_char (d ∷ t) e = (d, t, refl)

module _ (lib : Sodium) (inet : Inet) (l : Loader) where
  -- The printed text of a key, in the right place of a configuration file.
  pub private_line_loads :
      (text bytes : Bytes)
      → length text ≡ 44
      → Graphic text
      → lib.base642bin text 32 ≡ some bytes
      → length bytes ≡ 32
      → trimmed_line lib inet
          (trim (c_string (private_line text)))
          (record l { section = section_interface })
        ≡ some (record l {
          section = section_interface;
          cfg = record l.cfg { private_key = bytes; has_private_key = true };
        })
  private_line_loads text bytes e graphic decoded size =
      let (d, t, is) = first_char text e in
      let graphic' = subst Graphic is graphic in
      rw is (
        ap (λ s. trimmed_line lib inet s (record l { section = section_interface }))
          (as_trimmed 80 (codes "rivateKey = ") d t Clean_name refl graphic')
        ∙ private_trimmed_line lib inet l d t bytes
            (graphic', ap (λ s. lib.base642bin s 32) (sym is) ∙ decoded, size))
    where
      Clean_name : Clean (codes "PrivateKey = ")
      Clean_name = ground arith

  pub public_line_loads :
      (text bytes : Bytes)
      → length text ≡ 44
      → Graphic text
      → lib.base642bin text 32 ≡ some bytes
      → length bytes ≡ 32
      → trimmed_line lib inet
          (trim (c_string (public_line text)))
          (record l { section = section_peer })
        ≡ some
            (record (set_cur
              (λ p. record p { public_key = bytes })
              (record l { section = section_peer })) { have_pubkey = true })
  public_line_loads text bytes e graphic decoded size =
      let (d, t, is) = first_char text e in
      let graphic' = subst Graphic is graphic in
      rw is (
        ap (λ s. trimmed_line lib inet s (record l { section = section_peer }))
          (as_trimmed 80 (codes "ublicKey  = ") d t Clean_name refl graphic')
        ∙ public_trimmed_line lib inet l d t bytes
            (graphic', ap (λ s. lib.base642bin s 32) (sym is) ∙ decoded, size))
    where
      Clean_name : Clean (codes "PublicKey  = ")
      Clean_name = ground arith
