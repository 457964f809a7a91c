-- ===== src/Keygen/Printed.antt =====
-- The whole output of tools/keygen.c, put into configuration files.
use edgar_vpn.Prelude.{
  ℕ, ◌-◌, ◌≡◌, sym, ◌∙◌, ap, true, some, [], ◌∷◌, ◌++◌, Bytes, codes, length, Graphic, arith,
}
use mathlib.Core.List.{append-nil}
use edgar_vpn.Sodium.{Sodium, KeyTextLaws}
use edgar_vpn.Crypto.{crypto_init, generate_keypair, encode_base64}
use edgar_vpn.Config.Text.{trim, c_string, fgets_parts}
use edgar_vpn.Config.Values.{Inet, config_max_line}
use edgar_vpn.Config.Load.{Loader, section_interface, section_peer, set_cur, trimmed_line}
use edgar_vpn.Keygen.{private_line, public_line, keygen}
use edgar_vpn.Config.Text.Lines.{one_part}
use edgar_vpn.Keygen.Loads.{private_line_loads, public_line_loads}

-- Two lines are read as two parts.
printed_parts :
    (sk_text pk_text : Bytes)
    → Graphic sk_text
    → Graphic pk_text
    → length sk_text ≡ 44
    → length pk_text ≡ 44
    → fgets_parts 512 511 [] (private_line sk_text ++ public_line pk_text)
      ≡ private_line sk_text ∷ public_line pk_text ∷ []
unfolding fgets_parts
printed_parts sk_text pk_text sk_graphic pk_graphic sk_length pk_length =
    one_part 80 (codes "rivateKey = ") sk_text (public_line pk_text) (ground arith) sk_graphic
      (omega arith)
    ∙ ap (λ parts. private_line sk_text ∷ parts)
        (ap (fgets_parts 512 511 []) (sym (append-nil (public_line pk_text)))
          ∙ one_part 80 (codes "ublicKey  = ") pk_text [] (ground arith) pk_graphic (omega arith))

-- What the key generator prints is two lines for `config_load`: in an [Interface] section the first
-- sets the private key to the new secret key, and in a [Peer] section the second sets the public
-- key of the peer to the new public key; nothing else of the configuration changes.
pub keygen_loads :
    (lib : Sodium) (laws : KeyTextLaws lib) (inet : Inet) (seed : ℕ) (l : Loader)
    → crypto_init lib ≡ true
    → (private public : Bytes) × (fgets_parts config_max_line
          (config_max_line - 1)
          []
          (keygen lib seed).1
        ≡ private ∷ public ∷ [])
      × (trimmed_line lib inet (trim (c_string private)) (record l { section = section_interface })
          ≡ some (record l {
            section = section_interface;
            cfg = record l.cfg {
              private_key = (generate_keypair lib seed).1;
              has_private_key = true;
            };
          }))
      × (trimmed_line lib inet (trim (c_string public)) (record l { section = section_peer })
          ≡ some
              (record (set_cur
                (λ p. record p { public_key = (generate_keypair lib seed).0 })
                (record l { section = section_peer })) { have_pubkey = true }))
unfolding keygen generate_keypair encode_base64
keygen_loads lib laws inet seed l ready =
    let (pk, sk) = lib.kx_keypair seed in
    let (pk_bytes, pk_size) = laws.public_key_size seed in
    let (sk_bytes, sk_size) = laws.secret_key_size seed in
    let pk_text = lib.bin2base64 pk in
    let sk_text = lib.bin2base64 sk in
    let pk_graphic = laws.bin2base64-Graphic pk pk_bytes in
    let sk_graphic = laws.bin2base64-Graphic sk sk_bytes in
    let pk_length = laws.bin2base64_size pk pk_size in
    let sk_length = laws.bin2base64_size sk sk_size in
    (
      private_line sk_text,
      public_line pk_text,
      rw (ready, keygen) (printed_parts sk_text pk_text sk_graphic pk_graphic sk_length pk_length),
      private_line_loads lib inet l sk_text sk sk_length sk_graphic
          (ap (lib.base642bin sk_text) (sym sk_size) ∙ laws.base642bin-bin2base64 sk sk_bytes)
          sk_size,
      public_line_loads lib inet l pk_text pk pk_length pk_graphic
          (ap (lib.base642bin pk_text) (sym pk_size) ∙ laws.base642bin-bin2base64 pk pk_bytes)
          pk_size,
    )
