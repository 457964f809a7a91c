-- ===== src/Tests/Keygen.antt =====
-- A library whose base64 is another alphabet of the same length, and the lines of one key pair.
use edgar_vpn.Prelude.{
  ◌+◌, ◌-◌, ◌≡◌, refl, ap, true, some, [], ◌∷◌, ◌++◌, Bytes, arith, length, length-append, take,
  replicate, Graphic, are_bytes, are_bytes-AreBytes,
}
use edgar_vpn.Sodium.{Sodium, KeyTextLaws}
use edgar_vpn.Crypto.{crypto_init, generate_keypair}
use edgar_vpn.Config.Text.{trim, c_string, fgets_parts}
use edgar_vpn.Config.Load.{first_loader, section_interface, section_peer, set_cur, trimmed_line}
use edgar_vpn.Keygen.{keygen}
use edgar_vpn.Keygen.Printed.{keygen_loads}
use edgar_vpn.Tests.Toy.{toy}
use edgar_vpn.Tests.Config.{somewhere}

abbrev shift : Bytes → Bytes
shift [] = []
shift (c ∷ s) = (c + 33) ∷ shift s

abbrev unshift : Bytes → Bytes
unshift [] = []
unshift (c ∷ s) = (c - 33) ∷ unshift s

abbrev pub speller : Sodium
speller = record toy {
  kx_keypair = λ seed. (replicate 32 1, replicate 32 2);
  bin2base64 = λ bytes. shift bytes ++ replicate 12 61;
  base642bin = λ text room. some (unshift (take room text));
}

shift-Graphic : (bytes : Bytes) → Graphic (shift bytes ++ replicate 12 61)
shift-Graphic [] = ground arith
shift-Graphic (c ∷ s) = (omega arith, shift-Graphic s)

length-shift : (bytes : Bytes) → length (shift bytes) ≡ length bytes
length-shift [] = refl
length-shift (c ∷ s) = omega (arith, length-shift s)

unshift-shift : (bytes rest : Bytes) → unshift (take (length bytes) (shift bytes ++ rest)) ≡ bytes
unshift-shift [] rest = refl
unshift-shift (c ∷ s) rest =
    let same : (c + 33) - 33 ≡ c = omega arith in rw (same, unshift-shift s rest) refl

pub speller-KeyTextLaws : KeyTextLaws speller
unfolding are_bytes
speller-KeyTextLaws = record {
  public_key_size = λ seed. (are_bytes-AreBytes (replicate 32 1) refl, refl);
  secret_key_size = λ seed. (are_bytes-AreBytes (replicate 32 2) refl, refl);
  bin2base64-Graphic = λ bytes small. shift-Graphic bytes;
  bin2base64_size = λ bytes size.
      omega (arith, length-append (shift bytes) (replicate 12 61), length-shift bytes);
  base642bin-bin2base64 = λ bytes small. ap some (unshift-shift bytes (replicate 12 61));
}

ready : crypto_init speller ≡ true
unfolding crypto_init
ready = refl

keygen_loads_example :
    (private public : Bytes) × (fgets_parts 512 511 [] (keygen speller 7).1 ≡ private ∷ public ∷ [])
    × (trimmed_line speller somewhere
          (trim (c_string private))
          (record first_loader { section = section_interface })
        ≡ some (record first_loader {
          section = section_interface;
          cfg = record first_loader.cfg {
            private_key = (generate_keypair speller 7).1;
            has_private_key = true;
          };
        }))
    × (trimmed_line speller somewhere
          (trim (c_string public))
          (record first_loader { section = section_peer })
        ≡ some
            (record (set_cur
              (λ p. record p { public_key = (generate_keypair speller 7).0 })
              (record first_loader { section = section_peer })) { have_pubkey = true }))
keygen_loads_example = keygen_loads speller speller-KeyTextLaws somewhere 7 first_loader ready
