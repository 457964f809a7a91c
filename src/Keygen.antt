-- ===== src/Keygen.antt =====
-- tools/keygen.c: the program that prints a new pair of keys.
pub mod Loads
pub mod Printed
use edgar_vpn.Prelude.{ℕ, [], ◌∷◌, ◌++◌, Bytes, codes, if◌then◌else◌}
use edgar_vpn.Sodium.{Sodium}
use edgar_vpn.Crypto.{crypto_init, generate_keypair, encode_base64}

-- The two lines that are printed.
abbrev pub private_line : Bytes → Bytes
private_line sk_text = codes "PrivateKey = " ++ (sk_text ++ (10 ∷ []))

abbrev pub public_line : Bytes → Bytes
public_line pk_text = codes "PublicKey  = " ++ (pk_text ++ (10 ∷ []))

-- `main` of the tool, with the random bits of the pair: its status and what it prints.
unfoldable pub keygen : Sodium → ℕ → ℕ × Bytes
unfolding crypto_init generate_keypair encode_base64
keygen lib seed =
    if crypto_init lib
    then (let (pk, sk) = generate_keypair lib seed in
        (0, private_line (encode_base64 lib sk) ++ public_line (encode_base64 lib pk)))
    else (1, [])
