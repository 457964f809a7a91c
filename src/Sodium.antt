-- ===== src/Sodium.antt =====
-- libsodium, as include/crypto.h and src/crypto.c call it. The library is not part of the
-- repository: its calls are the fields of a record, and `Laws` states what its manual promises.
use edgar_vpn.Prelude.{AreBytes, Graphic, ℕ, ◌+◌, ◌≡◌, Option, some, Bytes, length}

-- What `crypto_kx_*_session_keys` writes: the keys to receive and to send with.
pub record SessionKeys : Type 0 where
  pub rx : Bytes
  pub tx : Bytes

-- `none` is a return code other than 0, on which nothing is written that the callers read.
pub record Sodium : Type 0 where
  -- `sodium_init() >= 0`
  pub init_ok : Option ℕ
  -- `crypto_kx_keypair`, as a function of the random bits that it draws: public and secret key.
  pub kx_keypair : ℕ → Bytes × Bytes
  pub scalarmult_base : Bytes → Bytes
  -- The arguments are the local public key, the local secret key and the remote public key.
  pub kx_client_session_keys : Bytes → Bytes → Bytes → Option SessionKeys
  pub kx_server_session_keys : Bytes → Bytes → Bytes → Option SessionKeys
  -- `crypto_aead_chacha20poly1305_ietf_encrypt` and `_decrypt`: the text, the nonce and the key.
  pub aead_encrypt : Bytes → Bytes → Bytes → Option Bytes
  pub aead_decrypt : Bytes → Bytes → Bytes → Option Bytes
  -- `sodium_bin2base64`, and `sodium_base642bin` with the size of its output buffer.
  pub bin2base64 : Bytes → Bytes
  pub base642bin : Bytes → ℕ → Option Bytes

pub record Laws (s : Sodium) : Type 0 where
  -- A public key has `crypto_kx_PUBLICKEYBYTES`.
  pub keypair_length : (seed : ℕ) → length (s.kx_keypair seed).0 ≡ 32
  -- Encryption succeeds and appends a tag of `crypto_aead_chacha20poly1305_ietf_ABYTES`.
  pub encrypt_total :
      (text nonce key : Bytes)
      → (sealed : Bytes) × (s.aead_encrypt text nonce key ≡ some sealed)
        × (length sealed ≡ length text + 16)
  -- Under the same nonce and key, what was encrypted is decrypted.
  pub decrypt_encrypt :
      (text nonce key sealed : Bytes)
      → s.aead_encrypt text nonce key ≡ some sealed
      → s.aead_decrypt sealed nonce key ≡ some text
  -- A ciphertext is accepted only if it is the encryption of what comes out.
  pub encrypt_decrypt :
      (text nonce key sealed : Bytes)
      → s.aead_decrypt sealed nonce key ≡ some text
      → s.aead_encrypt text nonce key ≡ some sealed
  -- The two sides of an exchange between generated key pairs obtain the same keys, crosswise.
  pub kx_agree :
      (client server : ℕ) (keys : SessionKeys)
      → s.kx_client_session_keys
          (s.kx_keypair client).0
          (s.kx_keypair client).1
          (s.kx_keypair server).0
        ≡ some keys
      → s.kx_server_session_keys
          (s.kx_keypair server).0
          (s.kx_keypair server).1
          (s.kx_keypair client).0
        ≡ some (record { rx = keys.tx; tx = keys.rx })

-- What its manual promises of new keys and of their text in base64.
pub record KeyTextLaws (s : Sodium) : Type 0 where
  -- `crypto_kx_PUBLICKEYBYTES` and `crypto_kx_SECRETKEYBYTES`.
  pub public_key_size :
      (seed : ℕ) → AreBytes (s.kx_keypair seed).0 × (length (s.kx_keypair seed).0 ≡ 32)
  pub secret_key_size :
      (seed : ℕ) → AreBytes (s.kx_keypair seed).1 × (length (s.kx_keypair seed).1 ≡ 32)
  -- The alphabet is of letters, digits, `+`, `/` and `=`, four for three bytes begun.
  pub bin2base64-Graphic : (bytes : Bytes) → AreBytes bytes → Graphic (s.bin2base64 bytes)
  pub bin2base64_size : (bytes : Bytes) → length bytes ≡ 32 → length (s.bin2base64 bytes) ≡ 44
  -- A text that was encoded is decoded, where there is room.
  pub base642bin-bin2base64 :
      (bytes : Bytes)
      → AreBytes bytes
      → s.base642bin (s.bin2base64 bytes) (length bytes) ≡ some bytes

-- Octets, and as many as this.
abbrev pub HasSize : ℕ → Bytes → Type 0
HasSize n bytes = AreBytes bytes × (length bytes ≡ n)

-- The public key that belongs to a generated secret key is derived from it again.
pub record DerivesLaw (s : Sodium) : Type 0 where
  pub scalarmult_base-kx_keypair :
      (seed : ℕ) → s.scalarmult_base (s.kx_keypair seed).1 ≡ (s.kx_keypair seed).0
