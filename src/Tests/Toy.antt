-- ===== src/Tests/Toy.antt =====
-- A stand-in for libsodium, of no cryptographic strength, that satisfies `Laws`: the tag names
-- the nonce and the key, and a key names the two public keys and the direction.
use edgar_vpn.Prelude.{
  ℕ, ◌≡◌, refl, sym, ◌∙◌, ap, none, some, [], ◌∷◌, ◌++◌, Bytes, arith, take, drop, replicate,
  get_or, if◌then◌else◌, beq_bytes, beq_bytes_refl, beq_bytes→eq, take-append-drop, Bool-cases, inl,
  inr,
}
use mathlib.Core.Path.{subst, ap₂}
use mathlib.Core.Option.{some-injective}
use edgar_vpn.Sodium.{Sodium, Laws, SessionKeys}

abbrev toy_tag : Bytes → Bytes → Bytes
toy_tag n k =
    get_or n 0 0
    ∷ get_or n 1 0
    ∷ get_or n 2 0
    ∷ get_or n 3 0
    ∷ get_or n 4 0
    ∷ get_or n 5 0
    ∷ get_or n 6 0
    ∷ get_or n 7 0
    ∷ get_or k 0 0
    ∷ get_or k 1 0
    ∷ get_or k 2 0
    ∷ get_or k 3 0
    ∷ get_or k 32 0
    ∷ get_or k 33 0
    ∷ get_or k 34 0
    ∷ get_or k 35 0
    ∷ []

abbrev toy_public : ℕ → Bytes
toy_public seed = seed ∷ replicate 31 1

abbrev pub toy : Sodium
toy = record {
  init_ok = some 0;
  kx_keypair = λ seed. (toy_public seed, seed ∷ replicate 31 2);
  scalarmult_base = λ sk. get_or sk 0 0 ∷ replicate 31 1;
  kx_client_session_keys =
      λ pk sk peer. some (record { rx = 1 ∷ (pk ++ peer); tx = 2 ∷ (pk ++ peer) });
  kx_server_session_keys =
      λ pk sk peer. some (record { rx = 2 ∷ (peer ++ pk); tx = 1 ∷ (peer ++ pk) });
  aead_encrypt = λ text nonce key. some (toy_tag nonce key ++ text);
  aead_decrypt = λ sealed nonce key.
      if beq_bytes (take 16 sealed) (toy_tag nonce key) then some (drop 16 sealed) else none;
  bin2base64 = λ bytes. bytes;
  base642bin = λ text room. some text;
}

toy_decrypts :
    (text nonce key : Bytes) → toy.aead_decrypt (toy_tag nonce key ++ text) nonce key ≡ some text
toy_decrypts text nonce key = rw (beq_bytes_refl (toy_tag nonce key)) refl

toy_authentic :
    (text nonce key sealed : Bytes)
    → toy.aead_decrypt sealed nonce key ≡ some text
    → toy.aead_encrypt text nonce key ≡ some sealed
toy_authentic text nonce key sealed e =
    elim (Bool-cases (beq_bytes (take 16 sealed) (toy_tag nonce key))) [
      | inr bad ↦ absurd (ground arith)
      | inl good ↦
          let tag : take 16 sealed ≡ toy_tag nonce key = beq_bytes→eq _ _ good in
          let rest : drop 16 sealed ≡ text = ground arith in
          ap some (ap₂ ◌++◌ (sym tag) (sym rest) ∙ take-append-drop 16 sealed)
    ]

pub toy-Laws : Laws toy
toy-Laws = record {
  keypair_length = λ seed. refl;
  encrypt_total = λ text nonce key. (toy_tag nonce key ++ text, refl, omega arith);
  decrypt_encrypt = λ text nonce key sealed e.
      subst (λ c. toy.aead_decrypt c nonce key ≡ some text) (some-injective _ _ e)
        (toy_decrypts text nonce key);
  encrypt_decrypt = toy_authentic;
  kx_agree = λ client server keys e.
      ap (λ (k : SessionKeys). some (record { rx = k.tx; tx = k.rx })) (some-injective _ _ e);
}
