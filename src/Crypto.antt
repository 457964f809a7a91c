-- ===== src/Crypto.antt =====
-- include/crypto.h and src/crypto.c: the key exchange and the packet format
-- `counter || ciphertext || tag`. Lengths of C objects stay far below 2 ^ 64, so the sums of
-- lengths that the source compares do not wrap.
pub mod Counter
pub mod Packet
use edgar_vpn.Prelude.{
  ℕ, zero, suc, ◌+◌, ◌-◌, ◌*◌, ◌/◌, ◌^◌, bit_or, ◌≡◌, Bool, true, false, Option, none, some, List,
  [], ◌∷◌, ◌++◌, Bytes, u8, u64, ltb, ◌==◌, if◌then◌else◌, length, get_or, set, take, drop,
  replicate,
}
use mathlib.Core.Option
use edgar_vpn.Sodium.{Sodium, SessionKeys}

abbrev pub public_key_bytes : ℕ
public_key_bytes = 32

abbrev pub secret_key_bytes : ℕ
secret_key_bytes = 32

abbrev pub counter_bytes : ℕ
counter_bytes = 8

abbrev pub tag_bytes : ℕ
tag_bytes = 16

-- `CRYPTO_PACKET_OVERHEAD`
abbrev pub packet_overhead : ℕ
packet_overhead = counter_bytes + tag_bytes

-- `crypto_role_t`
pub data Role : Type 0 where
  initiator responder : Role

abbrev pub role_is : Role → Role → Bool
role_is initiator initiator = true
role_is responder responder = true
role_is _ _ = false

infixl 5 ◌>>=◌
abbrev pub ◌>>=◌ {ℓ κ} : {A : Type ℓ} {B : Type κ} → Option A → (A → Option B) → Option B
none >>= f = none
some a >>= f = f a

-- `crypto_init`: 0 or -1.
unfoldable pub crypto_init : Sodium → Bool
crypto_init s = elim s.init_ok [ none ↦ false | some _ ↦ true ]

-- `crypto_generate_keypair`, from the random bits `seed`.
unfoldable pub generate_keypair : Sodium → ℕ → Bytes × Bytes
generate_keypair s seed = s.kx_keypair seed

unfoldable pub derive_public_key : Sodium → Bytes → Bytes
derive_public_key s sk = s.scalarmult_base sk

unfoldable pub derive_session_keys : Sodium → Role → Bytes → Bytes → Bytes → Option SessionKeys
derive_session_keys s initiator local_pk local_sk remote_pk =
    s.kx_client_session_keys local_pk local_sk remote_pk
derive_session_keys s responder local_pk local_sk remote_pk =
    s.kx_server_session_keys local_pk local_sk remote_pk

-- `crypto_encode_base64`, into a buffer with room for the text and its zero; at a smaller one
-- libsodium ends the program.
unfoldable pub encode_base64 : Sodium → Bytes → Bytes
encode_base64 s bytes = s.bin2base64 bytes

-- `crypto_decode_base64`: text that decodes to another length than expected is refused.
unfoldable pub decode_base64 : Sodium → Bytes → ℕ → Option Bytes
decode_base64 s text expected_len = do
  out ← s.base642bin text expected_len
  if length out == expected_len then some out else none

-- The loops of `build_nonce` and `crypto_seal`, with `left` rounds to go at index `i`:
-- `out[i] = (unsigned char)(counter >> (8 * i))`.
unfoldable pub put_counter : ℕ → ℕ → ℕ → Bytes → Bytes
put_counter zero i counter out = out
put_counter (suc left) i counter out =
    put_counter left (i + 1) counter (set out i (u8 (counter / 2 ^ (8 * i))))

unfoldable pub build_nonce : ℕ → Bytes
unfolding put_counter
build_nonce counter = put_counter counter_bytes 0 counter (replicate 12 0)

-- The loop of `crypto_open`: `counter |= ((uint64_t)in[i]) << (8 * i)`.
unfoldable pub get_counter : ℕ → ℕ → Bytes → ℕ → ℕ
get_counter zero i input counter = counter
get_counter (suc left) i input counter =
    get_counter left (i + 1) input (bit_or counter (u64 (get_or input i 0 * 2 ^ (8 * i))))

-- `crypto_seal`: the packet that is written to `out`, a buffer of `out_len` bytes.
unfoldable pub seal : Sodium → Bytes → ℕ → Bytes → ℕ → Option Bytes
seal s key counter plaintext out_len =
    if ltb out_len (length plaintext + packet_overhead) then none else do
      ciphertext ← s.aead_encrypt plaintext (build_nonce counter) key
      some (put_counter counter_bytes 0 counter (replicate counter_bytes 0) ++ ciphertext)

-- `crypto_open`: the plaintext that is written to `out`, and the packet's counter.
unfoldable pub crypto_open : Sodium → Bytes → Bytes → ℕ → Option (Bytes × ℕ)
crypto_open s key input out_len =
    if ltb (length input) packet_overhead
    then none
    else let counter = get_counter counter_bytes 0 input 0 in
      let ciphertext_len = length input - counter_bytes in
      if ltb out_len (ciphertext_len - tag_bytes) then none else do
        plaintext ← s.aead_decrypt (drop counter_bytes input) (build_nonce counter) key
        some (plaintext, counter)

-- `crypto_wipe`
unfoldable pub wipe : ℕ → Bytes
wipe len = replicate len 0
