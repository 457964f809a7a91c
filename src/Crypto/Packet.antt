-- ===== src/Crypto/Packet.antt =====
-- `crypto_seal` and `crypto_open` together, over a libsodium that keeps its promises.
use edgar_vpn.Prelude.{
  ◌≡◌, ltb, length-drop, false, ℕ, ◌+◌, ◌-◌, ◌^◌, ◌≤◌, ◌<◌, refl, some, ◌∷◌, ◌++◌, Bytes, arith,
  length, le→ltb, drop, AreBytes, Option-cases, inl, inr,
}
use edgar_vpn.Sodium.{Sodium, Laws}
use edgar_vpn.Crypto.{packet_overhead, counter_bytes, seal, crypto_open, build_nonce, get_counter}
use edgar_vpn.Crypto.Counter.{octets, put_counter-octets, get_counter-octets, octets-get_counter}

-- A packet that was sealed is the counter's octets and the encryption of the text.
pub seal-eq-some :
    (s : Sodium) (key : Bytes) (counter : ℕ) (text : Bytes) (out_len : ℕ) {packet : Bytes}
    → seal s key counter text out_len ≡ some packet
    → (sealed : Bytes) × (s.aead_encrypt text (build_nonce counter) key ≡ some sealed)
      × (packet ≡ octets counter ++ sealed)
unfolding seal
seal-eq-some s key counter text out_len e =
    elim (Option-cases (s.aead_encrypt text (build_nonce counter) key)) [
      | inl failed ↦ absurd (ground arith)
      | inr (sealed, found) ↦ (sealed, found, ground (arith, put_counter-octets counter))
    ]

-- The counter that a receiver reads from a packet is the one that the packet was sealed under.
pub seal_wire :
    (s : Sodium) (key : Bytes) (counter : ℕ) (text : Bytes) (out_len : ℕ) {packet : Bytes}
    → counter < 2 ^ 64
    → seal s key counter text out_len ≡ some packet
    → get_counter counter_bytes 0 packet 0 ≡ counter
seal_wire s key counter text out_len small e =
    let (sealed, enc, shape) = seal-eq-some s key counter text out_len e in
    rw shape (get_counter-octets counter sealed small)

-- Opening a packet that begins with a counter's octets decrypts the rest under its nonce.
open-octets :
    (s : Sodium) (key : Bytes) (counter room : ℕ) (sealed : Bytes)
    → counter < 2 ^ 64
    → 16 ≤ length sealed
    → length sealed ≤ room + 16
    → {text : Bytes} → s.aead_decrypt sealed (build_nonce counter) key ≡ some text
    → crypto_open s key (octets counter ++ sealed) room ≡ some (text, counter)
unfolding crypto_open
open-octets s key counter room sealed small long fits e =
    rw
      (
        le→ltb (length (octets counter ++ sealed)) packet_overhead (omega arith),
        le→ltb room (length (octets counter ++ sealed) - counter_bytes - 16) (omega arith),
        get_counter-octets counter sealed small,
        e,
      )
      refl

-- A packet of at least eight octets is the octets of its counter and the rest.
counter_first :
    (packet : Bytes)
    → AreBytes packet
    → 8 ≤ length packet
    → octets (get_counter counter_bytes 0 packet 0) ++ drop 8 packet ≡ packet
counter_first (b0 ∷ b1 ∷ b2 ∷ b3 ∷ b4 ∷ b5 ∷ b6 ∷ b7 ∷ rest) octs h =
    octets-get_counter b0 b1 b2 b3 b4 b5 b6 b7 rest (octs 0) (octs 1) (octs 2) (octs 3) (octs 4)
      (octs 5) (octs 6) (octs 7)
counter_first _ octs h = absurd (omega arith)

-- What a packet that opened must have looked like.
pub decrypted_packet :
    (s : Sodium) (key packet : Bytes) (room : ℕ) {text : Bytes} {counter : ℕ}
    → crypto_open s key packet room ≡ some (text, counter)
    → (packet_overhead ≤ length packet)
      × (length packet ≤ room + packet_overhead)
      × (counter ≡ get_counter counter_bytes 0 packet 0)
      × (s.aead_decrypt (drop counter_bytes packet) (build_nonce counter) key ≡ some text)
unfolding crypto_open
decrypted_packet s key packet room e =
    elim (Option-cases (
      s.aead_decrypt (drop counter_bytes packet)
        (build_nonce (get_counter counter_bytes 0 packet 0)) key)) [
          | inl failed ↦ absurd (ground arith)
          | inr (plain, found) ↦ ground arith
        ]

module _ (s : Sodium) (laws : Laws s) where
  -- Sealing into a large enough buffer succeeds, and the packet is longer than the text by the
  -- overhead.
  pub seal_total :
      (key : Bytes) (counter : ℕ) (text : Bytes) (out_len : ℕ)
      → length text + packet_overhead ≤ out_len
      → (packet : Bytes) × (seal s key counter text out_len ≡ some packet)
        × (length packet ≡ length text + packet_overhead)
  unfolding seal
  seal_total key counter text out_len room =
      let (sealed, e, len) = laws.encrypt_total text (build_nonce counter) key in
      let wide = le→ltb out_len (length text + packet_overhead) room in
      (octets counter ++ sealed, rw (wide, e, put_counter-octets counter), omega arith)

  -- A sealed packet opens under the same key to the text and the counter, in any buffer that
  -- holds the text.
  pub open-seal :
      (key : Bytes) (counter : ℕ) (text : Bytes) (out_len room : ℕ) {packet : Bytes}
      → counter < 2 ^ 64
      → length text ≤ room
      → seal s key counter text out_len ≡ some packet
      → crypto_open s key packet room ≡ some (text, counter)
  open-seal key counter text out_len room small fits e =
      let (sealed, enc, shape) = seal-eq-some s key counter text out_len e in
      let (again, enc', len) = laws.encrypt_total text (build_nonce counter) key in
      let same : length sealed ≡ length text + 16 = ground arith in
      rw shape (
        open-octets s key counter room sealed small (omega arith) (omega arith)
          (laws.decrypt_encrypt text (build_nonce counter) key sealed enc))

  -- Nothing else opens: a packet of octets that opens to a text and a counter is what sealing
  -- this text under this counter writes.
  pub seal-open :
      (key packet : Bytes) (room : ℕ) {text : Bytes} {counter : ℕ}
      → AreBytes packet
      → crypto_open s key packet room ≡ some (text, counter)
      → seal s key counter text (length text + packet_overhead) ≡ some packet
  unfolding seal
  seal-open key packet room {text} octs e =
      let (long, fits, c, d) = decrypted_packet s key packet room e in
      let wide =
        le→ltb (length text + packet_overhead) (length text + packet_overhead) (omega arith) in
      rw
        (
          wide,
          c,
          laws.encrypt_decrypt text (build_nonce (get_counter counter_bytes 0 packet 0)) key
              (drop 8 packet) (rw c at d),
          put_counter-octets,
          counter_first packet octs (omega arith),
        )
        refl

  -- A packet that was sealed is longer than its text by the overhead, and fits the buffer.
  pub seal_size :
      (key : Bytes) (counter : ℕ) (text : Bytes) (out_len : ℕ) {packet : Bytes}
      → seal s key counter text out_len ≡ some packet
      → (length packet ≡ length text + packet_overhead) × (length text + packet_overhead ≤ out_len)
  unfolding seal
  seal_size key counter text out_len {packet} e =
      let (sealed, enc, shape) = seal-eq-some s key counter text out_len e in
      let (again, enc', len) = laws.encrypt_total text (build_nonce counter) key in
      let same : length sealed ≡ length text + 16 = ground arith in
      let room : ltb out_len (length text + packet_overhead) ≡ false = ground arith in
      (rw shape (omega arith), ground arith)

  -- So is a packet that opens, and its text fits the buffer.
  pub open_size :
      (key packet : Bytes) (room : ℕ) {text : Bytes} {counter : ℕ}
      → crypto_open s key packet room ≡ some (text, counter)
      → (length packet ≡ length text + packet_overhead) × (length text ≤ room)
  open_size key packet room {text} {counter} e =
      let (long, fits, wire, plain) = decrypted_packet s key packet room e in
      let nonce = build_nonce counter in
      let enc = laws.encrypt_decrypt text nonce key (drop counter_bytes packet) plain in
      let (again, enc', len) = laws.encrypt_total text nonce key in
      let same : length (drop counter_bytes packet) ≡ length text + 16 = ground arith in
      let all = length-drop counter_bytes packet in (omega arith, omega arith)
