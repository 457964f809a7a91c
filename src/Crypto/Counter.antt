-- ===== src/Crypto/Counter.antt =====
-- The counter on the wire: eight octets, least significant first (`crypto_seal`, `crypto_open`).
use edgar_vpn.Prelude.{
  ℕ, zero, suc, get_or, ◌+◌, ◌*◌, ◌/◌, ◌^◌, ◌<◌, bit_or, ◌≡◌, refl, ◌∙◌, [], ◌∷◌, ◌++◌, Bytes,
  arith, u8, u64, replicate,
}
use edgar_vpn.Prelude.Bits.{or_shifted, or_below}
use edgar_vpn.Crypto.{counter_bytes, put_counter, get_counter, build_nonce}

-- The eight octets of a counter.
abbrev pub octets : ℕ → Bytes
octets c =
    u8 (c / 2 ^ 0)
    ∷ u8 (c / 2 ^ 8)
    ∷ u8 (c / 2 ^ 16)
    ∷ u8 (c / 2 ^ 24)
    ∷ u8 (c / 2 ^ 32)
    ∷ u8 (c / 2 ^ 40)
    ∷ u8 (c / 2 ^ 48)
    ∷ u8 (c / 2 ^ 56)
    ∷ []

pub put_counter-octets :
    (c : ℕ) → put_counter counter_bytes 0 c (replicate counter_bytes 0) ≡ octets c
unfolding put_counter
put_counter-octets c = refl

-- The nonce is the counter's octets and four zeroes.
pub build_nonce-octets : (c : ℕ) → build_nonce c ≡ octets c ++ replicate 4 0
unfolding build_nonce
build_nonce-octets c = refl

-- One round of the loop of `crypto_open`: the octet goes above the bits read so far.
step :
    (k acc b : ℕ)
    → acc < 2 ^ k
    → b * 2 ^ k < 2 ^ 64
    → bit_or acc (u64 (b * 2 ^ k)) ≡ acc + b * 2 ^ k
step k acc b low fits = ground (arith, or_shifted k acc b low)

-- What the loop reads from eight octets.
pub get_counter-sum :
    (b0 b1 b2 b3 b4 b5 b6 b7 : ℕ) (rest : Bytes)
    → b0 < 256
    → b1 < 256
    → b2 < 256
    → b3 < 256
    → b4 < 256
    → b5 < 256
    → b6 < 256
    → b7 < 256
    → get_counter counter_bytes 0 (b0 ∷ b1 ∷ b2 ∷ b3 ∷ b4 ∷ b5 ∷ b6 ∷ b7 ∷ rest) 0
      ≡ b0
        + b1 * 2 ^ 8
        + b2 * 2 ^ 16
        + b3 * 2 ^ 24
        + b4 * 2 ^ 32
        + b5 * 2 ^ 40
        + b6 * 2 ^ 48
        + b7 * 2 ^ 56
unfolding get_counter
get_counter-sum b0 b1 b2 b3 b4 b5 b6 b7 rest h0 h1 h2 h3 h4 h5 h6 h7 =
    let e0 : bit_or 0 (u64 (b0 * 2 ^ 0)) ≡ b0 =
      ground (arith, step 0 0 b0 (omega arith) (omega arith)) in
    rw
      (
        e0,
        step 8 (b0) b1 (omega arith) (omega arith),
        step 16 (b0 + b1 * 2 ^ 8) b2 (omega arith) (omega arith),
        step 24 (b0 + b1 * 2 ^ 8 + b2 * 2 ^ 16) b3 (omega arith) (omega arith),
        step 32 (b0 + b1 * 2 ^ 8 + b2 * 2 ^ 16 + b3 * 2 ^ 24) b4 (omega arith) (omega arith),
        step 40 (b0 + b1 * 2 ^ 8 + b2 * 2 ^ 16 + b3 * 2 ^ 24 + b4 * 2 ^ 32) b5 (omega arith)
            (omega arith),
        step 48 (b0 + b1 * 2 ^ 8 + b2 * 2 ^ 16 + b3 * 2 ^ 24 + b4 * 2 ^ 32 + b5 * 2 ^ 40) b6
            (omega arith) (omega arith),
        step 56
            (b0 + b1 * 2 ^ 8 + b2 * 2 ^ 16 + b3 * 2 ^ 24 + b4 * 2 ^ 32 + b5 * 2 ^ 40 + b6 * 2 ^ 48)
            b7 (omega arith) (omega arith),
      )
      refl

-- The octets are read back to the counter, whatever follows them.
pub get_counter-octets :
    (c : ℕ) (rest : Bytes) → c < 2 ^ 64 → get_counter counter_bytes 0 (octets c ++ rest) 0 ≡ c
get_counter-octets c rest h =
    get_counter-sum (u8 (c / 2 ^ 0)) (u8 (c / 2 ^ 8)) (u8 (c / 2 ^ 16)) (u8 (c / 2 ^ 24))
      (u8 (c / 2 ^ 32)) (u8 (c / 2 ^ 40)) (u8 (c / 2 ^ 48)) (u8 (c / 2 ^ 56)) rest (omega arith)
      (omega arith) (omega arith) (omega arith) (omega arith) (omega arith) (omega arith)
      (omega arith)
    ∙ omega arith

-- Eight octets are the octets of the counter that is read from them.
pub octets-get_counter :
    (b0 b1 b2 b3 b4 b5 b6 b7 : ℕ) (rest : Bytes)
    → b0 < 256
    → b1 < 256
    → b2 < 256
    → b3 < 256
    → b4 < 256
    → b5 < 256
    → b6 < 256
    → b7 < 256
    → octets (get_counter counter_bytes 0 (b0 ∷ b1 ∷ b2 ∷ b3 ∷ b4 ∷ b5 ∷ b6 ∷ b7 ∷ rest) 0) ++ rest
      ≡ b0 ∷ b1 ∷ b2 ∷ b3 ∷ b4 ∷ b5 ∷ b6 ∷ b7 ∷ rest
octets-get_counter b0 b1 b2 b3 b4 b5 b6 b7 rest h0 h1 h2 h3 h4 h5 h6 h7 =
    rw (get_counter-sum b0 b1 b2 b3 b4 b5 b6 b7 rest h0 h1 h2 h3 h4 h5 h6 h7) (ground arith)

-- Whatever is read is a `uint64_t`.
get_counter_below :
    (left i : ℕ) (input : Bytes) (counter : ℕ)
    → counter < 2 ^ 64
    → get_counter left i input counter < 2 ^ 64
unfolding get_counter
get_counter_below zero i input counter small = small
get_counter_below (suc left) i input counter small =
    get_counter_below left (i + 1) input _
      (or_below 64 counter (u64 (get_or input i 0 * 2 ^ (8 * i))) small (omega arith))

pub wire_counter_below : (input : Bytes) → get_counter counter_bytes 0 input 0 < 2 ^ 64
wire_counter_below input = get_counter_below counter_bytes 0 input 0 (omega arith)
