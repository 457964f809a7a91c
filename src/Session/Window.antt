-- ===== src/Session/Window.antt =====
-- The replay window's bitmap: `replay_bit_get`, `replay_bit_set` and `replay_bit_clear`, and the
-- laws by which the rest of the development reads it.
use edgar_vpn.Prelude.{
  ℕ, ◌-◌, ◌/◌, ◌%◌, ◌^◌, ◌<◌, bit_and, bit_or, ◌≡◌, refl, true, Bytes, arith, u8, ◌==◌, ==_iff,
  if◌then◌else◌, length, get_or, set, AreBytes, length-set, get_or-set, get_or-replicate,
}
use edgar_vpn.Prelude.Bits.{holds_below, holds_below_lem}
use edgar_vpn.Session.State.{replay_window_bits, replay_window_bytes, empty_window}

-- `~` on `unsigned int`.
abbrev complement : ℕ → ℕ
complement n = 2 ^ 32 - 1 - n

-- `(byte >> k) & 1`, `byte | (1u << k)` and `byte & ~(1u << k)`, the last two cast to a byte.
abbrev byte_get : ℕ → ℕ → ℕ
byte_get byte k = bit_and (byte / 2 ^ k) 1

abbrev byte_set : ℕ → ℕ → ℕ
byte_set byte k = u8 (bit_or byte (2 ^ k))

abbrev byte_clear : ℕ → ℕ → ℕ
byte_clear byte k = u8 (bit_and byte (complement (2 ^ k)))

unfoldable pub replay_bit_get : Bytes → ℕ → ℕ
replay_bit_get window counter =
    let slot = counter % replay_window_bits in byte_get (get_or window (slot / 8) 0) (slot % 8)

unfoldable pub replay_bit_set : Bytes → ℕ → Bytes
replay_bit_set window counter =
    let slot = counter % replay_window_bits in
    set window (slot / 8) (byte_set (get_or window (slot / 8) 0) (slot % 8))

unfoldable pub replay_bit_clear : Bytes → ℕ → Bytes
replay_bit_clear window counter =
    let slot = counter % replay_window_bits in
    set window (slot / 8) (byte_clear (get_or window (slot / 8) 0) (slot % 8))

-- The whole bitmap, and nothing but octets in it.
pub record IsWindow (w : Bytes) : Type 0 where
  pub size : length w ≡ replay_window_bytes
  pub octets : AreBytes w

-- Over a byte the laws are checked at every value.
set_table :
    holds_below 256 (λ b.
      holds_below 8 (λ j.
        holds_below 8 (λ k. byte_get (byte_set b j) k == (if j == k then 1 else byte_get b k))))
    ≡ true
unfolding holds_below
set_table = refl

clear_table :
    holds_below 256 (λ b. holds_below 8 (λ j.
      holds_below 8 (λ k. byte_get (byte_clear b j) k == (if j == k then 0 else byte_get b k))))
    ≡ true
unfolding holds_below
clear_table = refl

zero_table : holds_below 8 (λ k. byte_get 0 k == 0) ≡ true
unfolding holds_below
zero_table = refl

byte_get-zero : (k : ℕ) → k < 8 → byte_get 0 k ≡ 0
byte_get-zero k h = (==_iff _ _).0 (holds_below_lem 8 _ zero_table k h)

byte_get-set :
    (b j k : ℕ)
    → b < 256
    → j < 8
    → k < 8
    → byte_get (byte_set b j) k ≡ (if j == k then 1 else byte_get b k)
byte_get-set b j k hb hj hk =
    (==_iff _ _).0
      (holds_below_lem 8 _ (holds_below_lem 8 _ (holds_below_lem 256 _ set_table b hb) j hj) k hk)

byte_get-clear :
    (b j k : ℕ)
    → b < 256
    → j < 8
    → k < 8
    → byte_get (byte_clear b j) k ≡ (if j == k then 0 else byte_get b k)
byte_get-clear b j k hb hj hk =
    (==_iff _ _).0
      (holds_below_lem 8 _ (holds_below_lem 8 _ (holds_below_lem 256 _ clear_table b hb) j hj) k hk)

-- Writing an octet keeps a bitmap a bitmap.
set-IsWindow : (w : Bytes) (i v : ℕ) → IsWindow w → i < 128 → v < 256 → IsWindow (set w i v)
set-IsWindow w i v good low small = record {
  size = omega (arith, length-set {0} w i v, good.size);
  octets = λ j. ground (arith, get_or-set w i j v 0 (omega (arith, good.size)), good.octets j);
}

pub replay_bit_set-IsWindow : (w : Bytes) (c : ℕ) → IsWindow w → IsWindow (replay_bit_set w c)
unfolding replay_bit_set
replay_bit_set-IsWindow w c good = set-IsWindow w _ _ good (omega arith) (omega arith)

pub replay_bit_clear-IsWindow : (w : Bytes) (c : ℕ) → IsWindow w → IsWindow (replay_bit_clear w c)
unfolding replay_bit_clear
replay_bit_clear-IsWindow w c good = set-IsWindow w _ _ good (omega arith) (omega arith)

pub empty_window-IsWindow : IsWindow empty_window
empty_window-IsWindow = record {
  size = refl;
  octets = λ i. rw (get_or-replicate {A = ℕ} replay_window_bytes i 0) (omega arith);
}

-- Slots `a` and `b`, each a byte and a bit in it.
module _ (w : Bytes) (good : IsWindow w) (a b : ℕ) (ha : a < 1024) (hb : b < 1024) where
  read-write :
      (v : ℕ)
      → get_or (set w (a / 8) v) (b / 8) 0 ≡ (if a / 8 == b / 8 then v else get_or w (b / 8) 0)
  read-write v = get_or-set w (a / 8) (b / 8) v 0 (omega (arith, good.size))

  read-set :
      byte_get (get_or (set w (a / 8) (byte_set (get_or w (a / 8) 0) (a % 8))) (b / 8) 0) (b % 8)
      ≡ (if a == b then 1 else byte_get (get_or w (b / 8) 0) (b % 8))
  read-set = rw (read-write (byte_set (get_or w (a / 8) 0) (a % 8))) (
      ground (
        arith,
        byte_get-set (get_or w (a / 8) 0) (a % 8) (b % 8) (good.octets (a / 8)) (omega arith)
            (omega arith),
      ))

  read-clear :
      byte_get (get_or (set w (a / 8) (byte_clear (get_or w (a / 8) 0) (a % 8))) (b / 8) 0) (b % 8)
      ≡ (if a == b then 0 else byte_get (get_or w (b / 8) 0) (b % 8))
  read-clear = rw (read-write (byte_clear (get_or w (a / 8) 0) (a % 8))) (
      ground (
        arith,
        byte_get-clear (get_or w (a / 8) 0) (a % 8) (b % 8) (good.octets (a / 8)) (omega arith)
            (omega arith),
      ))

-- Setting a bit marks its own slot and leaves the other slots as they are.
pub get-set :
    (w : Bytes) (c d : ℕ)
    → IsWindow w
    → replay_bit_get (replay_bit_set w c) d
      ≡ (if c % replay_window_bits == d % replay_window_bits then 1 else replay_bit_get w d)
unfolding replay_bit_get replay_bit_set
get-set w c d good = read-set w good (c % 1024) (d % 1024) (omega arith) (omega arith)

-- Clearing a bit frees its own slot and leaves the other slots as they are.
pub get-clear :
    (w : Bytes) (c d : ℕ)
    → IsWindow w
    → replay_bit_get (replay_bit_clear w c) d
      ≡ (if c % replay_window_bits == d % replay_window_bits then 0 else replay_bit_get w d)
unfolding replay_bit_get replay_bit_clear
get-clear w c d good = read-clear w good (c % 1024) (d % 1024) (omega arith) (omega arith)

pub get-empty_window : (d : ℕ) → replay_bit_get empty_window d ≡ 0
unfolding replay_bit_get
get-empty_window d =
    let zeroes : get_or empty_window (d % 1024 / 8) 0 ≡ 0 =
      get_or-replicate {A = ℕ} replay_window_bytes (d % 1024 / 8) 0 in
    rw zeroes (byte_get-zero (d % 1024 % 8) (omega arith))
