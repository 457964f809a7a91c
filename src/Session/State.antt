-- ===== src/Session/State.antt =====
-- The types and constants of include/session.h, and `session_start_handshake`, which every other
-- operation rests on. A C flag that is only ever 0 or 1 is a `Bool`.
use edgar_vpn.Prelude.{ℕ, ◌+◌, ◌/◌, ◌==◌, Bool, true, false, [], ◌∷◌, Bytes, replicate}
use edgar_vpn.Sodium.{Sodium, SessionKeys}
use edgar_vpn.Crypto.{Role, generate_keypair, packet_overhead, public_key_bytes}

-- `session_state_t`
pub data SessionState : Type 0 where
  handshake_pending established : SessionState

abbrev pub is_pending : SessionState → Bool
is_pending handshake_pending = true
is_pending established = false

abbrev pub is_established : SessionState → Bool
is_established handshake_pending = false
is_established established = true

-- `session_msg_type_t`
abbrev pub msg_handshake_init : ℕ
msg_handshake_init = 1

abbrev pub msg_handshake_response : ℕ
msg_handshake_response = 2

abbrev pub msg_data : ℕ
msg_data = 3

-- `SESSION_HANDSHAKE_MSG_LEN`
abbrev pub handshake_msg_len : ℕ
handshake_msg_len = 1 + packet_overhead + public_key_bytes

-- `SESSION_DATA_OVERHEAD`
abbrev pub data_overhead : ℕ
data_overhead = 1 + packet_overhead

-- `SESSION_REPLAY_WINDOW_BITS` and `SESSION_REPLAY_WINDOW_BYTES`
abbrev pub replay_window_bits : ℕ
replay_window_bits = 1024

abbrev pub replay_window_bytes : ℕ
replay_window_bytes = replay_window_bits / 8

-- `session_t`
pub record Session : Type 0 where
  pub role : Role
  pub state : SessionState
  pub static_keys : SessionKeys
  pub local_eph_pk : Bytes
  pub local_eph_sk : Bytes
  pub handshake_counter : ℕ
  pub pending_handshake_counter : ℕ
  pub have_seen_handshake : Bool
  pub highest_handshake_counter_seen : ℕ
  pub data_keys : SessionKeys
  pub tx_counter : ℕ
  pub highest_rx_counter : ℕ
  pub have_received_any : Bool
  pub replay_window : Bytes

-- `in_len < 1 || in[0] != type`, negated.
abbrev pub has_type : ℕ → Bytes → Bool
has_type type [] = false
has_type type (b ∷ rest) = b == type

-- A window with no counter marked: `memset(window, 0, sizeof(window))`.
abbrev pub empty_window : Bytes
empty_window = replicate replay_window_bytes 0

-- `session_start_handshake`. `seed` is the random bits that the key generation draws.
unfoldable pub start_handshake : Sodium → ℕ → Session → Session
start_handshake lib seed s =
    let (pk, sk) = generate_keypair lib seed in
    record s {
      local_eph_pk = pk;
      local_eph_sk = sk;
      state = handshake_pending;
      tx_counter = 0;
      have_received_any = false;
      replay_window = empty_window;
    }
