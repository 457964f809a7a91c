-- ===== src/Session/Handshake.antt =====
-- `session_init`, `session_build_init`, `session_handle_init` and `session_handle_response`.
-- An operation returns the session that it leaves behind, also where it fails, and the message
-- that it wrote to `out`, `none` standing for -1.
pub mod Agreement
pub mod Acceptance
pub mod Cases
use edgar_vpn.Prelude.{
  size_pred, ℕ, ◌+◌, ◌-◌, Bool, true, false, not, ◌&&◌, ◌||◌, Option, none, some, ◌∷◌, Bytes, u64,
  ltb, leb, ◌==◌, if◌then◌else◌, length, drop, replicate,
}
use edgar_vpn.Sodium.{Sodium, SessionKeys}
use edgar_vpn.Crypto.{
  Role, initiator, responder, role_is, derive_session_keys, seal, crypto_open, wipe,
  public_key_bytes, secret_key_bytes,
}
use edgar_vpn.Session.State.{
  Session, handshake_pending, established, is_pending, is_established, msg_handshake_init,
  msg_handshake_response, handshake_msg_len, has_type, empty_window, start_handshake,
}

abbrev no_keys : SessionKeys
no_keys = record { rx = replicate 32 0; tx = replicate 32 0 }

-- `memset(s, 0, sizeof(*s))`: the enumerations start at `initiator` and `handshake_pending`.
abbrev pub zero_session : Session
zero_session = record {
  role = initiator;
  state = handshake_pending;
  static_keys = no_keys;
  local_eph_pk = replicate public_key_bytes 0;
  local_eph_sk = replicate secret_key_bytes 0;
  handshake_counter = 0;
  pending_handshake_counter = 0;
  have_seen_handshake = false;
  highest_handshake_counter_seen = 0;
  data_keys = no_keys;
  tx_counter = 0;
  highest_rx_counter = 0;
  have_received_any = false;
  replay_window = empty_window;
}

module _ (lib : Sodium) where
  -- `session_init`, at the wall-clock time `now` and with the random bits `seed`.
  unfoldable pub session_init : ℕ → ℕ → Role → Bytes → Bytes → Bytes → Session × Bool
  session_init now seed role local_pk local_sk peer_pk =
      let s = record zero_session { role = role } in
      elim (derive_session_keys lib role local_pk local_sk peer_pk) [
        | none ↦ (s, false)
        | some keys ↦ (
          start_handshake lib seed (record s { static_keys = keys; handshake_counter = u64 now }),
          true,
        )
      ]

  -- `session_build_init`, with `out` a buffer of `out_len` bytes.
  unfoldable pub build_init : Session → ℕ → Session × Option Bytes
  build_init s out_len =
      if not (role_is s.role initiator) || not (is_pending s.state)
      then (s, none)
      else if ltb out_len handshake_msg_len
      then (s, none)
      else elim (seal lib s.static_keys.tx s.handshake_counter s.local_eph_pk (size_pred out_len)) [
        | none ↦ (s, none)
        | some sealed ↦ (
          record s {
            pending_handshake_counter = s.handshake_counter;
            handshake_counter = u64 (s.handshake_counter + 1);
          },
          some (msg_handshake_init ∷ sealed),
        )
      ]

  -- The end of `session_handle_init`, once the counter was found fresh: `s` has the ephemeral key
  -- pair to use, `peer_eph_pk` is the peer's ephemeral public key.
  unfoldable pub answer_init : Session → Bytes → ℕ → ℕ → Session × Option Bytes
  answer_init s peer_eph_pk counter out_len =
      elim (derive_session_keys lib s.role s.local_eph_pk s.local_eph_sk peer_eph_pk) [
        | none ↦ (s, none)
        | some keys ↦
            let wiped = record s { data_keys = keys; local_eph_sk = wipe secret_key_bytes } in
            elim (seal lib s.static_keys.tx counter s.local_eph_pk (size_pred out_len)) [
              | none ↦ (wiped, none)
              | some sealed ↦ (
                record wiped {
                  have_seen_handshake = true;
                  highest_handshake_counter_seen = counter;
                  state = established;
                },
                some (msg_handshake_response ∷ sealed),
              )
            ]
      ]

  -- `session_handle_init`. `seed` is drawn only where the key pair is generated anew.
  unfoldable pub handle_init : ℕ → Session → Bytes → ℕ → Session × Option Bytes
  handle_init seed s input out_len =
      if not (role_is s.role responder)
      then (s, none)
      else if not (has_type msg_handshake_init input) || ltb out_len handshake_msg_len
      then (s, none)
      else elim (crypto_open lib s.static_keys.rx (drop 1 input) public_key_bytes) [
        | none ↦ (s, none)
        | some (peer_eph_pk, counter) ↦
            if not (length peer_eph_pk == public_key_bytes)
            then (s, none)
            else if s.have_seen_handshake && leb counter s.highest_handshake_counter_seen
            then (s, none)
            else answer_init (if is_established s.state then start_handshake lib seed s else s)
                peer_eph_pk counter out_len
      ]

  -- `session_handle_response`
  unfoldable pub handle_response : Session → Bytes → Session × Bool
  handle_response s input =
      if not (role_is s.role initiator) || not (is_pending s.state)
      then (s, false)
      else if not (has_type msg_handshake_response input)
      then (s, false)
      else elim (crypto_open lib s.static_keys.rx (drop 1 input) public_key_bytes) [
        | none ↦ (s, false)
        | some (peer_eph_pk, counter) ↦
            if not (length peer_eph_pk == public_key_bytes)
            then (s, false)
            else if not (counter == s.pending_handshake_counter)
            then (s, false)
            else elim (derive_session_keys lib s.role s.local_eph_pk s.local_eph_sk peer_eph_pk) [
              | none ↦ (s, false)
              | some keys ↦ (
                record s {
                  data_keys = keys;
                  local_eph_sk = wipe secret_key_bytes;
                  state = established;
                },
                true,
              )
            ]
      ]
