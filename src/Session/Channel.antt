-- ===== src/Session/Channel.antt =====
-- `session_seal_data` and `session_open_data`.
pub mod Cases
pub mod Delivery
use edgar_vpn.Prelude.{
  size_pred, ℕ, ◌+◌, ◌-◌, not, Option, none, some, ◌∷◌, Bytes, u64, ltb, if◌then◌else◌, length,
  drop,
}
use edgar_vpn.Sodium.{Sodium}
use edgar_vpn.Crypto.{seal, crypto_open}
use edgar_vpn.Session.State.{Session, is_established, msg_data, data_overhead, has_type}
use edgar_vpn.Session.Replay.{check_and_mark}

-- What `session_open_data` leaves behind: the session, the bytes that the decryption put into
-- `out` (`none` where it did not succeed), and the result, `none` standing for -1.
pub record Opened : Type 0 where
  pub session : Session
  pub written : Option Bytes
  pub result : Option ℕ

module _ (lib : Sodium) where
  unfoldable pub seal_data : Session → Bytes → ℕ → Session × Option Bytes
  seal_data s plaintext out_len =
      if not (is_established s.state)
      then (s, none)
      else if ltb out_len (length plaintext + data_overhead)
      then (s, none)
      else elim (seal lib s.data_keys.tx s.tx_counter plaintext (size_pred out_len)) [
        | none ↦ (s, none)
        | some sealed ↦ (record s { tx_counter = u64 (s.tx_counter + 1) }, some (msg_data ∷ sealed))
      ]

  unfoldable pub open_data : Session → Bytes → ℕ → Opened
  open_data s input out_len =
      if not (is_established s.state)
      then record { session = s; written = none; result = none }
      else if not (has_type msg_data input)
      then record { session = s; written = none; result = none }
      else elim (crypto_open lib s.data_keys.rx (drop 1 input) out_len) [
        | none ↦ record { session = s; written = none; result = none }
        | some (plaintext, counter) ↦
            let (s', fresh) = check_and_mark s counter in
            record {
              session = s';
              written = some plaintext;
              result = if fresh then some (length plaintext) else none;
            }
      ]
