-- ===== src/Session/Channel/Cases.antt =====
-- The outcomes of `session_seal_data` and `session_open_data`.
use edgar_vpn.Prelude.{
  size_pred, ℕ, ◌+◌, ◌≡◌, ◌⊎◌, inl, inr, none, some, ◌∷◌, Bytes, arith, drop, Option-cases,
  Bool-cases, ◌&&◌, u64, length, if◌then◌else◌,
}
use edgar_vpn.Sodium.{Sodium}
use edgar_vpn.Crypto.{seal, crypto_open}
use edgar_vpn.Session.State.{Session, established, is_established, has_type, msg_data}
use edgar_vpn.Session.Replay.{check_and_mark}
use edgar_vpn.Session.Channel.{seal_data, open_data}

module _ (lib : Sodium) (s : Session) where
  pub seal_data-eq-none :
      (text : Bytes) (out_len : ℕ)
      → (seal_data lib s text out_len).1 ≡ none
      → (seal_data lib s text out_len).0 ≡ s
  unfolding seal_data
  seal_data-eq-none text out_len e = ground arith

  -- A packet is sealed by an established session only, under the counter that it held.
  pub seal_data-eq-some :
      (text : Bytes) (out_len : ℕ) {message : Bytes}
      → (seal_data lib s text out_len).1 ≡ some message
      → (packet : Bytes) × (s.state ≡ established)
        × (seal lib s.data_keys.tx s.tx_counter text (size_pred out_len) ≡ some packet)
        × (message ≡ msg_data ∷ packet)
        × ((seal_data lib s text out_len).0 ≡ record s { tx_counter = u64 (s.tx_counter + 1) })
  unfolding seal_data
  seal_data-eq-some text out_len e =
      elim (Option-cases (seal lib s.data_keys.tx s.tx_counter text (size_pred out_len))) [
        | inl bad ↦ absurd (ground arith)
        | inr (packet, good) ↦ (packet, ground arith, good, ground arith, ground arith)
      ]

  -- A packet that does not reach the freshness check changes nothing.
  pub open_data_cases :
      (input : Bytes) (room : ℕ)
      → (open_data lib s input room ≡ record { session = s; written = none; result = none })
        ⊎ ((text : Bytes) × (counter : ℕ) × (s.state ≡ established)
            × (crypto_open lib s.data_keys.rx (drop 1 input) room ≡ some (text, counter))
            × (open_data lib s input room ≡ record {
              session = (check_and_mark s counter).0;
              written = some text;
              result = if (check_and_mark s counter).1 then some (length text) else none;
            }))
  unfolding open_data
  open_data_cases input room =
      elim (Bool-cases (is_established s.state && has_type msg_data input)) [
        | inr closed ↦ inl (ground arith)
        | inl ready ↦ elim (Option-cases (crypto_open lib s.data_keys.rx (drop 1 input) room)) [
          | inl bad ↦ inl (ground arith)
          | inr ((text, counter), good) ↦ inr (text, counter, ground arith, good, ground arith)
        ]
      ]
