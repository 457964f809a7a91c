-- ===== src/Session/Channel/Delivery.antt =====
-- Sealed data reaches the other side, once.
use edgar_vpn.Prelude.{
  size_pred, ℕ, ◌+◌, ◌^◌, ◌≤◌, ◌<◌, ◌≡◌, sym, ◌∙◌, ap, true, none, some, List, ◌∷◌, Bytes, arith,
  length, u64, if◌then◌else◌,
}
use mathlib.Core.Path.{subst, ap₂}
use edgar_vpn.Sodium.{Sodium, Laws}
use edgar_vpn.Crypto.{seal, crypto_open}
use edgar_vpn.Crypto.Packet.{seal_total, open-seal}
use edgar_vpn.Session.State.{Session, established, msg_data, data_overhead}
use edgar_vpn.Session.Replay.{check_and_mark}
use edgar_vpn.Session.Replay.Refines.{
  Represents, is_fresh, record_fresh_new, Stands, accepted_not_fresh, check_and_mark_refused,
  check_and_mark_frame, check_and_mark-Represents,
}
use edgar_vpn.Session.Channel.{seal_data, open_data}

-- An established session opens a packet that authenticates, and then decides by its counter.
open_data-authentic :
    (lib : Sodium) (s : Session) (packet text : Bytes) (counter room : ℕ) (seen : List ℕ)
    → s.state ≡ established
    → crypto_open lib s.data_keys.rx packet room ≡ some (text, counter)
    → Represents s seen
    → open_data lib s (msg_data ∷ packet) room ≡ record {
      session = (check_and_mark s counter).0;
      written = some text;
      result = if is_fresh seen counter then some (length text) else none;
    }
unfolding open_data
open_data-authentic lib s packet text counter room seen est opens stands =
    let answer = (check_and_mark-Represents s seen counter stands).0 in ground arith

module _ (lib : Sodium) (laws : Laws lib) where
  -- An established session seals any text for which the buffer has room, and advances its counter.
  pub seal_data_total :
      (s : Session) (text : Bytes) (out_len : ℕ)
      → s.state ≡ established
      → length text + data_overhead ≤ out_len
      → (packet : Bytes) × (seal lib s.data_keys.tx s.tx_counter text (size_pred out_len)
          ≡ some packet)
        × (length packet + 1 ≡ length text + data_overhead)
        × (seal_data lib s text out_len
            ≡ (record s { tx_counter = u64 (s.tx_counter + 1) }, some (msg_data ∷ packet)))
  unfolding seal_data
  seal_data_total s text out_len est room =
      let (packet, e, len) =
        seal_total lib laws s.data_keys.tx s.tx_counter text (size_pred out_len) (grind arith) in
      (packet, e, omega arith, ground arith)

  -- Between two established sessions, one of which receives with the key that the other sends
  -- with: what one seals, into a buffer with room for it, the other opens to the same text, if its
  -- own buffer holds that and the counter is fresh to it; afterwards it remembers the counter.
  -- A second copy of the packet is refused, although its text is again written to the buffer.
  pub delivered_once :
      (a b : Session) (text : Bytes) (out_len room : ℕ) (seen : List ℕ)
      → a.state ≡ established
      → b.state ≡ established
      → a.data_keys.tx ≡ b.data_keys.rx
      → a.tx_counter < 2 ^ 64
      → length text + data_overhead ≤ out_len
      → length text ≤ room
      → Represents b seen
      → is_fresh seen a.tx_counter ≡ true
      → (message : Bytes) × (b' : Session) × (seal_data lib a text out_len
          ≡ (record a { tx_counter = u64 (a.tx_counter + 1) }, some message))
        × (open_data lib b message room
            ≡ record { session = b'; written = some text; result = some (length text) })
        × Represents b' (a.tx_counter ∷ seen)
        × (open_data lib b' message room
            ≡ record { session = b'; written = some text; result = none })
  delivered_once a b text out_len room seen ea eb key small wide fits stands fresh =
      let c : ℕ = a.tx_counter in
      let b' : Session = (check_and_mark b c).0 in
      let (packet, sealed, len, sends) = seal_data_total a text out_len ea wide in
      let opens =
        open-seal lib laws a.data_keys.tx c text (size_pred out_len) room small fits sealed in
      let opens_b = ap (λ k. crypto_open lib k packet room) (sym key) ∙ opens in
      let frame = check_and_mark_frame b c in
      let opens_b' = ap (λ k. crypto_open lib k.rx packet room) frame.6 ∙ opens_b in
      let stands' = record_fresh_new seen c fresh in
      let known =
        subst (Stands b'.replay_window b'.have_received_any b'.highest_rx_counter) stands'
          (check_and_mark-Represents b seen c stands).1 in
      let first = open_data-authentic lib b packet text c room seen eb opens_b stands in
      let second =
        open_data-authentic lib b' packet text c room (c ∷ seen) (frame.1 ∙ eb) opens_b' known in
      let stale = accepted_not_fresh seen c in
      let again =
        check_and_mark_refused b' c ((check_and_mark-Represents b' (c ∷ seen) c known).0 ∙ stale) in
      (
        msg_data ∷ packet,
        b',
        sends,
        first
            ∙ ap
                (λ f. record {
                  session = b';
                  written = some text;
                  result = if f then some (length text) else none;
                })
                fresh,
        known,
        second
            ∙ ap₂
                (λ t f. record {
                  session = t;
                  written = some text;
                  result = if f then some (length text) else none;
                })
                again stale,
      )
