-- ===== src/Session/Bounds.antt =====
-- The buffers that src/session.c writes to, and the lengths of its messages.
use edgar_vpn.Prelude.{
  ℕ, ◌+◌, ◌≤◌, ◌≡◌, refl, true, false, length-drop, ap, inl, inr, Option, none, some, Bytes, arith,
  drop, length, ltb,
}
use edgar_vpn.Sodium.{Sodium, Laws}
use edgar_vpn.Crypto.Packet.{seal_size, open_size}
use edgar_vpn.Session.State.{
  Session, data_overhead, handshake_msg_len, has_type, msg_handshake_init, msg_handshake_response,
  msg_data,
}
use edgar_vpn.Session.Handshake.{build_init, handle_init}
use edgar_vpn.Session.Handshake.Agreement.{refreshed}
use edgar_vpn.Session.Handshake.Acceptance.{handle_init-InitAccepted}
use edgar_vpn.Session.Handshake.Cases.{build_init-eq-some}
use edgar_vpn.Session.Channel.{Opened, seal_data, open_data}
use edgar_vpn.Session.Channel.Cases.{seal_data-eq-some, open_data_cases}

module _ (lib : Sodium) (laws : Laws lib) (s : Session) where
  -- An INIT is longer than the ephemeral public key by the overhead.
  pub build_init_size :
      (n : ℕ) {message : Bytes}
      → (build_init lib s n).1 ≡ some message
      → (has_type msg_handshake_init message ≡ true)
        × (length message ≡ length s.local_eph_pk + data_overhead)
        × (length message ≤ n)
  unfolding build_init
  build_init_size n e =
      let (packet, role, sealed, shape, after) = build_init-eq-some lib s n e in
      let (long, fits) = seal_size lib laws _ _ _ _ sealed in
      let room : ltb n handshake_msg_len ≡ false = ground arith in
      (rw shape refl, rw shape (omega arith), rw shape (ground arith))

  pub answer_size :
      (seed : ℕ) (input : Bytes) (n : ℕ) {reply : Bytes}
      → (handle_init lib seed s input n).1 ≡ some reply
      → (has_type msg_handshake_response reply ≡ true)
        × (length reply ≡ length (refreshed lib seed s).local_eph_pk + data_overhead)
        × (length reply ≤ n)
  unfolding handle_init
  answer_size seed input n e =
      let a =
        handle_init-InitAccepted lib seed s input n
          (ap (λ m. ((handle_init lib seed s input n).0, m)) e) in
      let (long, fits) = seal_size lib laws _ _ _ _ a.reply_sealed in
      let room : ltb n handshake_msg_len ≡ false = ground arith in
      (rw a.reply_packet refl, rw a.reply_packet (omega arith), rw a.reply_packet (ground arith))

  pub seal_data_size :
      (text : Bytes) (n : ℕ) {message : Bytes}
      → (seal_data lib s text n).1 ≡ some message
      → (has_type msg_data message ≡ true)
        × (length message ≡ length text + data_overhead)
        × (length message ≤ n)
  unfolding seal_data
  seal_data_size text n e =
      let (packet, up, sealed, shape, after) = seal_data-eq-some lib s text n e in
      let (long, fits) = seal_size lib laws _ _ _ _ sealed in
      let room : ltb n (length text + data_overhead) ≡ false = ground arith in
      (rw shape refl, rw shape (omega arith), rw shape (ground arith))

  pub open_data_size :
      (input : Bytes) (n : ℕ) {text : Bytes}
      → (open_data lib s input n).written ≡ some text
      → (length input ≡ length text + data_overhead) × (length text ≤ n)
  unfolding open_data
  open_data_size input n {text} e = elim (open_data_cases lib s input n) [
    | inl closed ↦ absurd (let none_left = ap (λ (o : Opened). o.written) closed in ground arith)
    | inr (plain, counter, up, good, o) ↦
        let (long, fits) = open_size lib laws s.data_keys.rx (drop 1 input) n good in
        let written = ap (λ (o : Opened). o.written) o in
        let same : plain ≡ text = ground arith in
        let all = length-drop 1 input in
        let tagged : has_type msg_data input ≡ true = ground arith in (ground arith, ground arith)
  ]

-- The bytes, if any, fit a buffer of this size.
abbrev pub FitsIn : ℕ → Option Bytes → Type 0
FitsIn n none = Unit
FitsIn n (some bytes) = length bytes ≤ n

-- No operation makes more of its buffer than there is: a message of any of the three forms has at
-- most `out_len` bytes, where the space behind its type is `out_len - 1` as a `size_t` computes it,
-- at 0 too; and so has the plaintext of a packet, which is written even where the packet is then
-- refused as a replay. What a call that fails leaves of a message is not spoken of.
pub operations_fit :
    (lib : Sodium) (laws : Laws lib) (s : Session) (seed out_len : ℕ) (text input : Bytes)
    → FitsIn out_len (build_init lib s out_len).1
      × FitsIn out_len (handle_init lib seed s input out_len).1
      × FitsIn out_len (seal_data lib s text out_len).1
      × FitsIn out_len (open_data lib s input out_len).written
operations_fit lib laws s seed n text input = (
  fits (build_init lib s n).1 (λ m e. (build_init_size lib laws s n e).2),
  fits (handle_init lib seed s input n).1 (λ m e. (answer_size lib laws s seed input n e).2),
  fits (seal_data lib s text n).1 (λ m e. (seal_data_size lib laws s text n e).2),
  fits (open_data lib s input n).written (λ m e. (open_data_size lib laws s input n e).1),
)
  where
    fits : (o : Option Bytes) → ((m : Bytes) → o ≡ some m → length m ≤ n) → FitsIn n o
    fits none h = tt
    fits (some m) h = h m refl
