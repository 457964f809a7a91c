-- ===== src/Session/Trace/Sealed.antt =====
-- The key, the nonce and the counter of the messages that a session builds.
use edgar_vpn.Prelude.{
  some, ℕ, ◌≤◌, ◌<◌, ◌^◌, ◌≡◌, refl, ap, inl, inr, ◌∷◌, Bytes, arith, drop, Option-cases,
}
use edgar_vpn.Sodium.{Sodium}
use edgar_vpn.Crypto.{seal, crypto_open}
use edgar_vpn.Crypto.Counter.{wire_counter_below}
use edgar_vpn.Crypto.Packet.{decrypted_packet, seal_wire, seal-eq-some}
use edgar_vpn.Session.State.{Session}
use edgar_vpn.Session.Handshake.{build_init, handle_init}
use edgar_vpn.Session.Handshake.Acceptance.{handle_init-InitAccepted}
use edgar_vpn.Session.Handshake.Cases.{build_init-eq-some}
use edgar_vpn.Session.Channel.{seal_data}
use edgar_vpn.Session.Channel.Cases.{seal_data-eq-some}
use edgar_vpn.Session.Trace.{
  Op, starts, builds_init, takes_init, takes_response, seals, opens, wire_counter, SealedUnder,
  IsSealed,
}

-- What a message carries behind its type is the counter that its packet was sealed under.
pub sealed_wire :
    (lib : Sodium) (key : Bytes) (counter : ℕ) (text : Bytes) (room type : ℕ)
    {packet message : Bytes}
    → counter < 2 ^ 64
    → seal lib key counter text room ≡ some packet
    → message ≡ type ∷ packet
    → wire_counter message ≡ counter
unfolding wire_counter
sealed_wire lib key counter text room type small e shape =
    rw shape (seal_wire lib key counter text room small e)

-- A counter that was read from a packet is a `uint64_t`.
pub opened_below :
    (lib : Sodium) (key packet : Bytes) (room : ℕ) {text : Bytes} {counter : ℕ}
    → crypto_open lib key packet room ≡ some (text, counter)
    → counter < 2 ^ 64
opened_below lib key packet room e =
    let (long, fits, wire, plain) = decrypted_packet lib key packet room e in
    rw wire (wire_counter_below packet)

sealed_under :
    (lib : Sodium) (key : Bytes) (counter : ℕ) (text : Bytes) (room type : ℕ)
    {packet message : Bytes}
    → counter < 2 ^ 64
    → seal lib key counter text room ≡ some packet
    → message ≡ type ∷ packet
    → SealedUnder lib key (some message)
sealed_under lib key counter text room type {packet} {message} small e shape =
    let wire = sealed_wire lib key counter text room type small e shape in
    let (sealed, enc, split) = seal-eq-some lib key counter text room e in
    let rest : drop 9 message ≡ sealed = rw (shape, split) refl in (text, rw (wire, rest) enc)

module _ (lib : Sodium) (s : Session) (n : ℕ) (small : n < 2 ^ 64) where
  -- Whatever is built, while the counters of the session have not wrapped.
  pub step-IsSealed : (op : Op) → s.handshake_counter ≤ n → s.tx_counter ≤ n → IsSealed lib s op
  step-IsSealed (starts seed) a b = tt
  step-IsSealed (builds_init room) a b = elim (Option-cases (build_init lib s room).1) [
    | inl e ↦ rw e tt
    | inr (message, e) ↦
        let (packet, role, sealed, shape, after) = build_init-eq-some lib s room e in
        rw e (sealed_under lib _ _ _ _ _ (omega arith) sealed shape)
  ]
  step-IsSealed (takes_init seed input room) a b =
      elim (Option-cases (handle_init lib seed s input room).1) [
        | inl e ↦ rw e tt
        | inr (reply, e) ↦
            let i =
              handle_init-InitAccepted lib seed s input room
                (ap (λ m. ((handle_init lib seed s input room).0, m)) e) in
            rw e (
              sealed_under lib _ _ _ _ _ (opened_below lib _ _ _ i.authentic) i.reply_sealed
                i.reply_packet)
      ]
  step-IsSealed (takes_response input) a b = tt
  step-IsSealed (seals text room) a b = elim (Option-cases (seal_data lib s text room).1) [
    | inl e ↦ rw e tt
    | inr (message, e) ↦
        let (packet, up, sealed, shape, after) = seal_data-eq-some lib s text room e in
        rw e (sealed_under lib _ _ _ _ _ (omega arith) sealed shape)
  ]
  step-IsSealed (opens input room) a b = tt
