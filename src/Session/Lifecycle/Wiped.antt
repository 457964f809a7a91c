-- ===== src/Session/Lifecycle/Wiped.antt =====
-- Every operation leaves the ephemeral secret key where it belongs.
use edgar_vpn.Prelude.{
  size_pred, ℕ, ◌≡◌, refl, sym, ap, ◌∙◌, inl, inr, true, false, none, Bytes, arith, length, ltb,
  Option-cases, Bool-cases,
}
use edgar_vpn.Sodium.{Sodium, Laws}
use edgar_vpn.Crypto.{derive_session_keys}
use edgar_vpn.Crypto.Packet.{seal_total}
use edgar_vpn.Session.State.{Session, handshake_msg_len}
use edgar_vpn.Session.Replay.Kept.{check_and_mark_keeps}
use edgar_vpn.Session.Handshake.{build_init, answer_init, handle_init, handle_response}
use edgar_vpn.Session.Handshake.Agreement.{HasKeyPair, refreshed}
use edgar_vpn.Session.Handshake.Acceptance.{
  handle_init-InitAccepted, handle_response-eq-true, handle_response-eq-false,
}
use edgar_vpn.Session.Handshake.Cases.{build_init-eq-none, build_init-eq-some, handle_init_reaches}
use edgar_vpn.Session.Channel.{seal_data, open_data}
use edgar_vpn.Session.Channel.Cases.{seal_data-eq-none, seal_data-eq-some, open_data_cases}
use edgar_vpn.Session.Trace.{
  Op, starts, builds_init, takes_init, takes_response, seals, opens, step,
}
use edgar_vpn.Session.Lifecycle.Secrets.{
  IsWiped, stage_public, start_handshake-IsWiped, refreshed-HasKeyPair, refreshed-IsWiped,
}

module _ (lib : Sodium) where
  handle_init_no_room :
      (seed : ℕ) (s : Session) (input : Bytes) (n : ℕ)
      → ltb n handshake_msg_len ≡ true
      → (handle_init lib seed s input n).0 ≡ s
  unfolding handle_init
  handle_init_no_room seed s input n short = ground arith

module _ (lib : Sodium) (laws : Laws lib) where
  -- With a key pair at hand, a responder that has derived the keys has room for its answer.
  answer_init_whole :
      (s : Session) (seed n counter : ℕ) (pk : Bytes)
      → HasKeyPair lib s seed
      → ltb n handshake_msg_len ≡ false
      → (answer_init lib s pk counter n).1 ≡ none
      → (answer_init lib s pk counter n).0 ≡ s
  unfolding answer_init
  answer_init_whole s seed n counter pk pair room e =
      let len : length s.local_eph_pk ≡ 32 = ap length pair.0 ∙ laws.keypair_length seed in
      let (packet, sealed, total) =
        seal_total lib laws s.static_keys.tx counter s.local_eph_pk (size_pred n) (ground arith) in
      elim (Option-cases (derive_session_keys lib s.role s.local_eph_pk s.local_eph_sk pk)) [
        | inl bad ↦ ground arith
        | inr (keys, good) ↦ absurd (ground arith)
      ]

  module _ (s : Session) (v : IsWiped lib s) where
    refused_init-IsWiped :
        (seed : ℕ) (input : Bytes) (n : ℕ)
        → (handle_init lib seed s input n).1 ≡ none
        → IsWiped lib (handle_init lib seed s input n).0
    refused_init-IsWiped seed input n e = elim (handle_init_reaches lib seed s input n) [
      | inl same ↦ rw same v
      | inr (pk, counter, good, reached) ↦ elim (Bool-cases (ltb n handshake_msg_len)) [
        | inl short ↦ rw (handle_init_no_room lib seed s input n short) v
        | inr room ↦
            let (sr, pair) = refreshed-HasKeyPair lib seed s v in
            rw
              (
                reached,
                answer_init_whole (refreshed lib seed s) sr n counter pk pair room
                    (sym (ap (λ o. o.1) reached) ∙ e),
              )
              (refreshed-IsWiped lib seed s v)
      ]
    ]

    takes_init-IsWiped :
        (seed : ℕ) (input : Bytes) (n : ℕ) → IsWiped lib (handle_init lib seed s input n).0
    takes_init-IsWiped seed input n = elim (Option-cases (handle_init lib seed s input n).1) [
      | inl e ↦ refused_init-IsWiped seed input n e
      | inr (reply, e) ↦
          let a =
            handle_init-InitAccepted lib seed s input n
              (ap (λ m. ((handle_init lib seed s input n).0, m)) e) in
          let (sr, pair) = refreshed-HasKeyPair lib seed s v in
          rw a.after (record { stage = ((sr, pair.0), refl) })
    ]

    takes_response-IsWiped : (input : Bytes) → IsWiped lib (handle_response lib s input).0
    takes_response-IsWiped input = elim (Bool-cases (handle_response lib s input).1) [
      | inr e ↦ rw (handle_response-eq-false lib s input e) v
      | inl e ↦
          let (pk, keys, role, pending, good, derived, after) =
            handle_response-eq-true lib s input
              (ap (λ b. ((handle_response lib s input).0, b)) e) in
          rw after (record {
            stage = (stage_public lib s.state s.local_eph_pk s.local_eph_sk v.stage, refl);
          })
    ]

    builds_init-IsWiped : (n : ℕ) → IsWiped lib (build_init lib s n).0
    builds_init-IsWiped n = elim (Option-cases (build_init lib s n).1) [
      | inl e ↦ rw (build_init-eq-none lib s n e) v
      | inr (message, e) ↦
          let (packet, role, sealed, shape, after) = build_init-eq-some lib s n e in
          rw after (record { stage = v.stage })
    ]

    seals-IsWiped : (text : Bytes) (n : ℕ) → IsWiped lib (seal_data lib s text n).0
    seals-IsWiped text n = elim (Option-cases (seal_data lib s text n).1) [
      | inl e ↦ rw (seal_data-eq-none lib s text n e) v
      | inr (message, e) ↦
          let (packet, up, sealed, shape, after) = seal_data-eq-some lib s text n e in
          rw after (record { stage = v.stage })
    ]

    opens-IsWiped : (input : Bytes) (n : ℕ) → IsWiped lib (open_data lib s input n).session
    opens-IsWiped input n = elim (open_data_cases lib s input n) [
      | inl e ↦ rw e v
      | inr (text, counter, up, good, e) ↦
          let (state, static, pk, sk, hc, pending, seen, keys, tx) =
            check_and_mark_keeps s counter in
          rw e (record { stage = rw (state, pk, sk) v.stage })
    ]

  pub step-IsWiped : (s : Session) (op : Op) → IsWiped lib s → IsWiped lib (step lib s op).0
  unfolding step
  step-IsWiped s (starts seed) v = start_handshake-IsWiped lib seed s
  step-IsWiped s (builds_init n) v = builds_init-IsWiped s v n
  step-IsWiped s (takes_init seed input n) v = takes_init-IsWiped s v seed input n
  step-IsWiped s (takes_response input) v = takes_response-IsWiped s v input
  step-IsWiped s (seals text n) v = seals-IsWiped s v text n
  step-IsWiped s (opens input n) v = opens-IsWiped s v input n
