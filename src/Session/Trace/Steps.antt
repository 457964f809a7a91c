-- ===== src/Session/Trace/Steps.antt =====
-- Each operation keeps the invariant, and uses no counter twice.
use edgar_vpn.Prelude.{
  ℕ, suc, ◌+◌, ◌^◌, ◌≤◌, ◌<◌, ◌≡◌, refl, sym, ◌∙◌, drop, ap, inl, inr, true, List, [], ◌∷◌, Bytes,
  arith, Option-cases, Bool-cases, u64,
}
use edgar_vpn.Sodium.{Sodium, SessionKeys}
use edgar_vpn.Crypto.{responder, wipe, secret_key_bytes}
use edgar_vpn.Session.State.{Session, established, is_established, start_handshake}
use edgar_vpn.Session.Replay.Refines.{
  Stands, reset-Stands, Represents, is_fresh, record_fresh_new, record_fresh_stale, fresh_is_new,
  check_and_mark-Represents, check_and_mark_frame,
}
use edgar_vpn.Session.Handshake.{build_init, handle_init, handle_response}
use edgar_vpn.Crypto.Packet.{decrypted_packet}
use edgar_vpn.Session.Replay.{check_and_mark}
use edgar_vpn.Session.Handshake.Acceptance.{
  handle_init-InitAccepted, handle_response-eq-true, handle_response-eq-false,
}
use edgar_vpn.Session.Handshake.Agreement.{refreshed, refreshed-role, answered, Unseen}
use edgar_vpn.Session.Handshake.Cases.{build_init-eq-none, build_init-eq-some, handle_init-eq-none}
use edgar_vpn.Session.Channel.Cases.{seal_data-eq-none, seal_data-eq-some, open_data_cases}
use edgar_vpn.Session.Channel.{seal_data}
use edgar_vpn.Session.Trace.{
  Op, starts, builds_init, takes_init, takes_response, seals, opens, wire_counter, handshake_sealed,
  keyed, Ledger, step,
}
use edgar_vpn.Session.Trace.Sealed.{sealed_wire, opened_below}
use edgar_vpn.Session.Trace.Invariant.{
  AllBelow, AllBelow-elem, AllBelow-mono, Inv, Keeps, initiator_fits, responder_fits, pending_fits,
  established_fits, Inv-suc, start_handshake-Inv, rekeyed-Inv, refreshed-Inv,
}

module _ (lib : Sodium) (s : Session) (l : Ledger) (n : ℕ) (v : Inv s l n) where
  builds_init-Keeps :
      (out_len : ℕ) → suc n < 2 ^ 64 → Keeps (step lib s (builds_init out_len)) l (suc n)
  unfolding step
  builds_init-Keeps out_len small = elim (Option-cases (build_init lib s out_len).1) [
    | inl e ↦ rw (e, build_init-eq-none lib s out_len e) (tt, Inv-suc v)
    | inr (message, e) ↦
        let (packet, role, sealed, shape, after) = build_init-eq-some lib s out_len e in
        let fits = initiator_fits s.role _ _ _ _ role in
        let used = fits.0 v.handshake in
        let next : u64 (s.handshake_counter + 1) ≡ suc s.handshake_counter = omega arith in
        let wire = sealed_wire lib _ _ _ _ _ (omega (arith, v.handshake_bound)) sealed shape in
        rw (e, after, wire)
          (
            (AllBelow-elem _ _ used, tt),
            record {
              channel = v.channel;
              handshake =
                  (initiator_fits s.role _ _ _ _ role).1
                    (rw next (omega arith, AllBelow-mono _ _ l.static_sealed (omega arith) used));
              tx_bound = omega arith;
              handshake_bound = omega arith;
            },
          )
  ]

  seals-Keeps :
      (text : Bytes) (out_len : ℕ)
      → suc n < 2 ^ 64
      → Keeps (step lib s (seals text out_len)) l (suc n)
  unfolding step
  seals-Keeps text out_len small = elim (Option-cases (seal_data lib s text out_len).1) [
    | inl e ↦ rw (e, seal_data-eq-none lib s text out_len e) (tt, Inv-suc v)
    | inr (message, e) ↦
        let (packet, est, sealed, shape, after) = seal_data-eq-some lib s text out_len e in
        let (used, window) = (established_fits s.state _ _ _ _ _ _ est).0 v.channel in
        let next : u64 (s.tx_counter + 1) ≡ suc s.tx_counter = omega arith in
        let wire = sealed_wire lib _ _ _ _ _ (omega (arith, v.tx_bound)) sealed shape in
        rw (e, after, wire)
          (
            (AllBelow-elem _ _ used, tt),
            record {
              channel =
                  (established_fits s.state _ _ _ _ _ _ est).1
                    (rw next (omega arith, AllBelow-mono _ _ l.sealed (omega arith) used), window);
              handshake = v.handshake;
              tx_bound = omega arith;
              handshake_bound = omega arith;
            },
          )
  ]

  -- A session that the freshness check returns.
  marked-Inv :
      (s' : Session) (accepted : List ℕ)
      → s.state ≡ established
      → (s'.role ≡ s.role)
        × (s'.state ≡ s.state)
        × (s'.tx_counter ≡ s.tx_counter)
        × (s'.handshake_counter ≡ s.handshake_counter)
        × (s'.have_seen_handshake ≡ s.have_seen_handshake)
        × (s'.highest_handshake_counter_seen ≡ s.highest_handshake_counter_seen)
        × (s'.data_keys ≡ s.data_keys)
      → Represents s' accepted
      → Inv s' (record l { accepted = accepted }) (suc n)
  marked-Inv s' accepted est (role, state, tx, hc, seen, high, keys) stands = record {
    channel =
        (established_fits s'.state _ _ _ _ _ _ (state ∙ est)).1
          (rw tx ((established_fits s.state _ _ _ _ _ _ est).0 v.channel).0, stands);
    handshake = rw (role, hc, seen, high) v.handshake;
    tx_bound = omega arith;
    handshake_bound = omega arith;
  }

  opens-Keeps : (input : Bytes) (room : ℕ) → Keeps (step lib s (opens input room)) l (suc n)
  unfolding step wire_counter
  opens-Keeps input room = elim (open_data_cases lib s input room) [
    | inl e ↦ rw e (tt, Inv-suc v)
    | inr (text, counter, est, good, e) ↦
        let (used, window) = (established_fits s.state _ _ _ _ _ _ est).0 v.channel in
        let (answer, stands) = check_and_mark-Represents s l.accepted counter window in
        let frame = check_and_mark_frame s counter in
        let (long, fits, wire, plain) =
          decrypted_packet lib s.data_keys.rx (drop 1 input) room good in
        elim (Bool-cases (is_fresh l.accepted counter)) [
          | inl new ↦
              rw (e, answer, new, sym wire)
                (
                  (fresh_is_new l.accepted counter new, tt),
                  marked-Inv (check_and_mark s counter).0 (counter ∷ l.accepted) est frame
                      (rw (record_fresh_new l.accepted counter new) at stands),
                )
          | inr stale ↦
              rw (e, answer, stale)
                (
                  tt,
                  marked-Inv (check_and_mark s counter).0 l.accepted est frame
                      (rw (record_fresh_stale l.accepted counter stale) at stands),
                )
        ]
  ]

  takes_response-Keeps : (input : Bytes) → Keeps (step lib s (takes_response input)) l (suc n)
  unfolding step
  takes_response-Keeps input = elim (Bool-cases (handle_response lib s input).1) [
    | inr e ↦ rw (e, handle_response-eq-false lib s input e) (tt, Inv-suc v)
    | inl e ↦
        let (pk, keys, role, pending, good, derived, after) =
          handle_response-eq-true lib s input (ap (λ b. ((handle_response lib s input).0, b)) e) in
        let (zero_tx, blank) = pending_fits s.state _ _ _ _ _ _ pending v.channel in
        rw (e, after)
          (
            (tt, tt),
            record {
              channel = (tt, blank);
              handshake = v.handshake;
              tx_bound = omega arith;
              handshake_bound = omega arith;
            },
          )
  ]

  -- Before a responder answers, its data channel is reset, one way or the other.
  refreshed-Stands :
      (seed : ℕ)
      → let s' = refreshed lib seed s in
        Stands s'.replay_window s'.have_received_any s'.highest_rx_counter []
  unfolding start_handshake
  refreshed-Stands seed = elim (Bool-cases (is_established s.state)) [
    | inl on ↦ rw on (reset-Stands s.highest_rx_counter)
    | inr off ↦ rw off (pending_fits s.state _ _ _ _ _ _ (ground arith) v.channel).1
  ]

  -- A counter that a responder accepts is above all those that it used.
  Unseen-AllBelow :
      (counter : ℕ) → s.role ≡ responder → Unseen s counter → AllBelow counter l.static_sealed
  Unseen-AllBelow counter role unseen = elim ((responder_fits s.role _ _ _ _ role).0 v.handshake) [
    | inl none_yet ↦ rw none_yet tt
    | inr (seen, below) ↦ AllBelow-mono _ _ l.static_sealed (higher unseen seen) below
  ]
    where
      higher :
          Unseen s counter
          → s.have_seen_handshake ≡ true
          → suc s.highest_handshake_counter_seen ≤ counter
      higher (inl no_init) seen = absurd (cc)
      higher (inr above) seen = above

  answered-Keeps :
      (seed : ℕ) (keys : SessionKeys) (counter : ℕ)
      → s.role ≡ responder
      → Unseen s counter
      → Keeps
          (answered (refreshed lib seed s) keys counter, handshake_sealed counter ∷ keyed ∷ [])
          l
          (suc n)
  answered-Keeps seed keys counter role unseen =
      let used = Unseen-AllBelow counter role unseen in
      let kept = refreshed-Inv lib s l n v seed in
      (
        (AllBelow-elem _ _ used, (tt, tt)),
        record {
          channel = (tt, refreshed-Stands seed);
          handshake =
              (responder_fits _ _ _ _ _ (refreshed-role lib seed s ∙ role)).1
                (inr (refl, (omega arith, AllBelow-mono _ _ l.static_sealed (omega arith) used)));
          tx_bound = kept.tx_bound;
          handshake_bound = kept.handshake_bound;
        },
      )

  takes_init-Keeps :
      (seed : ℕ) (input : Bytes) (out_len : ℕ)
      → Keeps (step lib s (takes_init seed input out_len)) l (suc n)
  unfolding step
  takes_init-Keeps seed input out_len =
      elim (Option-cases (handle_init lib seed s input out_len).1) [
        | inr (reply, e) ↦
            let a =
              handle_init-InitAccepted lib seed s input out_len
                (ap (λ m. ((handle_init lib seed s input out_len).0, m)) e) in
            let small = opened_below lib _ _ _ a.authentic in
            let wire = sealed_wire lib _ _ _ _ _ small a.reply_sealed a.reply_packet in
            rw (e, a.after, wire) (answered-Keeps seed a.keys a.counter a.is_responder a.unseen)
        | inl e ↦ elim (handle_init-eq-none lib seed s input out_len e) [
          | inl same ↦ rw (e, same) (tt, Inv-suc v)
          | inr (inl anew) ↦ rw (e, anew) (tt, refreshed-Inv lib s l n v seed)
          | inr (inr (keys, wiped)) ↦
              rw (e, wiped)
                (tt, rekeyed-Inv (refreshed-Inv lib s l n v seed) keys (wipe secret_key_bytes))
        ]
      ]

  -- Whatever the operation and its arguments, and while no counter has wrapped.
  pub step-Keeps : (op : Op) → suc n < 2 ^ 64 → Keeps (step lib s op) l (suc n)
  step-Keeps (starts seed) small = unfold step in (tt, start_handshake-Inv v lib seed)
  step-Keeps (builds_init out_len) small = builds_init-Keeps out_len small
  step-Keeps (takes_init seed input out_len) small = takes_init-Keeps seed input out_len
  step-Keeps (takes_response input) small = takes_response-Keeps input
  step-Keeps (seals text out_len) small = seals-Keeps text out_len small
  step-Keeps (opens input room) small = opens-Keeps input room
