-- ===== src/Session/Lifecycle/Moves.antt =====
-- Every operation of a session follows an edge of the diagram.
use edgar_vpn.Prelude.{
  ℕ, ◌≡◌, refl, ap, ◌∙◌, inl, inr, some, List, [], ◌∷◌, Bytes, arith, Option-cases, Bool-cases,
}
use mathlib.Core.Path.{subst}
use edgar_vpn.Sodium.{Sodium}
use edgar_vpn.Session.State.{Session, handshake_pending, is_established, start_handshake}
use edgar_vpn.Session.Handshake.{build_init, handle_init, handle_response}
use edgar_vpn.Session.Handshake.Agreement.{refreshed}
use edgar_vpn.Session.Handshake.Acceptance.{
  handle_init-InitAccepted, handle_response-eq-true, handle_response-eq-false,
}
use edgar_vpn.Session.Handshake.Cases.{build_init-eq-none, build_init-eq-some, handle_init-eq-none}
use edgar_vpn.Session.Channel.{seal_data}
use edgar_vpn.Session.Channel.Cases.{seal_data-eq-none, seal_data-eq-some, open_data_cases}
use edgar_vpn.Session.Replay.{check_and_mark}
use edgar_vpn.Session.Replay.Refines.{check_and_mark_frame}
use edgar_vpn.Session.Trace.{
  Op, starts, builds_init, takes_init, takes_response, seals, opens, Event, step, run,
}
use edgar_vpn.Session.Lifecycle.{
  Move, rests, restarts, asks, completes, answers, carries_out, carries_in, Course, here, onward,
}

-- What a step of a session is in the diagram; the role stays.
abbrev Moved : Session → Session × List Event → Type 0
Moved s (s', es) = (s'.role ≡ s.role) × Move s.role s.state es s'.state

module _ (lib : Sodium) (s : Session) where
  build_init-pending :
      (n : ℕ) {message : Bytes}
      → (build_init lib s n).1 ≡ some message
      → s.state ≡ handshake_pending
  unfolding build_init
  build_init-pending n e = ground arith

  builds_init-Moved : (n : ℕ) → Moved s (step lib s (builds_init n))
  unfolding step
  builds_init-Moved n = elim (Option-cases (build_init lib s n).1) [
    | inl e ↦ rw (e, build_init-eq-none lib s n e) (refl, rests)
    | inr (message, e) ↦
        let (packet, role, sealed, shape, after) = build_init-eq-some lib s n e in
        rw (e, after, role, build_init-pending n e) (refl, asks)
  ]

  seals-Moved : (text : Bytes) (n : ℕ) → Moved s (step lib s (seals text n))
  unfolding step
  seals-Moved text n = elim (Option-cases (seal_data lib s text n).1) [
    | inl e ↦ rw (e, seal_data-eq-none lib s text n e) (refl, rests)
    | inr (message, e) ↦
        let (packet, up, sealed, shape, after) = seal_data-eq-some lib s text n e in
        rw (e, after, up) (refl, carries_out)
  ]

  opens-Moved : (input : Bytes) (n : ℕ) → Moved s (step lib s (opens input n))
  unfolding step
  opens-Moved input n = elim (open_data_cases lib s input n) [
    | inl e ↦ rw e (refl, rests)
    | inr (text, counter, up, good, e) ↦
        let (role, state, tx, hc, seen, high, keys) = check_and_mark_frame s counter in
        elim (Bool-cases (check_and_mark s counter).1) [
          | inl fresh ↦ rw (e, fresh, role, state, up) (refl, carries_in)
          | inr stale ↦ rw (e, stale, role, state) (refl, rests)
        ]
  ]

  takes_response-Moved : (input : Bytes) → Moved s (step lib s (takes_response input))
  unfolding step
  takes_response-Moved input = elim (Bool-cases (handle_response lib s input).1) [
    | inr e ↦ rw (e, handle_response-eq-false lib s input e) (refl, rests)
    | inl e ↦
        let (pk, keys, role, pending, good, derived, after) =
          handle_response-eq-true lib s input (ap (λ b. ((handle_response lib s input).0, b)) e) in
        rw (e, after, role, pending) (refl, completes)
  ]

  -- The session by which a responder would have answered.
  refreshed-Moved : (seed : ℕ) → Moved s (refreshed lib seed s, [])
  unfolding start_handshake
  refreshed-Moved seed = elim (Bool-cases (is_established s.state)) [
    | inl up ↦ rw up (refl, restarts)
    | inr down ↦ rw down (refl, rests)
  ]

  takes_init-Moved :
      (seed : ℕ) (input : Bytes) (n : ℕ) → Moved s (step lib s (takes_init seed input n))
  unfolding step
  takes_init-Moved seed input n = elim (Option-cases (handle_init lib seed s input n).1) [
    | inr (reply, e) ↦
        let a =
          handle_init-InitAccepted lib seed s input n
            (ap (λ m. ((handle_init lib seed s input n).0, m)) e) in
        let (role, move) = refreshed-Moved seed in
        rw (e, a.after, role, a.is_responder) (refl, answers)
    | inl e ↦ elim (handle_init-eq-none lib seed s input n e) [
      | inl same ↦ rw (e, same) (refl, rests)
      | inr (inl anew) ↦ rw (e, anew) (refreshed-Moved seed)
      | inr (inr (keys, wiped)) ↦ rw (e, wiped) (refreshed-Moved seed)
    ]
  ]

  pub step-Moved : (op : Op) → Moved s (step lib s op)
  unfolding step start_handshake
  step-Moved (starts seed) = (refl, restarts)
  step-Moved (builds_init n) = builds_init-Moved n
  step-Moved (takes_init seed input n) = takes_init-Moved seed input n
  step-Moved (takes_response input) = takes_response-Moved input
  step-Moved (seals text n) = seals-Moved text n
  step-Moved (opens input n) = opens-Moved input n

-- Whatever operations are made on a session, with whatever arguments, its states and the uses of
-- keys that are visible on the way are a path of the diagram: handshake messages are sealed, keys
-- come into force and data packets are sealed and accepted only where the diagram has them, and
-- its role never changes.
pub run-Course :
    (lib : Sodium) (s : Session) (ops : List Op)
    → let (s', es) = run lib s ops in (s'.role ≡ s.role) × Course s.role s.state es s'.state
unfolding run
run-Course lib s [] = (refl, here)
run-Course lib s (op ∷ ops) =
    let (role, move) = step-Moved lib s op in
    let (later, path) = run-Course lib (step lib s op).0 ops in
    (
      later ∙ role,
      onward move (
          subst
            (λ r.
              Course r (step lib s op).0.state (run lib (step lib s op).0 ops).1
                (run lib (step lib s op).0 ops).0.state)
            role path),
    )
