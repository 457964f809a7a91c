-- ===== src/Session/Trace/Replayed.antt =====
-- A HANDSHAKE_INIT that was answered, and the session that answered it from then on.
use edgar_vpn.Prelude.{
  ℕ, ◌≤◌, ◌≡◌, refl, ap, ◌∙◌, inl, inr, true, none, some, List, [], ◌∷◌, Bytes, arith, drop,
  Option-cases, Bool-cases,
}
use edgar_vpn.Sodium.{Sodium}
use edgar_vpn.Crypto.{crypto_open, public_key_bytes}
use edgar_vpn.Session.State.{Session, is_established, start_handshake}
use edgar_vpn.Session.Handshake.{build_init, handle_init, handle_response}
use edgar_vpn.Session.Handshake.Acceptance.{
  handle_init-InitAccepted, handle_init_refuses, handle_response-eq-true, handle_response-eq-false,
}
use edgar_vpn.Session.Handshake.Agreement.{Unseen, refreshed, refreshed-static_keys}
use edgar_vpn.Session.Handshake.Cases.{build_init-eq-none, build_init-eq-some, handle_init-eq-none}
use edgar_vpn.Session.Channel.{seal_data}
use edgar_vpn.Session.Channel.Cases.{seal_data-eq-none, seal_data-eq-some, open_data_cases}
use edgar_vpn.Session.Replay.Kept.{check_and_mark_keeps}
use edgar_vpn.Session.Replay.Refines.{check_and_mark_frame}
use edgar_vpn.Session.Trace.{
  Op, starts, builds_init, takes_init, takes_response, seals, opens, step, run,
}

-- The session receives under this static key, and has answered this counter or a later one.
abbrev Past : Bytes → ℕ → Session → Type 0
Past key counter s =
    (s.static_keys.rx ≡ key)
    × (s.have_seen_handshake ≡ true)
    × (counter ≤ s.highest_handshake_counter_seen)

module _ (lib : Sodium) (key : Bytes) (counter : ℕ) (s : Session) (v : Past key counter s) where
  start_handshake-Past : (seed : ℕ) → Past key counter (start_handshake lib seed s)
  unfolding start_handshake
  start_handshake-Past seed = v

  refreshed-Past : (seed : ℕ) → Past key counter (refreshed lib seed s)
  refreshed-Past seed = elim (Bool-cases (is_established s.state)) [
    | inl on ↦ rw on (start_handshake-Past seed)
    | inr off ↦ rw off v
  ]

  takes_init-Past :
      (seed : ℕ) (input : Bytes) (room : ℕ)
      → Past key counter (step lib s (takes_init seed input room)).0
  unfolding step
  takes_init-Past seed input room = elim (Option-cases (handle_init lib seed s input room).1) [
    | inr (reply, e) ↦
        let a =
          handle_init-InitAccepted lib seed s input room
            (ap (λ m. ((handle_init lib seed s input room).0, m)) e) in
        let same = ap (λ k. k.rx) (refreshed-static_keys lib seed s) ∙ v.0 in
        rw a.after (same, refl, higher a.counter a.unseen)
    | inl e ↦ elim (handle_init-eq-none lib seed s input room e) [
      | inl same ↦ rw same v
      | inr (inl anew) ↦ rw anew (refreshed-Past seed)
      | inr (inr (keys, wiped)) ↦ rw wiped (refreshed-Past seed)
    ]
  ]
    where
      higher : (c : ℕ) → Unseen s c → counter ≤ c
      higher c (inl no_init) = absurd (cc)
      higher c (inr above) = omega arith

  opens-Past : (input : Bytes) (room : ℕ) → Past key counter (step lib s (opens input room)).0
  unfolding step
  opens-Past input room = elim (open_data_cases lib s input room) [
    | inl e ↦ rw e v
    | inr (text, c, up, good, e) ↦
        let (role, state, tx, hc, seen, high, keys) = check_and_mark_frame s c in
        let static = (check_and_mark_keeps s c).1 in rw (e, static, seen, high) v
  ]

  step-Past : (op : Op) → Past key counter (step lib s op).0
  unfolding step
  step-Past (starts seed) = start_handshake-Past seed
  step-Past (builds_init room) = elim (Option-cases (build_init lib s room).1) [
    | inl e ↦ rw (build_init-eq-none lib s room e) v
    | inr (message, e) ↦ rw (build_init-eq-some lib s room e).4 v
  ]
  step-Past (takes_init seed input room) = takes_init-Past seed input room
  step-Past (takes_response input) = elim (Bool-cases (handle_response lib s input).1) [
    | inr e ↦ rw (handle_response-eq-false lib s input e) v
    | inl e ↦
        let (pk, keys, role, pending, good, derived, after) =
          handle_response-eq-true lib s input (ap (λ b. ((handle_response lib s input).0, b)) e) in
        rw after v
  ]
  step-Past (seals text room) = elim (Option-cases (seal_data lib s text room).1) [
    | inl e ↦ rw (seal_data-eq-none lib s text room e) v
    | inr (message, e) ↦ rw (seal_data-eq-some lib s text room e).4 v
  ]
  step-Past (opens input room) = opens-Past input room

run-Past :
    (lib : Sodium) (key : Bytes) (counter : ℕ) (s : Session) (ops : List Op)
    → Past key counter s
    → Past key counter (run lib s ops).0
unfolding run
run-Past lib key counter s [] v = v
run-Past lib key counter s (op ∷ ops) v =
    run-Past lib key counter (step lib s op).0 ops (step-Past lib key counter s v op)

-- An INIT that was answered is refused ever after: whatever operations the session has gone through
-- since, a new handshake or a session with another key pair included, the same bytes change
-- nothing and get no reply.
pub handle_init_replay :
    (lib : Sodium) (fresh : ℕ) (s : Session) (input : Bytes) (out_len : ℕ) {s' : Session}
    {reply : Bytes}
    → handle_init lib fresh s input out_len ≡ (s', some reply)
    → (ops : List Op) (later again : ℕ)
    → handle_init lib later (run lib s' ops).0 input again ≡ ((run lib s' ops).0, none)
handle_init_replay lib fresh s input out_len {s'} e ops later again =
    let a = handle_init-InitAccepted lib fresh s input out_len e in
    let same : s'.static_keys.rx ≡ s.static_keys.rx =
      ap (λ t. t.static_keys.rx) a.after ∙ ap (λ k. k.rx) (refreshed-static_keys lib fresh s) in
    let seen : s'.have_seen_handshake ≡ true = ap (λ t. t.have_seen_handshake) a.after in
    let high : s'.highest_handshake_counter_seen ≡ a.counter =
      ap (λ t. t.highest_handshake_counter_seen) a.after in
    let (key, still, past) =
      run-Past lib s.static_keys.rx a.counter s' ops (same, seen, omega arith) in
    let opens_still =
      ap (λ k. crypto_open lib k (drop 1 input) public_key_bytes) key ∙ a.authentic in
    handle_init_refuses lib later (run lib s' ops).0 input again
      (inr (a.pk, a.counter, opens_still, still, past))
