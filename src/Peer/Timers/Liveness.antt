-- ===== src/Peer/Timers/Liveness.antt =====
-- What the timers promise of a peer after each round of the loop.
use edgar_vpn.Prelude.{
  suc, [], ℕ, ◌≡◌, refl, ◌⊎◌, inl, inr, true, false, ◌&&◌, List, ◌∷◌, arith, Option-cases,
  Bool-cases, Bool, ap, ◌∙◌, leb,
}
use edgar_vpn.Sodium.{Sodium}
use edgar_vpn.Crypto.{initiator, role_is}
use edgar_vpn.Session.State.{Session, handshake_pending, is_established, start_handshake}
use edgar_vpn.Session.Handshake.{build_init}
use edgar_vpn.Session.Handshake.Cases.{build_init-eq-none, build_init-eq-some}
use edgar_vpn.Session.Channel.{seal_data}
use edgar_vpn.Peer.State.{
  PeerSession, Net, sealed_buf_size, since, keepalive_interval_ms, session_timeout_ms,
  key_rotation_interval_ms,
}
use edgar_vpn.Peer.Outbound.{send_init, initiate_handshake}
use edgar_vpn.Peer.Timers.{keep_alive, refresh_keys, tick_peer, tick}

-- An initiator that heard nothing of its peer for the session timeout.
abbrev pub is_silent : ℕ → PeerSession → Bool
is_silent now p =
    role_is p.config.role initiator && leb session_timeout_ms (since now p.last_rx_activity_ms)

-- An established session with a known address that was sent nothing for the keepalive interval.
abbrev pub is_idle : ℕ → PeerSession → Bool
is_idle now p =
    p.addr_resolved
    && (is_established p.session.state
        && leb keepalive_interval_ms (since now p.last_tx_activity_ms))

-- An initiator's established session, with a known address, whose keys are due to be rotated.
abbrev pub is_expired : ℕ → PeerSession → Bool
is_expired now p =
    role_is p.config.role initiator
    && (p.addr_resolved
        && (is_established p.session.state
            && leb key_rotation_interval_ms (since now p.last_handshake_completed_ms)))

-- No timer is due.
abbrev Settled : ℕ → PeerSession → Type 0
Settled now p = (is_silent now p ≡ false) × (is_idle now p ≡ false) × (is_expired now p ≡ false)

-- The clock of a moment that has just passed.
since_now : (now : ℕ) → since now now ≡ 0
unfolding since
since_now now = omega arith

module _ (lib : Sodium) (net : Net) (now : ℕ) (p : PeerSession) where
  -- A peer that can be sent to was sent something within the interval.
  keep_alive_busy : is_idle now (keep_alive lib net now p).0 ≡ false
  unfolding keep_alive
  keep_alive_busy =
      let zero_age = since_now now in
      elim (Option-cases (seal_data lib p.session [] sealed_buf_size).1) [
        | inl bad ↦ ground arith
        | inr (m, good) ↦ ground arith
      ]

build_init_state : (lib : Sodium) (s : Session) (n : ℕ) → (build_init lib s n).0.state ≡ s.state
build_init_state lib s n = elim (Option-cases (build_init lib s n).1) [
  | inl bad ↦ ap (λ (t : Session). t.state) (build_init-eq-none lib s n bad)
  | inr (m, good) ↦ ap (λ (t : Session). t.state) (build_init-eq-some lib s n good).4
]

module _ (lib : Sodium) (net : Net) (seed n now : ℕ) where
  send_init_state :
      (p : PeerSession) → (send_init lib net seed n now p).0.session.state ≡ handshake_pending
  unfolding send_init start_handshake
  send_init_state p = build_init_state lib (start_handshake lib seed p.session) n

  send_init_frame :
      (p : PeerSession)
      → ((send_init lib net seed n now p).0.config ≡ p.config)
        × ((send_init lib net seed n now p).0.last_rx_activity_ms ≡ now)
        × ((send_init lib net seed n now p).0.last_tx_activity_ms ≡ now)
  unfolding send_init
  send_init_frame p = (refl, refl, refl)

  -- After a handshake was begun the peer waits for an answer, or its address was not found.
  initiate_handshake_lem :
      (p : PeerSession)
      → ((initiate_handshake lib net seed n now p).0.config ≡ p.config)
        × ((initiate_handshake lib net seed n now p).0.last_rx_activity_ms ≡ now)
        × (((initiate_handshake lib net seed n now p).0.addr_resolved ≡ false)
            ⊎ (((initiate_handshake lib net seed n now p).0.session.state ≡ handshake_pending)
                × ((initiate_handshake lib net seed n now p).0.last_tx_activity_ms ≡ now)))
  unfolding initiate_handshake
  initiate_handshake_lem p = elim (Bool-cases p.addr_resolved) [
    | inl known ↦ let f = send_init_frame p in rw known (f.0, f.1, inr (send_init_state p, f.2))
    | inr unknown ↦ elim (Option-cases (net.resolve p.config.host p.config.port)) [
      | inl bad ↦ rw (unknown, bad) (refl, refl, inl unknown)
      | inr (addr, good) ↦
          let q : PeerSession = record p {
            last_rx_activity_ms = now;
            addr = addr;
            addr_resolved = true;
          } in
          let f = send_init_frame q in rw (unknown, good) (f.0, f.1, inr (send_init_state q, f.2))
    ]
  ]

  initiate_handshake-Settled :
      (p : PeerSession) → Settled now (initiate_handshake lib net seed n now p).0
  initiate_handshake-Settled p =
      let (role, rx, rest) = initiate_handshake_lem p in
      let zero_age = since_now now in
      let heard = ap (since now) rx ∙ zero_age in
      elim rest [
        | inl unknown ↦ (ground arith, ground arith, ground arith)
        | inr (waits, tx) ↦
            let told = ap (since now) tx ∙ zero_age in (ground arith, ground arith, ground arith)
      ]

module _ (lib : Sodium) (net : Net) (seed now : ℕ) where
  refresh_keys-Settled :
      (p : PeerSession) → is_idle now p ≡ false → Settled now (refresh_keys lib net seed now p).0
  unfolding refresh_keys
  refresh_keys-Settled p busy =
      let begun = initiate_handshake-Settled lib net seed sealed_buf_size now p in
      elim (Bool-cases (is_silent now p)) [
        | inl silent ↦ rw silent begun
        | inr heard ↦
            elim (Bool-cases (
              role_is p.config.role initiator
              && (is_established p.session.state
                  && leb key_rotation_interval_ms (since now p.last_handshake_completed_ms)))) [
                    | inl old ↦ rw (heard, old) begun
                    | inr young ↦ rw (heard, young) (heard, busy, ground arith)
                  ]
      ]

  tick_peer-Settled : (p : PeerSession) → Settled now (tick_peer lib net seed now p).0
  unfolding tick_peer
  tick_peer-Settled p =
      refresh_keys-Settled (keep_alive lib net now p).0 (keep_alive_busy lib net now p)

abbrev pub AllSettled : ℕ → List PeerSession → Type 0
AllSettled now [] = Unit
AllSettled now (p ∷ peers) =
    (is_silent now p ≡ false)
    × (is_idle now p ≡ false)
    × (is_expired now p ≡ false)
    × AllSettled now peers

-- After the timers were checked none of any peer is due, whatever the system answered.
pub tick-AllSettled :
    (lib : Sodium) (net : ℕ → Net) (seed : ℕ → ℕ) (now : ℕ) (peers : List PeerSession)
    → AllSettled now (tick lib net seed now peers).0
unfolding tick
tick-AllSettled lib net seed now [] = tt
tick-AllSettled lib net seed now (p ∷ peers) =
    let (heard, busy, young) = tick_peer-Settled lib (net 0) (seed 0) now p in
    (heard, busy, young, tick-AllSettled lib (λ i. net (suc i)) (λ i. seed (suc i)) now peers)
