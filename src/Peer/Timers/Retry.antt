-- ===== src/Peer/Timers/Retry.antt =====
-- The handshakes that the timers begin.
use edgar_vpn.Prelude.{
  ℕ, ◌^◌, ◌<◌, ◌≡◌, refl, ap, ◌∙◌, sym, inl, inr, true, some, List, [], ◌∷◌, ◌++◌, Bytes, arith,
  get_elem?, Option-cases,
}
use mathlib.Core.List.{append_assoc}
use edgar_vpn.Sodium.{Sodium, Laws}
use edgar_vpn.Crypto.{initiator, crypto_open, public_key_bytes, generate_keypair}
use edgar_vpn.Crypto.Packet.{open-seal}
use edgar_vpn.Session.State.{Session, msg_handshake_init, start_handshake}
use edgar_vpn.Session.Handshake.Agreement.{build_init_succeeds}
use edgar_vpn.Session.Channel.{seal_data}
use edgar_vpn.Session.Channel.Cases.{seal_data-eq-none, seal_data-eq-some}
use edgar_vpn.Peer.State.{PeerSession, Net, Effect, sent, sealed_buf_size}
use edgar_vpn.Peer.Outbound.{emit, send_init, initiate_handshake}
use edgar_vpn.Peer.Timers.{keep_alive, refresh_keys, tick_peer, tick}
use edgar_vpn.Peer.Timers.Liveness.{is_silent}
use edgar_vpn.Peer.Timers.Alive.{tick_at}

-- A HANDSHAKE_INIT under the session's static key and counter, as its receiver opens it, with the
-- public key that is generated from the random bits.
abbrev pub IsInit : Sodium → ℕ → Session → Bytes → Type 0
IsInit lib seed s message =
    (packet : Bytes) × (message ≡ msg_handshake_init ∷ packet)
    × (crypto_open lib s.static_keys.tx packet public_key_bytes
        ≡ some ((lib.kx_keypair seed).0, s.handshake_counter))

-- Among what was sent is an INIT to this peer.
abbrev pub SentInit : Sodium → ℕ → PeerSession → List Effect → Type 0
SentInit lib seed p out =
    (before : List Effect) × (message : Bytes) × (behind : List Effect) × (out
      ≡ before ++ (sent message p.addr ∷ behind))
    × IsInit lib seed p.session message

-- What a keepalive leaves as it is.
keep_alive_frame :
    (lib : Sodium) (net : Net) (now : ℕ) (p : PeerSession)
    → let q = (keep_alive lib net now p).0 in
      (q.config ≡ p.config)
      × (q.addr ≡ p.addr)
      × (q.addr_resolved ≡ p.addr_resolved)
      × (q.last_rx_activity_ms ≡ p.last_rx_activity_ms)
      × (q.session.role ≡ p.session.role)
      × (q.session.static_keys ≡ p.session.static_keys)
      × (q.session.handshake_counter ≡ p.session.handshake_counter)
unfolding keep_alive
keep_alive_frame lib net now p =
    elim (Option-cases (seal_data lib p.session [] sealed_buf_size).1) [
      | inl bad ↦
          let same = seal_data-eq-none lib p.session [] sealed_buf_size bad in
          let role = ap (λ (s : Session). s.role) same in
          let static = ap (λ (s : Session). s.static_keys) same in
          let counter = ap (λ (s : Session). s.handshake_counter) same in
          (
            ground arith,
            ground arith,
            ground arith,
            ground arith,
            ground arith,
            ground arith,
            ground arith,
          )
      | inr (m, good) ↦
          let same = (seal_data-eq-some lib p.session [] sealed_buf_size good).4 in
          let role = ap (λ (s : Session). s.role) same in
          let static = ap (λ (s : Session). s.static_keys) same in
          let counter = ap (λ (s : Session). s.handshake_counter) same in
          (
            ground arith,
            ground arith,
            ground arith,
            ground arith,
            ground arith,
            ground arith,
            ground arith,
          )
    ]

-- With a known address, beginning a handshake is sending the INIT.
initiate_handshake_known :
    (lib : Sodium) (net : Net) (seed n now : ℕ) (p : PeerSession)
    → p.addr_resolved ≡ true
    → initiate_handshake lib net seed n now p ≡ send_init lib net seed n now p
unfolding initiate_handshake
initiate_handshake_known lib net seed n now p known = ground arith

module _ (lib : Sodium) (laws : Laws lib) where
  send_init_sends :
      (net : Net) (seed now : ℕ) (p : PeerSession)
      → p.session.role ≡ initiator
      → p.session.handshake_counter < 2 ^ 64
      → ((message : Bytes) → net.sends message p.addr ≡ true)
      → (message : Bytes) × ((send_init lib net seed sealed_buf_size now p).1
          ≡ sent message p.addr ∷ [])
        × IsInit lib seed p.session message
  unfolding send_init emit start_handshake generate_keypair
  send_init_sends net seed now p role small sends =
      let s = start_handshake lib seed p.session in
      let (packet, sealed, made) =
        build_init_succeeds lib laws s seed sealed_buf_size role refl (refl, refl) (omega arith) in
      let by = ap (λ o. o.1) made in
      let goes = sends (msg_handshake_init ∷ packet) in
      let len = laws.keypair_length seed in
      (
        msg_handshake_init ∷ packet,
        rw (by, goes) refl,
        (
          packet,
          refl,
          open-seal lib laws s.static_keys.tx s.handshake_counter s.local_eph_pk _ public_key_bytes
              small (omega arith) sealed,
        ),
      )

  refresh_keys_sends :
      (net : Net) (seed now : ℕ) (p : PeerSession)
      → is_silent now p ≡ true
      → p.addr_resolved ≡ true
      → p.session.role ≡ initiator
      → p.session.handshake_counter < 2 ^ 64
      → ((message : Bytes) → net.sends message p.addr ≡ true)
      → (message : Bytes) × ((refresh_keys lib net seed now p).1 ≡ sent message p.addr ∷ [])
        × IsInit lib seed p.session message
  unfolding refresh_keys
  refresh_keys_sends net seed now p silent known role small sends =
      let (message, all, init) = send_init_sends net seed now p role small sends in
      let begins = initiate_handshake_known lib net seed sealed_buf_size now p known in
      (message, rw silent (ap (λ o. o.1) begins ∙ all), init)

-- Where sending works, an initiator with a known address that heard nothing of its peer for the
-- session timeout sends it a HANDSHAKE_INIT, in the round that finds it so, whatever is the matter
-- with the other peers: one that opens under the static key of its session and its handshake
-- counter to a public key that was generated anew.
pub tick_retries :
    (lib : Sodium) (laws : Laws lib) (net : ℕ → Net) (seed : ℕ → ℕ) (now i : ℕ)
    (peers : List PeerSession) {p : PeerSession}
    → get_elem? peers i ≡ some p
    → is_silent now p ≡ true
    → p.addr_resolved ≡ true
    → p.session.role ≡ initiator
    → p.session.handshake_counter < 2 ^ 64
    → ((message : Bytes) → (net i).sends message p.addr ≡ true)
    → SentInit lib (seed i) p (tick lib net seed now peers).1
unfolding tick_peer
tick_retries lib laws net seed now i peers {p} at silent known role small sends =
    let q = (keep_alive lib (net i) now p).0 in
    let (config, addr, resolved, rx, same_role, static, counter) =
      keep_alive_frame lib (net i) now p in
    let (message, all, (packet, shape, opens)) =
      refresh_keys_sends lib laws (net i) (seed i) now q (rw (config, rx) silent) (resolved ∙ known)
        (same_role ∙ role) (rw counter small) (λ m. rw addr (sends m)) in
    let (before, behind, out) = tick_at lib net seed now i peers at in
    let kept = (keep_alive lib (net i) now p).1 in
    let to_p : (refresh_keys lib (net i) (seed i) now q).1 ≡ sent message p.addr ∷ [] =
      all ∙ ap (λ a. sent message a ∷ []) addr in
    (
      before ++ kept,
      message,
      behind,
      out
          ∙ ap (λ o. before ++ ((kept ++ o) ++ behind)) to_p
          ∙ ap (λ o. before ++ o) (append_assoc kept (sent message p.addr ∷ []) behind)
          ∙ sym (append_assoc before kept (sent message p.addr ∷ behind)),
      (packet, shape, rw (static, counter) at opens),
    )
