-- ===== src/Peer/Timers/Alive.antt =====
-- What the timers send for a peer that is due.
use edgar_vpn.Prelude.{
  ℕ, zero, suc, ◌^◌, ◌<◌, ◌≡◌, refl, ap, ◌∙◌, sym, true, some, List, [], ◌∷◌, ◌++◌, Bytes, arith,
  get_elem?,
}
use mathlib.Core.List.{append_assoc}
use edgar_vpn.Sodium.{Sodium, Laws}
use edgar_vpn.Crypto.{crypto_open}
use edgar_vpn.Crypto.Packet.{open-seal}
use edgar_vpn.Session.State.{Session, established, msg_data}
use edgar_vpn.Session.Channel.Delivery.{seal_data_total}
use edgar_vpn.Peer.State.{PeerSession, Net, Effect, sent, sealed_buf_size}
use edgar_vpn.Peer.Timers.{keep_alive, refresh_keys, tick_peer, tick}
use edgar_vpn.Peer.Timers.Liveness.{is_idle, AllSettled, tick-AllSettled}

-- What is sent for the peer at an index stands among all that is sent.
pub tick_at :
    (lib : Sodium) (net : ℕ → Net) (seed : ℕ → ℕ) (now i : ℕ) (peers : List PeerSession)
    {p : PeerSession}
    → get_elem? peers i ≡ some p
    → (before behind : List Effect) × ((tick lib net seed now peers).1
        ≡ before ++ ((tick_peer lib (net i) (seed i) now p).1 ++ behind))
unfolding tick
tick_at lib net seed now i [] at = absurd (ground arith)
tick_at lib net seed now zero (q ∷ peers) {p} at =
    let same : q ≡ p = ground arith in
    let more = (tick lib (λ i. net (suc i)) (λ i. seed (suc i)) now peers).1 in
    ([], more, ap (λ x. (tick_peer lib (net 0) (seed 0) now x).1 ++ more) same)
tick_at lib net seed now (suc i) (q ∷ peers) {p} at =
    let (before, behind, all) = tick_at lib (λ i. net (suc i)) (λ i. seed (suc i)) now i peers at in
    let first = (tick_peer lib (net 0) (seed 0) now q).1 in
    (first ++ before, behind, ap (λ o. first ++ o) all ∙ sym (append_assoc first before _))

-- An empty DATA message under the session's key and counter, as its receiver opens it.
abbrev pub IsKeepalive : Sodium → Session → Bytes → Type 0
IsKeepalive lib s message =
    (packet : Bytes) × (message ≡ msg_data ∷ packet)
    × (crypto_open lib s.data_keys.tx packet 0 ≡ some ([], s.tx_counter))

-- Among what was sent is a keepalive to this peer.
abbrev pub SentKeepalive : Sodium → PeerSession → List Effect → Type 0
SentKeepalive lib p out =
    (before : List Effect) × (message : Bytes) × (behind : List Effect) × (out
      ≡ before ++ (sent message p.addr ∷ behind))
    × IsKeepalive lib p.session message

module _ (lib : Sodium) (laws : Laws lib) where
  keep_alive_sends :
      (net : Net) (now : ℕ) (p : PeerSession)
      → is_idle now p ≡ true
      → p.session.tx_counter < 2 ^ 64
      → ((message : Bytes) → net.sends message p.addr ≡ true)
      → (message : Bytes) × ((keep_alive lib net now p).1 ≡ sent message p.addr ∷ [])
        × IsKeepalive lib p.session message
  unfolding keep_alive
  keep_alive_sends net now p idle small sends =
      let up : p.session.state ≡ established = ground arith in
      let (packet, sealed, len, made) =
        seal_data_total lib laws p.session [] sealed_buf_size up (omega arith) in
      let goes = sends (msg_data ∷ packet) in
      let by = ap (λ o. o.1) made in
      (
        msg_data ∷ packet,
        rw (idle, by, goes) refl,
        (
          packet,
          refl,
          open-seal lib laws p.session.data_keys.tx p.session.tx_counter [] _ 0 small (omega arith)
              sealed,
        ),
      )

-- Where sending works, an established peer with a known address to which nothing went for the
-- keepalive interval is sent an empty DATA message that opens under the key and the counter of its
-- session, in the round that finds it so, whatever is the matter with the other peers; and once
-- the timers were checked, none of any peer is due.
pub tick_keeps_alive :
    (lib : Sodium) (laws : Laws lib) (net : ℕ → Net) (seed : ℕ → ℕ) (now i : ℕ)
    (peers : List PeerSession) {p : PeerSession}
    → get_elem? peers i ≡ some p
    → is_idle now p ≡ true
    → p.session.tx_counter < 2 ^ 64
    → ((message : Bytes) → (net i).sends message p.addr ≡ true)
    → SentKeepalive lib p (tick lib net seed now peers).1
      × AllSettled now (tick lib net seed now peers).0
unfolding tick_peer
tick_keeps_alive lib laws net seed now i peers {p} at idle small sends =
    let (message, kept, opens) = keep_alive_sends lib laws (net i) now p idle small sends in
    let (before, behind, out) = tick_at lib net seed now i peers at in
    let also = (refresh_keys lib (net i) (seed i) now (keep_alive lib (net i) now p).0).1 in
    (
      (
        before,
        message,
        also ++ behind,
        out ∙ ap (λ k. before ++ ((k ++ also) ++ behind)) kept,
        opens,
      ),
      tick-AllSettled lib net seed now peers,
    )
