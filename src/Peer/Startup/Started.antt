-- ===== src/Peer/Startup/Started.antt =====
-- The peers as the start-up leaves them.
use edgar_vpn.Prelude.{
  ℕ, suc, ◌≡◌, refl, ap, ◌∙◌, inl, inr, true, some, List, [], ◌∷◌, Bytes, arith, Option-cases,
  Bool-cases,
}
use mathlib.Core.Path.{subst}
use edgar_vpn.Sodium.{Sodium}
use edgar_vpn.Crypto.{Role, initiator, role_is, derive_session_keys, derive_public_key}
use edgar_vpn.Config.{Config, ConfigPeer}
use edgar_vpn.Session.State.{Session, handshake_pending, start_handshake}
use edgar_vpn.Session.Handshake.{session_init, build_init}
use edgar_vpn.Session.Handshake.Cases.{build_init-eq-none, build_init-eq-some}
use edgar_vpn.Peer.State.{PeerSession, Net, Effect, sealed_buf_size}
use edgar_vpn.Peer.Outbound.{send_init, initiate_handshake}
use edgar_vpn.Peer.Startup.{Moment, blank_peer, start_peer, start_peers, start_up}

-- A peer of this configuration whose session has that role and waits for a handshake.
abbrev pub IsStarted : ConfigPeer → PeerSession → Type 0
IsStarted config p =
    (p.config ≡ config) × (p.session.role ≡ config.role) × (p.session.state ≡ handshake_pending)

abbrev pub AllStarted : List ConfigPeer → List PeerSession → Type 0
AllStarted [] [] = Unit
AllStarted [] (p ∷ peers) = ⊥
AllStarted (config ∷ configs) [] = ⊥
AllStarted (config ∷ configs) (p ∷ peers) = IsStarted config p × AllStarted configs peers

build_init_frame :
    (lib : Sodium) (s : Session) (n : ℕ)
    → ((build_init lib s n).0.role ≡ s.role) × ((build_init lib s n).0.state ≡ s.state)
build_init_frame lib s n = elim (Option-cases (build_init lib s n).1) [
  | inl bad ↦
      let same = build_init-eq-none lib s n bad in
      (ap (λ (t : Session). t.role) same, ap (λ (t : Session). t.state) same)
  | inr (m, good) ↦
      let after = (build_init-eq-some lib s n good).4 in
      (ap (λ (t : Session). t.role) after, ap (λ (t : Session). t.state) after)
]

session_init_frame :
    (lib : Sodium) (wall seed : ℕ) (r : Role) (pk sk peer_pk : Bytes)
    → ((session_init lib wall seed r pk sk peer_pk).0.role ≡ r)
      × ((session_init lib wall seed r pk sk peer_pk).0.state ≡ handshake_pending)
unfolding session_init start_handshake
session_init_frame lib wall seed r pk sk peer_pk =
    elim (Option-cases (derive_session_keys lib r pk sk peer_pk)) [
      | inl bad ↦ (ground arith, ground arith)
      | inr (keys, good) ↦ (ground arith, ground arith)
    ]

send_init-IsStarted :
    (lib : Sodium) (net : Net) (seed n now : ℕ) (config : ConfigPeer) (p : PeerSession)
    → IsStarted config p
    → IsStarted config (send_init lib net seed n now p).0
unfolding send_init start_handshake
send_init-IsStarted lib net seed n now config p v =
    let frame = build_init_frame lib (start_handshake lib seed p.session) n in
    (v.0, frame.0 ∙ v.1, frame.1)

initiate_handshake-IsStarted :
    (lib : Sodium) (net : Net) (seed n now : ℕ) (config : ConfigPeer) (p : PeerSession)
    → IsStarted config p
    → IsStarted config (initiate_handshake lib net seed n now p).0
unfolding initiate_handshake
initiate_handshake-IsStarted lib net seed n now config p v = elim (Bool-cases p.addr_resolved) [
  | inl known ↦ rw known (send_init-IsStarted lib net seed n now config p v)
  | inr unknown ↦ elim (Option-cases (net.resolve p.config.host p.config.port)) [
    | inl bad ↦ rw (unknown, bad) v
    | inr (addr, good) ↦
        let q : PeerSession = record p {
          last_rx_activity_ms = now;
          addr = addr;
          addr_resolved = true;
        } in
        rw (unknown, good) (send_init-IsStarted lib net seed n now config q v)
  ]
]

module _ (lib : Sodium) (sk pk : Bytes) where
  start_peer-IsStarted :
      (now : Moment) (config : ConfigPeer) {p : PeerSession} {out : List Effect}
      → start_peer lib sk pk now config ≡ some (p, out)
      → IsStarted config p
  unfolding start_peer
  start_peer-IsStarted now config {p} {out} e =
      let made = session_init lib now.wall now.first_seed config.role pk sk config.public_key in
      let frame =
        session_init_frame lib now.wall now.first_seed config.role pk sk config.public_key in
      let q : PeerSession = record (blank_peer config) {
        session = made.0;
        last_rx_activity_ms = now.first_ms;
      } in
      elim (Bool-cases made.1) [
        | inr failed ↦ absurd (ground arith)
        | inl ready ↦ elim (Bool-cases (role_is config.role initiator)) [
          | inl starts ↦
              let begun : initiate_handshake lib now.net now.second_seed sealed_buf_size
                    now.second_ms q
                  ≡ (p, out) =
                ground arith in
              subst (IsStarted config) (ap (λ o. o.0) begun) (
                initiate_handshake-IsStarted lib now.net now.second_seed sealed_buf_size
                  now.second_ms config q (refl, frame.0, frame.1))
          | inr waits ↦
              let same : q ≡ p = ground arith in
              subst (IsStarted config) same (refl, frame.0, frame.1)
        ]
      ]

  start_peers-AllStarted :
      (now : ℕ → Moment) (configs : List ConfigPeer) {peers : List PeerSession}
      → (start_peers lib sk pk now configs).0 ≡ some peers
      → AllStarted configs peers
  unfolding start_peers
  start_peers-AllStarted now [] {peers} e = subst (AllStarted []) {x = []} (ground arith) tt
  start_peers-AllStarted now (config ∷ configs) {peers} e =
      elim (Option-cases (start_peer lib sk pk (now 0) config)) [
        | inl bad ↦ absurd (ground arith)
        | inr ((p, out), good) ↦
            elim (Option-cases (start_peers lib sk pk (λ i. now (suc i)) configs).0) [
              | inl bad ↦ absurd (ground arith)
              | inr (rest, more) ↦
                  let same : p ∷ rest ≡ peers = ground arith in
                  subst (AllStarted (config ∷ configs)) same (
                    start_peer-IsStarted (now 0) config good,
                    start_peers-AllStarted (λ i. now (suc i)) configs more,
                  )
            ]
      ]

-- A daemon that comes up has one peer for each configured one, in that order; each has a session
-- of the configured role that waits for a handshake.
pub start_up-AllStarted :
    (lib : Sodium) (now : ℕ → Moment) (cfg : Config) {peers : List PeerSession}
    → (start_up lib now cfg).0 ≡ some peers
    → AllStarted cfg.peers peers
unfolding start_up
start_up-AllStarted lib now cfg {peers} e =
    start_peers-AllStarted lib cfg.private_key (derive_public_key lib cfg.private_key) now cfg.peers
      e
