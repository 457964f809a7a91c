-- ===== src/Peer/History/Startup.antt =====
-- The start-up of the peers, by the operations that it makes on their new sessions.
use edgar_vpn.Prelude.{
  ℕ, suc, ◌≡◌, refl, inl, inr, true, some, List, [], ◌∷◌, ◌++◌, Bytes, arith, Option-cases,
  Bool-cases,
}
use mathlib.Core.Path.{subst}
use edgar_vpn.Sodium.{Sodium}
use edgar_vpn.Crypto.{role_is, initiator, derive_public_key}
use edgar_vpn.Config.{Config, ConfigPeer}
use edgar_vpn.Session.Handshake.{session_init}
use edgar_vpn.Session.Trace.{run}
use edgar_vpn.Peer.State.{PeerSession, Effect, sealed_buf_size}
use edgar_vpn.Peer.Outbound.{initiate_handshake}
use edgar_vpn.Peer.Startup.{Moment, blank_peer, start_peer, start_peers, start_up}
use edgar_vpn.Peer.History.{Acts, ActsOnAll, Follows}
use edgar_vpn.Peer.History.Compose.{AllYielded-append}
use edgar_vpn.Peer.History.Handlers.{initiate_handshake-Acts}
use edgar_vpn.Peer.History.Peers.{front, nothing, AllYielded-first, AllYielded-other}

module _ (lib : Sodium) (sk pk : Bytes) where
  -- A peer with the session that `session_init` makes of it.
  abbrev pub initialized : Moment → ConfigPeer → PeerSession
  initialized now config = record (blank_peer config) {
    session = (session_init lib now.wall now.first_seed config.role pk sk config.public_key).0;
    last_rx_activity_ms = now.first_ms;
  }

  abbrev pub all_initialized : (ℕ → Moment) → List ConfigPeer → List PeerSession
  all_initialized now [] = []
  all_initialized now (config ∷ configs) =
      initialized (now 0) config ∷ all_initialized (λ i. now (suc i)) configs

  -- Every session could be initialized.
  abbrev pub AllReady : (ℕ → Moment) → List ConfigPeer → Type 0
  AllReady now [] = Unit
  AllReady now (config ∷ configs) =
      ((session_init lib (now 0).wall (now 0).first_seed config.role pk sk config.public_key).1
        ≡ true)
      × AllReady (λ i. now (suc i)) configs

  start_peer-Acts :
      (now : Moment) (config : ConfigPeer) {p : PeerSession} {out : List Effect}
      → start_peer lib sk pk now config ≡ some (p, out)
      → ((session_init lib now.wall now.first_seed config.role pk sk config.public_key).1 ≡ true)
        × Acts lib 2 (initialized now config) (p, out)
  unfolding start_peer run
  start_peer-Acts now config {p} {out} e =
      let made = session_init lib now.wall now.first_seed config.role pk sk config.public_key in
      let q = initialized now config in
      elim (Bool-cases made.1) [
        | inr failed ↦ absurd (ground arith)
        | inl ready ↦ elim (Bool-cases (role_is config.role initiator)) [
          | inl starts ↦
              let begun : initiate_handshake lib now.net now.second_seed sealed_buf_size
                    now.second_ms q
                  ≡ (p, out) =
                ground arith in
              (
                ready,
                subst (Acts lib 2 q) begun (
                    initiate_handshake-Acts lib now.net now.second_seed sealed_buf_size
                      now.second_ms q),
              )
          | inr waits ↦
              let quiet : List Effect = [] in
              let waiting : Acts lib 2 q (q, quiet) = ([], omega arith, refl, refl, tt) in
              let same : (q, quiet) ≡ (p, out) = ground arith in
              (ready, subst (Acts lib 2 q) same waiting)
        ]
      ]

  start_peers-ActsOnAll :
      (now : ℕ → Moment) (configs : List ConfigPeer) {peers : List PeerSession}
      → (start_peers lib sk pk now configs).0 ≡ some peers
      → AllReady now configs
        × ActsOnAll lib 2
            (all_initialized now configs)
            (peers, (start_peers lib sk pk now configs).1)
  unfolding start_peers
  start_peers-ActsOnAll now [] {peers} e =
      let same : [] ≡ peers = ground arith in
      (tt, subst (λ ps. ActsOnAll lib 2 [] (ps, [])) same (nothing, tt, tt))
  start_peers-ActsOnAll now (config ∷ configs) {peers} e =
      elim (Option-cases (start_peer lib sk pk (now 0) config)) [
        | inl bad ↦ absurd (ground arith)
        | inr ((p, out), good) ↦
            let next = start_peers lib sk pk (λ i. now (suc i)) configs in
            elim (Option-cases next.0) [
              | inl bad ↦ absurd (ground arith)
              | inr (rest, more) ↦
                  let same : p ∷ rest ≡ peers = ground arith in
                  let sent : (start_peers lib sk pk now (config ∷ configs)).1 ≡ out ++ next.1 =
                    ground arith in
                  let (ready, acts) = start_peer-Acts (now 0) config good in
                  let (ops, few, s, c, all) = acts in
                  let (others, acts') = start_peers-ActsOnAll (λ i. now (suc i)) configs more in
                  let (h, v, all') = acts' in
                  let first : PeerSession = initialized (now 0) config in
                  let firsts = all_initialized (λ i. now (suc i)) configs in
                  (
                    (ready, others),
                    (
                      front ops h,
                      subst (Follows lib 2 (first ∷ firsts) (front ops h)) same (few, s, c, v),
                      rw sent (
                          AllYielded-append lib (first ∷ firsts) (front ops h) out next.1
                            (AllYielded-first lib first firsts (front ops h) out all)
                            (AllYielded-other lib first firsts (front ops h) next.1 all')),
                    ),
                  )
            ]
      ]

-- The start-up makes at most two operations on each session.
pub start_up-ActsOnAll :
    (lib : Sodium) (now : ℕ → Moment) (cfg : Config) {peers : List PeerSession}
    → (start_up lib now cfg).0 ≡ some peers
    → AllReady lib cfg.private_key (derive_public_key lib cfg.private_key) now cfg.peers
      × ActsOnAll lib 2
          (all_initialized lib cfg.private_key
            (derive_public_key lib cfg.private_key)
            now
            cfg.peers)
          (peers, (start_up lib now cfg).1)
unfolding start_up
start_up-ActsOnAll lib now cfg e =
    start_peers-ActsOnAll lib cfg.private_key (derive_public_key lib cfg.private_key) now cfg.peers
      e
