-- ===== src/Peer/Wire/Startup.antt =====
-- What the start-up sends fits the buffers.
use edgar_vpn.Prelude.{
  ℕ, suc, ◌≡◌, inl, inr, some, List, [], ◌∷◌, Bytes, arith, Option-cases, Bool-cases,
}
use mathlib.Core.Path.{subst}
use edgar_vpn.Sodium.{Sodium, Laws}
use edgar_vpn.Crypto.{role_is, initiator, derive_public_key}
use edgar_vpn.Config.{Config, ConfigPeer}
use edgar_vpn.Session.Handshake.{session_init}
use edgar_vpn.Peer.State.{PeerSession, Effect, sealed_buf_size}
use edgar_vpn.Peer.Outbound.{initiate_handshake}
use edgar_vpn.Peer.Startup.{Moment, blank_peer, start_peer, start_peers, start_up}
use edgar_vpn.Peer.Wire.Buffers.{AllFit, AllFit-append, initiate_handshake-AllFit}

module _ (lib : Sodium) (laws : Laws lib) where
  start_peer-AllFit :
      (sk pk : Bytes) (now : Moment) (config : ConfigPeer) {p : PeerSession} {out : List Effect}
      → start_peer lib sk pk now config ≡ some (p, out)
      → AllFit out
  unfolding start_peer
  start_peer-AllFit sk pk now config {p} {out} e =
      let made = session_init lib now.wall now.first_seed config.role pk sk config.public_key in
      let q : PeerSession = record (blank_peer config) {
        session = made.0;
        last_rx_activity_ms = now.first_ms;
      } in
      let begun = initiate_handshake lib now.net now.second_seed sealed_buf_size now.second_ms q in
      elim (Bool-cases made.1) [
        | inr failed ↦ absurd (ground arith)
        | inl ready ↦ elim (Bool-cases (role_is config.role initiator)) [
          | inl starts ↦
              let same : begun.1 ≡ out = ground arith in
              subst AllFit same
                (initiate_handshake-AllFit lib laws now.net now.second_seed now.second_ms q)
          | inr waits ↦ let same : [] ≡ out = ground arith in subst AllFit same tt
        ]
      ]

  start_peers-AllFit :
      (sk pk : Bytes) (now : ℕ → Moment) (configs : List ConfigPeer)
      → AllFit (start_peers lib sk pk now configs).1
  unfolding start_peers
  start_peers-AllFit sk pk now [] = tt
  start_peers-AllFit sk pk now (config ∷ configs) =
      let later = start_peers-AllFit sk pk (λ i. now (suc i)) configs in
      elim (Option-cases (start_peer lib sk pk (now 0) config)) [
        | inl bad ↦ rw (bad, start_peers) tt
        | inr ((p, out), good) ↦
            let first = start_peer-AllFit sk pk (now 0) config good in
            elim (Option-cases (start_peers lib sk pk (λ i. now (suc i)) configs).0) [
              | inl bad ↦ rw (good, bad, start_peers) (AllFit-append out _ first later)
              | inr (rest, more) ↦ rw (good, more, start_peers) (AllFit-append out _ first later)
            ]
      ]

  -- Whatever the start-up sends fits, whether it comes to its end or not.
  pub start_up-AllFit : (now : ℕ → Moment) (cfg : Config) → AllFit (start_up lib now cfg).1
  unfolding start_up
  start_up-AllFit now cfg =
      start_peers-AllFit cfg.private_key (derive_public_key lib cfg.private_key) now cfg.peers
