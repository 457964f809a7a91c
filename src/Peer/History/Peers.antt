-- ===== src/Peer/History/Peers.antt =====
-- The handlers of all peers, by the operations that they make on the sessions.
use edgar_vpn.Prelude.{
  ℕ, zero, suc, ◌≡◌, refl, ◌∙◌, inl, inr, Option, none, some, List, [], ◌∷◌, Bytes, arith, length,
  Option-cases, Bool-cases, ◌==◌,
}
use mathlib.Core.Option
use edgar_vpn.Sodium.{Sodium}
use edgar_vpn.Crypto.{role_is, responder}
use edgar_vpn.Config.{Config}
use edgar_vpn.Routing.{parse_ipv4_dest, find_peer_for_dest}
use edgar_vpn.Session.State.{handshake_msg_len}
use edgar_vpn.Session.Handshake.{handle_init}
use edgar_vpn.Session.Trace.{Op, takes_init, step, run}
use edgar_vpn.Peer.State.{PeerSession, Net, SockAddr, Effect, sent}
use edgar_vpn.Peer.Outbound.{at_index, send_packet, handle_tun}
use edgar_vpn.Peer.Inbound.{keep_looking, find_responder_for_init}
use edgar_vpn.Peer.History.{
  AllFromRun, Acts, Histories, later, Follows, SomeYields, AllYielded, ActsOnAll,
}
use edgar_vpn.Peer.History.Handlers.{send_packet-Acts}

-- No operations, and those of the first peer before those of the others.
abbrev pub nothing : Histories
nothing i = []

abbrev pub front : List Op → Histories → Histories
front ops h zero = ops
front ops h (suc i) = h i

module _ (lib : Sodium) where
  Follows-nothing : (n : ℕ) (peers : List PeerSession) → Follows lib n peers nothing peers
  unfolding run
  Follows-nothing n [] = tt
  Follows-nothing n (p ∷ peers) = (omega arith, refl, refl, Follows-nothing n peers)

  -- Where nothing is done.
  pub idle-ActsOnAll : (n : ℕ) (peers : List PeerSession) → ActsOnAll lib n peers (peers, [])
  idle-ActsOnAll n peers = (nothing, Follows-nothing n peers, tt)

  pub AllYielded-first :
      (p : PeerSession) (peers : List PeerSession) (h : Histories) (es : List Effect)
      → AllFromRun lib p.session (h 0) es
      → AllYielded lib (p ∷ peers) h es
  AllYielded-first p peers h [] all = tt
  AllYielded-first p peers h (e ∷ es) all = (inl all.0, AllYielded-first p peers h es all.1)

  pub AllYielded-other :
      (p : PeerSession) (peers : List PeerSession) (h : Histories) (es : List Effect)
      → AllYielded lib peers (later h) es
      → AllYielded lib (p ∷ peers) h es
  AllYielded-other p peers h [] all = tt
  AllYielded-other p peers h (e ∷ es) all = (inr all.0, AllYielded-other p peers h es all.1)

  pub at_index-ActsOnAll :
      (n : ℕ) (f : PeerSession → PeerSession × List Effect)
      → ((p : PeerSession) → Acts lib n p (f p))
      → (i : ℕ) (peers : List PeerSession) → ActsOnAll lib n peers (at_index f i peers)
  unfolding at_index run
  at_index-ActsOnAll n f acts i [] = (nothing, tt, tt)
  at_index-ActsOnAll n f acts zero (p ∷ peers) =
      let (ops, few, s, c, all) = acts p in
      (
        front ops nothing,
        (few, s, c, Follows-nothing n peers),
        AllYielded-first p peers (front ops nothing) (f p).1 all,
      )
  at_index-ActsOnAll n f acts (suc i) (p ∷ peers) =
      let (h, v, all) = at_index-ActsOnAll n f acts i peers in
      (
        front [] h,
        (omega arith, refl, refl, v),
        AllYielded-other p peers (front [] h) (at_index f i peers).1 all,
      )

  pub handle_tun-ActsOnAll :
      (net : Net) (t : ℕ) (packet : Bytes) (cfg : Config) (peers : List PeerSession)
      → ActsOnAll lib 1 peers (handle_tun lib net t packet cfg peers)
  unfolding handle_tun
  handle_tun-ActsOnAll net t packet cfg peers = elim (Bool-cases (length cfg.peers == 0)) [
    | inl alone ↦ rw alone (idle-ActsOnAll 1 peers)
    | inr linked ↦ elim (Option-cases (parse_ipv4_dest packet)) [
      | inl foreign ↦ rw (linked, foreign) (idle-ActsOnAll 1 peers)
      | inr (dest, parsed) ↦ elim (Option-cases (find_peer_for_dest cfg dest)) [
        | inl unrouted ↦ rw (linked, parsed, unrouted) (idle-ActsOnAll 1 peers)
        | inr (i, found) ↦
            rw (linked, parsed, found)
              (at_index-ActsOnAll 1 (send_packet lib net t packet)
                (send_packet-Acts lib net t packet) i peers)
      ]
    ]
  ]

  -- A response that was found comes from one of the sessions.
  abbrev pub FoundYields : List PeerSession → Histories → SockAddr → Option (ℕ × Bytes) → Type 0
  FoundYields peers h from none = Unit
  FoundYields peers h from (some (i, reply)) = SomeYields lib peers h (sent reply from)

  FoundYields-other :
      (p : PeerSession) (peers : List PeerSession) (h : Histories) (from : SockAddr)
      (found : Option (ℕ × Bytes))
      → FoundYields peers (later h) from found
      → FoundYields (p ∷ peers) h from (Option.map (λ (m : ℕ × Bytes). (suc m.0, m.1)) found)
  FoundYields-other p peers h from none y = tt
  FoundYields-other p peers h from (some (i, reply)) y = inr y

  pub find_responder_for_init-Follows :
      (seed : ℕ → ℕ) (peers : List PeerSession) (input : Bytes) (from : SockAddr)
      → (h : Histories) × Follows lib 1 peers h (find_responder_for_init lib seed peers input).0
        × FoundYields peers h from (find_responder_for_init lib seed peers input).1
  unfolding find_responder_for_init keep_looking run step
  find_responder_for_init-Follows seed [] input from = (nothing, tt, tt)
  find_responder_for_init-Follows seed (p ∷ peers) input from =
      let (h, v, y) = find_responder_for_init-Follows (λ i. seed (suc i)) peers input from in
      let rest = find_responder_for_init lib (λ i. seed (suc i)) peers input in
      let ops : List Op = takes_init (seed 0) input handshake_msg_len ∷ [] in
      elim (Bool-cases (role_is p.config.role responder)) [
        | inr skipped ↦ rw skipped (
          front [] h,
          (omega arith, refl, refl, v),
          FoundYields-other p peers (front [] h) from rest.1 y,
        )
        | inl asked ↦
            elim (Option-cases (handle_init lib (seed 0) p.session input handshake_msg_len).1) [
              | inl refused ↦
                  rw (asked, refused)
                    (
                      front ops h,
                      (omega arith, refl, refl, v),
                      FoundYields-other p peers (front ops h) from rest.1 y,
                    )
              | inr (reply, made) ↦
                  rw (asked, made)
                    (
                      front ops nothing,
                      (omega arith, refl, refl, Follows-nothing 1 peers),
                      inl (inl made),
                    )
            ]
      ]

  -- A change that leaves sessions and configurations alone.
  pub Follows-at_index :
      (g : PeerSession → PeerSession × List Effect) (n i : ℕ) (ps qs : List PeerSession)
      (h : Histories)
      → ((p : PeerSession) → (g p).0.session ≡ p.session)
      → ((p : PeerSession) → (g p).0.config ≡ p.config)
      → Follows lib n ps h qs
      → Follows lib n ps h (at_index g i qs).0
  unfolding at_index
  Follows-at_index g n i [] [] h s c v = tt
  Follows-at_index g n i [] (q ∷ qs) h s c v = absurd v
  Follows-at_index g n i (p ∷ ps) [] h s c v = absurd v
  Follows-at_index g n zero (p ∷ ps) (q ∷ qs) h s c v = (v.0, s q ∙ v.1, c q ∙ v.2, v.3)
  Follows-at_index g n (suc i) (p ∷ ps) (q ∷ qs) h s c v =
      (v.0, v.1, v.2, Follows-at_index g n i ps qs (later h) s c v.3)

  pub AllYielded-at_index :
      (g : PeerSession → PeerSession) (e : Effect) (i : ℕ) (ps qs : List PeerSession)
      (h : Histories)
      → SomeYields lib ps h e
      → AllYielded lib ps h (at_index (λ p. (g p, e ∷ [])) i qs).1
  unfolding at_index
  AllYielded-at_index g e i ps [] h y = tt
  AllYielded-at_index g e zero ps (q ∷ qs) h y = (y, tt)
  AllYielded-at_index g e (suc i) ps (q ∷ qs) h y = AllYielded-at_index g e i ps qs h y
