-- ===== src/Peer/Inbound/Learned.antt =====
-- The address of a peer, learned from an authentic HANDSHAKE_INIT out of an unknown source.
use edgar_vpn.Prelude.{
  ℕ, suc, zero, ◌≡◌, refl, ap, ◌∙◌, sym, inl, inr, true, ◌&&◌, Option, none, some, List, [], ◌∷◌,
  Bytes, arith, Option-cases, Bool-cases, get_elem?,
}
use mathlib.Core.Option.{some-injective}
use edgar_vpn.Sodium.{Sodium}
use edgar_vpn.Crypto.{responder, role_is}
use edgar_vpn.Config.{Config}
use edgar_vpn.Session.State.{established, has_type, msg_handshake_init, handshake_msg_len}
use edgar_vpn.Session.Handshake.{handle_init}
use edgar_vpn.Session.Handshake.Acceptance.{handle_init-InitAccepted}
use edgar_vpn.Peer.State.{PeerSession, Net, SockAddr, Effect, sent, same_addr}
use edgar_vpn.Peer.Outbound.{at_index}
use edgar_vpn.Peer.Outbound.Delivery.{at_index-effect}
use edgar_vpn.Peer.Inbound.{
  find_peer_by_addr, find_responder_for_init, keep_looking, handshaken, handle_unknown_init,
  handle_udp,
}

module _ (lib : Sodium) (input : Bytes) (from : SockAddr) where
  -- A peer at an index, before and after its answer.
  abbrev Found : (ℕ → ℕ) → List PeerSession → List PeerSession → ℕ → Bytes → Type 0
  Found seed peers tried i reply =
      (p q : PeerSession) × (get_elem? peers i ≡ some p)
      × (get_elem? tried i ≡ some q)
      × (handle_init lib (seed i) p.session input handshake_msg_len ≡ (q.session, some reply))

  -- The attempts leave the addresses alone.
  find_responder_for_init_addresses :
      (seed : ℕ → ℕ) (peers : List PeerSession)
      → find_peer_by_addr (find_responder_for_init lib seed peers input).0 from
        ≡ find_peer_by_addr peers from
  unfolding find_responder_for_init keep_looking find_peer_by_addr
  find_responder_for_init_addresses seed [] = refl
  find_responder_for_init_addresses seed (p ∷ peers) =
      let later = find_responder_for_init_addresses (λ i. seed (suc i)) peers in
      elim (Bool-cases (role_is p.config.role responder)) [
        | inr skips ↦ rw (skips, later) refl
        | inl asks ↦
            elim (Option-cases (handle_init lib (seed 0) p.session input handshake_msg_len).1) [
              | inl refused ↦ rw (asks, refused, later) refl
              | inr (reply, made) ↦ rw (asks, made) refl
            ]
      ]

  Found-keep_looking :
      (seed : ℕ → ℕ) (peers : List PeerSession) (p q : PeerSession)
      (later : List PeerSession × Option (ℕ × Bytes)) {i : ℕ} {reply : Bytes}
      → ((j : ℕ) → later.1 ≡ some (j, reply) → Found (λ k. seed (suc k)) peers later.0 j reply)
      → (keep_looking q later).1 ≡ some (i, reply)
      → Found seed (p ∷ peers) (keep_looking q later).0 i reply
  unfolding keep_looking
  Found-keep_looking seed peers p q later {i} {reply} found_later found =
      elim (Option-cases later.1) [
        | inl missing ↦ absurd (ground arith)
        | inr ((j, answer), there) ↦
            let behind : i ≡ suc j = ground arith in
            let same : answer ≡ reply = ground arith in
            rw behind (found_later j (there ∙ ap (λ r. some (j, r)) same))
      ]

  find_responder_for_init-Found :
      (seed : ℕ → ℕ) (peers : List PeerSession) {i : ℕ} {reply : Bytes}
      → (find_responder_for_init lib seed peers input).1 ≡ some (i, reply)
      → Found seed peers (find_responder_for_init lib seed peers input).0 i reply
  unfolding find_responder_for_init
  find_responder_for_init-Found seed [] found = absurd (ground arith)
  find_responder_for_init-Found seed (p ∷ peers) {i} {reply} found =
      let now = handle_init lib (seed 0) p.session input handshake_msg_len in
      let later = find_responder_for_init lib (λ k. seed (suc k)) peers input in
      let found_later : (j : ℕ)
          → later.1 ≡ some (j, reply)
          → Found (λ k. seed (suc k)) peers later.0 j reply =
        λ j there. find_responder_for_init-Found (λ k. seed (suc k)) peers there in
      let tried = record p { session = now.0 } in
      elim (Bool-cases (role_is p.config.role responder)) [
        | inr skips ↦
            let found' : (keep_looking p later).1 ≡ some (i, reply) = ground arith in
            rw (skips, find_responder_for_init)
              (Found-keep_looking seed peers p p later found_later found')
        | inl asks ↦ elim (Option-cases now.1) [
          | inl refused ↦
              let found' : (keep_looking tried later).1 ≡ some (i, reply) = ground arith in
              rw (asks, refused, find_responder_for_init)
                (Found-keep_looking seed peers p tried later found_later found')
          | inr (answer, made) ↦
              let first : i ≡ 0 = ground arith in
              let same : answer ≡ reply = ground arith in
              rw (asks, made, first, find_responder_for_init)
                (p, tried, refl, refl, ap (λ r. (now.0, r)) (made ∙ ap some same))
        ]
      ]

-- The peer that is given the address is the first that has it, where none had it before.
at_index_learns :
    (f : PeerSession → PeerSession × List Effect) (from : SockAddr)
    → ((p : PeerSession) → ((f p).0.addr_resolved && same_addr (f p).0.addr from) ≡ true)
    → (i : ℕ) (peers : List PeerSession) {p : PeerSession} → get_elem? peers i ≡ some p
    → find_peer_by_addr peers from ≡ none
    → find_peer_by_addr (at_index f i peers).0 from ≡ some i
unfolding at_index find_peer_by_addr
at_index_learns f from known i [] at unknown = absurd (ground arith)
at_index_learns f from known zero (q ∷ peers) at unknown = rw (known q) refl
at_index_learns f from known (suc i) (q ∷ peers) at unknown =
    elim (Bool-cases (q.addr_resolved && same_addr q.addr from)) [
      | inl has ↦ absurd (ground arith)
      | inr lacks ↦ elim (Option-cases (find_peer_by_addr peers from)) [
        | inr (j, found) ↦ absurd (ground arith)
        | inl missing ↦ rw (lacks, at_index_learns f from known i peers at missing) refl
      ]
    ]

-- The peer to which a HANDSHAKE_INIT from an unknown source is attributed.
abbrev pub Learns :
    Sodium → (ℕ → ℕ) → SockAddr → Bytes → List PeerSession → List PeerSession → Bytes → Type 0
Learns lib seed from input peers peers' reply =
    (i : ℕ) × (p p' : PeerSession) × (get_elem? peers i ≡ some p)
    × (handle_init lib (seed i) p.session input handshake_msg_len ≡ (p'.session, some reply))
    × (find_peer_by_addr peers' from ≡ some i)
    × (get_elem? peers' i ≡ some p')
    × (p'.session.state ≡ established)

handle_unknown_init-Learns :
    (lib : Sodium) (net : Net) (seed : ℕ → ℕ) (t : ℕ) (from to : SockAddr) (input reply : Bytes)
    (peers : List PeerSession) {es : List Effect}
    → find_peer_by_addr peers from ≡ none
    → (handle_unknown_init lib net seed t from input peers).1 ≡ sent reply to ∷ es
    → (to ≡ from)
      × Learns lib seed from input peers
          (handle_unknown_init lib net seed t from input peers).0
          reply
unfolding handle_unknown_init
handle_unknown_init-Learns lib net seed t from to input reply peers {es} unknown out =
    let r = find_responder_for_init lib seed peers input in
    elim (Option-cases r.1) [
      | inl missing ↦ absurd (ground arith)
      | inr ((i, answer), found) ↦ elim (Bool-cases (net.sends answer from)) [
        | inr fails ↦ absurd (ground arith)
        | inl goes ↦
            let f : PeerSession → PeerSession × List Effect = λ ps. (
              handshaken t (record ps { addr = from; addr_resolved = true }),
              sent answer from ∷ [],
            ) in
            let handled : handle_unknown_init lib net seed t from input peers ≡ at_index f i r.0 =
              ground arith in
            let effect = sym (ap (λ o. o.1) handled) ∙ out in
            let (q, at, one, left) = at_index-effect f i r.0 effect in
            let same : answer ≡ reply = ground arith in
            let (p, q', p_at, q_at, made) =
              find_responder_for_init-Found lib input from seed peers
                (found ∙ ap (λ r. some (i, r)) same) in
            let same_peer : q' ≡ q = some-injective q' q (sym q_at ∙ at) in
            let made' = made ∙ ap (λ x. (x.session, some reply)) same_peer in
            let a = handle_init-InitAccepted lib (seed i) p.session input handshake_msg_len made' in
            let unknown' = find_responder_for_init_addresses lib input from seed peers ∙ unknown in
            let known : (same_addr from from) ≡ true = ground arith in
            rw handled (
              ground arith,
              (
                i,
                p,
                (f q).0,
                p_at,
                made',
                at_index_learns f from (λ x. known) i r.0 at unknown',
                left,
                ap (λ s. s.state) a.after,
              ),
            )
      ]
    ]

-- A datagram from an address that no peer is known by is answered only as a HANDSHAKE_INIT that a
-- peer's session accepts. The answer goes back to that address, and from then on it is the address
-- of that peer, whose session is established: the next datagram from there is attributed to it.
pub handle_udp-Learns :
    (lib : Sodium) (net : Net) (seed : ℕ → ℕ) (t : ℕ) (from to : SockAddr) (input reply : Bytes)
    (cfg : Config) (peers : List PeerSession) {es : List Effect}
    → find_peer_by_addr peers from ≡ none
    → (handle_udp lib net seed t from input cfg peers).1 ≡ sent reply to ∷ es
    → (has_type msg_handshake_init input ≡ true)
      × (to ≡ from)
      × Learns lib seed from input peers (handle_udp lib net seed t from input cfg peers).0 reply
unfolding handle_udp
handle_udp-Learns lib net seed t from to input reply cfg peers {es} unknown out =
    let handled : handle_udp lib net seed t from input cfg peers
        ≡ handle_unknown_init lib net seed t from input peers =
      ground arith in
    let (back, learned) =
      handle_unknown_init-Learns lib net seed t from to input reply peers {es = es} unknown
        (sym (ap (λ o. o.1) handled) ∙ out) in
    (ground arith, back, rw handled learned)
