-- ===== src/Peer/Wire/Buffers.antt =====
-- What leaves the daemon fits the buffers that it is built in.
use edgar_vpn.Prelude.{
  ℕ, zero, suc, ◌≤◌, ◌<◌, ◌≡◌, inl, inr, true, ◌&&◌, some, List, [], ◌∷◌, ◌++◌, Bytes, arith,
  length, Option-cases, Bool-cases, ap,
}
use edgar_vpn.Sodium.{Sodium, Laws}
use edgar_vpn.Crypto.{role_is, initiator, responder}
use edgar_vpn.Session.State.{
  has_type, msg_handshake_init, msg_handshake_response, handshake_msg_len, start_handshake,
}
use edgar_vpn.Session.Handshake.{build_init, handle_init}
use edgar_vpn.Session.Channel.{Opened, seal_data, open_data}
use edgar_vpn.Session.Channel.Cases.{open_data_cases}
use edgar_vpn.Session.Bounds.{build_init_size, answer_size, seal_data_size, open_data_size}
use edgar_vpn.Peer.State.{PeerSession, Net, Effect, sent, wrote, sealed_buf_size, max_packet_size}
use edgar_vpn.Peer.Outbound.{at_index, emit, send_init, initiate_handshake, send_packet}
use edgar_vpn.Peer.Inbound.{handle_known}
use edgar_vpn.Peer.Timers.{keep_alive, refresh_keys, tick_peer}

-- A datagram fits `sealed` and a packet, which is not empty, fits `plain`.
abbrev pub AllFit : List Effect → Type 0
AllFit [] = Unit
AllFit (sent m to ∷ es) = (length m ≤ sealed_buf_size) × AllFit es
AllFit (wrote text ∷ es) = (0 < length text) × (length text ≤ max_packet_size) × AllFit es

pub AllFit-append : (es fs : List Effect) → AllFit es → AllFit fs → AllFit (es ++ fs)
AllFit-append [] fs v w = w
AllFit-append (sent m to ∷ es) fs v w = (v.0, AllFit-append es fs v.1 w)
AllFit-append (wrote text ∷ es) fs v w = (v.0, v.1, AllFit-append es fs v.2 w)

pub at_index-AllFit :
    (f : PeerSession → PeerSession × List Effect)
    → ((p : PeerSession) → AllFit (f p).1)
    → (i : ℕ) (peers : List PeerSession) → AllFit (at_index f i peers).1
unfolding at_index
at_index-AllFit f fits i [] = tt
at_index-AllFit f fits zero (p ∷ peers) = fits p
at_index-AllFit f fits (suc i) (p ∷ peers) = at_index-AllFit f fits i peers

module _ (lib : Sodium) (laws : Laws lib) where
  -- The replies to an INIT.
  pub reply_fits :
      (seed : ℕ) (input : Bytes) (p : PeerSession) {reply : Bytes}
      → (handle_init lib seed p.session input handshake_msg_len).1 ≡ some reply
      → length reply ≤ sealed_buf_size
  reply_fits seed input p e =
      let (tag, size, fits) = answer_size lib laws p.session seed input handshake_msg_len e in
      omega arith

  opened_fits :
      (input text : Bytes) (p : PeerSession)
      → (open_data lib p.session input max_packet_size).written ≡ some text
      → length text ≤ max_packet_size
  opened_fits input text p e = (open_data_size lib laws p.session input max_packet_size e).1

module _ (lib : Sodium) (laws : Laws lib) (net : Net) where
  pub send_packet-AllFit :
      (t : ℕ) (packet : Bytes) (p : PeerSession) → AllFit (send_packet lib net t packet p).1
  unfolding send_packet
  send_packet-AllFit t packet p =
      elim (Option-cases (seal_data lib p.session packet sealed_buf_size).1) [
        | inl refused ↦ ground arith
        | inr (m, made) ↦
            let (tag, size, fits) = seal_data_size lib laws p.session packet sealed_buf_size made in
            ground arith
      ]

  keep_alive-AllFit : (now : ℕ) (p : PeerSession) → AllFit (keep_alive lib net now p).1
  unfolding keep_alive
  keep_alive-AllFit now p = elim (Option-cases (seal_data lib p.session [] sealed_buf_size).1) [
    | inl refused ↦ ground arith
    | inr (m, made) ↦
        let (tag, size, fits) = seal_data_size lib laws p.session [] sealed_buf_size made in
        ground arith
  ]

  send_init-AllFit :
      (seed now : ℕ) (p : PeerSession) → AllFit (send_init lib net seed sealed_buf_size now p).1
  unfolding send_init emit
  send_init-AllFit seed now p =
      let s = start_handshake lib seed p.session in
      elim (Option-cases (build_init lib s sealed_buf_size).1) [
        | inl refused ↦ rw refused tt
        | inr (m, made) ↦
            let (tag, size, fits) = build_init_size lib laws s sealed_buf_size made in
            elim (Bool-cases (net.sends m p.addr)) [
              | inl goes ↦ rw (made, goes) (fits, tt)
              | inr fails ↦ rw (made, fails) tt
            ]
      ]

  pub initiate_handshake-AllFit :
      (seed now : ℕ) (p : PeerSession)
      → AllFit (initiate_handshake lib net seed sealed_buf_size now p).1
  unfolding initiate_handshake
  initiate_handshake-AllFit seed now p = elim (Bool-cases p.addr_resolved) [
    | inl known ↦ rw known (send_init-AllFit seed now p)
    | inr unknown ↦ elim (Option-cases (net.resolve p.config.host p.config.port)) [
      | inl lost ↦ rw (unknown, lost) tt
      | inr (addr, found) ↦
          rw (unknown, found)
            (send_init-AllFit seed now
              (record p { last_rx_activity_ms = now; addr = addr; addr_resolved = true }))
    ]
  ]

  refresh_keys-AllFit :
      (seed now : ℕ) (p : PeerSession) → AllFit (refresh_keys lib net seed now p).1
  unfolding refresh_keys
  refresh_keys-AllFit seed now p = let begun = initiate_handshake-AllFit seed now p in ground arith

  pub tick_peer-AllFit : (seed now : ℕ) (p : PeerSession) → AllFit (tick_peer lib net seed now p).1
  unfolding tick_peer
  tick_peer-AllFit seed now p =
      AllFit-append (keep_alive lib net now p).1 _ (keep_alive-AllFit now p)
        (refresh_keys-AllFit seed now (keep_alive lib net now p).0)

  pub handle_known-AllFit :
      (seed t : ℕ) (input : Bytes) (p : PeerSession)
      → AllFit (handle_known lib net seed t input p).1
  unfolding handle_known
  handle_known-AllFit seed t input p =
      elim (Bool-cases (has_type msg_handshake_init input && role_is p.config.role responder)) [
        | inl asks ↦
            elim (Option-cases (handle_init lib seed p.session input handshake_msg_len).1) [
              | inl refused ↦ ground arith
              | inr (reply, made) ↦
                  let small = reply_fits lib laws seed input p made in ground arith
            ]
        | inr other ↦
            elim (Bool-cases
              (has_type msg_handshake_response input && role_is p.config.role initiator)) [
                | inl answers ↦ ground arith
                | inr last ↦ elim (open_data_cases lib p.session input max_packet_size) [
                  | inl closed ↦
                      let none_left = ap (λ (o : Opened). o.result) closed in ground arith
                  | inr (plain, counter, up, opens, o) ↦
                      let result = ap (λ (o : Opened). o.result) o in
                      let written = ap (λ (o : Opened). o.written) o in
                      let small = opened_fits lib laws input plain p written in ground arith
                ]
              ]
      ]
