-- ===== src/Peer/History/Handlers.antt =====
-- The handlers of one peer, by the operations that they make on its session.
use edgar_vpn.Prelude.{
  ℕ, ◌≡◌, refl, ap, inl, inr, true, false, ◌&&◌, some, List, [], ◌∷◌, Bytes, arith, length,
  Option-cases, Bool-cases, ◌==◌, leb,
}
use mathlib.Core.Option
use edgar_vpn.Sodium.{Sodium}
use edgar_vpn.Crypto.{role_is, initiator, responder}
use edgar_vpn.Session.State.{
  is_established, has_type, msg_handshake_init, msg_handshake_response, msg_data, handshake_msg_len,
  start_handshake,
}
use edgar_vpn.Session.Handshake.{build_init, handle_init, handle_response}
use edgar_vpn.Session.Channel.{Opened, seal_data, open_data}
use edgar_vpn.Session.Channel.Cases.{open_data_cases}
use edgar_vpn.Session.Trace.{
  Op, starts, builds_init, takes_init, takes_response, seals, opens, step, run,
}
use edgar_vpn.Peer.State.{
  PeerSession, Net, sealed_buf_size, max_packet_size, since, keepalive_interval_ms,
  session_timeout_ms, key_rotation_interval_ms,
}
use edgar_vpn.Peer.Outbound.{emit, send_init, initiate_handshake, send_packet}
use edgar_vpn.Peer.Inbound.{handle_known}
use edgar_vpn.Peer.Timers.{keep_alive, refresh_keys, tick_peer}
use edgar_vpn.Peer.History.{Acts}
use edgar_vpn.Peer.History.Compose.{Acts-then}

module _ (lib : Sodium) (net : Net) where
  pub send_packet-Acts :
      (t : ℕ) (packet : Bytes) (p : PeerSession) → Acts lib 1 p (send_packet lib net t packet p)
  unfolding send_packet run step
  send_packet-Acts t packet p = elim (Bool-cases (is_established p.session.state)) [
    | inr down ↦ rw down ([], omega arith, refl, refl, tt)
    | inl up ↦ elim (Option-cases (seal_data lib p.session packet sealed_buf_size).1) [
      | inl refused ↦
          rw (up, refused) (seals packet sealed_buf_size ∷ [], omega arith, refl, refl, tt)
      | inr (m, made) ↦ elim (Bool-cases (net.sends m p.addr)) [
        | inl goes ↦
            rw (up, made, goes)
              (seals packet sealed_buf_size ∷ [], omega arith, refl, refl, (inl made, tt))
        | inr fails ↦
            rw (up, made, fails) (seals packet sealed_buf_size ∷ [], omega arith, refl, refl, tt)
      ]
    ]
  ]

  keep_alive-Acts : (now : ℕ) (p : PeerSession) → Acts lib 1 p (keep_alive lib net now p)
  unfolding keep_alive run step
  keep_alive-Acts now p =
      elim (Bool-cases (
        p.addr_resolved
        && (is_established p.session.state
            && leb keepalive_interval_ms (since now p.last_tx_activity_ms)))) [
              | inr quiet ↦ rw quiet ([], omega arith, refl, refl, tt)
              | inl idle ↦ elim (Option-cases (seal_data lib p.session [] sealed_buf_size).1) [
                | inl refused ↦
                    rw (idle, refused) (seals [] sealed_buf_size ∷ [], omega arith, refl, refl, tt)
                | inr (m, made) ↦ elim (Bool-cases (net.sends m p.addr)) [
                  | inl goes ↦
                      rw (idle, made, goes)
                        (seals [] sealed_buf_size ∷ [], omega arith, refl, refl, (inl made, tt))
                  | inr fails ↦
                      rw (idle, made, fails)
                        (seals [] sealed_buf_size ∷ [], omega arith, refl, refl, tt)
                ]
              ]
            ]

  send_init-Acts :
      (seed n now : ℕ) (p : PeerSession) → Acts lib 2 p (send_init lib net seed n now p)
  unfolding send_init emit run step
  send_init-Acts seed n now p =
      elim (Option-cases (build_init lib (start_handshake lib seed p.session) n).1) [
        | inl refused ↦ rw refused (starts seed ∷ builds_init n ∷ [], omega arith, refl, refl, tt)
        | inr (m, made) ↦ elim (Bool-cases (net.sends m p.addr)) [
          | inl goes ↦
              rw (made, goes)
                (starts seed ∷ builds_init n ∷ [], omega arith, refl, refl, (inr (inl made), tt))
          | inr fails ↦
              rw (made, fails) (starts seed ∷ builds_init n ∷ [], omega arith, refl, refl, tt)
        ]
      ]

  pub initiate_handshake-Acts :
      (seed n now : ℕ) (p : PeerSession) → Acts lib 2 p (initiate_handshake lib net seed n now p)
  unfolding initiate_handshake run
  initiate_handshake-Acts seed n now p = elim (Bool-cases p.addr_resolved) [
    | inl known ↦ rw known (send_init-Acts seed n now p)
    | inr unknown ↦ elim (Option-cases (net.resolve p.config.host p.config.port)) [
      | inl bad ↦ rw (unknown, bad) ([], omega arith, refl, refl, tt)
      | inr (addr, good) ↦
          rw (unknown, good)
            (send_init-Acts seed n now
              (record p { last_rx_activity_ms = now; addr = addr; addr_resolved = true }))
    ]
  ]

  refresh_keys-Acts :
      (seed now : ℕ) (p : PeerSession) → Acts lib 2 p (refresh_keys lib net seed now p)
  unfolding refresh_keys run
  refresh_keys-Acts seed now p =
      let begun = initiate_handshake-Acts seed sealed_buf_size now p in
      elim (Bool-cases (
        role_is p.config.role initiator
        && leb session_timeout_ms (since now p.last_rx_activity_ms))) [
          | inl silent ↦ rw silent begun
          | inr heard ↦
              elim (Bool-cases (
                role_is p.config.role initiator
                && (is_established p.session.state
                    && leb key_rotation_interval_ms (since now p.last_handshake_completed_ms)))) [
                      | inl old ↦ rw (heard, old) begun
                      | inr young ↦ rw (heard, young) ([], omega arith, refl, refl, tt)
                    ]
        ]

  pub tick_peer-Acts :
      (seed now : ℕ) (p : PeerSession) → Acts lib 3 p (tick_peer lib net seed now p)
  unfolding tick_peer
  tick_peer-Acts seed now p =
      let kept = keep_alive lib net now p in
      let refreshed = refresh_keys lib net seed now kept.0 in
      Acts-then lib 1 2 p kept.0 refreshed.0 kept.1 refreshed.1 (keep_alive-Acts now p)
        (refresh_keys-Acts seed now kept.0)

module _ (lib : Sodium) (net : Net) (seed t : ℕ) (input : Bytes) (p : PeerSession) where
  known_init-Acts :
      (has_type msg_handshake_init input && role_is p.config.role responder) ≡ true
      → Acts lib 1 p (handle_known lib net seed t input p)
  unfolding handle_known run step
  known_init-Acts asks =
      let ops : List Op = takes_init seed input handshake_msg_len ∷ [] in
      elim (Option-cases (handle_init lib seed p.session input handshake_msg_len).1) [
        | inl refused ↦ rw (asks, refused) (ops, omega arith, refl, refl, tt)
        | inr (m, made) ↦ elim (Bool-cases (net.sends m p.addr)) [
          | inl goes ↦ rw (asks, made, goes) (ops, omega arith, refl, refl, (inl made, tt))
          | inr fails ↦ rw (asks, made, fails) (ops, omega arith, refl, refl, tt)
        ]
      ]

  known_response-Acts :
      (has_type msg_handshake_init input && role_is p.config.role responder) ≡ false
      → (has_type msg_handshake_response input && role_is p.config.role initiator) ≡ true
      → Acts lib 1 p (handle_known lib net seed t input p)
  unfolding handle_known run step
  known_response-Acts other answers =
      let ops : List Op = takes_response input ∷ [] in
      elim (Bool-cases (handle_response lib p.session input).1) [
        | inl accepted ↦ rw (other, answers, accepted) (ops, omega arith, refl, refl, tt)
        | inr refused ↦ rw (other, answers, refused) (ops, omega arith, refl, refl, tt)
      ]

  -- A packet that is opened is written as it was opened.
  opened_text :
      (n : ℕ) {len : ℕ}
      → (open_data lib p.session input n).result ≡ some len
      → ((open_data lib p.session input n).written
          ≡ some (Option.get_or (open_data lib p.session input n).written []))
        × ((open_data lib p.session input n).result
            ≡ some (length (Option.get_or (open_data lib p.session input n).written [])))
  opened_text n e = elim (open_data_cases lib p.session input n) [
    | inl closed ↦ let none_left = ap (λ (o : Opened). o.result) closed in absurd (ground arith)
    | inr (text, counter, up, opened, o) ↦
        let result = ap (λ (o : Opened). o.result) o in
        let written = ap (λ (o : Opened). o.written) o in (ground arith, ground arith)
  ]

  known_data-Acts :
      (has_type msg_handshake_init input && role_is p.config.role responder) ≡ false
      → (has_type msg_handshake_response input && role_is p.config.role initiator) ≡ false
      → has_type msg_data input ≡ true
      → Acts lib 1 p (handle_known lib net seed t input p)
  unfolding handle_known run step
  known_data-Acts other last sends =
      let ops : List Op = opens input max_packet_size ∷ [] in
      let o = open_data lib p.session input max_packet_size in
      elim (Option-cases o.result) [
        | inl refused ↦ rw (other, last, sends, refused) (ops, omega arith, refl, refl, tt)
        | inr (len, opened) ↦ elim (Bool-cases (len == 0)) [
          | inl empty ↦ rw (other, last, sends, opened, empty) (ops, omega arith, refl, refl, tt)
          | inr full ↦ elim (Bool-cases (net.writes (Option.get_or o.written []))) [
            | inl goes ↦
                rw (other, last, sends, opened, full, goes)
                  (ops, omega arith, refl, refl, (inl (opened_text max_packet_size opened), tt))
            | inr fails ↦
                rw (other, last, sends, opened, full, fails) (ops, omega arith, refl, refl, tt)
          ]
        ]
      ]

  pub handle_known-Acts : Acts lib 1 p (handle_known lib net seed t input p)
  unfolding handle_known run
  handle_known-Acts =
      elim (Bool-cases (has_type msg_handshake_init input && role_is p.config.role responder)) [
        | inl asks ↦ known_init-Acts asks
        | inr other ↦
            elim (Bool-cases
              (has_type msg_handshake_response input && role_is p.config.role initiator)) [
                | inl answers ↦ known_response-Acts other answers
                | inr last ↦ elim (Bool-cases (has_type msg_data input)) [
                  | inl sends ↦ known_data-Acts other last sends
                  | inr unknown ↦ rw (other, last, unknown) ([], omega arith, refl, refl, tt)
                ]
              ]
      ]
