-- ===== src/Session/Handshake/Agreement.antt =====
-- The two-message handshake between an initiator and a responder whose static keys match.
use edgar_vpn.Prelude.{
  size_pred, ℕ, ◌+◌, ◌^◌, ◌≤◌, ◌<◌, ◌≡◌, sym, ◌∙◌, ap, ◌⊎◌, true, false, some, ◌∷◌, Bytes, arith,
  u64, length, if◌then◌else◌,
}
use edgar_vpn.Sodium.{Sodium, Laws, SessionKeys}
use edgar_vpn.Crypto.{
  initiator, responder, derive_session_keys, seal, crypto_open, wipe, public_key_bytes,
  secret_key_bytes,
}
use edgar_vpn.Crypto.Packet.{seal_total, open-seal}
use edgar_vpn.Session.State.{
  Session, handshake_pending, established, is_established, msg_handshake_init,
  msg_handshake_response, handshake_msg_len, start_handshake,
}
use edgar_vpn.Session.Handshake.{build_init, answer_init, handle_init, handle_response}

-- The session's ephemeral key pair is what was generated from `seed`.
abbrev pub HasKeyPair : Sodium → Session → ℕ → Type 0
HasKeyPair lib s seed =
    (s.local_eph_pk ≡ (lib.kx_keypair seed).0) × (s.local_eph_sk ≡ (lib.kx_keypair seed).1)

-- What one side sends with is what the other side receives with.
abbrev pub KeysMatch : SessionKeys → SessionKeys → Type 0
KeysMatch a b = (a.tx ≡ b.rx) × (a.rx ≡ b.tx)

-- A responder takes this counter for a new attempt.
abbrev pub Unseen : Session → ℕ → Type 0
Unseen s counter = (s.have_seen_handshake ≡ false) ⊎ (s.highest_handshake_counter_seen < counter)

-- The sessions that the two messages leave behind.
abbrev pub sent_init : Session → Session
sent_init s = record s {
  pending_handshake_counter = s.handshake_counter;
  handshake_counter = u64 (s.handshake_counter + 1);
}

abbrev pub answered : Session → SessionKeys → ℕ → Session
answered s keys counter = record s {
  data_keys = keys;
  local_eph_sk = wipe secret_key_bytes;
  have_seen_handshake = true;
  highest_handshake_counter_seen = counter;
  state = established;
}

abbrev pub completed : Session → SessionKeys → Session
completed s keys = record s {
  data_keys = keys;
  local_eph_sk = wipe secret_key_bytes;
  state = established;
}

-- The session by which a responder answers: with a fresh key pair if it was established.
abbrev pub refreshed : Sodium → ℕ → Session → Session
refreshed lib seed s = if is_established s.state then start_handshake lib seed s else s

pub refreshed-role :
    (lib : Sodium) (fresh : ℕ) (s : Session) → (refreshed lib fresh s).role ≡ s.role
unfolding start_handshake
refreshed-role lib fresh s = ground arith

pub refreshed-static_keys :
    (lib : Sodium) (fresh : ℕ) (s : Session) → (refreshed lib fresh s).static_keys ≡ s.static_keys
unfolding start_handshake
refreshed-static_keys lib fresh s = ground arith

module _ (lib : Sodium) (laws : Laws lib) where
  -- An initiator that awaits a handshake builds the message.
  pub build_init_succeeds :
      (s : Session) (seed out_len : ℕ)
      → s.role ≡ initiator
      → s.state ≡ handshake_pending
      → HasKeyPair lib s seed
      → handshake_msg_len ≤ out_len
      → (packet : Bytes) × (seal lib s.static_keys.tx s.handshake_counter s.local_eph_pk
            (size_pred out_len)
          ≡ some packet)
        × (build_init lib s out_len ≡ (sent_init s, some (msg_handshake_init ∷ packet)))
  unfolding build_init
  build_init_succeeds s seed out_len role state pair room =
      let len : length s.local_eph_pk ≡ 32 = ap length pair.0 ∙ laws.keypair_length seed in
      let (packet, e, total) =
        seal_total lib laws s.static_keys.tx s.handshake_counter s.local_eph_pk (size_pred out_len)
          (grind arith) in
      (packet, e, ground arith)

  -- A responder that opens the message and finds its counter fresh goes on to answer it.
  handle_init-eq-answer :
      (s : Session) (fresh out_len counter : ℕ) (packet pk : Bytes)
      → s.role ≡ responder
      → handshake_msg_len ≤ out_len
      → crypto_open lib s.static_keys.rx packet public_key_bytes ≡ some (pk, counter)
      → length pk ≡ public_key_bytes
      → Unseen s counter
      → handle_init lib fresh s (msg_handshake_init ∷ packet) out_len
        ≡ answer_init lib (refreshed lib fresh s) pk counter out_len
  unfolding handle_init
  handle_init-eq-answer s fresh out_len counter packet pk role room e len unseen = ground arith

  -- Answering succeeds where the keys can be derived.
  answer_init_succeeds :
      (s : Session) (seed out_len counter : ℕ) (pk : Bytes) (keys : SessionKeys)
      → s.role ≡ responder
      → HasKeyPair lib s seed
      → handshake_msg_len ≤ out_len
      → lib.kx_server_session_keys s.local_eph_pk s.local_eph_sk pk ≡ some keys
      → (packet : Bytes) × (seal lib s.static_keys.tx counter s.local_eph_pk (size_pred out_len)
          ≡ some packet)
        × (answer_init lib s pk counter out_len
            ≡ (answered s keys counter, some (msg_handshake_response ∷ packet)))
  unfolding answer_init derive_session_keys
  answer_init_succeeds s seed out_len counter pk keys role pair room derived =
      let len : length s.local_eph_pk ≡ 32 = ap length pair.0 ∙ laws.keypair_length seed in
      let (packet, e, total) =
        seal_total lib laws s.static_keys.tx counter s.local_eph_pk (size_pred out_len)
          (grind arith) in
      (packet, e, ground arith)

  handle_response_succeeds :
      (s : Session) (packet pk : Bytes) (keys : SessionKeys)
      → s.role ≡ initiator
      → s.state ≡ handshake_pending
      → crypto_open lib s.static_keys.rx packet public_key_bytes
        ≡ some (pk, s.pending_handshake_counter)
      → length pk ≡ public_key_bytes
      → lib.kx_client_session_keys s.local_eph_pk s.local_eph_sk pk ≡ some keys
      → handle_response lib s (msg_handshake_response ∷ packet) ≡ (completed s keys, true)
  unfolding handle_response derive_session_keys
  handle_response_succeeds s packet pk keys role state e len derived = ground arith

  -- What was sealed under one side's key opens under the other side's.
  open-sealed :
      (tx rx : Bytes) (counter : ℕ) (pk : Bytes) (out_len : ℕ) (packet : Bytes)
      → tx ≡ rx
      → counter < 2 ^ 64
      → length pk ≡ public_key_bytes
      → seal lib tx counter pk out_len ≡ some packet
      → crypto_open lib rx packet public_key_bytes ≡ some (pk, counter)
  open-sealed tx rx counter pk out_len packet same small len e =
      open-seal lib laws rx counter pk out_len public_key_bytes small (omega arith) (rw same at e)

  -- Between an initiator that awaits a handshake and a responder to whom its counter is new, with
  -- matching static keys, ephemeral key pairs that were generated from random bits (the responder's
  -- anew if it was established) and an exchange that succeeds, the two messages are built and
  -- accepted: both sides end established, with the ephemeral secret keys wiped and the data keys
  -- of the exchange, crosswise.
  pub handshake_completes :
      (i r : Session) (si sr fresh out_len reply_len : ℕ) (keys : SessionKeys)
      → i.role ≡ initiator
      → i.state ≡ handshake_pending
      → HasKeyPair lib i si
      → r.role ≡ responder
      → HasKeyPair lib (refreshed lib fresh r) sr
      → KeysMatch i.static_keys r.static_keys
      → i.handshake_counter < 2 ^ 64
      → Unseen r i.handshake_counter
      → lib.kx_client_session_keys (lib.kx_keypair si).0 (lib.kx_keypair si).1 (lib.kx_keypair sr).0
        ≡ some keys
      → handshake_msg_len ≤ out_len
      → handshake_msg_len ≤ reply_len
      → (init reply : Bytes) × (build_init lib i out_len ≡ (sent_init i, some init))
        × (handle_init lib fresh r init reply_len ≡ (
          answered
              (refreshed lib fresh r)
              (record { rx = keys.tx; tx = keys.rx })
              i.handshake_counter,
          some reply,
        ))
        × (handle_response lib (sent_init i) reply ≡ (completed (sent_init i) keys, true))
  handshake_completes i r si sr fresh out_len reply_len keys ri pending pi rr pr match small new
        agreed room reply_room =
      let r' = refreshed lib fresh r in
      let (packet, sealed, built) = build_init_succeeds i si out_len ri pending pi room in
      let leni : length i.local_eph_pk ≡ 32 = ap length pi.0 ∙ laws.keypair_length si in
      let lenr : length r'.local_eph_pk ≡ 32 = ap length pr.0 ∙ laws.keypair_length sr in
      let opened =
        open-sealed i.static_keys.tx r.static_keys.rx i.handshake_counter i.local_eph_pk
          (size_pred out_len) packet match.0 small leni sealed in
      let answers =
        handle_init-eq-answer r fresh reply_len i.handshake_counter packet i.local_eph_pk rr
          reply_room opened leni new in
      let (back, sealed', answered') =
        answer_init_succeeds r' sr reply_len i.handshake_counter i.local_eph_pk
          (record { rx = keys.tx; tx = keys.rx }) (refreshed-role lib fresh r ∙ rr) pr reply_room
          (rw (pr.0, pr.1, pi.0) (laws.kx_agree si sr keys agreed)) in
      let opened' =
        open-sealed r'.static_keys.tx i.static_keys.rx i.handshake_counter r'.local_eph_pk
          (size_pred reply_len) back
          (ap (λ k. k.tx) (refreshed-static_keys lib fresh r) ∙ sym match.1) small lenr sealed' in
      (
        msg_handshake_init ∷ packet,
        msg_handshake_response ∷ back,
        built,
        answers ∙ answered',
        handle_response_succeeds (sent_init i) back r'.local_eph_pk keys ri pending opened' lenr
            (rw (pi.0, pi.1, pr.0) agreed),
      )
