-- ===== src/Peer/Wire.antt =====
-- src/main.c: what leaves the daemon, by its form.
pub mod Buffers
pub mod Rounds
pub mod Startup
use edgar_vpn.Prelude.{
  ℕ, ◌+◌, ◌*◌, ◌≤◌, ◌≡◌, ◌⊎◌, inl, inr, true, some, List, [], ◌∷◌, ◌++◌, Bytes, arith, length, ap,
  ◌∙◌,
}
use edgar_vpn.Sodium.{Sodium, Laws}
use edgar_vpn.Config.{Config}
use edgar_vpn.Crypto.{derive_public_key}
use edgar_vpn.Session.State.{
  Session, has_type, msg_handshake_init, msg_handshake_response, msg_data, handshake_msg_len,
  data_overhead,
}
use edgar_vpn.Session.Bounds.{build_init_size, answer_size, seal_data_size}
use edgar_vpn.Session.Lifecycle.Secrets.{
  IsWiped, stage_public, refreshed-HasKeyPair, session_init-IsWiped,
}
use edgar_vpn.Session.Lifecycle.Wiped.{step-IsWiped}
use edgar_vpn.Session.Trace.{
  Op, starts, builds_init, takes_init, takes_response, seals, opens, step,
}
use edgar_vpn.Peer.State.{PeerSession, SockAddr, Effect, sent, wrote}
use edgar_vpn.Peer.Startup.{Moment, start_up}
use edgar_vpn.Peer.Loop.{Round, Daemon, main_loop}
use edgar_vpn.Peer.History.{Builds, Yields, RunYields, Histories, later, SomeYields, AllYielded}
use edgar_vpn.Peer.History.Compose.{ActsOnAll-then}
use edgar_vpn.Peer.History.Startup.{all_initialized, start_up-ActsOnAll}
use edgar_vpn.Peer.History.Rounds.{main_loop-ActsOnAll}
use edgar_vpn.Peer.History.Keeps.{AllSessions, AllReady-AllSessions}
use edgar_vpn.Peer.Wire.Buffers.{AllFit, AllFit-append}
use edgar_vpn.Peer.Wire.Rounds.{main_loop-AllFit}
use edgar_vpn.Peer.Wire.Startup.{start_up-AllFit}

-- The three forms of a message.
pub data IsMessage : Bytes → Type 0 where
  is_init :
      {m : Bytes}
      → has_type msg_handshake_init m ≡ true
      → length m ≡ handshake_msg_len
      → IsMessage m
  is_response :
      {m : Bytes}
      → has_type msg_handshake_response m ≡ true
      → length m ≡ handshake_msg_len
      → IsMessage m
  is_data : {m : Bytes} → has_type msg_data m ≡ true → data_overhead ≤ length m → IsMessage m

abbrev pub AllMessages : List Effect → Type 0
AllMessages [] = Unit
AllMessages (sent m to ∷ es) = IsMessage m × AllMessages es
AllMessages (wrote text ∷ es) = AllMessages es

module _ (lib : Sodium) (laws : Laws lib) where
  Builds-IsMessage :
      (s : Session) (op : Op) (m : Bytes) → IsWiped lib s → Builds lib s op m → IsMessage m
  Builds-IsMessage s (starts seed) m v y = absurd y
  Builds-IsMessage s (builds_init n) m v y =
      let (tag, size, fits) = build_init_size lib laws s n y in
      let (seed, pk) = stage_public lib s.state s.local_eph_pk s.local_eph_sk v.stage in
      let len : length s.local_eph_pk ≡ 32 = ap length pk ∙ laws.keypair_length seed in
      is_init tag (omega arith)
  Builds-IsMessage s (takes_init seed input n) m v y =
      let (tag, size, fits) = answer_size lib laws s seed input n y in
      let (sr, pair) = refreshed-HasKeyPair lib seed s v in
      let len = ap length pair.0 ∙ laws.keypair_length sr in is_response tag (omega arith)
  Builds-IsMessage s (takes_response input) m v y = absurd y
  Builds-IsMessage s (seals text n) m v y =
      let (tag, size, fits) = seal_data_size lib laws s text n y in is_data tag (omega arith)
  Builds-IsMessage s (opens input n) m v y = absurd y

  RunYields-IsMessage :
      (s : Session) (ops : List Op) (m : Bytes) (to : SockAddr)
      → IsWiped lib s
      → RunYields lib s ops (sent m to)
      → IsMessage m
  RunYields-IsMessage s [] m to v y = absurd y
  RunYields-IsMessage s (op ∷ ops) m to v (inl y) = Builds-IsMessage s op m v y
  RunYields-IsMessage s (op ∷ ops) m to v (inr y) =
      RunYields-IsMessage (step lib s op).0 ops m to (step-IsWiped lib laws s op v) y

  SomeYields-IsMessage :
      (peers : List PeerSession) (h : Histories) (m : Bytes) (to : SockAddr)
      → AllSessions (IsWiped lib) peers
      → SomeYields lib peers h (sent m to)
      → IsMessage m
  SomeYields-IsMessage [] h m to v y = absurd y
  SomeYields-IsMessage (p ∷ peers) h m to v (inl y) = RunYields-IsMessage p.session (h 0) m to v.0 y
  SomeYields-IsMessage (p ∷ peers) h m to v (inr y) =
      SomeYields-IsMessage peers (later h) m to v.1 y

  AllYielded-AllMessages :
      (peers : List PeerSession) (h : Histories) (es : List Effect)
      → AllSessions (IsWiped lib) peers
      → AllYielded lib peers h es
      → AllMessages es
  AllYielded-AllMessages peers h [] v all = tt
  AllYielded-AllMessages peers h (sent m to ∷ es) v all =
      (SomeYields-IsMessage peers h m to v all.0, AllYielded-AllMessages peers h es v all.1)
  AllYielded-AllMessages peers h (wrote text ∷ es) v all = AllYielded-AllMessages peers h es v all.1

-- From its start-up on, through any rounds of its loop and whatever comes from the network, the
-- daemon sends messages of the three forms only: an INIT or a RESPONSE of exactly
-- `SESSION_HANDSHAKE_MSG_LEN` bytes, or a DATA message of at least `SESSION_DATA_OVERHEAD`. Every
-- message fits a buffer of SEALED_BUF_SIZE, and every packet that is written to the TUN device is
-- not empty and fits one of MAX_PACKET_SIZE.
pub daemon-AllMessages :
    (lib : Sodium) (laws : Laws lib) (now : ℕ → Moment) (cfg : Config) (stats : ℕ)
    (rounds : List Round) {peers : List PeerSession}
    → (start_up lib now cfg).0 ≡ some peers
    → let out =
        (start_up lib now cfg).1
        ++ (main_loop lib cfg rounds (record { peers = peers; last_stats_ms = stats })).1 in
      AllMessages out × AllFit out
daemon-AllMessages lib laws now cfg stats rounds {peers} e =
    let sk = cfg.private_key in
    let pk = derive_public_key lib sk in
    let fresh = all_initialized lib sk pk now cfg.peers in
    let d : Daemon = record { peers = peers; last_stats_ms = stats } in
    let life = main_loop lib cfg rounds d in
    let (ready, begun) = start_up-ActsOnAll lib now cfg e in
    let (h, follows, all) =
      ActsOnAll-then lib 2 (5 * length rounds) fresh peers life.0.peers (start_up lib now cfg).1
        life.1 begun (main_loop-ActsOnAll lib cfg rounds d) in
    (
      AllYielded-AllMessages lib laws fresh h ((start_up lib now cfg).1 ++ life.1)
          (AllReady-AllSessions lib (IsWiped lib) (step-IsWiped lib laws) (session_init-IsWiped lib)
            sk pk now cfg.peers ready)
          all,
      AllFit-append (start_up lib now cfg).1 life.1 (start_up-AllFit lib laws now cfg)
          (main_loop-AllFit lib laws cfg rounds d),
    )
