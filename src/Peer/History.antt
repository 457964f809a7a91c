-- ===== src/Peer/History.antt =====
-- The peers of src/main.c against the sessions of src/session.c: which operations a handler makes
-- on each session, and which of them everything comes from that leaves the daemon.
pub mod Compose
pub mod Peers
pub mod Handlers
pub mod Rounds
pub mod Startup
pub mod Keeps
use edgar_vpn.Prelude.{ℕ, zero, suc, ◌≤◌, ◌≡◌, ◌⊎◌, Option, some, List, [], ◌∷◌, Bytes, length}
use edgar_vpn.Sodium.{Sodium}
use edgar_vpn.Session.State.{Session}
use edgar_vpn.Session.Handshake.{build_init, handle_init}
use edgar_vpn.Session.Channel.{seal_data, open_data}
use edgar_vpn.Session.Trace.{
  Op, starts, builds_init, takes_init, takes_response, seals, opens, step, run,
}
use edgar_vpn.Peer.State.{PeerSession, Effect, sent, wrote}

-- The operation builds the message.
abbrev pub Builds : Sodium → Session → Op → Bytes → Type 0
Builds lib s (starts seed) m = ⊥
Builds lib s (builds_init n) m = (build_init lib s n).1 ≡ some m
Builds lib s (takes_init seed input n) m = (handle_init lib seed s input n).1 ≡ some m
Builds lib s (takes_response input) m = ⊥
Builds lib s (seals text n) m = (seal_data lib s text n).1 ≡ some m
Builds lib s (opens input n) m = ⊥

-- The operation accepts a packet and opens it to this text.
abbrev pub Accepts : Sodium → Session → Op → Bytes → Type 0
Accepts lib s (starts seed) text = ⊥
Accepts lib s (builds_init n) text = ⊥
Accepts lib s (takes_init seed input n) text = ⊥
Accepts lib s (takes_response input) text = ⊥
Accepts lib s (seals plain n) text = ⊥
Accepts lib s (opens input n) text =
    ((open_data lib s input n).written ≡ some text)
    × ((open_data lib s input n).result ≡ some (length text))

abbrev pub Yields : Sodium → Session → Op → Effect → Type 0
Yields lib s op (sent m to) = Builds lib s op m
Yields lib s op (wrote text) = Accepts lib s op text

-- One of the operations, made one after the other, yields the effect.
abbrev pub RunYields : Sodium → Session → List Op → Effect → Type 0
RunYields lib s [] e = ⊥
RunYields lib s (op ∷ ops) e = Yields lib s op e ⊎ RunYields lib (step lib s op).0 ops e

abbrev pub AllFromRun : Sodium → Session → List Op → List Effect → Type 0
AllFromRun lib s ops [] = Unit
AllFromRun lib s ops (e ∷ es) = RunYields lib s ops e × AllFromRun lib s ops es

-- A handler of one peer: at most `n` operations on its session, from which all effects come.
abbrev pub Acts : Sodium → ℕ → PeerSession → PeerSession × List Effect → Type 0
Acts lib n p (p', out) =
    (ops : List Op) × (length ops ≤ n)
    × (p'.session ≡ (run lib p.session ops).0)
    × (p'.config ≡ p.config)
    × AllFromRun lib p.session ops out

-- The operations on the session of the peer at each index.
abbrev pub Histories : Type 0
Histories = ℕ → List Op

abbrev pub later : Histories → Histories
later h i = h (suc i)

abbrev pub Follows : Sodium → ℕ → List PeerSession → Histories → List PeerSession → Type 0
Follows lib n [] h [] = Unit
Follows lib n [] h (p' ∷ peers') = ⊥
Follows lib n (p ∷ peers) h [] = ⊥
Follows lib n (p ∷ peers) h (p' ∷ peers') =
    (length (h 0) ≤ n)
    × (p'.session ≡ (run lib p.session (h 0)).0)
    × (p'.config ≡ p.config)
    × Follows lib n peers (later h) peers'

-- The effect comes from an operation on one of the sessions.
abbrev pub SomeYields : Sodium → List PeerSession → Histories → Effect → Type 0
SomeYields lib [] h e = ⊥
SomeYields lib (p ∷ peers) h e = RunYields lib p.session (h 0) e ⊎ SomeYields lib peers (later h) e

abbrev pub AllYielded : Sodium → List PeerSession → Histories → List Effect → Type 0
AllYielded lib peers h [] = Unit
AllYielded lib peers h (e ∷ es) = SomeYields lib peers h e × AllYielded lib peers h es

-- A handler of all peers.
abbrev pub ActsOnAll : Sodium → ℕ → List PeerSession → List PeerSession × List Effect → Type 0
ActsOnAll lib n peers (peers', out) =
    (h : Histories) × Follows lib n peers h peers' × AllYielded lib peers h out
