-- ===== src/Peer/Stats.antt =====
-- src/main.c: `log_stats`.
pub mod Lines
use edgar_vpn.Prelude.{ℕ, suc, Option, none, some, List, [], ◌∷◌, ◌++◌, Bytes, codes, if◌then◌else◌}
use edgar_vpn.Config.{ConfigPeer}
use edgar_vpn.Config.Text.Decimal.{decimal}
use edgar_vpn.Session.State.{Session, is_established}
use edgar_vpn.Log.{Logging, Stream, log_info}
use edgar_vpn.Peer.State.{PeerSession}

-- What stands in the format string before each conversion, and the text of its argument.
abbrev pub stats_fields : PeerSession → List (Bytes × Bytes)
stats_fields ps =
    (codes "stats peer=", ps.config.host)
    ∷ (codes " established=", if is_established ps.session.state then codes "yes" else codes "no")
    ∷ (codes " tx_packets=", decimal ps.stat_packets_tx)
    ∷ (codes " tx_bytes=", decimal ps.stat_bytes_tx)
    ∷ (codes " rx_packets=", decimal ps.stat_packets_rx)
    ∷ (codes " rx_bytes=", decimal ps.stat_bytes_rx)
    ∷ (codes " handshakes=", decimal ps.stat_handshakes)
    ∷ (codes " auth_failures=", decimal ps.stat_auth_failures)
    ∷ (codes " drops=", decimal ps.stat_drops)
    ∷ []

-- The message that the format and its arguments stand for.
unfoldable pub formatted : List (Bytes × Bytes) → Bytes
formatted [] = []
formatted ((label, value) ∷ fields) = label ++ (value ++ formatted fields)

abbrev pub and_then : Option (Stream × Bytes) → List (Stream × Bytes) → List (Stream × Bytes)
and_then none lines = lines
and_then (some line) lines = line ∷ lines

-- `log_stats`; `stamp i` is the text of the time at the `i`-th peer.
unfoldable pub log_stats :
    Option Bytes
    → Option Bytes
    → Bytes
    → (ℕ → Bytes)
    → Logging
    → List PeerSession
    → Logging × List (Stream × Bytes)
unfolding formatted log_info
log_stats level_env format_env local_name stamp l [] = (l, [])
log_stats level_env format_env local_name stamp l (ps ∷ peers) =
    let (l', line) =
      log_info level_env format_env l (stamp 0) local_name (formatted (stats_fields ps)) in
    let (l'', lines) = log_stats level_env format_env local_name (λ i. stamp (suc i)) l' peers in
    (l'', and_then line lines)
