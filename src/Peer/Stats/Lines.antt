-- ===== src/Peer/Stats/Lines.antt =====
-- The statistics as a reader of the log gets them back.
use edgar_vpn.Prelude.{ℕ, suc, ◌+◌, ◌<◌, true, Option, some, List, [], ◌∷◌, Bytes, codes, length}
use mathlib.Core.Option
use edgar_vpn.Config.{config_max_host}
use edgar_vpn.Log.{LogLevel, Logging, Stream, stdout, format_json}
use edgar_vpn.Log.Record.{Entry, understood}
use edgar_vpn.Peer.State.{PeerSession}
use edgar_vpn.Peer.Stats.{stats_fields, formatted}

abbrev total : List (Bytes × Bytes) → ℕ
total [] = 0
total ((label, value) ∷ fields) = length label + (length value + total fields)

-- A reader takes each line for itself.
abbrev pub all_understood : List (Stream × Bytes) → List (Stream × Option Entry)
all_understood [] = []
all_understood (line ∷ lines) = understood line ∷ all_understood lines

abbrev pub stats_entries : Bytes → (ℕ → Bytes) → List PeerSession → List (Stream × Option Entry)
stats_entries local_name stamp [] = []
stats_entries local_name stamp (ps ∷ peers) =
    (
      stdout,
      some (record {
        time = stamp 0;
        level = codes "INFO";
        component = local_name;
        message = formatted (stats_fields ps);
      }),
    )
    ∷ stats_entries local_name (λ i. stamp (suc i)) peers

abbrev pub AllShort : List PeerSession → Type 0
AllShort [] = Unit
AllShort (ps ∷ peers) = (length ps.config.host < config_max_host) × AllShort peers

module _ (level_env format_env : Option Bytes) (least : LogLevel) (local_name : Bytes) where
  abbrev logging : Logging
  logging = record { initialized = true; settings = record { level = least; format = format_json } }
