-- ===== src/Tests/Log.antt =====
-- A message with a quotation mark and a newline in it.
use edgar_vpn.Prelude.{◌≡◌, some, none, true, refl, codes, [], ◌∷◌, ◌++◌, Bytes}
use edgar_vpn.Log.{level_info, level_warn, Logger, format_json, stderr, write_json_escaped, log_at}
use edgar_vpn.Log.Record.{understood, log_at-read_entry}
use mathlib.Core.Option
use edgar_vpn.Log.Json.{in_text, read_string, read_string-write_json_escaped}

abbrev message : Bytes
message = 97 ∷ 34 ∷ 10 ∷ 1 ∷ 92 ∷ []

read_string-write_json_escaped_example :
    read_string in_text (write_json_escaped message ++ (34 ∷ 125 ∷ [])) ≡ some (message, 125 ∷ [])
read_string-write_json_escaped_example = read_string-write_json_escaped message (125 ∷ [])

abbrev pub noon : Bytes
noon = codes "2024-05-01T12:00:00Z"

pub noon_is_plain : write_json_escaped noon ≡ noon
unfolding write_json_escaped
noon_is_plain = refl

abbrev pub in_json : Logger
in_json = record { level = level_info; format = format_json }

log_at-read_entry_example :
    Option.map understood
      (log_at none none
        (record { initialized = true; settings = in_json })
        noon
        level_warn
        (codes "peer")
        message).1
    ≡ some (
      stderr,
      some (record {
        time = noon;
        level = codes "WARN";
        component = codes "peer";
        message = message;
      }),
    )
log_at-read_entry_example =
    log_at-read_entry none none level_info level_warn noon (codes "peer") message noon_is_plain
