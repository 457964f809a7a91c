-- ===== src/Log.antt =====
-- src/log.c: the settings from the environment, the level test, and the lines that are written.
pub mod Json
pub mod Record
use edgar_vpn.Prelude.{
  ℕ, ◌+◌, ◌/◌, ◌%◌, Bool, true, false, Option, none, some, [], ◌∷◌, ◌++◌, Bytes, leb, ltb, ◌==◌,
  if◌then◌else◌, codes, length, take, replicate, ◌-◌,
}
use edgar_vpn.Config.Text.{same_word}

-- `log_level_t` in its order.
pub data LogLevel : Type 0 where
  level_debug level_info level_warn level_error : LogLevel

abbrev pub rank : LogLevel → ℕ
rank level_debug = 0
rank level_info = 1
rank level_warn = 2
rank level_error = 3

-- `log_format_t`
pub data LogFormat : Type 0 where
  format_text format_json : LogFormat

-- `g_level` and `g_format`
pub record Logger : Type 0 where
  pub level : LogLevel
  pub format : LogFormat

-- The level that LOG_LEVEL names, and `info` for any other text.
unfoldable pub level_of : Bytes → LogLevel
unfolding same_word
level_of text =
    if same_word text (100 ∷ 101 ∷ 98 ∷ 117 ∷ 103 ∷ [])
    then level_debug
    else if same_word text (105 ∷ 110 ∷ 102 ∷ 111 ∷ [])
    then level_info
    else if same_word text (119 ∷ 97 ∷ 114 ∷ 110 ∷ [])
    then level_warn
    else if same_word text (101 ∷ 114 ∷ 114 ∷ 111 ∷ 114 ∷ [])
    then level_error
    else level_info

-- `log_init`, on the values of LOG_LEVEL and LOG_FORMAT, `none` where they are not set.
unfoldable pub log_init : Option Bytes → Option Bytes → Logger
unfolding level_of same_word
log_init level_env format_env = record {
  level = elim level_env [ none ↦ level_info | some text ↦ level_of text ];
  format = elim format_env [
    | none ↦ format_text
    | some text ↦ if same_word text (106 ∷ 115 ∷ 111 ∷ 110 ∷ []) then format_json else format_text
  ];
}

-- `log_level_enabled`
abbrev pub log_level_enabled : Logger → LogLevel → Bool
log_level_enabled logger level = leb (rank logger.level) (rank level)

-- A hexadecimal digit as printf writes it.
unfoldable pub hex_digit : ℕ → ℕ
hex_digit d = if ltb d 10 then 48 + d else 87 + d

-- What `write_json_escaped` writes for one character.
unfoldable pub json_char : ℕ → Bytes
unfolding hex_digit
json_char c =
    if c == 34
    then 92 ∷ 34 ∷ []
    else if c == 92
    then 92 ∷ 92 ∷ []
    else if c == 10
    then 92 ∷ 110 ∷ []
    else if c == 13
    then 92 ∷ 114 ∷ []
    else if c == 9
    then 92 ∷ 116 ∷ []
    else if ltb c 32
    then 92 ∷ 117 ∷ 48 ∷ 48 ∷ hex_digit (c / 16) ∷ hex_digit (c % 16) ∷ []
    else c ∷ []

-- `write_json_escaped`
unfoldable pub write_json_escaped : Bytes → Bytes
unfolding json_char
write_json_escaped [] = []
write_json_escaped (c ∷ text) = json_char c ++ write_json_escaped text

-- `level_name`
abbrev pub level_name : LogLevel → Bytes
level_name level_debug = codes "DEBUG"
level_name level_info = codes "INFO"
level_name level_warn = codes "WARN"
level_name level_error = codes "ERROR"

-- `FILE *out`
pub data Stream : Type 0 where
  stdout stderr : Stream

abbrev pub stream_of : LogLevel → Stream
stream_of level = if leb (rank level_warn) (rank level) then stderr else stdout

-- `%-5s`
abbrev pub pad : ℕ → Bytes → Bytes
pad width text = text ++ replicate (width - length text) 32

-- `emit`, with the text of `format_timestamp`.
unfoldable pub emit : Logger → Bytes → LogLevel → Bytes → Bytes → Stream × Bytes
unfolding write_json_escaped
emit logger timestamp level component message = (
  stream_of level,
  elim logger.format [
    | format_json ↦
        codes "{\"time\":\""
        ++ (timestamp
            ++ (codes "\",\"level\":\""
                ++ (level_name level
                    ++ (codes "\",\"component\":\""
                        ++ (write_json_escaped component
                            ++ (codes "\",\"message\":\""
                                ++ (write_json_escaped message ++ (34 ∷ 125 ∷ 10 ∷ []))))))))
    | format_text ↦
        timestamp
        ++ (32
            ∷ (pad 5 (level_name level)
                ++ (32 ∷ 91 ∷ (component ++ (93 ∷ 32 ∷ (message ++ (10 ∷ [])))))))
  ],
)

-- The settings, and `g_initialized`.
pub record Logging : Type 0 where
  pub initialized : Bool
  pub settings : Logger

-- `ensure_initialized`
unfoldable pub ensure_initialized : Option Bytes → Option Bytes → Logging → Logging
unfolding log_init
ensure_initialized level_env format_env l =
    if l.initialized
    then l
    else record { initialized = true; settings = log_init level_env format_env }

-- The size of `message[]`.
abbrev pub message_size : ℕ
message_size = 1024

-- `log_at`, on the text that the format and the arguments stand for; `vsnprintf` cuts it to the
-- buffer. `none` is no line.
unfoldable pub log_at :
    Option Bytes
    → Option Bytes
    → Logging
    → Bytes
    → LogLevel
    → Bytes
    → Bytes
    → Logging × Option (Stream × Bytes)
unfolding ensure_initialized emit
log_at level_env format_env l timestamp level component text =
    let l' = ensure_initialized level_env format_env l in
    (
      l',
      if log_level_enabled l'.settings level
          then some (emit l'.settings timestamp level component (take (message_size - 1) text))
          else none,
    )

-- The four functions that pass their level on.
module _ (level_env format_env : Option Bytes) (l : Logging)
    (timestamp component text : Bytes) where
  unfoldable pub log_debug : Logging × Option (Stream × Bytes)
  unfolding log_at
  log_debug = log_at level_env format_env l timestamp level_debug component text

  unfoldable pub log_info : Logging × Option (Stream × Bytes)
  unfolding log_at
  log_info = log_at level_env format_env l timestamp level_info component text

  unfoldable pub log_warn : Logging × Option (Stream × Bytes)
  unfolding log_at
  log_warn = log_at level_env format_env l timestamp level_warn component text

  unfoldable pub log_error : Logging × Option (Stream × Bytes)
  unfolding log_at
  log_error = log_at level_env format_env l timestamp level_error component text
