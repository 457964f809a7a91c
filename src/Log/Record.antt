-- ===== src/Log/Record.antt =====
-- The lines in JSON format against a reader of them.
use edgar_vpn.Prelude.{
  Bool, false, ℕ, ◌≡◌, refl, sym, ◌∙◌, ap, inl, inr, true, Option, none, some, [], ◌∷◌, ◌++◌, Bytes,
  ◌==◌, if◌then◌else◌, codes, take, Bool-cases, arith,
}
use mathlib.Core.Option
use edgar_vpn.Crypto.{◌>>=◌}
use edgar_vpn.Log.{
  LogLevel, level_debug, level_info, level_warn, level_error, Logger, LogFormat, format_json,
  log_level_enabled, Stream, stdout, stderr, stream_of, level_name, write_json_escaped, json_char,
  emit, log_at,
}
use edgar_vpn.Log.Json.{in_text, read_string, read_string-write_json_escaped}

-- What follows this text, `none` where another text stands there.
unfoldable pub expect : Bytes → Bytes → Option Bytes
expect [] s = some s
expect (c ∷ text) [] = none
expect (c ∷ text) (d ∷ s) = let rest = expect text s in if c == d then rest else none

pub record Entry : Type 0 where
  pub time : Bytes
  pub level : Bytes
  pub component : Bytes
  pub message : Bytes

-- The text up to its closing quotation mark, and what is behind this separator.
unfoldable pub field : Bytes → Bytes → Option (Bytes × Bytes)
unfolding expect read_string
field separator s = do
  (text, rest) ← read_string in_text s
  after ← expect separator rest
  some (text, after)

-- Four strings with these texts before, between and behind them, and nothing more.
unfoldable pub read_strings : (begin sep1 sep2 sep3 end : Bytes) → Bytes → Option Entry
unfolding field
read_strings begin sep1 sep2 sep3 end s = do
  s0 ← expect begin s
  (time, s1) ← field sep1 s0
  (level, s2) ← field sep2 s1
  (component, s3) ← field sep3 s2
  (message, s4) ← field end s3
  elim s4 [
    | [] ↦ some (record { time = time; level = level; component = component; message = message })
    | c ∷ more ↦ none
  ]

-- One line: an object of four strings, in this order, and a newline at the end of the line only.
unfoldable pub read_entry : Bytes → Option Entry
unfolding read_strings
read_entry =
    read_strings (codes "{\"time\":\"") (codes ",\"level\":\"") (codes ",\"component\":\"")
      (codes ",\"message\":\"") (125 ∷ 10 ∷ [])

==_refl : (c : ℕ) → (c == c) ≡ true
==_refl c = ground arith

expect-append : (text rest : Bytes) → expect text (text ++ rest) ≡ some rest
unfolding expect
expect-append [] rest = refl
expect-append (c ∷ text) rest = rw (==_refl c) (expect-append text rest)

-- A field that was written with escapes.
field-written :
    (separator text rest : Bytes)
    → field separator (write_json_escaped text ++ (34 ∷ (separator ++ rest))) ≡ some (text, rest)
unfolding field
field-written separator text rest =
    rw
      (read_string-write_json_escaped text (separator ++ rest), expect-append separator rest, field)
      refl

-- A field that needs no escapes.
field-plain :
    (separator text rest : Bytes)
    → write_json_escaped text ≡ text
    → field separator (text ++ (34 ∷ (separator ++ rest))) ≡ some (text, rest)
field-plain separator text rest plain =
    sym (ap (λ t. field separator (t ++ (34 ∷ (separator ++ rest)))) plain)
    ∙ field-written separator text rest

level_name_is_plain : (level : LogLevel) → write_json_escaped (level_name level) ≡ level_name level
unfolding write_json_escaped json_char
level_name_is_plain level_debug = refl
level_name_is_plain level_info = refl
level_name_is_plain level_warn = refl
level_name_is_plain level_error = refl

read_strings-written :
    (begin sep1 sep2 sep3 end time level component message : Bytes)
    → write_json_escaped time ≡ time
    → write_json_escaped level ≡ level
    → read_strings begin sep1 sep2 sep3 end (
        begin
        ++ (time
            ++ (34
                ∷ (sep1
                    ++ (level
                        ++ (34
                            ∷ (sep2
                                ++ (write_json_escaped component
                                    ++ (34
                                        ∷ (sep3
                                            ++ (write_json_escaped message
                                                ++ (34 ∷ (end ++ [])))))))))))))
      ≡ some (record { time = time; level = level; component = component; message = message })
unfolding read_strings
read_strings-written begin sep1 sep2 sep3 end time level component message time_plain level_plain =
    let s4 = write_json_escaped message ++ (34 ∷ (end ++ [])) in
    let s3 = write_json_escaped component ++ (34 ∷ (sep3 ++ s4)) in
    let s2 = level ++ (34 ∷ (sep2 ++ s3)) in
    let s1 = time ++ (34 ∷ (sep1 ++ s2)) in
    rw
      (
        expect-append begin s1,
        field-plain sep1 time s2 time_plain,
        field-plain sep2 level s3 level_plain,
        field-written sep3 component s4,
        field-written end message [],
        read_strings,
      )
      refl

read_entry-emit :
    (least level : LogLevel) (timestamp component message : Bytes)
    → write_json_escaped timestamp ≡ timestamp
    → read_entry
        (emit (record { level = least; format = format_json }) timestamp level component message).1
      ≡ some (record {
        time = timestamp;
        level = level_name level;
        component = component;
        message = message;
      })
unfolding read_entry emit
read_entry-emit least level timestamp component message plain =
    read_strings-written (codes "{\"time\":\"") (codes ",\"level\":\"") (codes ",\"component\":\"")
      (codes ",\"message\":\"") (125 ∷ 10 ∷ []) timestamp (level_name level) component message plain
      (level_name_is_plain level)

-- A line as its reader takes it.
abbrev pub understood : Stream × Bytes → Stream × Option Entry
understood (stream, line) = (stream, read_entry line)

-- The line that `log_at` writes, by the code's own test of the level and choice of the stream.
pub log_at-read_line :
    (level_env format_env : Option Bytes) (least level : LogLevel)
    (timestamp component text : Bytes)
    → write_json_escaped timestamp ≡ timestamp
    → let logger : Logger = record { level = least; format = format_json } in
      Option.map understood
        (log_at level_env format_env
          (record { initialized = true; settings = logger })
          timestamp
          level
          component
          text).1
      ≡ (if log_level_enabled logger level
          then some (
            stream_of level,
            some (record {
              time = timestamp;
              level = level_name level;
              component = component;
              message = take 1023 text;
            }),
          )
          else none)
unfolding log_at
log_at-read_line level_env format_env least level timestamp component text plain =
    let logger : Logger = record { level = least; format = format_json } in
    elim (Bool-cases (log_level_enabled logger level)) [
      | inr hidden ↦ rw (hidden, log_at) refl
      | inl shown ↦
          rw (shown, log_at)
            (ap (λ e. some (stream_of level, e))
              (read_entry-emit least level timestamp component (take 1023 text) plain))
    ]

-- The levels, from their description: which are written at a least level, where, and by which name.
abbrev pub is_logged : (least level : LogLevel) → Bool
is_logged level_debug level = true
is_logged level_info level_debug = false
is_logged level_info level_info = true
is_logged level_info level_warn = true
is_logged level_info level_error = true
is_logged level_warn level_debug = false
is_logged level_warn level_info = false
is_logged level_warn level_warn = true
is_logged level_warn level_error = true
is_logged level_error level_debug = false
is_logged level_error level_info = false
is_logged level_error level_warn = false
is_logged level_error level_error = true

abbrev pub place_and_name : LogLevel → Stream × Bytes
place_and_name level_debug = (stdout, codes "DEBUG")
place_and_name level_info = (stdout, codes "INFO")
place_and_name level_warn = (stderr, codes "WARN")
place_and_name level_error = (stderr, codes "ERROR")

log_level_enabled-is_logged :
    (least level : LogLevel) (format : LogFormat)
    → log_level_enabled (record { level = least; format = format }) level ≡ is_logged least level
log_level_enabled-is_logged level_debug level_debug format = refl
log_level_enabled-is_logged level_debug level_info format = refl
log_level_enabled-is_logged level_debug level_warn format = refl
log_level_enabled-is_logged level_debug level_error format = refl
log_level_enabled-is_logged level_info level_debug format = refl
log_level_enabled-is_logged level_info level_info format = refl
log_level_enabled-is_logged level_info level_warn format = refl
log_level_enabled-is_logged level_info level_error format = refl
log_level_enabled-is_logged level_warn level_debug format = refl
log_level_enabled-is_logged level_warn level_info format = refl
log_level_enabled-is_logged level_warn level_warn format = refl
log_level_enabled-is_logged level_warn level_error format = refl
log_level_enabled-is_logged level_error level_debug format = refl
log_level_enabled-is_logged level_error level_info format = refl
log_level_enabled-is_logged level_error level_warn format = refl
log_level_enabled-is_logged level_error level_error format = refl

stream_and_name :
    (level : LogLevel)
    → (stream_of level ≡ (place_and_name level).0) × (level_name level ≡ (place_and_name level).1)
stream_and_name level_debug = (refl, refl)
stream_and_name level_info = (refl, refl)
stream_and_name level_warn = (refl, refl)
stream_and_name level_error = (refl, refl)

-- In JSON format, of the levels debug, info, warn and error, in this order, a message whose level
-- is below the least one that is written gives no line. Any other gives one line, on stderr for
-- warnings and errors and else on stdout, and a reader of such lines gets back from it the time,
-- the name of the level, the component and the first 1023 bytes of the message, whatever
-- characters stand in them, where the text of the time needs no escapes.
pub log_at-read_entry :
    (level_env format_env : Option Bytes) (least level : LogLevel)
    (timestamp component text : Bytes)
    → write_json_escaped timestamp ≡ timestamp
    → Option.map understood
        (log_at level_env format_env
          (record { initialized = true; settings = record { level = least; format = format_json } })
          timestamp
          level
          component
          text).1
      ≡ (if is_logged least level
          then some (
            (place_and_name level).0,
            some (record {
              time = timestamp;
              level = (place_and_name level).1;
              component = component;
              message = take 1023 text;
            }),
          )
          else none)
log_at-read_entry level_env format_env least level timestamp component text plain =
    let (stream, name) = stream_and_name level in
    log_at-read_line level_env format_env least level timestamp component text plain
    ∙ rw (log_level_enabled-is_logged least level format_json, stream, name) refl
