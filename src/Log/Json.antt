-- ===== src/Log/Json.antt =====
-- The escaped text against a reader of JSON strings.
use edgar_vpn.Prelude.{
  ℕ, ◌+◌, ◌-◌, ◌*◌, ◌/◌, ◌%◌, ◌<◌, ◌≡◌, refl, ◌∙◌, ap, inl, inr, ◌&&◌, Option, none, some, [], ◌∷◌,
  ◌++◌, Bytes, arith, leb, ltb, ◌==◌, if◌then◌else◌, Bool-cases,
}
use mathlib.Core.Option
use mathlib.Core.List.{append_assoc}
use edgar_vpn.Log.{hex_digit, json_char, write_json_escaped}

-- The reader of RFC 8259, by what it is in: text, an escape, or the last `left` of the four digits
-- of a code, of which `value` was read.
pub data Reading : Type 0 where
  in_text in_escape : Reading
  in_code : ℕ → ℕ → Reading

unfoldable pub hex_value : ℕ → Option ℕ
hex_value c =
    if leb 48 c && leb c 57
    then some (c - 48)
    else if leb 97 c && leb c 102
    then some (c - 87)
    else none

-- The escapes of one character.
unfoldable pub short_escape : ℕ → Option ℕ
short_escape c =
    if c == 34
    then some 34
    else if c == 92
    then some 92
    else if c == 47
    then some 47
    else if c == 98
    then some 8
    else if c == 102
    then some 12
    else if c == 110
    then some 10
    else if c == 114
    then some 13
    else if c == 116
    then some 9
    else none

abbrev pub push : ℕ → Option (Bytes × Bytes) → Option (Bytes × Bytes)
push c = Option.map (λ (read : Bytes × Bytes). (c ∷ read.0, read.1))

-- The string up to its closing quotation mark, and what follows that.
unfoldable pub read_string : Reading → Bytes → Option (Bytes × Bytes)
unfolding hex_value short_escape
read_string state [] = none
read_string in_text (c ∷ s) =
    let escape = read_string in_escape s in
    let rest = read_string in_text s in
    if c == 34
    then some ([], s)
    else if c == 92
    then escape
    else if ltb c 32
    then none
    else push c rest
read_string in_escape (c ∷ s) =
    let code = read_string (in_code 4 0) s in
    let rest = read_string in_text s in
    if c == 117 then code else elim (short_escape c) [ none ↦ none | some d ↦ push d rest ]
read_string (in_code left value) (c ∷ s) = elim (hex_value c) [
  | none ↦ none
  | some d ↦
      let rest = read_string in_text s in
      let more = read_string (in_code (left - 1) (value * 16 + d)) s in
      if left == 1 then push (value * 16 + d) rest else more
]

hex_value-hex_digit : (d : ℕ) → d < 16 → hex_value (hex_digit d) ≡ some d
unfolding hex_value hex_digit
hex_value-hex_digit d small = ground arith

read_code :
    (a b : ℕ) (s : Bytes)
    → a < 16
    → b < 16
    → read_string in_text (92 ∷ 117 ∷ 48 ∷ 48 ∷ hex_digit a ∷ hex_digit b ∷ s)
      ≡ push (a * 16 + b) (read_string in_text s)
unfolding read_string
read_code a b s ha hb =
    let zero_first : 0 + a ≡ a = omega arith in
    rw (hex_value-hex_digit a ha, hex_value-hex_digit b hb)
      (ap (λ k. push (k * 16 + b) (read_string in_text s)) zero_first)

read_char :
    (c : ℕ) (s : Bytes) → read_string in_text (json_char c ++ s) ≡ push c (read_string in_text s)
unfolding read_string json_char short_escape
read_char c s = elim (Bool-cases (c == 34)) [
  | inl quote ↦ let is : c ≡ 34 = ground arith in rw is refl
  | inr n1 ↦ elim (Bool-cases (c == 92)) [
    | inl backslash ↦ let is : c ≡ 92 = ground arith in rw is refl
    | inr n2 ↦ elim (Bool-cases (c == 10)) [
      | inl newline ↦ let is : c ≡ 10 = ground arith in rw is refl
      | inr n3 ↦ elim (Bool-cases (c == 13)) [
        | inl return ↦ let is : c ≡ 13 = ground arith in rw is refl
        | inr n4 ↦ elim (Bool-cases (c == 9)) [
          | inl tab ↦ let is : c ≡ 9 = ground arith in rw is refl
          | inr n5 ↦ elim (Bool-cases (ltb c 32)) [
            | inl control ↦
                let code = read_code (c / 16) (c % 16) s (ground arith) (omega arith) in
                let value : c / 16 * 16 + c % 16 ≡ c = omega arith in
                rw (n1, n2, n3, n4, n5, control)
                  (code ∙ ap (λ d. push d (read_string in_text s)) value)
            | inr plain ↦ rw (n1, n2, n3, n4, n5, plain) (rw (n1, n2, plain) refl)
          ]
        ]
      ]
    ]
  ]
]

-- An escaped text, put between quotation marks, reads back as that text, whatever its characters
-- are and whatever follows: no message can end its string early or write a field of its own.
pub read_string-write_json_escaped :
    (text rest : Bytes)
    → read_string in_text (write_json_escaped text ++ (34 ∷ rest)) ≡ some (text, rest)
unfolding write_json_escaped read_string
read_string-write_json_escaped [] rest = refl
read_string-write_json_escaped (c ∷ text) rest =
    ap (read_string in_text) (append_assoc (json_char c) (write_json_escaped text) (34 ∷ rest))
    ∙ read_char c (write_json_escaped text ++ (34 ∷ rest))
    ∙ ap (push c) (read_string-write_json_escaped text rest)
