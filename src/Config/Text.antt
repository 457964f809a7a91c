-- ===== src/Config/Text.antt =====
-- The functions of the C library that src/config.c reads text with, on strings without their
-- terminating zero and in the C locale, and `trim`.
pub mod Decimal
pub mod Lines
use edgar_vpn.Prelude.{
  ℕ, ◌+◌, ◌-◌, ◌*◌, ◌^◌, Bool, true, false, ◌&&◌, ◌||◌, Option, none, some, List, [], ◌∷◌, ◌++◌,
  Bytes, leb, ltb, ◌==◌, if◌then◌else◌,
}
use mathlib.Core.Option

abbrev pub is_space : ℕ → Bool
is_space c = c == 32 || (leb 9 c && leb c 13)

abbrev is_digit : ℕ → Bool
is_digit c = leb 48 c && leb c 57

abbrev to_lower : ℕ → ℕ
to_lower c = if leb 65 c && leb c 90 then c + 32 else c

unfoldable pub skip_spaces : Bytes → Bytes
skip_spaces [] = []
skip_spaces (c ∷ s) = let rest = skip_spaces s in if is_space c then rest else c ∷ s

-- The white space at the end is cut off.
unfoldable pub strip_end : Bytes → Bytes
strip_end [] = []
strip_end (c ∷ s) = elim (strip_end s) [
  | [] ↦ if is_space c then [] else c ∷ []
  | d ∷ rest ↦ c ∷ d ∷ rest
]

-- `trim`: after the first loop the string is empty or begins with what the second loop keeps.
unfoldable pub trim : Bytes → Bytes
unfolding skip_spaces strip_end
trim s = strip_end (skip_spaces s)

-- `strcasecmp(a, b) == 0`
unfoldable pub same_word : Bytes → Bytes → Bool
same_word [] [] = true
same_word [] (d ∷ b) = false
same_word (c ∷ a) [] = false
same_word (c ∷ a) (d ∷ b) = to_lower c == to_lower d && same_word a b

-- The parts before and behind what `strchr` finds, `none` for NULL.
unfoldable pub split_first : ℕ → Bytes → Option (Bytes × Bytes)
split_first c [] = none
split_first c (d ∷ s) =
    let rest = Option.map (λ (parts : Bytes × Bytes). (d ∷ parts.0, parts.1)) (split_first c s) in
    if d == c then some ([], s) else rest

-- The same for `strrchr`.
unfoldable pub split_last : ℕ → Bytes → Option (Bytes × Bytes)
split_last c [] = none
split_last c (d ∷ s) = elim (split_last c s) [
  | some parts ↦ some (d ∷ parts.0, parts.1)
  | none ↦ if d == c then some ([], s) else none
]

-- The digits at the beginning, read onto `value`, and what follows them.
unfoldable pub digits : ℕ → Bytes → ℕ × Bytes
digits value [] = (value, [])
digits value (c ∷ s) =
    let rest = digits (value * 10 + (c - 48)) s in if is_digit c then rest else (value, c ∷ s)

-- A `long` as its sign and its amount.
pub record Long : Type 0 where
  pub negative : Bool
  pub amount : ℕ

-- `strtol` behind the sign; a number out of range becomes the closest `long`.
unfoldable pub unsigned_strtol : Bool → Bytes → Option (Long × Bytes)
unfolding digits
unsigned_strtol negative [] = none
unsigned_strtol negative (c ∷ s) =
    let (value, rest) = digits 0 (c ∷ s) in
    let bound = if negative then 2 ^ 63 else 2 ^ 63 - 1 in
    if is_digit c
    then some
        (record { negative = negative; amount = if ltb bound value then bound else value }, rest)
    else none

unfoldable pub after_sign : Bytes → Option (Long × Bytes)
unfolding unsigned_strtol
after_sign [] = none
after_sign (c ∷ s) =
    if c == 45
    then unsigned_strtol true s
    else if c == 43
    then unsigned_strtol false s
    else unsigned_strtol false (c ∷ s)

-- `strtol(s, &end, 10)`: the number and the string at `end`, `none` where `end == s`.
unfoldable pub strtol : Bytes → Option (Long × Bytes)
unfolding skip_spaces after_sign
strtol s = after_sign (skip_spaces s)

-- `fgets` into a buffer of `size` bytes, again and again: lines with their newlines, in parts
-- where they are too long. `room` is what is left for this part, and `taken` what is in it.
unfoldable pub fgets_parts : ℕ → ℕ → Bytes → Bytes → List Bytes
fgets_parts size room taken [] = elim taken [ [] ↦ [] | c ∷ s ↦ (c ∷ s) ∷ [] ]
fgets_parts size room taken (c ∷ s) =
    let ended = fgets_parts size (size - 1) [] s in
    let longer = fgets_parts size (room - 1) (taken ++ (c ∷ [])) s in
    if c == 10 || leb room 1 then (taken ++ (c ∷ [])) ∷ ended else longer

-- The string that a buffer holds: up to the first zero.
unfoldable pub c_string : Bytes → Bytes
c_string [] = []
c_string (c ∷ s) = let rest = c_string s in if c == 0 then [] else c ∷ rest
