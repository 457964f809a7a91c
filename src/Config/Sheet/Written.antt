-- ===== src/Config/Sheet/Written.antt =====
-- The values that a sheet is written with.
use edgar_vpn.Prelude.{
  ℕ, ◌+◌, ◌≤◌, ◌<◌, ◌≡◌, refl, sym, ◌∙◌, ap, false, some, [], ◌∷◌, ◌++◌, Bytes, length,
  length-append, Graphic, arith,
}
use edgar_vpn.Sodium.{Sodium, KeyTextLaws, HasSize}
use edgar_vpn.Crypto.{decode_base64, encode_base64}
use edgar_vpn.Config.Text.{is_space}
use edgar_vpn.Config.Text.Decimal.{decimal, decimal-Digits, decimal_size, Digits-Graphic}
use edgar_vpn.Config.Text.Lines.{Clean}
use edgar_vpn.Config.Sheet.{line}
use edgar_vpn.Config.Sheet.Lines.{IsLine}

Graphic-append : (s t : Bytes) → Graphic s → Graphic t → Graphic (s ++ t)
Graphic-append [] t v w = w
Graphic-append (c ∷ s) t v w = (v.0, Graphic-append s t v.1 w)

-- A name and a value make a line.
pub line-IsLine :
    (start : ℕ) (middle value : Bytes)
    → Clean (start ∷ middle)
    → is_space start ≡ false
    → length middle < 20
    → Graphic value
    → 0 < length value
    → length value < 480
    → IsLine (line start middle value)
line-IsLine start middle value clean shown short graphic filled fits = record {
  clean = clean;
  shown = shown;
  graphic = graphic;
  filled = filled;
  fits = omega (arith, length-append middle value);
}

-- A value, a mark and a number make a value.
pub marked-Graphic :
    (mark n : ℕ) (s : Bytes) → 33 ≤ mark → Graphic s → Graphic (s ++ (mark ∷ decimal n))
marked-Graphic mark n s shown v =
    Graphic-append s (mark ∷ decimal n) v (shown, Digits-Graphic (decimal n) (decimal-Digits n))

pub marked_size :
    (mark n : ℕ) (s : Bytes)
    → (0 < length (s ++ (mark ∷ decimal n))) × (length (s ++ (mark ∷ decimal n)) ≤ length s + 21)
marked_size mark n s =
    let size = length-append s (mark ∷ decimal n) in
    let few = decimal_size n in (omega arith, omega arith)

pub decode-encode :
    (lib : Sodium) (laws : KeyTextLaws lib) (key : Bytes)
    → HasSize 32 key
    → decode_base64 lib (encode_base64 lib key) 32 ≡ some key
unfolding decode_base64 encode_base64
decode-encode lib laws key (bytes, size) =
    let decoded =
      ap (lib.base642bin (lib.bin2base64 key)) (sym size) ∙ laws.base642bin-bin2base64 key bytes in
    rw (decoded, size) refl

pub encoded-IsLine :
    (lib : Sodium) (laws : KeyTextLaws lib) (key : Bytes) (start : ℕ) (middle : Bytes)
    → HasSize 32 key
    → Clean (start ∷ middle)
    → is_space start ≡ false
    → length middle < 20
    → IsLine (line start middle (encode_base64 lib key))
unfolding encode_base64
encoded-IsLine lib laws key start middle (bytes, size) clean shown short =
    let long = laws.bin2base64_size key size in
    line-IsLine start middle (lib.bin2base64 key) clean shown short
      (laws.bin2base64-Graphic key bytes) (omega arith) (omega arith)
