-- ===== src/Config/Text/Lines.antt =====
-- Lines as `config_load` of src/config.c reads them: `fgets` takes them whole where they fit its
-- buffer, and `trim` cuts off the newline.
use edgar_vpn.Prelude.{
  ℕ, ◌-◌, ◌≤◌, ◌<◌, ◌≡◌, refl, sym, ◌∙◌, ap, false, [], ◌∷◌, ◌++◌, Bytes, length, Graphic, leb,
  ◌==◌, arith,
}
use mathlib.Core.List.{append_assoc}
use edgar_vpn.Config.Text.{is_space, strip_end, trim, c_string, fgets_parts}

-- No control characters.
abbrev pub Clean : Bytes → Type 0
Clean [] = Unit
Clean (c ∷ s) = (32 ≤ c) × Clean s

pub Graphic-Clean : (s : Bytes) → Graphic s → Clean s
Graphic-Clean [] v = tt
Graphic-Clean (c ∷ s) v = (omega arith, Graphic-Clean s v.1)

pub Clean-append : (s t : Bytes) → Clean s → Clean t → Clean (s ++ t)
Clean-append [] t v w = w
Clean-append (c ∷ s) t v w = (v.0, Clean-append s t v.1 w)

-- A line that fits the buffer is read in one part.
pub fgets_parts_line :
    (size room : ℕ) (taken line rest : Bytes)
    → Clean line
    → length line < room
    → fgets_parts size room taken (line ++ (10 ∷ rest))
      ≡ (taken ++ (line ++ (10 ∷ []))) ∷ fgets_parts size (size - 1) [] rest
unfolding fgets_parts
fgets_parts_line size room taken [] rest v fits = refl
fgets_parts_line size room taken (c ∷ line) rest v fits =
    let no_end : (c == 10) ≡ false = ground arith in
    let space_left : leb room 1 ≡ false = ground arith in
    rw (no_end, space_left)
      (fgets_parts_line size (room - 1) (taken ++ (c ∷ [])) line rest v.1 (omega arith)
        ∙ ap (λ t. t ∷ fgets_parts size (size - 1) [] rest)
            (append_assoc taken (c ∷ []) (line ++ (10 ∷ []))))

c_string_line : (line : Bytes) → Clean line → c_string (line ++ (10 ∷ [])) ≡ line ++ (10 ∷ [])
unfolding c_string
c_string_line [] v = refl
c_string_line (c ∷ line) v =
    let no_zero : (c == 0) ≡ false = ground arith in
    rw no_zero (ap (λ t. c ∷ t) (c_string_line line v.1))

pub strip_end-append :
    (p s : Bytes) (d : ℕ) (t : Bytes) → strip_end s ≡ d ∷ t → strip_end (p ++ s) ≡ p ++ (d ∷ t)
unfolding strip_end
strip_end-append [] s d t e = e
strip_end-append (c ∷ []) s d t e = rw e refl
strip_end-append (c ∷ x ∷ p) s d t e = rw (strip_end-append (x ∷ p) s d t e) refl

strip_end-Graphic : (d : ℕ) (t : Bytes) → Graphic (d ∷ t) → strip_end (d ∷ (t ++ (10 ∷ []))) ≡ d ∷ t
unfolding strip_end
strip_end-Graphic d [] v = ground arith
strip_end-Graphic d (e ∷ t) v = rw (strip_end-Graphic e t v.1) refl

pub strip_end_itself : (d : ℕ) (t : Bytes) → Graphic (d ∷ t) → strip_end (d ∷ t) ≡ d ∷ t
unfolding strip_end
strip_end_itself d [] v = ground arith
strip_end_itself d (e ∷ t) v = rw (strip_end_itself e t v.1) refl

pub trim-Graphic : (s : Bytes) → Graphic s → trim (32 ∷ s) ≡ s
unfolding trim
trim-Graphic [] v = refl
trim-Graphic (d ∷ s) v =
    let shown : is_space d ≡ false = ground arith in rw (shown, trim) (strip_end_itself d s v)

-- The last line of a key, once `config_load` has cut off its newline.
pub trim_line :
    (c : ℕ) (name : Bytes) (d : ℕ) (t : Bytes)
    → is_space c ≡ false
    → Graphic (d ∷ t)
    → trim ((c ∷ name) ++ ((d ∷ t) ++ (10 ∷ []))) ≡ (c ∷ name) ++ (d ∷ t)
unfolding trim
trim_line c name d t shown v =
    rw (shown, trim)
      (strip_end-append (c ∷ name) (d ∷ (t ++ (10 ∷ []))) d t (strip_end-Graphic d t v))

-- A printed line as `config_load` takes it: one part, which comes to the text without its newline.
module _ (c : ℕ) (name : Bytes) where
  pub one_part :
      (text rest : Bytes)
      → Clean (c ∷ name)
      → Graphic text
      → length ((c ∷ name) ++ text) < 511
      → fgets_parts 512 511 [] (((c ∷ name) ++ (text ++ (10 ∷ []))) ++ rest)
        ≡ ((c ∷ name) ++ (text ++ (10 ∷ []))) ∷ fgets_parts 512 511 [] rest
  one_part text rest clean graphic fits =
      let line = (c ∷ name) ++ text in
      let shape : ((c ∷ name) ++ (text ++ (10 ∷ []))) ≡ line ++ (10 ∷ []) =
        sym (append_assoc (c ∷ name) text (10 ∷ [])) in
      ap (λ w. fgets_parts 512 511 [] (w ++ rest)) shape
      ∙ ap (fgets_parts 512 511 []) (append_assoc line (10 ∷ []) rest)
      ∙ fgets_parts_line 512 511 [] line rest
          (Clean-append (c ∷ name) text clean (Graphic-Clean text graphic)) fits
      ∙ ap (λ w. w ∷ fgets_parts 512 511 [] rest) (sym shape)

  pub as_trimmed :
      (d : ℕ) (t : Bytes)
      → Clean (c ∷ name)
      → is_space c ≡ false
      → Graphic (d ∷ t)
      → trim (c_string ((c ∷ name) ++ ((d ∷ t) ++ (10 ∷ [])))) ≡ (c ∷ name) ++ (d ∷ t)
  as_trimmed d t clean shown graphic =
      let line = (c ∷ name) ++ (d ∷ t) in
      let shape : ((c ∷ name) ++ ((d ∷ t) ++ (10 ∷ []))) ≡ line ++ (10 ∷ []) =
        sym (append_assoc (c ∷ name) (d ∷ t) (10 ∷ [])) in
      ap (λ w. trim (c_string w)) shape
      ∙ ap trim (
          c_string_line line
            (Clean-append (c ∷ name) (d ∷ t) clean (Graphic-Clean (d ∷ t) graphic)))
      ∙ ap trim (sym shape)
      ∙ trim_line c name d t shown graphic
