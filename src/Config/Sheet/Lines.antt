-- ===== src/Config/Sheet/Lines.antt =====
-- The lines of a sheet, one by one, as `config_load` of src/config.c takes them.
use edgar_vpn.Prelude.{
  ◌<◌, ◌≡◌, refl, false, some, List, [], ◌∷◌, ◌++◌, Bytes, length, Graphic, arith,
}
use edgar_vpn.Sodium.{Sodium}
use edgar_vpn.Config.Text.{is_space, trim, c_string, fgets_parts}
use edgar_vpn.Config.Text.Lines.{Clean, one_part, as_trimmed}
use edgar_vpn.Config.Values.{Inet}
use edgar_vpn.Config.Load.{Loader, trimmed_line, load_lines}
use edgar_vpn.Config.Sheet.{Line, text, print}

-- A line that `fgets` and `trim` leave as it is.
pub record IsLine (l : Line) : Type 0 where
  pub clean : Clean (l.start ∷ l.middle)
  pub shown : is_space l.start ≡ false
  pub graphic : Graphic l.value
  pub filled : 0 < length l.value
  pub fits : length (text l) < 511

-- What is left of the file after its first lines.
abbrev pub parts : List Line → List Bytes
parts lines = fgets_parts 512 511 [] (print lines)

module _ (lib : Sodium) (inet : Inet) where
  trimmed :
      (l : Line)
      → IsLine l
      → trim (c_string ((l.start ∷ l.middle) ++ (l.value ++ (10 ∷ [])))) ≡ text l
  trimmed l v = filled l.value v.graphic v.filled
    where
      filled :
          (value : Bytes)
          → Graphic value
          → 0 < length value
          → trim (c_string ((l.start ∷ l.middle) ++ (value ++ (10 ∷ []))))
            ≡ (l.start ∷ l.middle) ++ value
      filled [] g h = absurd (omega arith)
      filled (d ∷ t) g h = as_trimmed l.start l.middle d t v.clean v.shown g

  -- One line is read, and the loading goes on with the next.
  pub reads :
      (ln : Line) (lines : List Line) (l : Loader) {l' : Loader}
      → IsLine ln
      → trimmed_line lib inet (text ln) l ≡ some l'
      → load_lines lib inet (parts (ln ∷ lines)) l ≡ load_lines lib inet (parts lines) l'
  unfolding load_lines print
  reads ln lines l v step =
      rw
        (
          one_part ln.start ln.middle ln.value (print lines) v.clean v.graphic v.fits,
          load_lines,
          trimmed ln v,
          step,
        )
        refl
