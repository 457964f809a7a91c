-- ===== src/Config/Text/Decimal.antt =====
-- A number in decimal, as printf writes it with `%llu`, and `strtol` on it.
use edgar_vpn.Prelude.{
  ℕ, zero, suc, ◌+◌, ◌-◌, ◌*◌, ◌/◌, ◌%◌, ◌^◌, ◌≤◌, ◌<◌, ◌≡◌, refl, sym, ◌∙◌, ap, inl, inr, true,
  false, some, [], ◌∷◌, Bytes, arith, ltb, ◌==◌, if◌then◌else◌, length, Bool-cases, Graphic,
}
use mathlib.Core.Path.{subst}
use native.Mathlib.Nat.{pow-suc}
use edgar_vpn.Config.Text.{
  is_space, is_digit, skip_spaces, digits, unsigned_strtol, after_sign, strtol,
}

-- The digits of `n`, of which there are at most `fuel`, in front of `rest`.
unfoldable pub digits_before : ℕ → ℕ → Bytes → Bytes
digits_before zero n rest = rest
digits_before (suc fuel) n rest =
    let last = (48 + n % 10) ∷ rest in
    let more = digits_before fuel (n / 10) last in if ltb n 10 then last else more

-- A `uint64_t` has at most 20 digits.
unfoldable pub decimal : ℕ → Bytes
decimal n = digits_before 20 n []

-- Digits only.
abbrev pub Digits : Bytes → Type 0
Digits [] = Unit
Digits (c ∷ s) = (48 ≤ c) × (c ≤ 57) × Digits s

digits_before-Digits :
    (fuel n : ℕ) (rest : Bytes) → Digits rest → Digits (digits_before fuel n rest)
unfolding digits_before
digits_before-Digits zero n rest v = v
digits_before-Digits (suc fuel) n rest v =
    let last : Digits ((48 + n % 10) ∷ rest) = (omega arith, omega arith, v) in
    elim (Bool-cases (ltb n 10)) [
      | inl small ↦ rw (small, digits_before) last
      | inr large ↦ rw (large, digits_before) (digits_before-Digits fuel (n / 10) _ last)
    ]

digits_before_size :
    (fuel n : ℕ) (rest : Bytes) → length (digits_before fuel n rest) ≤ fuel + length rest
unfolding digits_before
digits_before_size zero n rest = omega arith
digits_before_size (suc fuel) n rest =
    let more = digits_before_size fuel (n / 10) ((48 + n % 10) ∷ rest) in ground arith

digits_before_some :
    (fuel n : ℕ) (rest : Bytes) → 0 < fuel → length rest < length (digits_before fuel n rest)
unfolding digits_before
digits_before_some zero n rest h = absurd (omega arith)
digits_before_some (suc zero) n rest h = ground arith
digits_before_some (suc (suc fuel)) n rest h =
    let more = digits_before_some (suc fuel) (n / 10) ((48 + n % 10) ∷ rest) (omega arith) in
    elim (Bool-cases (ltb n 10)) [
      | inl small ↦ rw (small, digits_before) (omega arith)
      | inr large ↦ rw (large, digits_before) (omega arith)
    ]

-- The digits are read back to the number.
digits-digits_before :
    (fuel n : ℕ) (rest : Bytes)
    → n < 10 ^ fuel
    → digits 0 (digits_before fuel n rest) ≡ digits n rest
unfolding digits digits_before
digits-digits_before zero n rest small = let nothing : n ≡ 0 = omega arith in rw nothing refl
digits-digits_before (suc fuel) n rest small =
    let shown : is_digit (48 + n % 10) ≡ true = ground arith in
    elim (Bool-cases (ltb n 10)) [
      | inl one ↦
          let same : 0 * 10 + (48 + n % 10 - 48) ≡ n = ground arith in
          rw (one, digits_before, shown, digits) (ap (λ k. digits k rest) same)
      | inr more ↦
          let same : n / 10 * 10 + (48 + n % 10 - 48) ≡ n = omega arith in
          let next =
            digits-digits_before fuel (n / 10) ((48 + n % 10) ∷ rest)
              (omega (arith, pow-suc 10 fuel)) in
          rw (more, digits_before) (next ∙ rw (shown, digits) (ap (λ k. digits k rest) same))
    ]

digits-decimal : (n : ℕ) → n < 10 ^ 20 → digits 0 (decimal n) ≡ (n, [])
unfolding decimal digits
digits-decimal n small = digits-digits_before 20 n [] small

pub decimal-Digits : (n : ℕ) → Digits (decimal n)
unfolding decimal
decimal-Digits n = digits_before-Digits 20 n [] tt

pub decimal_size : (n : ℕ) → length (decimal n) ≤ 20
unfolding decimal
decimal_size n = digits_before_size 20 n []

first_byte : (s : Bytes) → 0 < length s → (d : ℕ) × (t : Bytes) × (s ≡ d ∷ t)
first_byte [] h = absurd (omega arith)
first_byte (d ∷ t) h = (d, t, refl)

pub decimal_first : (n : ℕ) → (d : ℕ) × (t : Bytes) × (decimal n ≡ d ∷ t)
unfolding decimal
decimal_first n = first_byte (digits_before 20 n []) (digits_before_some 20 n [] (omega arith))

pub Digits-Graphic : (s : Bytes) → Digits s → Graphic s
Digits-Graphic [] v = tt
Digits-Graphic (c ∷ s) v = (omega arith, Digits-Graphic s v.2)

first_digit :
    (d n : ℕ) (t : Bytes)
    → is_digit d ≡ true
    → digits 0 (d ∷ t) ≡ (n, [])
    → digits (0 * 10 + (d - 48)) t ≡ (n, [])
unfolding digits
first_digit d n t shown e = rw shown at e

-- `strtol` reads the whole text of a number that is a `long`.
pub strtol-decimal :
    (n : ℕ) → n < 2 ^ 63 → strtol (decimal n) ≡ some (record { negative = false; amount = n }, [])
unfolding strtol skip_spaces after_sign unsigned_strtol
strtol-decimal n small =
    let (d, t, is) = decimal_first n in
    let digit : Digits (d ∷ t) = subst Digits is (decimal-Digits n) in
    let space : is_space d ≡ false = ground arith in
    let minus : (d == 45) ≡ false = ground arith in
    let plus : (d == 43) ≡ false = ground arith in
    let shown : is_digit d ≡ true = ground arith in
    let read = first_digit d n t shown (ap (digits 0) (sym is) ∙ digits-decimal n (omega arith)) in
    let fits : ltb (2 ^ 63 - 1) n ≡ false = ground arith in
    rw (is, space, strtol, skip_spaces, minus, plus, shown, read, fits) refl
