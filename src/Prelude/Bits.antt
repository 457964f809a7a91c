-- ===== src/Prelude/Bits.antt =====
-- Laws of `|` and `&` that the sources' shifts and masks need.
use Prim.Native.Nat.{digits, min, max, bit_and, bit_or, bit_and-bitwise, bit_or-bitwise}
use Prim.Native.Nat.{ℕ, zero, suc, ◌+◌, ◌*◌, ◌/◌, ◌%◌, ◌^◌, ◌≤◌, ◌<◌}
use mathlib.Core.Path.{◌≡◌, refl, ap}
use mathlib.Core.Bool.{Bool, true, ◌&&◌}
use native.Mathlib.Omega.{arith}
use native.Mathlib.Nat.{pow-suc}

-- A claim that holds at every number below a bound, by evaluation.
unfoldable pub holds_below : ℕ → (ℕ → Bool) → Bool
holds_below zero test = true
holds_below (suc n) test = test n && holds_below n test

pub holds_below_lem :
    (n : ℕ) (test : ℕ → Bool) → holds_below n test ≡ true → (x : ℕ) → x < n → test x ≡ true
unfolding holds_below
holds_below_lem zero test table x h = absurd (omega arith)
holds_below_lem (suc n) test table x h = ground (arith, holds_below_lem n test (ground arith) x)

-- Any fuel from the first operand upwards gives `digits` the same value.
digits_any_fuel :
    (z : ℕ → ℕ) (f : ℕ → ℕ → ℕ) (a b fuel : ℕ)
    → a ≤ fuel
    → (spare : ℕ) → a ≤ spare
    → digits z f fuel a b ≡ digits z f spare a b
digits_any_fuel z f zero b zero h zero k = refl
digits_any_fuel z f zero b zero h (suc spare) k = refl
digits_any_fuel z f zero b (suc fuel) h zero k = refl
digits_any_fuel z f zero b (suc fuel) h (suc spare) k = refl
digits_any_fuel z f (suc a) b zero h spare k = absurd (omega arith)
digits_any_fuel z f (suc a) b (suc fuel) h zero k = absurd (omega arith)
digits_any_fuel z f (suc a) b (suc fuel) h (suc spare) k =
    rw (digits_any_fuel z f (suc a / 2) (b / 2) fuel (omega arith) spare (omega arith))

-- `|` and `&` by their lowest binary digits.
pub or_lowest : (a b : ℕ) → bit_or a b ≡ bit_or (a / 2) (b / 2) * 2 + max (a % 2) (b % 2)
or_lowest zero b = simp bit_or-bitwise (omega arith)
or_lowest (suc a) b = omega (
  arith,
  bit_or-bitwise (suc a) b,
  bit_or-bitwise (suc a / 2) (b / 2),
  digits_any_fuel (λ y. y) max (suc a / 2) (b / 2) a (omega arith) (suc a / 2) (omega arith),
)

and_lowest : (a b : ℕ) → bit_and a b ≡ bit_and (a / 2) (b / 2) * 2 + min (a % 2) (b % 2)
and_lowest zero b = simp bit_and-bitwise (omega arith)
and_lowest (suc a) b = omega (
  arith,
  bit_and-bitwise (suc a) b,
  bit_and-bitwise (suc a / 2) (b / 2),
  digits_any_fuel (λ y. 0) min (suc a / 2) (b / 2) a (omega arith) (suc a / 2) (omega arith),
)

double_pow : (q k : ℕ) → q * 2 ^ suc k ≡ q * 2 ^ k * 2
double_pow q k = omega (arith, ap (λ (t : ℕ). q * t) (pow-suc 2 k))

-- `low | high << k` adds the two where `low` has `k` bits.
pub or_shifted : (k low high : ℕ) → low < 2 ^ k → bit_or low (high * 2 ^ k) ≡ low + high * 2 ^ k
or_shifted zero low high fits = ground (arith, or_lowest 0 high, bit_or-bitwise 0 (high * 2 ^ 0))
or_shifted (suc k) low high fits = rw (double_pow high k) (
    ground (
      arith,
      or_lowest low (high * 2 ^ k * 2),
      or_shifted k (low / 2) high (omega (arith, pow-suc 2 k)),
    ))

-- `&` works on the low `k` bits and on the rest apart.
pub and_split :
    (k a b x y : ℕ)
    → a < 2 ^ k
    → b < 2 ^ k
    → bit_and (a + x * 2 ^ k) (b + y * 2 ^ k) ≡ bit_and a b + bit_and x y * 2 ^ k
and_split zero a b x y p q = ground (arith, bit_and-bitwise 0 b)
and_split (suc k) a b x y p q =
    rw (double_pow x k, double_pow y k, double_pow (bit_and x y) k)
      (ground (
        arith,
        and_lowest (a + x * 2 ^ k * 2) (b + y * 2 ^ k * 2),
        and_lowest a b,
        and_split k (a / 2) (b / 2) x y (omega (arith, pow-suc 2 k)) (omega (arith, pow-suc 2 k)),
      ))

-- `|` of two numbers of `k` bits has `k` bits.
pub or_below : (k a b : ℕ) → a < 2 ^ k → b < 2 ^ k → bit_or a b < 2 ^ k
or_below zero a b p q =
    let none_left : a ≡ 0 = omega arith in
    let nothing : b ≡ 0 = omega arith in rw (none_left, nothing) (omega arith)
or_below (suc k) a b p q = omega (
  arith,
  or_lowest a b,
  or_below k (a / 2) (b / 2) (omega (arith, pow-suc 2 k)) (omega (arith, pow-suc 2 k)),
  pow-suc 2 k,
)
