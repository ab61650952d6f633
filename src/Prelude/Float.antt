-- ===== src/Prelude/Float.antt =====
-- The program's `float`, as a type with the operations that the program makes: the language's
-- binary64 is not modelled, and NaN is kept out by the order laws.
use Prim.Native.Nat.{ℕ, suc, ◌+◌, ◌-◌, ◌*◌, ◌/◌}
use mathlib.Core.Path.{◌≡◌, refl}
use mathlib.Core.Bool.{Bool, true, false, not}
use mathlib.Core.Option.{Option, none}
use Prim.Native.String.{String}
use native.Mathlib.Omega.{arith}
use helios_home.Prelude.Tests.{leb, ltb, if◌then◌else◌}
use helios_home.Prelude.Int.{ℤ, pos, negsuc, pos_part, neg_part, leb_ℤ}

pub record Float (W : Type 0) : Type 0 where
  -- `float(n)`
  pub of_int : ℤ → W
  pub le : W → W → Bool
  pub neg : W → W
  pub plus : W → W → W
  pub times : W → W → W
  pub over : W → W → W
  -- `10 ** k`
  pub pow10 : ℤ → W
  -- `round(x, n)`, `round(x)` and `int(x)`
  pub round : W → ℕ → W
  pub nearest : W → ℤ
  pub trunc : W → ℤ
  pub is_finite : W → Bool
  -- `struct.unpack("!f", ...)` of the big-endian 32 bits
  pub unpack : ℕ → W
  -- `float(text)`: `none` where it raises `ValueError`
  pub parse : String → Option W

module _ {W : Type 0} ⦃fl : Float W⦄ where
  abbrev pub lt : W → W → Bool
  lt a b = not (fl.le b a)

  abbrev pub of_nat : ℕ → W
  of_nat n = fl.of_int (pos n)

  -- `max(a, b)` and `min(a, b)`: the first argument, unless the second is greater, or less.
  abbrev pub fmax : W → W → W
  fmax a b = if lt a b then b else a

  abbrev pub fmin : W → W → W
  fmin a b = if lt b a then b else a

-- What Python documents of floats that are not NaN.
pub record IsOrdered (W : Type 0) ⦃fl : Float W⦄ : Type 0 where
  pub le_refl : (a : W) → fl.le a a ≡ true
  pub le_trans : (a b c : W) → fl.le a b ≡ true → fl.le b c ≡ true → fl.le a c ≡ true
  pub le_total : (a b : W) → fl.le a b ≡ false → fl.le b a ≡ true
  pub neg_le : (a b : W) → fl.le a b ≡ true → fl.le (fl.neg b) (fl.neg a) ≡ true
  pub neg_zero : fl.neg (fl.of_int (pos 0)) ≡ fl.of_int (pos 0)
  -- whole numbers are rounded already
  pub round_int : (n : ℤ) (k : ℕ) → fl.round (fl.of_int n) k ≡ fl.of_int n
  -- rounding to `n` places keeps the order and leaves a rounded number alone
  pub round_mono : (a b : W) (n : ℕ) → fl.le a b ≡ true → fl.le (fl.round a n) (fl.round b n) ≡ true
  pub round_idem : (a : W) (n : ℕ) → fl.round (fl.round a n) n ≡ fl.round a n

-- Whole numbers of a unit small enough that no rounding is left to do.
abbrev quotient : ℤ → ℤ → ℤ
quotient (pos a) (pos b) = pos (a / b)
quotient (pos a) (negsuc b) = if ltb 0 (a / suc b) then negsuc (a / suc b - 1) else pos 0
quotient (negsuc a) (pos b) = if ltb 0 (suc a / b) then negsuc (suc a / b - 1) else pos 0
quotient (negsuc a) (negsuc b) = pos (suc a / suc b)

abbrev difference : ℕ → ℕ → ℤ
difference a b = if leb b a then pos (a - b) else negsuc (b - a - 1)

instance abbrev pub units : Float ℤ
units = record {
  of_int = λ n. n;
  le = leb_ℤ;
  neg = λ a. difference (neg_part a) (pos_part a);
  plus = λ a b. difference (pos_part a + pos_part b) (neg_part a + neg_part b);
  times = λ a b.
      difference (pos_part a * pos_part b + neg_part a * neg_part b)
        (pos_part a * neg_part b + neg_part a * pos_part b);
  over = quotient;
  pow10 = λ k. pos 1;
  round = λ a n. a;
  nearest = λ a. a;
  trunc = λ a. a;
  is_finite = λ a. true;
  unpack = pos;
  parse = λ s. none;
}

pub units-IsOrdered : IsOrdered ℤ
units-IsOrdered = record {
  le_refl = λ a. ground arith;
  le_trans = λ a b c p q. ground arith;
  le_total = λ a b p. ground arith;
  neg_le = λ a b p. ground arith;
  neg_zero = refl;
  round_int = λ n k. refl;
  round_mono = λ a b n p. p;
  round_idem = λ a n. refl;
}
