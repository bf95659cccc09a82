-- ===== src/Decimal.antt =====
-- Python's `Decimal` where the program only compares: a finite value is the number of its smallest
-- units, and the unit is fine enough for every value that is compared. Comparisons of finite
-- decimals are exact in Python too.
use prep_watchdeck.Prelude.{ℕ, Bool, true, false, ltb, ◌==◌}

pub data Decimal : Type 0 where
  -- n units
  plus : ℕ → Decimal
  -- -(n + 1) units
  minus : ℕ → Decimal
  infinity : Decimal
  minus_infinity : Decimal
  nan : Decimal

abbrev pub one_unit : ℕ
one_unit = 1000000000000000000

abbrev pub is_finite : Decimal → Bool
is_finite (plus n) = true
is_finite (minus n) = true
is_finite _ = false

-- `0 < d` of a finite decimal
abbrev pub is_positive : Decimal → Bool
is_positive (plus n) = ltb 0 n
is_positive _ = false

-- `d < 0` of a finite decimal
abbrev pub is_negative : Decimal → Bool
is_negative (minus n) = true
is_negative _ = false

-- `a < b` of finite decimals
abbrev pub dec_ltb : Decimal → Decimal → Bool
dec_ltb (plus a) (plus b) = ltb a b
dec_ltb (plus a) (minus b) = false
dec_ltb (minus a) (plus b) = true
dec_ltb (minus a) (minus b) = ltb b a
dec_ltb _ _ = false

-- `d == Decimal("1")`
abbrev pub is_one : Decimal → Bool
is_one (plus n) = n == one_unit
is_one _ = false
