-- ===== src/Builtins.antt =====
-- What the program takes from Python's texts and numbers without implementing it: the conversions,
-- and the arithmetic that rounds.
use ooptdd.Base.{List, ℕ, ℤ, String, Result, Option}
use ooptdd.Value.{Float, Number, Value}

pub record Builtins : Type 0 where
  -- `str(v)`, as a format string calls it
  pub show : Value → String
  -- The numerator and the denominator of `Fraction(s)`; nothing where it raises
  pub parse_fraction : String → Option (ℤ × ℕ)
  -- `s.strip().lower()`
  pub lowered : String → String
  -- `float(v)`
  pub to_float : Value → Result Float
  -- `x * n`
  pub times : Number → ℕ → Number
  -- `round(us / 1_000_000, 6)`
  pub seconds : ℤ → Float
  -- `a / b` of two counts
  pub divide : ℕ → ℕ → Float
  -- `a / b` of two numbers
  pub quotient : Number → Number → Float
  -- `round(x, 4)`
  pub rounded : Number → Number
  -- `sum(xs)`, which may compensate for the rounding of floats
  pub total : List Number → Number
  -- `a + b`, `a - b`, `a * b` and `abs(a)` of numbers
  pub plus : Number → Number → Number
  pub minus : Number → Number → Number
  pub product : Number → Number → Number
  pub magnitude : Number → Number
