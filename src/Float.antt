-- ===== src/Float.antt =====
-- Go's float64, of which the model computes nothing: a value is its 64-bit pattern, and the
-- operations that the source uses are a parameter.
use pumpkin_pie.Prelude.{ℕ, ◌≡◌, Bool, true, false}
use pumpkin_pie.Store.Tables.{Float64}

pub record FloatOps : Type 0 where
  -- `<`, false where one side is not a number
  pub lt : Float64 → Float64 → Bool
  pub add : Float64 → Float64 → Float64
  pub mul : Float64 → Float64 → Float64
  pub div : Float64 → Float64 → Float64
  -- the conversion of an unsigned integer
  pub of_uint : ℕ → Float64
  -- the constant n / 10
  pub tenths : ℕ → Float64
  -- math.Inf(1)
  pub infinity : Float64

-- What IEEE 754 says of the order, infinities and NaNs included.
pub record IsStrict (ops : FloatOps) : Type 0 where
  pub irrefl : (a : Float64) → ops.lt a a ≡ false
  pub trans : (a b c : Float64) → ops.lt a b ≡ true → ops.lt b c ≡ true → ops.lt a c ≡ true
