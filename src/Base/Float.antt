-- ===== src/Base/Float.antt =====
-- float64 and package math. A float64 value is kept as its bit pattern, a number, and the
-- operations on it are a parameter: the language's floating point is not computed with here.
use Prim.Native.Nat.{ℕ}
use mathlib.Core.Bool.{Bool}
use flood_now_backend.Base.Int.{ℤ}

pub record Float64 : Type 0 where
  pub of_int : ℤ → ℕ
  pub lt : ℕ → ℕ → Bool
  pub eq : ℕ → ℕ → Bool
  pub add : ℕ → ℕ → ℕ
  pub sub : ℕ → ℕ → ℕ
  pub mul : ℕ → ℕ → ℕ
  pub div : ℕ → ℕ → ℕ
  pub pi : ℕ
  pub sin : ℕ → ℕ
  pub cos : ℕ → ℕ
  pub asin : ℕ → ℕ
  pub sqrt : ℕ → ℕ
  pub hypot : ℕ → ℕ → ℕ
  pub min : ℕ → ℕ → ℕ
  pub max : ℕ → ℕ → ℕ
  pub inf : ℕ
