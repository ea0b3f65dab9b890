-- ===== src/Prelude/Floats.antt =====
-- Floating-point numbers: a type with the operations that the program applies to `f32` and `f64`
-- values. No law is assumed of them.
use Prim.Native.Nat.{ℕ}
use Prim.Native.String.{String}
use mathlib.Core.Bool.{Bool}

pub record Floats (F : Type 0) : Type 0 where
  pub of_nat : ℕ → F
  pub add : F → F → F
  pub mul : F → F → F
  pub div : F → F → F
  -- `<` and `>=`, both false on NaN
  pub lt : F → F → Bool
  pub ge : F → F → Bool
  -- `{:.2}`
  pub cents : F → String
