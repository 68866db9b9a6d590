-- ===== src/Floats.antt =====
-- `double`, by the operations that the program uses. There are no floating-point numbers here: the
-- type and its operations are a parameter of the functions that compute with them.
use amldigital_fpv.Prelude.{ℕ, Bool}

pub record Floats : Type 1 where
  pub Double : Type 0
  -- The literals and the conversions from integer types.
  pub of_ℕ : ℕ → Double
  pub neg : Double → Double
  pub add : Double → Double → Double
  pub mul : Double → Double → Double
  pub div : Double → Double → Double
  pub ceil : Double → Double
  pub le : Double → Double → Bool
  pub eq : Double → Double → Bool
  -- `static_cast<uint32_t>`
  pub to_uint32 : Double → ℕ
  pub to_uint64 : Double → ℕ
