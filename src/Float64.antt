-- ===== src/Float64.antt =====
-- Go's float64, as a parameter: the operations that the program calls. No law is assumed.
use botex.Prelude.{ℕ, Bool}

pub record Float64 (F : Type 0) : Type 0 where
  pub of_int : ℕ → F
  pub add : F → F → F
  pub div : F → F → F
  -- a < b, a ≤ b
  pub lt : F → F → Bool
  pub le : F → F → Bool
