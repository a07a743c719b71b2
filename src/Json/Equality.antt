-- ===== src/Json/Equality.antt =====
-- Equality of JSON values is decidable.
use native.Mathlib.Decide.{ℕ_discrete}
use startup_ai_manager.Json.{Value}
use startup_ai_manager.Base.{String, ◌==◌, eq_iff, Bool-cases, inl, inr}
use startup_ai_manager.Base.Int.{ℤ}

pub String-discrete : Discrete String
String-discrete s t = elim (Bool-cases (s == t)) [
  | inl e ↦ yes ((eq_iff s t).0 e)
  | inr e ↦ no (λ p. cc ((eq_iff s t).1 p))
]

pub ℤ-discrete : Discrete ℤ
ℤ-discrete = hlevel ℕ_discrete

pub Value-discrete : Discrete Value
Value-discrete = hlevel (ℕ_discrete, String-discrete)
