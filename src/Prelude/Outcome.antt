-- ===== src/Prelude/Outcome.antt =====
-- Rust's `Result` over an error type of the module's own, with its chaining.

pub data Outcome {ℓ κ} (Problem : Type ℓ) (Value : Type κ) : Type (ℓ ⊔ κ) where
  done : Value → Outcome Problem Value
  failed : Problem → Outcome Problem Value

infixl 5 ◌>>=◌
abbrev pub ◌>>=◌ {ℓ κ μ} :
    {Problem : Type ℓ} {Value : Type κ} {Next : Type μ}
    → Outcome Problem Value
    → (Value → Outcome Problem Next)
    → Outcome Problem Next
done value >>= rest = rest value
failed problem >>= rest = failed problem
