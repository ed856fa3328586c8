-- ===== src/Base/Results.antt =====
-- The result of a Go function that also returns an error.
pub data Outcome {ℓ κ} (E : Type ℓ) (A : Type κ) : Type (ℓ ⊔ κ) where
  returns : A → Outcome E A
  fails : E → Outcome E A

module _ {ℓ} {E : Type ℓ} where
  -- The rest of a function after `if err != nil { return err }`.
  abbrev pub ◌>>=◌ {κ λ'} :
      {A : Type κ} {B : Type λ'} → Outcome E A → (A → Outcome E B) → Outcome E B
  returns a >>= f = f a
  fails e >>= f = fails e

  infixl 5 ◌>>=◌
