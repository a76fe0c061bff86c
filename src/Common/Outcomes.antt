-- ===== src/Common/Outcomes.antt =====
-- How a piece of Go code can end: with a value, with a run-time panic (a slice or an index out of
-- range), or not within the fuel that its loop was given.

pub data Outcome {ℓ} (A : Type ℓ) : Type ℓ where
  done : A → Outcome A
  panic : Outcome A
  timeout : Outcome A

infixl 5 ◌>>=◌
abbrev pub ◌>>=◌ {ℓ κ} : {A : Type ℓ} {B : Type κ} → Outcome A → (A → Outcome B) → Outcome B
done a >>= f = f a
panic >>= f = panic
timeout >>= f = timeout
