-- ===== src/Base/Results.antt =====
-- The end of an operation: a state, a failed assertion (or an access out of range, which the
-- language leaves undefined), an exception, or no end within the fuel.
pub data Result {ℓ} (A : Type ℓ) : Type ℓ where
  ok : A → Result A
  fault : Result A
  thrown : Result A
  spin : Result A

infixl 5 ◌>>=◌
abbrev pub ◌>>=◌ {ℓ κ} : {A : Type ℓ} {B : Type κ} → Result A → (A → Result B) → Result B
ok a >>= f = f a
fault >>= f = fault
thrown >>= f = thrown
spin >>= f = spin
