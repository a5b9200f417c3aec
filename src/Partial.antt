-- ===== src/Partial.antt =====
-- The value of code that may panic: by `unwrap`, `expect`, `assert!`, an index out of bounds.
pub data Partial {ℓ} (A : Type ℓ) : Type ℓ where
  done : A → Partial A
  panics : Partial A
