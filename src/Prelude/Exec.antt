-- ===== src/Prelude/Exec.antt =====
-- What a service call hands back: a value, or the error that it raised.
pub data Reply {ℓ} (A : Type ℓ) (E : Type 0) : Type ℓ where
  ok : A → Reply A E
  raised : E → Reply A E
