-- ===== src/Prelude/Unique.antt =====
-- Unique constraints: no two rows of a table have the same key.
use mathlib.Core.Path.{◌≡◌}
use mathlib.Core.Bool.{Bool, false}
use mathlib.Core.List.{List, [], ◌∷◌}
use native.Mathlib.Omega.{arith}
use free_fire_room.Prelude.Rows.{any, insert}

-- `same x y`: the rows have one key
abbrev pub IsUniqueBy {ℓ} : {A : Type ℓ} → (A → A → Bool) → List A → Type 0
IsUniqueBy same [] = Unit
IsUniqueBy same (x ∷ xs) = (any (same x) xs ≡ false) × IsUniqueBy same xs

module _ {ℓ} {A : Type ℓ} (same : A → A → Bool) where
  any-insert :
      (p : A → Bool) (r : A) (xs : List A)
      → any p xs ≡ false
      → p r ≡ false
      → any p (insert r xs) ≡ false
  any-insert p r [] h e = ground arith
  any-insert p r (x ∷ xs) h e = ground (arith, any-insert p r xs)

  pub insert-IsUniqueBy :
      (r : A) (xs : List A)
      → ((x : A) → same x r ≡ same r x)
      → any (same r) xs ≡ false
      → IsUniqueBy same xs
      → IsUniqueBy same (insert r xs)
  insert-IsUniqueBy r [] s h u = (ground arith, tt)
  insert-IsUniqueBy r (x ∷ xs) s h u =
      let e = s x in
      (any-insert (same x) r xs u.0 (ground arith), insert-IsUniqueBy r xs s (ground arith) u.1)
