-- ===== src/Prelude/Rows.antt =====
-- A database table as the list of its rows: the selections and updates that the queries make.
use Prim.Native.Nat.{ℕ, zero, suc, ◌+◌, ◌≤◌}
use mathlib.Core.Path.{◌≡◌, refl, subst}
use mathlib.Core.Logic.{inl, inr}
use mathlib.Core.Bool.{Bool, true, false}
use mathlib.Core.Option.{Option, none, some}
use mathlib.Core.List.{List, [], ◌∷◌, ◌++◌}
use native.Mathlib.Omega.{arith}
use free_fire_room.Prelude.Tests.{if◌then◌else◌, b2n, ltb, Bool-cases, if_both}

module _ {ℓ} {A : Type ℓ} where
  abbrev pub length : List A → ℕ
  length [] = 0
  length (_ ∷ xs) = suc (length xs)

  abbrev pub take : ℕ → List A → List A
  take zero xs = []
  take (suc n) [] = []
  take (suc n) (x ∷ xs) = x ∷ take n xs

  abbrev pub drop : ℕ → List A → List A
  drop zero xs = xs
  drop (suc n) [] = []
  drop (suc n) (x ∷ xs) = drop n xs

  -- the first row that a WHERE clause selects
  abbrev pub find : (A → Bool) → List A → Option A
  find p [] = none
  find p (x ∷ xs) = if p x then some x else find p xs

  -- all rows that a WHERE clause selects
  abbrev pub select : (A → Bool) → List A → List A
  select p [] = []
  select p (x ∷ xs) = let rest = select p xs in if p x then x ∷ rest else rest

  -- SELECT count(*) WHERE
  abbrev pub count : (A → Bool) → List A → ℕ
  count p [] = 0
  count p (x ∷ xs) = b2n (p x) + count p xs

  abbrev pub any : (A → Bool) → List A → Bool
  any p [] = false
  any p (x ∷ xs) = if p x then true else any p xs

  abbrev pub all : (A → Bool) → List A → Bool
  all p [] = true
  all p (x ∷ xs) = if p x then all p xs else false

  -- UPDATE of the one row that a key selects: the row is written in place
  abbrev pub put : (A → Bool) → A → List A → List A
  put p r [] = []
  put p r (x ∷ xs) = if p x then r ∷ xs else x ∷ put p r xs

  -- UPDATE of all rows that a WHERE clause selects
  abbrev pub update_where : (A → Bool) → (A → A) → List A → List A
  update_where p f [] = []
  update_where p f (x ∷ xs) = (if p x then f x else x) ∷ update_where p f xs

  -- INSERT: the new row comes last
  abbrev pub insert : A → List A → List A
  insert r xs = xs ++ r ∷ []

module _ {ℓ} {A : Type ℓ} where
  -- before the first row with a larger key
  abbrev pub insert_by : (A → ℕ) → A → List A → List A
  insert_by key r [] = r ∷ []
  insert_by key r (x ∷ xs) =
      let later = x ∷ insert_by key r xs in if ltb (key r) (key x) then r ∷ x ∷ xs else later

  abbrev pub sort_onto : (A → ℕ) → List A → List A → List A
  sort_onto key sorted [] = sorted
  sort_onto key sorted (x ∷ xs) = sort_onto key (insert_by key x sorted) xs

  -- ORDER BY key ASC; rows with one key keep their order
  abbrev pub sort_by : (A → ℕ) → List A → List A
  sort_by key xs = sort_onto key [] xs

module _ {ℓ} {A : Type ℓ} where
  -- What a rewritten row adds to and takes from a count.
  pub count-put :
      (q p : A → Bool) (r old : A) (xs : List A)
      → find p xs ≡ some old
      → count q (put p r xs) + b2n (q old) ≡ count q xs + b2n (q r)
  count-put q p r old [] h = ground arith
  count-put q p r old (x ∷ xs) h = ground (arith, count-put q p r old xs)

  pub count-insert :
      (q : A → Bool) (r : A) (xs : List A) → count q (insert r xs) ≡ count q xs + b2n (q r)
  count-insert q r [] = omega arith
  count-insert q r (x ∷ xs) = omega (arith, count-insert q r xs)

  -- A row that is found satisfies the test.
  pub find-holds : (p : A → Bool) (xs : List A) (x : A) → find p xs ≡ some x → p x ≡ true
  find-holds p [] x h = ground arith
  find-holds p (y ∷ ys) x h = ground (arith, find-holds p ys x)

  pub find-insert-some :
      (p : A → Bool) (r : A) (xs : List A) (x : A)
      → find p xs ≡ some x
      → find p (insert r xs) ≡ some x
  find-insert-some p r [] x h = ground arith
  find-insert-some p r (y ∷ ys) x h = ground (arith, find-insert-some p r ys x)

  pub find-insert-none :
      (p : A → Bool) (r : A) (xs : List A)
      → find p xs ≡ none
      → find p (insert r xs) ≡ (if p r then some r else none)
  find-insert-none p r [] h = ground arith
  find-insert-none p r (y ∷ ys) h = ground (arith, find-insert-none p r ys)

  pub count-le-length : (p : A → Bool) (xs : List A) → count p xs ≤ length xs
  count-le-length p [] = omega arith
  count-le-length p (x ∷ xs) = ground (arith, count-le-length p xs)

  -- A stored row that passes a test is counted.
  pub count_pos_of_find :
      (q p : A → Bool) (xs : List A) (x : A) → find p xs ≡ some x → q x ≡ true → 1 ≤ count q xs
  count_pos_of_find q p [] x h e = ground arith
  count_pos_of_find q p (y ∷ ys) x h e = ground (arith, count_pos_of_find q p ys x)

  -- A row that is written back is found again.
  pub find-put_self :
      (p : A → Bool) (r old : A) (xs : List A)
      → find p xs ≡ some old
      → p r ≡ true
      → find p (put p r xs) ≡ some r
  find-put_self p r old [] h e = ground arith
  find-put_self p r old (x ∷ xs) h e = ground (arith, find-put_self p r old xs)

  pub find-none-any : (p : A → Bool) (xs : List A) → any p xs ≡ false → find p xs ≡ none
  find-none-any p [] h = refl
  find-none-any p (x ∷ xs) h = ground (arith, find-none-any p xs)

  -- A test that holds of neither row finds what it found before.
  pub find-put_ne :
      (q p : A → Bool) (r old : A) (xs : List A)
      → find p xs ≡ some old
      → q r ≡ false
      → q old ≡ false
      → find q (put p r xs) ≡ find q xs
  find-put_ne q p r old [] f a b = ground arith
  find-put_ne q p r old (x ∷ xs) f a b = ground (arith, find-put_ne q p r old xs)

-- every row has a property
abbrev pub All {ℓ κ} : {A : Type ℓ} → (A → Type κ) → List A → Type κ
All P [] = Unit
All P (x ∷ xs) = P x × All P xs

pub All-map {ℓ κ μ} :
    {A : Type ℓ} (P : A → Type κ) (Q : A → Type μ) (xs : List A)
    → ((x : A) → P x → Q x)
    → All P xs
    → All Q xs
All-map P Q [] f h = tt
All-map P Q (x ∷ xs) f h = (f x h.0, All-map P Q xs f h.1)

pub All-find {ℓ κ} :
    {A : Type ℓ} (P : A → Type κ) (p : A → Bool) (xs : List A) (x : A)
    → All P xs
    → find p xs ≡ some x
    → P x
All-find P p [] x h f = absurd (ground arith)
All-find P p (y ∷ ys) x h f = elim (Bool-cases (p y)) [
  | inl e ↦ let s : y ≡ x = ground arith in subst P s h.0
  | inr e ↦ All-find P p ys x h.1 (ground arith)
]

pub All-put {ℓ κ} :
    {A : Type ℓ} (P : A → Type κ) (p : A → Bool) (r : A) (xs : List A)
    → P r
    → All P xs
    → All P (put p r xs)
All-put P p r [] h a = tt
All-put P p r (x ∷ xs) h a =
    if_both (All P) (p x) (r ∷ xs) (x ∷ put p r xs) (h, a.1) (a.0, All-put P p r xs h a.1)

pub All-insert {ℓ κ} :
    {A : Type ℓ} (P : A → Type κ) (r : A) (xs : List A) → P r → All P xs → All P (insert r xs)
All-insert P r [] h a = (h, tt)
All-insert P r (x ∷ xs) h a = (a.0, All-insert P r xs h a.1)
