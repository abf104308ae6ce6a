-- ===== src/Registration/Keys.antt =====
-- The keys of the registrations table: the id, and the pair of the event and the player.
use free_fire_room.Prelude.{
  ◌≡◌, refl, Bool, none, some, List, [], ◌∷◌, arith, find, put, insert, find-holds,
  find-insert-none,
}
use free_fire_room.Model.{Registration}
use free_fire_room.Registration.{of_pair, with_id}

-- no two rows share an id, or an event and a player
abbrev pub IsKeyed : List Registration → Type 0
IsKeyed [] = Unit
IsKeyed (r ∷ rs) =
    (find (with_id r.id) rs ≡ none) × (find (of_pair r.event_id r.user_id) rs ≡ none) × IsKeyed rs

-- what is found by any test is found by its id
pub find-with_id :
    (q : Registration → Bool) (xs : List Registration) (r : Registration)
    → IsKeyed xs
    → find q xs ≡ some r
    → find (with_id r.id) xs ≡ some r
find-with_id q [] r k h = ground arith
find-with_id q (x ∷ xs) r k h = ground (arith, find-with_id q xs r k.2, k.0)

-- a row that is written over one with the same answer to a test is not found where that was not
pub find-put-none {ℓ} :
    {A : Type ℓ} (q p : A → Bool) (r old : A) (xs : List A)
    → find p xs ≡ some old
    → q r ≡ q old
    → find q xs ≡ none
    → find q (put p r xs) ≡ none
find-put-none q p r old [] f e n = ground arith
find-put-none q p r old (x ∷ xs) f e n = ground (arith, find-put-none q p r old xs)

pub put-IsKeyed :
    (r old : Registration) (xs : List Registration)
    → find (with_id r.id) xs ≡ some old
    → r.event_id ≡ old.event_id
    → r.user_id ≡ old.user_id
    → IsKeyed xs
    → IsKeyed (put (with_id r.id) r xs)
put-IsKeyed r old [] f e u k = tt
put-IsKeyed r old (x ∷ xs) f e u k = ground (
  arith,
  put-IsKeyed r old xs,
  find-put-none (with_id x.id) (with_id r.id) r old xs,
  find-put-none (of_pair x.event_id x.user_id) (with_id r.id) r old xs,
  find-holds (with_id r.id) xs old,
)

pub insert-IsKeyed :
    (r : Registration) (xs : List Registration)
    → find (with_id r.id) xs ≡ none
    → find (of_pair r.event_id r.user_id) xs ≡ none
    → IsKeyed xs
    → IsKeyed (insert r xs)
insert-IsKeyed r [] f p k = (refl, refl, tt)
insert-IsKeyed r (x ∷ xs) f p k = ground (
  arith,
  insert-IsKeyed r xs,
  find-insert-none (with_id x.id) r xs,
  find-insert-none (of_pair x.event_id x.user_id) r xs,
)
