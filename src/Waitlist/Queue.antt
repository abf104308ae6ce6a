-- ===== src/Waitlist/Queue.antt =====
-- The head of a waitlist: the active entry with the lowest position.
use free_fire_room.Prelude.{
  ℕ, ◌≤◌, ◌≡◌, refl, Bool, true, none, some, List, [], ◌∷◌, arith, find, count, put, Option-cases,
  inl, inr, find-holds,
}
use free_fire_room.Model.{WaitlistEntry}
use free_fire_room.Registration.{waits_for, same_place}
use free_fire_room.Registration.Keys.{find-put-none}
use free_fire_room.Waitlist.{first_waiting}

-- `UniqueConstraint("event_id", "user_id")`
abbrev pub HasUniquePlaces : List WaitlistEntry → Type 0
HasUniquePlaces [] = Unit
HasUniquePlaces (w ∷ ws) = (find (same_place w.event_id w.user_id) ws ≡ none) × HasUniquePlaces ws

-- `b` is not behind any active entry of the event
abbrev pub IsFirst : ℕ → WaitlistEntry → List WaitlistEntry → Type 0
IsFirst k b [] = Unit
IsFirst k b (w ∷ ws) = (waits_for k w ≡ true → b.position ≤ w.position) × IsFirst k b ws

IsFirst-le :
    (k : ℕ) (a b : WaitlistEntry) (ws : List WaitlistEntry)
    → a.position ≤ b.position
    → IsFirst k b ws
    → IsFirst k a ws
IsFirst-le k a b [] le h = tt
IsFirst-le k a b (w ∷ ws) le h = ((λ x. omega (arith, h.0 x)), IsFirst-le k a b ws le h.1)

pub first_waiting-waits :
    (k : ℕ) (ws : List WaitlistEntry) (w : WaitlistEntry)
    → first_waiting k ws ≡ some w
    → waits_for k w ≡ true
unfolding first_waiting
first_waiting-waits k [] w h = ground arith
first_waiting-waits k (x ∷ xs) w h = elim (Option-cases (first_waiting k xs)) [
  | inl e ↦ ground arith
  | inr (b, e) ↦ ground (arith, first_waiting-waits k xs b e)
]

-- no active entry at all
abbrev pub HasNone : ℕ → List WaitlistEntry → Type 0
HasNone k ws = count (waits_for k) ws ≡ 0

pub first_waiting-none :
    (k : ℕ) (ws : List WaitlistEntry) → first_waiting k ws ≡ none → HasNone k ws
unfolding first_waiting
first_waiting-none k [] h = refl
first_waiting-none k (x ∷ xs) h = ground (arith, first_waiting-none k xs)

IsFirst-HasNone :
    (k : ℕ) (b : WaitlistEntry) (ws : List WaitlistEntry) → HasNone k ws → IsFirst k b ws
IsFirst-HasNone k b [] h = tt
IsFirst-HasNone k b (w ∷ ws) h = ((λ x. ground arith), IsFirst-HasNone k b ws (ground arith))

-- The entry that a promotion takes has a position no higher than that of any active entry of the
-- event.
pub first_waiting-IsFirst :
    (k : ℕ) (ws : List WaitlistEntry) (w : WaitlistEntry)
    → first_waiting k ws ≡ some w
    → IsFirst k w ws
unfolding first_waiting
first_waiting-IsFirst k [] w h = tt
first_waiting-IsFirst k (x ∷ xs) w h = elim (Option-cases (first_waiting k xs)) [
  | inl e ↦ ((λ y. ground arith), IsFirst-HasNone k w xs (first_waiting-none k xs e))
  | inr (b, e) ↦
      ((λ y. ground arith), IsFirst-le k w b xs (ground arith) (first_waiting-IsFirst k xs b e))
]

pub first_waiting-stored :
    (k : ℕ) (ws : List WaitlistEntry) (w : WaitlistEntry)
    → HasUniquePlaces ws
    → first_waiting k ws ≡ some w
    → find (same_place w.event_id w.user_id) ws ≡ some w
unfolding first_waiting
first_waiting-stored k [] w u h = ground arith
first_waiting-stored k (x ∷ xs) w u h = elim (Option-cases (first_waiting k xs)) [
  | inl e ↦ ground arith
  | inr (b, e) ↦ ground (arith, first_waiting-stored k xs b u.1 e, u.0)
]

pub put-HasUniquePlaces :
    (w old : WaitlistEntry) (ws : List WaitlistEntry)
    → find (same_place w.event_id w.user_id) ws ≡ some old
    → HasUniquePlaces ws
    → HasUniquePlaces (put (same_place w.event_id w.user_id) w ws)
put-HasUniquePlaces w old [] f u = tt
put-HasUniquePlaces w old (x ∷ xs) f u = ground (
  arith,
  put-HasUniquePlaces w old xs,
  find-put-none (same_place x.event_id x.user_id) (same_place w.event_id w.user_id) w old xs,
  find-holds (same_place w.event_id w.user_id) xs old,
)

-- what is found by any test is found by its event and player
pub find-same_place :
    (q : WaitlistEntry → Bool) (ws : List WaitlistEntry) (w : WaitlistEntry)
    → HasUniquePlaces ws
    → find q ws ≡ some w
    → find (same_place w.event_id w.user_id) ws ≡ some w
find-same_place q [] w u h = ground arith
find-same_place q (x ∷ xs) w u h = ground (arith, find-same_place q xs w u.1, u.0)
