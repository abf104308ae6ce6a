-- ===== src/Waitlist/Links.antt =====
-- The waitlist's references: every entry names a stored registration of its own event, and no
-- player stands twice in one event's waitlist.
use free_fire_room.Prelude.{
  ℕ, ◌≡◌, refl, ◌∙◌, inl, inr, false, some, List, [], ◌∷◌, arith, ◌==◌, find, put, insert, any,
  find-put_self, find-insert-some, find-insert-none, find-holds, All, All-map, Bool-cases, ==_refl,
  ap, find-put_ne,
}
use free_fire_room.Model.{Registration, WaitlistEntry, Db}
use free_fire_room.Registration.{with_id, same_place}
use free_fire_room.Waitlist.Queue.{HasUniquePlaces}

abbrev pub IsLinked : List Registration → WaitlistEntry → Type 0
IsLinked rs w =
    (r : Registration) × (find (with_id w.registration_id) rs ≡ some r) × (r.event_id ≡ w.event_id)

pub record IsQueued (db : Db) : Type 0 where
  pub places : HasUniquePlaces db.waitlist
  pub linked : All (IsLinked db.registrations) db.waitlist

-- another row is written: what is found by id is the same row, or the new one in its place
find-put_id :
    (r old x : Registration) (id : ℕ) (rs : List Registration)
    → find (with_id r.id) rs ≡ some old
    → r.event_id ≡ old.event_id
    → find (with_id id) rs ≡ some x
    → (y : Registration) × (find (with_id id) (put (with_id r.id) r rs) ≡ some y)
      × (y.event_id ≡ x.event_id)
find-put_id r old x id rs f e g =
    let at : old.id ≡ r.id = ground (arith, find-holds (with_id r.id) rs old f) in
    elim (Bool-cases (id == r.id)) [
      | inl same ↦
          let i : id ≡ r.id = ground arith in
          let o : old ≡ x = ground arith in
          (
            r,
            rw i (find-put_self (with_id r.id) r old rs f (==_refl r.id)),
            e ∙ ap (λ (y : Registration). y.event_id) o,
          )
      | inr other ↦ (
        x,
        find-put_ne (with_id id) (with_id r.id) r old rs f (ground arith) (ground arith) ∙ g,
        refl,
      )
    ]

pub IsLinked-put :
    (r old : Registration) (rs : List Registration) (w : WaitlistEntry)
    → find (with_id r.id) rs ≡ some old
    → r.event_id ≡ old.event_id
    → IsLinked rs w
    → IsLinked (put (with_id r.id) r rs) w
IsLinked-put r old rs w f e (x, g, h) =
    let (y, g', h') = find-put_id r old x w.registration_id rs f e g in (y, g', h' ∙ h)

-- a registration changes
pub save-IsQueued :
    (r old : Registration) (rs : List Registration) (ws : List WaitlistEntry)
    → find (with_id r.id) rs ≡ some old
    → r.event_id ≡ old.event_id
    → All (IsLinked rs) ws
    → All (IsLinked (put (with_id r.id) r rs)) ws
save-IsQueued r old rs ws f e = All-map _ _ ws (λ w. IsLinked-put r old rs w f e)

-- a registration is added
pub insert-IsQueued :
    (r : Registration) (rs : List Registration) (ws : List WaitlistEntry)
    → All (IsLinked rs) ws
    → All (IsLinked (insert r rs)) ws
insert-IsQueued r rs ws =
    All-map _ _ ws λ w (x, g, h). (x, find-insert-some (with_id w.registration_id) r rs x g, h)

-- a new entry takes a free place
pub new_place-HasUniquePlaces :
    (w : WaitlistEntry) (ws : List WaitlistEntry)
    → any (same_place w.event_id w.user_id) ws ≡ false
    → HasUniquePlaces ws
    → HasUniquePlaces (insert w ws)
new_place-HasUniquePlaces w [] f u = (refl, tt)
new_place-HasUniquePlaces w (x ∷ xs) f u =
    ground (
      arith,
      new_place-HasUniquePlaces w xs,
      find-insert-none (same_place x.event_id x.user_id) w xs,
    )
