-- ===== src/Waitlist/Loop.antt =====
-- `promote_waitlist` calls itself after it has closed an entry. The fuel of the model is enough.
use free_fire_room.Prelude.{
  ℕ, zero, suc, ◌+◌, ◌<◌, ◌≡◌, ◌⊎◌, refl, sym, subst, inl, inr, Option, none, some, arith, count,
  Option-cases, Bool-cases, count-put, find, true, false, not, ◌&&◌, leb,
}
use free_fire_room.Model.{Event, Registration, WaitlistEntry, Db, is_waitlisted}
use free_fire_room.Registration.{waits_for, same_place, with_id, unlimited}
use free_fire_room.Waitlist.{
  first_waiting, save_entry, closed, promote_step, promote_loop, promote_to, promote_waitlist,
}
use free_fire_room.Waitlist.Queue.{
  HasUniquePlaces, first_waiting-waits, first_waiting-stored, put-HasUniquePlaces,
}

-- one active entry fewer
pub count-closed :
    (k : ℕ) (db : Db) (w : WaitlistEntry)
    → HasUniquePlaces db.waitlist
    → first_waiting k db.waitlist ≡ some w
    → count (waits_for k) (save_entry (closed w) db).waitlist + 1 ≡ count (waits_for k) db.waitlist
count-closed k db w u h = ground (
  arith,
  first_waiting-waits k db.waitlist w h,
  count-put (waits_for k) (same_place w.event_id w.user_id) (closed w) w db.waitlist
      (first_waiting-stored k db.waitlist w u h),
)

pub closed-HasUniquePlaces :
    (k : ℕ) (db : Db) (w : WaitlistEntry)
    → HasUniquePlaces db.waitlist
    → first_waiting k db.waitlist ≡ some w
    → HasUniquePlaces (save_entry (closed w) db).waitlist
closed-HasUniquePlaces k db w u h =
    put-HasUniquePlaces (closed w) w db.waitlist (first_waiting-stored k db.waitlist w u h) u

-- A run of the source's function, whose body is `promote_step` with the call of itself as an
-- argument: it comes to an answer without calling itself, or with the answer of one call of itself,
-- which has a run of its own. A run is finite, and knows of no fuel.
pub data Run (now k : ℕ) : Db → Option Registration × Db → Type 0 where
  answers :
      {db : Db} (x : Option Registration × Db)
      → ((again : Db → Option Registration × Db) → promote_step again now k db ≡ x)
      → Run now k db x
  calls_itself :
      {db : Db} (next : Db) {x : Option Registration × Db}
      → ((again : Db → Option Registration × Db) → promote_step again now k db ≡ again next)
      → Run now k next x
      → Run now k db x

-- the body answers by itself, or closes the first entry and calls itself
step_cases :
    (now k : ℕ) (db : Db)
    → ((x : Option Registration × Db) × ((again : Db → Option Registration × Db)
          → promote_step again now k db ≡ x))
      ⊎ ((w : WaitlistEntry) × (first_waiting k db.waitlist ≡ some w)
          × ((again : Db → Option Registration × Db)
              → promote_step again now k db ≡ again (save_entry (closed w) db)))
unfolding promote_step
step_cases now k db = elim (Option-cases (db.events k)) [
  | inl gone ↦ inl ((none, db), λ again. rw (promote_step, gone) refl)
  | inr (e, le) ↦ elim (Bool-cases (not (unlimited e) && leb e.capacity e.confirmed_count)) [
    | inl full ↦ inl ((none, db), λ again. rw (promote_step, le, full) refl)
    | inr room ↦ elim (Option-cases (first_waiting k db.waitlist)) [
      | inl empty ↦ inl ((none, db), λ again. rw (promote_step, le, room, empty) refl)
      | inr (w, fw) ↦ elim (Option-cases (find (with_id w.registration_id) db.registrations)) [
        | inl lost ↦ inr (w, fw, λ again. rw (promote_step, le, room, fw, lost) refl)
        | inr (r, f) ↦ elim (Bool-cases (is_waitlisted r.status)) [
          | inl waits ↦
              inl (promote_to now e w r db, λ again. rw (promote_step, le, room, fw, f, waits) refl)
          | inr left ↦ inr (w, fw, λ again. rw (promote_step, le, room, fw, f, left) refl)
        ]
      ]
    ]
  ]
]

promote_loop-Run :
    (n now k : ℕ) (db : Db)
    → HasUniquePlaces db.waitlist
    → count (waits_for k) db.waitlist < n
    → Run now k db (promote_loop n now k db)
unfolding promote_loop
promote_loop-Run zero now k db u lt = absurd (omega arith)
promote_loop-Run (suc n) now k db u lt = elim (step_cases now k db) [
  | inl (x, e) ↦ subst (Run now k db) (sym (e (promote_loop n now k))) (Run.answers x e)
  | inr (w, fw, e) ↦
      let next = save_entry (closed w) db in
      let rest =
        promote_loop-Run n now k next (closed-HasUniquePlaces k db w u fw)
          (omega (arith, count-closed k db w u fw)) in
      subst (Run now k db) (sym (e (promote_loop n now k))) (Run.calls_itself next e rest)
]

-- The recursion of `promote_waitlist` ends, on every database in which no player stands twice in one
-- event's waitlist: there is a finite run of the source's body through its calls of itself, and what
-- it comes to is what the model's function returns.
pub promote_waitlist-Run :
    (now k : ℕ) (db : Db) → HasUniquePlaces db.waitlist → Run now k db (promote_waitlist now k db)
unfolding promote_waitlist
promote_waitlist-Run now k db u =
    promote_loop-Run (suc (count (waits_for k) db.waitlist)) now k db u (omega arith)

-- What holds where the recursion stops, skips an entry or promotes one holds of every call.
pub promote_step_rule {ℓ} :
    (P : Option Registration × Db → Type ℓ) (again : Db → Option Registration × Db) (now k : ℕ)
    (db : Db)
    → P (none, db)
    → ((w : WaitlistEntry)
        → first_waiting k db.waitlist ≡ some w
        → P (again (save_entry (closed w) db)))
    → ((e : Event) (w : WaitlistEntry) (r : Registration)
        → db.events k ≡ some e
        → (not (unlimited e) && leb e.capacity e.confirmed_count) ≡ false
        → first_waiting k db.waitlist ≡ some w
        → find (with_id w.registration_id) db.registrations ≡ some r
        → is_waitlisted r.status ≡ true
        → P (promote_to now e w r db))
    → P (promote_step again now k db)
unfolding promote_step
promote_step_rule P again now k db stop skip go = elim (Option-cases (db.events k)) [
  | inl gone ↦ rw (gone, promote_step) stop
  | inr (e, le) ↦
      rw (le, promote_step)
        (elim (Bool-cases (not (unlimited e) && leb e.capacity e.confirmed_count)) [
          | inl full ↦ rw full stop
          | inr room ↦ rw room (elim (Option-cases (first_waiting k db.waitlist)) [
            | inl empty ↦ rw empty stop
            | inr (w, fw) ↦
                rw fw (elim (Option-cases (find (with_id w.registration_id) db.registrations)) [
                  | inl lost ↦ rw lost (skip w fw)
                  | inr (r, f) ↦ rw f (elim (Bool-cases (is_waitlisted r.status)) [
                    | inl waits ↦ rw waits (go e w r le room fw f waits)
                    | inr left ↦ rw left (skip w fw)
                  ])
                ])
          ])
        ])
]
