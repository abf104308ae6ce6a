-- ===== src/Waitlist.antt =====
-- The second half of backend/app/services/registration.py: a confirmed player who no longer
-- qualifies gives up the seat, and the seat goes to the head of the waitlist.
pub mod Queue
pub mod Loop
pub mod Links
pub mod Promotion
pub mod Invariant
pub mod Joining
pub mod Fifo
pub mod Refinement
pub mod Neutral
use free_fire_room.Prelude.{
  ℕ, zero, suc, ◌+◌, ◌-◌, Bool, true, false, not, ◌&&◌, ◌||◌, Option, none, some, List, [], ◌∷◌,
  String, ltb, leb, ◌==◌, if◌then◌else◌, find, count, put, insert,
}
use free_fire_room.Model.{
  EventStatus, RegistrationStatus, is_confirmed, is_waitlisted, is_full, is_published, Event,
  Registration, WaitlistEntry, Db, save_event,
}
use free_fire_room.Registration.{
  of_pair, with_id, save, unlimited, has_seat, waits_for, same_place, holds_place, take_seat,
}

-- the active entry with the lowest position
unfoldable pub first_waiting : ℕ → List WaitlistEntry → Option WaitlistEntry
first_waiting event_id [] = none
first_waiting event_id (w ∷ ws) =
    let rest = first_waiting event_id ws in
    if waits_for event_id w
    then (elim rest [
      | none ↦ some w
      | some b ↦ if leb w.position b.position then some w else some b
    ])
    else rest

-- the row of an entry is written back
abbrev pub save_entry : WaitlistEntry → Db → Db
save_entry w db = record db { waitlist = put (same_place w.event_id w.user_id) w db.waitlist }

abbrev pub closed : WaitlistEntry → WaitlistEntry
closed w = record w { is_active = false }

abbrev pub promoted : ℕ → WaitlistEntry → WaitlistEntry
promoted now w = record w { is_active = false; promoted_at = some now }

abbrev pub promoted_row : ℕ → Registration → Registration
promoted_row now r = record r { status = RegistrationStatus.confirmed; confirmed_at = some now }

-- the event after a promotion
unfoldable pub fill_seat : Event → Event
fill_seat e =
    let n = e.confirmed_count + 1 in
    record e {
      confirmed_count = n;
      status =
          if not (unlimited e) && leb e.capacity n
          then (if is_published e.status then EventStatus.full else e.status)
          else if is_full e.status
          then EventStatus.published
          else e.status;
    }

-- `not reg or reg.status != WAITLISTED`, the other way round
abbrev pub still_waiting : Option Registration → Bool
still_waiting none = false
still_waiting (some r) = is_waitlisted r.status

unfoldable pub promote_to : ℕ → Event → WaitlistEntry → Registration → Db → Option Registration × Db
promote_to now e w r db = (
  some (promoted_row now r),
  save_entry (promoted now w) (save_event (fill_seat e) (save (promoted_row now r) db)),
)

-- one call of `promote_waitlist`, `again` standing for its call of itself
unfoldable pub promote_step :
    (Db → Option Registration × Db) → ℕ → ℕ → Db → Option Registration × Db
promote_step again now event_id db = elim (db.events event_id) [
  | none ↦ (none, db)
  | some e ↦
      if not (unlimited e) && leb e.capacity e.confirmed_count
      then (none, db)
      else elim (first_waiting event_id db.waitlist) [
        | none ↦ (none, db)
        | some w ↦ elim (find (with_id w.registration_id) db.registrations) [
          | none ↦ again (save_entry (closed w) db)
          | some r ↦
              if is_waitlisted r.status
              then promote_to now e w r db
              else again (save_entry (closed w) db)
        ]
      ]
]

unfoldable pub promote_loop : ℕ → ℕ → ℕ → Db → Option Registration × Db
promote_loop zero now event_id db = (none, db)
promote_loop (suc fuel) now event_id db =
    promote_step (promote_loop fuel now event_id) now event_id db

-- Each call of itself closes one active entry, so their number is enough fuel.
unfoldable pub promote_waitlist : ℕ → ℕ → Db → Option Registration × Db
promote_waitlist now event_id db =
    promote_loop (suc (count (waits_for event_id) db.waitlist)) now event_id db

-- the event after a confirmed player has left
unfoldable pub free_seat : Event → Event
free_seat e =
    if ltb 0 e.confirmed_count
    then (let n = e.confirmed_count - 1 in
        record e {
          confirmed_count = n;
          status =
              if is_full e.status && (unlimited e || ltb n e.capacity)
              then EventStatus.published
              else e.status;
        })
    else e

abbrev pub ineligible_row : String → Registration → Registration
ineligible_row reason r = record r {
  status = RegistrationStatus.ineligible;
  ineligible_reason = some reason;
}

-- the seat of a confirmed registration is given back
unfoldable pub release : String → Registration → Db → Db
release reason r db =
    save (ineligible_row reason r)
      (elim (db.events r.event_id) [ none ↦ db | some e ↦ save_event (free_seat e) db ])

-- `WaitlistEntry.registration_id == registration.id` and active
abbrev pub entry_of : ℕ → WaitlistEntry → Bool
entry_of registration_id w = w.registration_id == registration_id && w.is_active

unfoldable pub leave_waitlist : String → Registration → Db → Db
leave_waitlist reason r db =
    save (ineligible_row reason r)
      (elim (find (entry_of r.id) db.waitlist) [ none ↦ db | some w ↦ save_entry (closed w) db ])

unfoldable pub mark_ineligible : ℕ → String → Registration → Db → Db
mark_ineligible now reason r db =
    if is_confirmed r.status
    then (promote_waitlist now r.event_id (release reason r db)).1
    else if is_waitlisted r.status
    then leave_waitlist reason r db
    else db

pub data Answer : Type 0 where
  missing exists confirmed waitlisted full : Answer

abbrev pending_holder : ℕ → ℕ → ℕ → Registration
pending_holder fresh event_id user_id = record {
  id = fresh;
  event_id = event_id;
  user_id = user_id;
  status = RegistrationStatus.pending;
  waitlist_position = none;
  conditions_met_at = none;
  confirmed_at = none;
  ineligible_reason = none;
  source = none;
  rules_accepted_at = none;
}

-- the event after `try_confirm_with_lock_sync` has confirmed: unlike `take_seat`, from any status
abbrev pub take_seat_sync : Event → Event
take_seat_sync e =
    let n = e.confirmed_count + 1 in
    record e {
      confirmed_count = n;
      status = if not (unlimited e) && leb e.capacity n then EventStatus.full else e.status;
    }

unfoldable pub settle_sync : ℕ → Event → Registration → Db → Answer × Db
settle_sync now e r db =
    if has_seat e
    then (
      Answer.confirmed,
      save_event (take_seat_sync e)
          (save (record r { status = RegistrationStatus.confirmed; confirmed_at = some now }) db),
    )
    else if e.waitlist_enabled
    then (Answer.waitlisted, save (record r { status = RegistrationStatus.waitlisted }) db)
    else (Answer.full, db)

unfoldable pub try_confirm_with_lock_sync : ℕ → ℕ → ℕ → ℕ → Db → Answer × Db
try_confirm_with_lock_sync now fresh user_id event_id db = elim (db.events event_id) [
  | none ↦ (missing, db)
  | some e ↦ elim (find (of_pair event_id user_id) db.registrations) [
    | none ↦ settle_sync now e (pending_holder fresh event_id user_id) (record db {
      registrations = insert (pending_holder fresh event_id user_id) db.registrations;
    })
    | some r ↦ if holds_place r.status then (exists, db) else settle_sync now e r db
  ]
]
