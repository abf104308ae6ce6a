-- ===== src/Registration.antt =====
-- backend/app/services/registration.py, read by read and write by write. `now` is the moment of
-- the call, `bot` Telegram, `fresh` the id that a new registration gets. The result is the value
-- or the error, and the session's database: what was written before a raise stays in it, except
-- that a refused key (`duplicate_key`) rolls the session back to where the call began.
pub mod Keys
pub mod Seats
pub mod Invariant
pub mod Outcome
use free_fire_room.Prelude.{
  ℕ, zero, suc, ◌+◌, ◌-◌, Bool, true, false, not, ◌&&◌, ◌||◌, Option, none, some, List, [], ◌∷◌,
  String, str_eq, ltb, leb, ◌==◌, if◌then◌else◌, is_some, truthy, find, count, any, put, insert,
  Reply, ok, raised,
}
use free_fire_room.Model.{
  Settings, BanScope, EventStatus, RegistrationStatus, RequirementType, RequirementStatus,
  is_confirmed, is_waitlisted, is_full, is_published, is_open, Event, Registration, WaitlistEntry,
  User, Db, save_event, write_audit,
}
use free_fire_room.Bans.{is_banned}
use free_fire_room.Windows.{join_window_open}
use free_fire_room.Telegram.{Bot}
use free_fire_room.Requirements.{CheckItem, Checklist, evaluate_requirements}

pub data Error : Type 0 where
  user_banned event_not_found event_not_open registration_closed : Error
  already_registered event_full duplicate_key : Error

-- `incoming == "deep_link"`
abbrev pub is_deep_link : Option String → Bool
is_deep_link none = false
is_deep_link (some s) = str_eq s "deep_link"

-- `existing or incoming`: the empty text is false
abbrev pub or_source : Option String → Option String → Option String
or_source existing incoming = if truthy existing then existing else incoming

-- Both branches on `_WEAK_SOURCES` return the same.
unfoldable pub merge_registration_source : Option String → Option String → Option String
merge_registration_source existing incoming =
    if is_deep_link incoming || is_deep_link existing
    then some "deep_link"
    else or_source existing incoming

-- `promoted_from_waitlist` is never set, and left out
pub record RegisterResult : Type 0 where
  pub registration : Registration
  pub waitlisted : Bool
  pub checklist : List CheckItem

abbrev pub of_pair : ℕ → ℕ → Registration → Bool
of_pair event_id user_id r = r.event_id == event_id && r.user_id == user_id

abbrev pub with_id : ℕ → Registration → Bool
with_id id r = r.id == id

-- the row of a registration is written back
abbrev pub save : Registration → Db → Db
save r db = record db { registrations = put (with_id r.id) r db.registrations }

-- `int(event.capacity or 0) <= 0`, and the test of the capacity lock
abbrev pub unlimited : Event → Bool
unlimited e = e.capacity == 0

abbrev pub has_seat : Event → Bool
has_seat e = unlimited e || ltb e.confirmed_count e.capacity

-- `any(i.status == REJECTED for i in items)`
unfoldable pub any_rejected : List CheckItem → Bool
any_rejected = any (λ i. elim i.status [ RequirementStatus.rejected ↦ true | _ ↦ false ])

abbrev is_capacity : RequirementType → Bool
is_capacity RequirementType.capacity = true
is_capacity _ = false

abbrev is_missing : RequirementStatus → Bool
is_missing RequirementStatus.not_done = true
is_missing RequirementStatus.expired = true
is_missing _ = false

-- `bool(hard_missing)`
unfoldable pub any_hard_missing : List CheckItem → Bool
any_hard_missing = any (λ i. is_missing i.status && not (is_capacity i.requirement_type))

-- the event after one more confirmed player
unfoldable pub take_seat : Event → Event
take_seat e =
    let n = e.confirmed_count + 1 in
    record e {
      confirmed_count = n;
      status =
          if (not (unlimited e) && leb e.capacity n) && is_published e.status
          then EventStatus.full
          else e.status;
    }

abbrev pub confirmed_row : ℕ → Registration → Registration
confirmed_row now r = record r {
  status = RegistrationStatus.confirmed;
  confirmed_at = some now;
  conditions_met_at = some now;
  ineligible_reason = none;
}

unfoldable pub confirm :
    ℕ → User → Event → Registration → List CheckItem → Db → Reply RegisterResult Error × Db
confirm now user locked holder items db = (
  ok (record { registration = confirmed_row now holder; waitlisted = false; checklist = items }),
  write_audit "registration_confirmed" holder.id user.id
      (save_event (take_seat locked) (save (confirmed_row now holder) db)),
)

-- the active entries of an event
abbrev pub waits_for : ℕ → WaitlistEntry → Bool
waits_for event_id w = w.event_id == event_id && w.is_active

-- the highest position among the active entries, 0 if there is none
unfoldable pub last_position : ℕ → List WaitlistEntry → ℕ
last_position event_id [] = 0
last_position event_id (w ∷ ws) =
    let rest = last_position event_id ws in
    if waits_for event_id w && ltb rest w.position then w.position else rest

-- `UniqueConstraint("event_id", "user_id")` of the waitlist
abbrev pub same_place : ℕ → ℕ → WaitlistEntry → Bool
same_place event_id user_id w = w.event_id == event_id && w.user_id == user_id

abbrev pub waitlisted_row : ℕ → Registration → Registration
waitlisted_row position r = record r {
  status = RegistrationStatus.waitlisted;
  waitlist_position = some position;
}

abbrev pub new_entry : ℕ → ℕ → ℕ → ℕ → WaitlistEntry
new_entry event_id user_id registration_id position = record {
  event_id = event_id;
  user_id = user_id;
  registration_id = registration_id;
  position = position;
  promoted_at = none;
  is_active = true;
}

abbrev pub fill_up : Event → Event
fill_up e = record e { status = if is_published e.status then EventStatus.full else e.status }

-- `before` is the database at the start of the call, where a failed flush returns to; that it takes
-- back what the caller wrote earlier in the same transaction too is left out
unfoldable pub join_waitlist :
    Db → User → Event → Registration → List CheckItem → Db → Reply RegisterResult Error × Db
join_waitlist before user locked holder items db =
    let position = last_position locked.id db.waitlist + 1 in
    if any (same_place locked.id user.id) db.waitlist then (raised duplicate_key, before) else (
      ok (record {
        registration = waitlisted_row position holder;
        waitlisted = true;
        checklist = items;
      }),
      save_event (fill_up locked) (
          let d = save (waitlisted_row position holder) db in
          record d {
            waitlist = insert (new_entry locked.id user.id holder.id position) d.waitlist;
          }),
    )

-- from the capacity lock on: `locked` is the event's row as SELECT … FOR UPDATE reads it
unfoldable pub allot :
    ℕ
    → Db
    → User
    → Option Event
    → Registration
    → List CheckItem
    → Db
    → Reply RegisterResult Error × Db
allot now before user none holder items db = (raised event_not_found, db)
allot now before user (some locked) holder items db =
    if has_seat locked
    then confirm now user locked holder items db
    else if locked.waitlist_enabled
    then join_waitlist before user locked holder items db
    else (raised event_full, db)

-- stands for the Persian text that the code stores
abbrev pub requirements_rejected : String
requirements_rejected = "requirements rejected"

abbrev pub rejected_row : Registration → Registration
rejected_row r = record r {
  status = RegistrationStatus.ineligible;
  ineligible_reason = some requirements_rejected;
}

abbrev pub pending_row : Registration → Registration
pending_row r = record r { status = RegistrationStatus.pending }

-- what the checklist decides, for a `holder` whose row is in `db`
unfoldable pub decide :
    ℕ → Db → User → Event → Registration → List CheckItem → Db → Reply RegisterResult Error × Db
decide now before user event holder items db =
    if any_rejected items
    then (
      ok (record { registration = rejected_row holder; waitlisted = false; checklist = items }),
      save (rejected_row holder) db,
    )
    else if any_hard_missing items
    then (
      ok (record { registration = pending_row holder; waitlisted = false; checklist = items }),
      save (pending_row holder) db,
    )
    else allot now before user (db.events event.id) holder items db

unfoldable pub admit :
    ℕ → Option Bot → Db → User → Event → Registration → Db → Reply RegisterResult Error × Db
admit now bot before user event holder db =
    decide now before user event holder
      (evaluate_requirements now bot db user event (some holder)).items db

abbrev pub accepted_at : Bool → ℕ → Option ℕ → Option ℕ
accepted_at accept now old = if accept then some now else old

abbrev pub new_holder : ℕ → ℕ → ℕ → ℕ → Option String → Bool → Registration
new_holder fresh event_id user_id now source accept = record {
  id = fresh;
  event_id = event_id;
  user_id = user_id;
  status = RegistrationStatus.pending;
  waitlist_position = none;
  conditions_met_at = none;
  confirmed_at = none;
  ineligible_reason = none;
  source = source;
  rules_accepted_at = accepted_at accept now none;
}

abbrev pub merged_row : ℕ → Option String → Bool → Registration → Registration
merged_row now source accept r = record r {
  source = merge_registration_source r.source source;
  rules_accepted_at = accepted_at accept now r.rules_accepted_at;
}

-- `existing.status in {CONFIRMED, WAITLISTED}`
abbrev pub holds_place : RegistrationStatus → Bool
holds_place s = is_confirmed s || is_waitlisted s

-- from the look-up of an existing registration on
unfoldable pub enrol :
    ℕ
    → Option Bot
    → User
    → Event
    → Option String
    → Bool
    → ℕ
    → Option Registration
    → Db
    → Reply RegisterResult Error × Db
enrol now bot user event source accept fresh (some r) db =
    if holds_place r.status
    then (
      raised already_registered,
      save (record r { source = merge_registration_source r.source source }) db,
    )
    else let holder = merged_row now source accept r in
      admit now bot db user event holder (save holder db)
enrol now bot user event source accept fresh none db =
    let holder = new_holder fresh event.id user.id now source accept in
    admit now bot db user event holder
      (record db { registrations = insert holder db.registrations })

unfoldable pub register_user :
    Settings
    → ℕ
    → Option Bot
    → User
    → Event
    → Option String
    → Bool
    → ℕ
    → Db
    → Reply RegisterResult Error × Db
register_user s now bot user event source accept fresh db =
    if is_some (is_banned now db user BanScope.participate)
    then (raised user_banned, db)
    else if is_some event.deleted_at || not event.deep_link_active
    then (raised event_not_found, db)
    else if not (is_open event.status)
    then (raised event_not_open, db)
    else if not (join_window_open s event now)
    then (raised registration_closed, db)
    else enrol now bot user event source accept fresh
        (find (of_pair event.id user.id) db.registrations) db
