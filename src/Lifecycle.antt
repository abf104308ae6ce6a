-- ===== src/Lifecycle.antt =====
-- The life of an event after it was written down: backend/app/services/events.py.
pub mod Reschedule
pub mod Closing
use free_fire_room.Prelude.{
  ℕ, ◌+◌, ◌-◌, ◌*◌, Bool, true, false, not, ◌&&◌, ◌||◌, Option, none, some, List, [], ◌∷◌, String,
  ltb, leb, ◌==◌, if◌then◌else◌, is_some, or_else, find, put, insert, Reply, ok, raised,
}
use free_fire_room.Model.{
  Settings, minute, EventStatus, is_listed, Event, RoomCredential, Db, save_event, write_audit,
}
use free_fire_room.Scheduler.{schedule_event_jobs, cancel_event_jobs}

pub data Error : Type 0 where
  channel_required bad_status starts_in_past creds_after_start reg_before_creds : Error

-- `_validate_times`: the first rule that is broken, if any
unfoldable pub validate_times : ℕ → ℕ → ℕ → ℕ → Option Error
validate_times now starts_at registration_ends_at credentials_send_at =
    if ltb (starts_at + minute) now
    then some starts_in_past
    else if ltb starts_at credentials_send_at
    then some creds_after_start
    else if ltb registration_ends_at credentials_send_at
    then some reg_before_creds
    else none

abbrev pub published_event : ℕ → Event → Event
published_event now e = record e { status = EventStatus.published; published_at = some now }

-- `approval` is the setting "event_approval_required"
unfoldable pub submit_for_publish : Settings → Bool → ℕ → ℕ → Event → Db → Reply Event Error × Db
submit_for_publish s approval now actor e db =
    if not (is_some e.channel_id)
    then (raised channel_required, db)
    else if approval
    then (let e' = record e { status = EventStatus.pending_approval } in
        (ok e', write_audit "event_submitted" e.id actor (save_event e' db)))
    else (let e' = published_event now e in
        (
          ok e',
          write_audit "event_submitted" e.id actor
              (schedule_event_jobs s now e' (save_event e' db)),
        ))

-- `status in {PENDING_APPROVAL, REJECTED, DRAFT}`
abbrev pub can_approve : EventStatus → Bool
can_approve EventStatus.pending_approval = true
can_approve EventStatus.rejected = true
can_approve EventStatus.draft = true
can_approve _ = false

abbrev pub approved_event : ℕ → ℕ → Event → Event
approved_event now actor e = record e {
  status = EventStatus.published;
  published_at = some now;
  reviewed_by = some actor;
  rejection_reason = none;
}

unfoldable pub approve_event : Settings → ℕ → ℕ → Event → Db → Reply Event Error × Db
approve_event s now actor e db =
    if not (can_approve e.status)
    then (raised bad_status, db)
    else (let e' = approved_event now actor e in
        (
          ok e',
          write_audit "event_approved" e.id actor (schedule_event_jobs s now e' (save_event e' db)),
        ))

abbrev pub rejected_event : ℕ → String → Event → Event
rejected_event actor reason e = record e {
  status = EventStatus.rejected;
  rejection_reason = some reason;
  reviewed_by = some actor;
}

unfoldable pub reject_event : ℕ → String → Event → Db → Event × Db
reject_event actor reason e db =
    let e' = rejected_event actor reason e in
    (e', write_audit "event_rejected" e.id actor (cancel_event_jobs e.id (save_event e' db)).1)

abbrev pub started_event : ℕ → Event → Event
started_event now e = record e {
  archived_at = some now;
  finished_at = or_else e.finished_at (some now);
  status = if is_listed e.status then EventStatus.started else e.status;
}

-- The organizer says that the match has begun.
unfoldable pub mark_event_started : ℕ → ℕ → Event → Db → Event × Db
mark_event_started now actor e db =
    if is_some e.archived_at
    then (e, db)
    else (let e' = started_event now e in
        (
          e',
          write_audit "event_started_by_organizer" e.id actor
              (cancel_event_jobs e.id (save_event e' db)).1,
        ))

abbrev pub cancelled_event : ℕ → String → Event → Event
cancelled_event now reason e = record e {
  status = EventStatus.cancelled;
  cancel_reason = some reason;
  cancelled_at = some now;
  archived_at = or_else e.archived_at (some now);
  deep_link_active = false;
}

unfoldable pub cancel_event : ℕ → ℕ → String → Event → Db → Event × Db
cancel_event now actor reason e db =
    let e' = cancelled_event now reason e in
    (e', write_audit "event_cancelled" e.id actor (cancel_event_jobs e.id (save_event e' db)).1)

abbrev pub moved_event : ℕ → ℕ → ℕ → Event → Event
moved_event starts_at registration_ends_at credentials_send_at e = record e {
  starts_at = starts_at;
  registration_ends_at = registration_ends_at;
  credentials_send_at = credentials_send_at;
}

-- the jobs of an event that was moved
unfoldable pub reschedule_jobs : Settings → ℕ → Event → Db → Db
reschedule_jobs s now e db =
    let cleared = (cancel_event_jobs e.id db).1 in
    if is_listed e.status then schedule_event_jobs s now e cleared else cleared

unfoldable pub reschedule_event : Settings → ℕ → ℕ → Event → ℕ → ℕ → ℕ → Db → Reply Event Error × Db
reschedule_event s now actor e starts_at registration_ends_at credentials_send_at db =
    elim (validate_times now starts_at registration_ends_at credentials_send_at) [
      | some error ↦ (raised error, db)
      | none ↦
          let e' = moved_event starts_at registration_ends_at credentials_send_at e in
          (
            ok e',
            write_audit "event_rescheduled" e.id actor
                (reschedule_jobs s now e' (save_event e' db)),
          )
    ]

abbrev pub creds_of : ℕ → RoomCredential → Bool
creds_of event_id c = c.event_id == event_id

abbrev pub first_creds : ℕ → ℕ → String → String → RoomCredential
first_creds event_id actor room_id room_password = record {
  event_id = event_id;
  room_id_encrypted = room_id;
  room_password_encrypted = room_password;
  version = 1;
  sent_at = none;
  purged_at = none;
  last_changed_by = some actor;
  correction_required = false;
}

abbrev pub changed_creds : ℕ → String → String → RoomCredential → RoomCredential
changed_creds actor room_id room_password c = record c {
  room_id_encrypted = room_id;
  room_password_encrypted = room_password;
  version = c.version + 1;
  last_changed_by = some actor;
  correction_required = if is_some c.sent_at then true else c.correction_required;
}

-- `encrypt` is `encrypt_secret`, the Fernet cipher of a library
module _ (encrypt : String → String) where
  unfoldable pub update_credentials : ℕ → Event → String → String → Db → RoomCredential × Db
  update_credentials actor e room_id room_password db = elim (find (creds_of e.id) db.credentials) [
    | none ↦
        let c = first_creds e.id actor (encrypt room_id) (encrypt room_password) in
        (
          c,
          write_audit "room_credentials_updated" e.id actor
              (record db { credentials = insert c db.credentials }),
        )
    | some old ↦
        let c = changed_creds actor (encrypt room_id) (encrypt room_password) old in
        (
          c,
          write_audit "room_credentials_updated" e.id actor
              (record db { credentials = put (creds_of e.id) c db.credentials }),
        )
  ]
