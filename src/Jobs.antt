-- ===== src/Jobs.antt =====
-- The workers of backend/app/workers/tasks.py: what a job that was claimed does, and what becomes of
-- one that raised. A job is written back by its key.
pub mod Retry
pub mod Finish
use free_fire_room.Prelude.{
  ℕ, zero, suc, ◌+◌, ◌*◌, Bool, true, false, not, ◌&&◌, ◌||◌, Option, none, some, List, [], ◌∷◌,
  String, ltb, leb, ◌==◌, if◌then◌else◌, is_some, or_else, find, put, insert,
}
use free_fire_room.Model.{
  JobType, JobStatus, EventStatus, Slot, ScheduledJob, Event, RoomCredential, Db, save_event,
}
use free_fire_room.Scheduler.{with_key}
use free_fire_room.Lifecycle.{creds_of}

abbrev pub save_job : ScheduledJob → Db → Db
save_job j db = record db { jobs = put (with_key j.entity_id j.slot) j db.jobs }

abbrev pub done_job : ℕ → ScheduledJob → ScheduledJob
done_job now j = record j { status = JobStatus.done; completed_at = some now }

-- `status not in {CANCELLED, FINISHED}`
abbrev pub can_start : EventStatus → Bool
can_start EventStatus.cancelled = false
can_start EventStatus.finished = false
can_start _ = true

abbrev pub is_called_off : EventStatus → Bool
is_called_off EventStatus.cancelled = true
is_called_off _ = false

unfoldable pub start_event : Option Event → Db → Db
start_event none db = db
start_event (some e) db =
    if can_start e.status then save_event (record e { status = EventStatus.started }) db else db

unfoldable pub finish_event : ℕ → Option Event → Db → Db
finish_event now none db = db
finish_event now (some e) db =
    if is_called_off e.status
    then db
    else save_event
        (record e {
          status = EventStatus.finished;
          finished_at = or_else e.finished_at (some now);
          archived_at = or_else e.archived_at (some now);
        })
        db

abbrev pub purged_creds : ℕ → RoomCredential → RoomCredential
purged_creds now c = record c {
  room_id_encrypted = "purged";
  room_password_encrypted = "purged";
  purged_at = some now;
}

unfoldable pub purge_credentials : ℕ → ℕ → Option RoomCredential → Db → Db
purge_credentials now event_id none db = db
purge_credentials now event_id (some c) db =
    if is_some c.purged_at
    then db
    else record db { credentials = put (creds_of event_id) (purged_creds now c) db.credentials }

-- the job types that never talk to Telegram
unfoldable pub run_job : ℕ → ScheduledJob → Db → Db
run_job now j db = elim j.job_type [
  | JobType.event_start ↦ start_event (db.events j.entity_id) db
  | JobType.event_finish ↦ finish_event now (db.events j.entity_id) db
  | JobType.purge_credentials ↦
      purge_credentials now j.entity_id (find (creds_of j.entity_id) db.credentials) db
  | _ ↦ db
]

unfoldable pub handle_job : ℕ → ScheduledJob → Db → Db
handle_job now j db = save_job (done_job now j) (run_job now j db)

abbrev pub pow2 : ℕ → ℕ
pow2 zero = 1
pow2 (suc n) = 2 * pow2 n

abbrev pub min : ℕ → ℕ → ℕ
min a b = if leb a b then a else b

-- the wait before the next try, in microseconds
abbrev pub backoff : ℕ → ℕ
backoff attempts = min 300 (pow2 attempts) * 1000000

abbrev pub failed_job : ℕ → String → ScheduledJob → ScheduledJob
failed_job now error j =
    if leb j.max_attempts j.attempts
    then record j { last_error = some error; status = JobStatus.failed }
    else record j {
      last_error = some error;
      status = JobStatus.pending;
      run_at = now + backoff j.attempts;
    }

-- `db` is the session after the rollback; the job is read again by its key.
unfoldable pub retry_or_fail : ℕ → ℕ → Slot → String → Db → Db
retry_or_fail now entity slot error db = elim (find (with_key entity slot) db.jobs) [
  | none ↦ db
  | some stored ↦ save_job (failed_job now error stored) db
]
