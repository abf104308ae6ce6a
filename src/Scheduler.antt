-- ===== src/Scheduler.antt =====
-- backend/app/services/scheduler.py. A subtraction of times that would pass the start of the
-- calendar raises in Python; here it stops at 0.
pub mod Keys
pub mod Cancel
pub mod Claim
pub mod Marks
use free_fire_room.Prelude.{
  ℕ, zero, suc, ◌+◌, ◌-◌, ◌*◌, Bool, true, false, not, ◌&&◌, Option, none, some, List, [], ◌∷◌,
  ◌++◌, String, ltb, leb, ◌==◌, if◌then◌else◌, find, select, count, put, update_where, insert, take,
  sort_by, map,
}
use free_fire_room.Model.{
  Settings, minute, day, JobType, JobStatus, no_payload, Slot, same_slot, is_pending_job,
  is_waiting_job, is_done_job, ScheduledJob, Event, Db,
}

-- one entry of the list `jobs`: what, when, and the last part of the key
pub record Plan : Type 0 where
  pub job_type : JobType
  pub run_at : ℕ
  pub slot : Slot

-- `event.reminder_offsets_minutes or [60, 10]`
abbrev pub offsets_of : Event → List ℕ
offsets_of e = elim e.reminder_offsets_minutes [ [] ↦ 60 ∷ 10 ∷ [] | m ∷ ms ↦ m ∷ ms ]

abbrev pub reminder_at : Event → ℕ → ℕ
reminder_at e m = e.starts_at - m * minute

abbrev pub reminder_plan : Event → ℕ → Plan
reminder_plan e m = record {
  job_type = JobType.reminder;
  run_at = reminder_at e m;
  slot = Slot.rem m;
}

-- only those whose moment has not come
unfoldable pub reminders : ℕ → Event → List ℕ → List Plan
reminders now e [] = []
reminders now e (m ∷ ms) =
    let rest = reminders now e ms in
    if ltb now (reminder_at e m) then reminder_plan e m ∷ rest else rest

abbrev pub plan : JobType → ℕ → Slot → Plan
plan t at slot = record { job_type = t; run_at = at; slot = slot }

-- the list `jobs` of `schedule_event_jobs`
unfoldable pub event_plans : Settings → ℕ → Event → List Plan
unfolding reminders
event_plans s now e =
    plan JobType.send_credentials e.credentials_send_at Slot.creds
    ∷ plan JobType.event_start e.starts_at Slot.start
    ∷ plan JobType.event_finish (e.starts_at + s.auto_archive_minutes * minute) Slot.finish
    ∷ plan JobType.purge_credentials (e.starts_at + 7 * day) Slot.purge
    ∷ plan JobType.recheck_requirements (e.credentials_send_at - 20 * minute) Slot.recheck
    ∷ reminders now e (offsets_of e)

-- `ScheduledJob.idempotency_key == _key(job_type, event.id, extra)`
abbrev pub with_key : ℕ → Slot → ScheduledJob → Bool
with_key entity slot j = j.entity_id == entity && same_slot j.slot slot

abbrev pub new_job : ℕ → Plan → ScheduledJob
new_job entity p = record {
  job_type = p.job_type;
  entity_id = entity;
  slot = p.slot;
  run_at = p.run_at;
  status = JobStatus.pending;
  attempts = 0;
  max_attempts = 8;
  last_error = none;
  locked_at = none;
  locked_by = none;
  completed_at = none;
  payload = no_payload;
}

abbrev is_send : JobType → Bool
is_send JobType.send_credentials = true
is_send _ = false

-- `run_at < now - timedelta(minutes=1) and job_type != SEND_CREDENTIALS`
abbrev pub is_stale : ℕ → Plan → Bool
is_stale now p = ltb (p.run_at + minute) now && not (is_send p.job_type)

-- the rest of the loop's body, for the job that has the plan's key already
abbrev pub renewed : Plan → ScheduledJob → ScheduledJob
renewed p j =
    if is_waiting_job j.status
    then record j { run_at = p.run_at; status = JobStatus.pending }
    else j

unfoldable pub schedule_one : ℕ → ℕ → Plan → List ScheduledJob → List ScheduledJob
schedule_one now entity p jobs =
    if is_stale now p then jobs else elim (find (with_key entity p.slot) jobs) [
      | some j ↦ put (with_key entity p.slot) (renewed p j) jobs
      | none ↦ insert (new_job entity p) jobs
    ]

unfoldable pub schedule_all : ℕ → ℕ → List Plan → List ScheduledJob → List ScheduledJob
schedule_all now entity [] jobs = jobs
schedule_all now entity (p ∷ ps) jobs = schedule_all now entity ps (schedule_one now entity p jobs)

unfoldable pub schedule_event_jobs : Settings → ℕ → Event → Db → Db
schedule_event_jobs s now e db = record db {
  jobs = schedule_all now e.id (event_plans s now e) db.jobs;
}

-- `entity_id == event_id` and `status in (PENDING, FAILED)`
abbrev pub to_cancel : ℕ → ScheduledJob → Bool
to_cancel event_id j = j.entity_id == event_id && is_waiting_job j.status

abbrev pub cancelled_job : ScheduledJob → ScheduledJob
cancelled_job j = record j { status = JobStatus.cancelled }

-- `cancel_event_jobs` and `cancel_event_jobs_sync`
unfoldable pub cancel_event_jobs : ℕ → Db → ℕ × Db
cancel_event_jobs event_id db = (
  count (to_cancel event_id) db.jobs,
  record db { jobs = update_where (to_cancel event_id) cancelled_job db.jobs },
)

unfoldable pub reminder_plans : Event → List ℕ → List Plan
reminder_plans e [] = []
reminder_plans e (m ∷ ms) = reminder_plan e m ∷ reminder_plans e ms

-- the list of the workers' variant: no finish, no purge, and reminders of any moment
unfoldable pub event_plans_sync : Event → List Plan
event_plans_sync e =
    plan JobType.send_credentials e.credentials_send_at Slot.creds
    ∷ plan JobType.event_start e.starts_at Slot.start
    ∷ plan JobType.recheck_requirements (e.credentials_send_at - 20 * minute) Slot.recheck
    ∷ reminder_plans e (offsets_of e)

abbrev pub renewed_sync : Plan → ScheduledJob → ScheduledJob
renewed_sync p j = record j {
  run_at = p.run_at;
  status = if is_done_job j.status then j.status else JobStatus.pending;
}

unfoldable pub schedule_one_sync : ℕ → Plan → List ScheduledJob → List ScheduledJob
schedule_one_sync entity p jobs = elim (find (with_key entity p.slot) jobs) [
  | some j ↦ put (with_key entity p.slot) (renewed_sync p j) jobs
  | none ↦ insert (new_job entity p) jobs
]

unfoldable pub schedule_all_sync : ℕ → List Plan → List ScheduledJob → List ScheduledJob
schedule_all_sync entity [] jobs = jobs
schedule_all_sync entity (p ∷ ps) jobs =
    schedule_all_sync entity ps (schedule_one_sync entity p jobs)

unfoldable pub schedule_event_jobs_sync : Event → Db → Db
schedule_event_jobs_sync e db = record db {
  jobs = schedule_all_sync e.id (event_plans_sync e) db.jobs;
}

-- a job whose moment has come; `locked` says which rows another worker holds (SKIP LOCKED)
abbrev pub is_due : (ScheduledJob → Bool) → ℕ → ScheduledJob → Bool
is_due locked now j = (is_pending_job j.status && leb j.run_at now) && not (locked j)

abbrev pub claimed_job : ℕ → String → ScheduledJob → ScheduledJob
claimed_job now worker j = record j {
  status = JobStatus.running;
  locked_at = some now;
  locked_by = some worker;
  attempts = j.attempts + 1;
}

unfoldable pub due_jobs : (ScheduledJob → Bool) → ℕ → ℕ → List ScheduledJob → List ScheduledJob
due_jobs locked now limit jobs =
    take limit (sort_by (λ j. j.run_at) (select (is_due locked now) jobs))

-- the rows of the claimed jobs are written back
unfoldable pub mark_claimed : ℕ → String → List ScheduledJob → List ScheduledJob → List ScheduledJob
mark_claimed now worker [] jobs = jobs
mark_claimed now worker (j ∷ js) jobs =
    mark_claimed now worker js (put (with_key j.entity_id j.slot) (claimed_job now worker j) jobs)

unfoldable pub claim_due_jobs_sync :
    (ScheduledJob → Bool) → ℕ → String → ℕ → Db → List ScheduledJob × Db
claim_due_jobs_sync locked now worker limit db =
    let due = due_jobs locked now limit db.jobs in
    (map (claimed_job now worker) due, record db { jobs = mark_claimed now worker due db.jobs })
