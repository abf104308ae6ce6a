-- ===== src/Lifecycle/Reschedule.antt =====
-- What moving an event, or approving it after a rejection, does to the jobs it had.
use free_fire_room.Prelude.{
  ℕ, ◌≡◌, refl, true, none, some, inl, inr, String, find, Bool-cases, ok, ==_refl, arith,
}
use free_fire_room.Model.{
  Settings, is_listed, Slot, is_waiting_job, ScheduledJob, Event, Db, save_event, write_audit,
}
use free_fire_room.Scheduler.{with_key, cancelled_job, cancel_event_jobs, schedule_event_jobs}
use free_fire_room.Scheduler.Cancel.{schedule_after_cancel, cancel_hits}
use free_fire_room.Lifecycle.{
  validate_times, moved_event, reschedule_jobs, reschedule_event, rejected_event, reject_event,
  approve_event, approved_event,
}

-- the jobs of the event are cancelled, listed or not
reschedule_jobs_strand :
    (s : Settings) (now : ℕ) (e : Event) (slot : Slot) (j : ScheduledJob) (db : Db)
    → find (with_key e.id slot) db.jobs ≡ some j
    → is_waiting_job j.status ≡ true
    → find (with_key e.id slot) (reschedule_jobs s now e db).jobs ≡ some (cancelled_job j)
unfolding reschedule_jobs
reschedule_jobs_strand s now e slot j db f w = elim (Bool-cases (is_listed e.status)) [
  | inl on ↦ rw on (schedule_after_cancel s now e slot j db (cancel_event_jobs e.id db).1 refl f w)
  | inr off ↦ rw off (cancel_hits e.id slot j db f w)
]

-- the events are what they were
reschedule_jobs-events :
    (s : Settings) (now : ℕ) (e : Event) (db : Db) → (reschedule_jobs s now e db).events ≡ db.events
unfolding reschedule_jobs schedule_event_jobs cancel_event_jobs
reschedule_jobs-events s now e db = elim (Bool-cases (is_listed e.status)) [
  | inl on ↦ rw on refl
  | inr off ↦ rw off refl
]

-- Rescheduling an event to times that pass the checks succeeds and stores the event under the new
-- times, and leaves every job of the event that was waiting (its sending of the room's id and
-- password too) cancelled, at the old time.
pub reschedule_event_strands_jobs :
    (s : Settings) (now actor : ℕ) (e : Event) (starts ends creds : ℕ) (slot : Slot)
    (j : ScheduledJob) (db : Db)
    → validate_times now starts ends creds ≡ none
    → find (with_key e.id slot) db.jobs ≡ some j
    → is_waiting_job j.status ≡ true
    → let (r, db') = reschedule_event s now actor e starts ends creds db in
      (e' : Event) × (r ≡ ok e')
      × (db'.events e.id ≡ some e')
      × (e'.starts_at ≡ starts)
      × (e'.registration_ends_at ≡ ends)
      × (e'.credentials_send_at ≡ creds)
      × (find (with_key e.id slot) db'.jobs ≡ some (cancelled_job j))
unfolding reschedule_event
reschedule_event_strands_jobs s now actor e starts ends creds slot j db v f w =
    let e' = moved_event starts ends creds e in
    let saved = save_event e' db in
    let kept = reschedule_jobs-events s now e' saved in
    let stored : (reschedule_jobs s now e' saved).events e.id ≡ some e' =
      rw kept (ground (arith, ==_refl e.id)) in
    rw (v, reschedule_event)
      (e', refl, stored, refl, refl, refl, reschedule_jobs_strand s now e' slot j saved f w)

-- An event that is rejected and then approved is published with every job that was waiting before
-- the rejection cancelled.
pub approve_after_reject_strands_jobs :
    (s : Settings) (now rejecter approver : ℕ) (reason : String) (e : Event) (slot : Slot)
    (j : ScheduledJob) (db : Db)
    → find (with_key e.id slot) db.jobs ≡ some j
    → is_waiting_job j.status ≡ true
    → let (e', rejected_db) = reject_event rejecter reason e db in
      let (r, db') = approve_event s now approver e' rejected_db in
      (r ≡ ok (approved_event now approver e'))
      × (find (with_key e.id slot) db'.jobs ≡ some (cancelled_job j))
unfolding reject_event approve_event
approve_after_reject_strands_jobs s now rejecter approver reason e slot j db f w =
    let e' = rejected_event rejecter reason e in
    let stored = save_event e' db in
    let e'' = approved_event now approver e' in
    (
      refl,
      schedule_after_cancel s now e'' slot j stored
          (save_event e''
            (write_audit "event_rejected" e.id rejecter (cancel_event_jobs e.id stored).1))
          refl f w,
    )
