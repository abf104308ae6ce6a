-- ===== src/System/Calls.antt =====
-- Each call of the services for events, jobs and screenshots keeps the seats and the waitlist sound.
use free_fire_room.Prelude.{
  ℕ, ◌≡◌, refl, sym, subst, inl, inr, Bool, not, Option, none, some, String, find, count, if_both,
  Option-cases, Bool-cases, is_some, Reply,
}
use free_fire_room.Model.{
  Settings, Event, User, RoomCredential, EventSocialTask, ScheduledJob, SocialProof, JobType,
  is_listed, is_approved_proof, Slot, Db, save_event,
}
use free_fire_room.Registration.Seats.{confirmed_for}
use free_fire_room.Waitlist.Links.{IsQueued}
use free_fire_room.Social.{SocialError, social_required, get_proof, task_ref, submit_proof}
use free_fire_room.Waitlist.Invariant.{IsSound}
use free_fire_room.Waitlist.Neutral.{HasSameSeats, IsSound-same, IsQueued-same, save_event-IsSound}
use free_fire_room.Scheduler.{schedule_event_jobs, cancel_event_jobs, with_key}
use free_fire_room.Lifecycle.{
  Error, validate_times, published_event, submit_for_publish, can_approve, approved_event,
  approve_event, rejected_event, reject_event, started_event, mark_event_started, cancelled_event,
  cancel_event, moved_event, reschedule_jobs, reschedule_event, update_credentials, creds_of,
}
use free_fire_room.Creation.{EventData, create_event, new_event, store_event}
use free_fire_room.Creation.Quota.{create_event_rule, store_event-keeps, create_event-IsConsistent}
use free_fire_room.Jobs.{
  run_job, start_event, finish_event, purge_credentials, retry_or_fail, is_called_off, can_start,
}

-- an event is written back with its seats, and then tables that do not matter
rewritten :
    (e e' : Event) (db db' : Db)
    → db.events e.id ≡ some e
    → HasSameSeats e e'
    → db'.events ≡ (save_event e' db).events
    → db'.registrations ≡ db.registrations
    → db'.waitlist ≡ db.waitlist
    → IsSound db
    → IsSound db'
rewritten e e' db db' f same p r w h =
    IsSound-same (save_event e' db) db' p r w (save_event-IsSound e e' db f same h)

module _ (s : Settings) (e : Event) (db : Db) (h : IsSound db) (f : db.events e.id ≡ some e) where
  pub submit-IsSound :
      (approval : Bool) (now actor : ℕ) → IsSound (submit_for_publish s approval now actor e db).1
  unfolding submit_for_publish schedule_event_jobs
  submit-IsSound approval now actor =
      let P : Reply Event Error × Db → Type 0 = λ x. IsSound x.1 in
      if_both P (not (is_some e.channel_id)) _ _ h (
        if_both P approval _ _ (rewritten e _ db _ f (refl, refl, refl) refl refl refl h)
          (rewritten e (published_event now e) db _ f (refl, refl, refl) refl refl refl h))

  pub approve-IsSound : (now actor : ℕ) → IsSound (approve_event s now actor e db).1
  unfolding approve_event schedule_event_jobs
  approve-IsSound now actor =
      let P : Reply Event Error × Db → Type 0 = λ x. IsSound x.1 in
      if_both P (not (can_approve e.status)) _ _ h
        (rewritten e (approved_event now actor e) db _ f (refl, refl, refl) refl refl refl h)

  pub reject-IsSound : (actor : ℕ) (reason : String) → IsSound (reject_event actor reason e db).1
  unfolding reject_event cancel_event_jobs
  reject-IsSound actor reason =
      rewritten e (rejected_event actor reason e) db _ f (refl, refl, refl) refl refl refl h

  pub start-IsSound : (now actor : ℕ) → IsSound (mark_event_started now actor e db).1
  unfolding mark_event_started cancel_event_jobs
  start-IsSound now actor =
      let P : Event × Db → Type 0 = λ x. IsSound x.1 in
      if_both P (is_some e.archived_at) _ _ h
        (rewritten e (started_event now e) db _ f (refl, refl, refl) refl refl refl h)

  pub cancel-IsSound :
      (now actor : ℕ) (reason : String) → IsSound (cancel_event now actor reason e db).1
  unfolding cancel_event cancel_event_jobs
  cancel-IsSound now actor reason =
      rewritten e (cancelled_event now reason e) db _ f (refl, refl, refl) refl refl refl h

  pub reschedule-IsSound :
      (now actor a b c : ℕ) → IsSound (reschedule_event s now actor e a b c db).1
  unfolding reschedule_event reschedule_jobs cancel_event_jobs schedule_event_jobs
  reschedule-IsSound now actor a b c = elim (Option-cases (validate_times now a b c)) [
    | inr (x, bad) ↦ rw (reschedule_event, bad) h
    | inl fine ↦ elim (Bool-cases (is_listed e.status)) [
      | inl on ↦
          rw (reschedule_event, fine, reschedule_jobs, on)
            (rewritten e (moved_event a b c e) db _ f (refl, refl, refl) refl refl refl h)
      | inr off ↦
          rw (reschedule_event, fine, reschedule_jobs, off)
            (rewritten e (moved_event a b c e) db _ f (refl, refl, refl) refl refl refl h)
    ]
  ]

pub create-IsSound :
    (encrypt : String → String) (limit max_refs now organizer_id : ℕ) (max_events : Option ℕ)
    (actor fresh first_task : ℕ) (form : EventData) (db : Db)
    → IsSound db
    → count (confirmed_for fresh) db.registrations ≡ 0
    → IsSound
        (create_event encrypt limit max_refs now organizer_id max_events actor fresh first_task form
          db).1
create-IsSound encrypt limit max_refs now organizer_id max_events actor fresh first_task form db h
      z =
    record {
      consistent =
          create_event-IsConsistent encrypt limit max_refs now organizer_id max_events actor fresh
            first_task form db h.consistent z;
      queued =
          create_event_rule encrypt limit max_refs now organizer_id max_events actor fresh
            first_task form db (λ x. IsQueued x.1) (λ x. h.queued)
            (λ room.
              let e = new_event fresh organizer_id form in
              let (p, q, r, w) = store_event-keeps encrypt actor first_task e form db in
              IsQueued-same db (store_event encrypt actor first_task e form db) r w h.queued);
    }

pub enter-IsSound :
    (encrypt : String → String) (actor : ℕ) (e : Event) (room_id password : String) (db : Db)
    → IsSound db
    → IsSound (update_credentials encrypt actor e room_id password db).1
unfolding update_credentials
enter-IsSound encrypt actor e room_id password db h =
    elim (Option-cases (find (creds_of e.id) db.credentials)) [
      | inl first ↦ rw (update_credentials, first) (IsSound-same db _ refl refl refl h)
      | inr (c, again) ↦ rw (update_credentials, again) (IsSound-same db _ refl refl refl h)
    ]

-- the event of a job, found by the job's entity
job_event :
    (k : ℕ) (e e' : Event) (db : Db)
    → IsSound db
    → db.events k ≡ some e
    → HasSameSeats e e'
    → IsSound (save_event e' db)
job_event k e e' db h f same =
    save_event-IsSound e e' db (subst (λ i. db.events i ≡ some e) (sym (h.consistent.ids k e f)) f)
      same h

start_event-IsSound : (k : ℕ) (db : Db) → IsSound db → IsSound (start_event (db.events k) db)
unfolding start_event
start_event-IsSound k db h = elim (Option-cases (db.events k)) [
  | inl gone ↦ rw gone h
  | inr (e, f) ↦
      rw f (if_both IsSound (can_start e.status) _ _ (job_event k e _ db h f (refl, refl, refl)) h)
]

finish_event-IsSound :
    (now k : ℕ) (db : Db) → IsSound db → IsSound (finish_event now (db.events k) db)
unfolding finish_event
finish_event-IsSound now k db h = elim (Option-cases (db.events k)) [
  | inl gone ↦ rw gone h
  | inr (e, f) ↦
      rw f
        (if_both IsSound (is_called_off e.status) _ _ h (job_event k e _ db h f (refl, refl, refl)))
]

purge-IsSound :
    (now k : ℕ) (c : Option RoomCredential) (db : Db)
    → IsSound db
    → IsSound (purge_credentials now k c db)
unfolding purge_credentials
purge-IsSound now k none db h = h
purge-IsSound now k (some c) db h =
    if_both IsSound (is_some c.purged_at) _ _ h (IsSound-same db _ refl refl refl h)

pub work-IsSound :
    (now : ℕ) (t : JobType) (j : ScheduledJob) (db : Db)
    → j.job_type ≡ t
    → IsSound db
    → IsSound (run_job now j db)
unfolding run_job
work-IsSound now JobType.event_start j db q h =
    rw (run_job, q) (start_event-IsSound j.entity_id db h)
work-IsSound now JobType.event_finish j db q h =
    rw (run_job, q) (finish_event-IsSound now j.entity_id db h)
work-IsSound now JobType.purge_credentials j db q h =
    rw (run_job, q)
      (purge-IsSound now j.entity_id (find (creds_of j.entity_id) db.credentials) db h)
work-IsSound now JobType.send_credentials j db q h = rw (run_job, q) h
work-IsSound now JobType.reminder j db q h = rw (run_job, q) h
work-IsSound now JobType.recheck_requirements j db q h = rw (run_job, q) h
work-IsSound now JobType.broadcast j db q h = rw (run_job, q) h
work-IsSound now JobType.membership_recheck j db q h = rw (run_job, q) h
work-IsSound now JobType.channel_access_recheck j db q h = rw (run_job, q) h

pub retry-IsSound :
    (now entity : ℕ) (slot : Slot) (error : String) (db : Db)
    → IsSound db
    → IsSound (retry_or_fail now entity slot error db)
unfolding retry_or_fail
retry-IsSound now entity slot error db h =
    elim (Option-cases (find (with_key entity slot) db.jobs)) [
      | inl gone ↦ rw (retry_or_fail, gone) h
      | inr (j, f) ↦ rw (retry_or_fail, f) (IsSound-same db _ refl refl refl h)
    ]

pub proof-IsSound :
    (event : Event) (user : User) (file_id : String) (task : Option EventSocialTask) (db : Db)
    → IsSound db
    → IsSound (submit_proof db event user file_id task).1
unfolding submit_proof
proof-IsSound event user file_id task db h =
    let P : Reply SocialProof SocialError × Db → Type 0 = λ x. IsSound x.1 in
    elim (Bool-cases (not (social_required event))) [
      | inl off ↦ rw (submit_proof, off) h
      | inr on ↦ elim (Option-cases (get_proof db event.id user.id (task_ref task))) [
        | inl first ↦ rw (submit_proof, on, first) (IsSound-same db _ refl refl refl h)
        | inr (p, again) ↦
            rw (submit_proof, on, again)
              (if_both P (is_approved_proof p.status) _ _ h (IsSound-same db _ refl refl refl h))
      ]
    ]
