-- ===== src/Tests/Work.antt =====
-- The jobs of an event and the sending of its room.
use free_fire_room.Prelude.{
  ◌⊎◌, ◌==◌, ◌&&◌, ◌*◌, ◌≤◌, ◌≡◌, refl, Bool, true, false, some, ok, All, length, find, count,
  if◌then◌else◌, has_text, is_blank,
}
use free_fire_room.Model.{JobType, Event, default_settings, Slot, ScheduledJob, JobStatus}
use free_fire_room.Scheduler.{with_key, cancelled_job, cancel_event_jobs, claim_due_jobs_sync}
use free_fire_room.Scheduler.Cancel.{is_open_job, is_open_of, cancel_event_jobs_lem}
use free_fire_room.Scheduler.Claim.{IsClaimed, claim_due_jobs_sync_lem}
use free_fire_room.Lifecycle.{validate_times, reschedule_event}
use free_fire_room.Lifecycle.Reschedule.{reschedule_event_strands_jobs}
use free_fire_room.Telegram.{Bot, Answer, ChatMemberStatus, get_membership}
use free_fire_room.Delivery.{
  Outcome, Sending, deliver_one, serve, verdict, recheck_user, collect_required_chat_ids,
  global_chats, own_chats, record_sending,
}
use free_fire_room.Delivery.Once.{deliver_one-idempotent}
use free_fire_room.Bans.{is_banned_sync, ban_active_clause}
use free_fire_room.Social.{social_gate_ok, social_required, list_tasks, proofs_for_user, gate_from}
use free_fire_room.Jobs.{handle_job}
use free_fire_room.Jobs.Finish.{IsOver, handle_job-IsOver}
use free_fire_room.Jobs.Retry.{failed_tries, failed_tries_end}
use free_fire_room.Tests.Data.{cup, player, room, sending_job, db}

abbrev members : Bot
members chat user = Answer.found ChatMemberStatus.member true

abbrev silent : Bot
silent chat user = Answer.transient

abbrev no_lock : ScheduledJob → Bool
no_lock j = false

cancel_event_jobs_lem_example :
    let (n, db') = cancel_event_jobs 1 db in
    (n ≡ count (is_open_of 1) db.jobs)
    × (count (is_open_of 1) db'.jobs ≡ 0)
    × (find (with_key 1 Slot.creds) db'.jobs
        ≡ some (
            if 1 == 1 && is_open_job sending_job.status
            then record sending_job { status = JobStatus.cancelled }
            else sending_job))
    × All (λ x. (x.entity_id == 1) ≡ false) (claim_due_jobs_sync no_lock 950 "w" 25 db').0
cancel_event_jobs_lem_example =
    cancel_event_jobs_lem 1 1 Slot.creds sending_job no_lock 950 "w" 25 db refl

claim_due_jobs_sync_lem_example :
    let (claimed, db') = claim_due_jobs_sync no_lock 950 "w" 25 db in
    (length claimed ≤ 25)
    × All (IsClaimed no_lock 950 "w" db.jobs db'.jobs) claimed
    × ((find (with_key 1 Slot.creds) db'.jobs ≡ some sending_job)
        ⊎ ((sending_job.status ≡ JobStatus.pending)
            × (sending_job.run_at ≤ 950)
            × (no_lock sending_job ≡ false)))
claim_due_jobs_sync_lem_example =
    claim_due_jobs_sync_lem no_lock 950 "w" 25 1 Slot.creds sending_job db (refl, tt) refl

-- the sending of the room is lost when the event is moved
reschedule_event_strands_jobs_example :
    let (r, db') = reschedule_event default_settings 500 1 cup 2000 2000 1900 db in
    (e' : Event) × (r ≡ ok e')
    × (db'.events 1 ≡ some e')
    × (e'.starts_at ≡ 2000)
    × (e'.registration_ends_at ≡ 2000)
    × (e'.credentials_send_at ≡ 1900)
    × (find (with_key 1 Slot.creds) db'.jobs ≡ some (cancelled_job sending_job))
unfolding validate_times
reschedule_event_strands_jobs_example =
    reschedule_event_strands_jobs default_settings 500 1 cup 2000 2000 1900 Slot.creds sending_job
      db refl refl refl

deliver_one-idempotent_example :
    let db' = (deliver_one 950 members (Sending.delivered 9) cup (player 1) room db).1 in
    deliver_one 960 silent (Sending.broken "x") cup (player 1) room db' ≡ (Outcome.already, db')
unfolding deliver_one serve verdict recheck_user collect_required_chat_ids global_chats own_chats
    record_sending is_banned_sync ban_active_clause social_gate_ok social_required list_tasks
    proofs_for_user gate_from get_membership has_text is_blank
deliver_one-idempotent_example =
    deliver_one-idempotent 950 members (Sending.delivered 9) cup (player 1) room db 960 silent
      (Sending.broken "x") refl

failed_tries_end_example :
    ((failed_tries (λ n. 1000 * n) "w" "boom" 3 sending_job).status ≡ JobStatus.failed)
    × ((failed_tries (λ n. 1000 * n) "w" "boom" 3 sending_job).attempts ≡ sending_job.max_attempts)
failed_tries_end_example = failed_tries_end (λ n. 1000 * n) "w" "boom" 2 sending_job refl

abbrev finishing_job : ScheduledJob
finishing_job = record sending_job { job_type = JobType.event_finish; slot = Slot.finish }

handle_job-IsOver_example :
    IsOver default_settings 5000 ((handle_job 4000 finishing_job db).events 1)
handle_job-IsOver_example =
    handle_job-IsOver default_settings 4000 5000 finishing_job cup db refl refl refl
