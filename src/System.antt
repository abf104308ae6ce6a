-- ===== src/System.antt =====
-- The services together: what one call of any of them, by a handler or a worker, does to the
-- database. A handler loads the event, the registration or the job that it works on from the database
-- first, so each step has a premise that says so; an id of a new row is one that is not in use. try_confirm_with_lock_sync
-- is no step: nothing but the tests calls it.
pub mod Calls
pub mod Copies
pub mod Feedback
pub mod Soundness
use free_fire_room.Prelude.{
  ℕ, ℤ, Chars, ◌≡◌, Bool, false, Option, some, none, List, String, find, any, count, ◌==◌,
}
use free_fire_room.Model.{
  Settings, Event, Registration, User, RoomCredential, Slot, ScheduledJob, EventSocialTask,
  SocialProof, Db, Organizer, WinnerClaim, WinnerMessageDirection,
}
use free_fire_room.Telegram.{Bot}
use free_fire_room.Registration.{with_id, register_user}
use free_fire_room.Registration.Seats.{confirmed_for}
use free_fire_room.Waitlist.{mark_ineligible, promote_waitlist}
use free_fire_room.Scheduler.{claim_due_jobs_sync}
use free_fire_room.Lifecycle.{
  submit_for_publish, approve_event, reject_event, mark_event_started, cancel_event,
  reschedule_event, update_credentials,
}
use free_fire_room.Creation.{EventData, create_event}
use free_fire_room.Creation.Copies.{copy_event, repeat_event}
use free_fire_room.Delivery.{Sending, deliver_one}
use free_fire_room.Jobs.{handle_job, retry_or_fail}
use free_fire_room.Dispatch.{send_credentials}
use free_fire_room.Trust.{get_or_apply, approve_organizer, reject_organizer, record_change}
use free_fire_room.Reviews.{create_review}
use free_fire_room.Funnel.{record_view}
use free_fire_room.Winners.{create_winner_claim, resolve_claim, record_message}
use free_fire_room.Reports.{create_player_report}
use free_fire_room.Referrals.{get_or_create_link, apply_start_referral, validate_pending_referrals}
use free_fire_room.Social.{submit_proof, review_proof}

module _ (s : Settings) (encrypt : String → String) where
  pub data Step : Db → Db → Type 0 where
    registers :
        {db : Db} (now : ℕ) (bot : Option Bot) (user : User) (event : Event)
        (source : Option String) (accept : Bool) (fresh : ℕ)
        → find (with_id fresh) db.registrations ≡ none
        → Step db (register_user s now bot user event source accept fresh db).1
    demotes :
        {db : Db} (now : ℕ) (reason : String) (r : Registration)
        → find (with_id r.id) db.registrations ≡ some r
        → Step db (mark_ineligible now reason r db)
    promotes : {db : Db} (now event_id : ℕ) → Step db (promote_waitlist now event_id db).1
    creates :
        {db : Db} (limit max_refs now organizer_id : ℕ) (max_events : Option ℕ)
        (actor fresh first_task : ℕ) (form : EventData)
        → count (confirmed_for fresh) db.registrations ≡ 0
        → Step db
            (create_event encrypt limit max_refs now organizer_id max_events actor fresh first_task
              form db).1
    submits :
        {db : Db} (approval : Bool) (now actor : ℕ) (e : Event)
        → db.events e.id ≡ some e
        → Step db (submit_for_publish s approval now actor e db).1
    approves :
        {db : Db} (now actor : ℕ) (e : Event)
        → db.events e.id ≡ some e
        → Step db (approve_event s now actor e db).1
    rejects :
        {db : Db} (actor : ℕ) (reason : String) (e : Event)
        → db.events e.id ≡ some e
        → Step db (reject_event actor reason e db).1
    starts :
        {db : Db} (now actor : ℕ) (e : Event)
        → db.events e.id ≡ some e
        → Step db (mark_event_started now actor e db).1
    cancels :
        {db : Db} (now actor : ℕ) (reason : String) (e : Event)
        → db.events e.id ≡ some e
        → Step db (cancel_event now actor reason e db).1
    reschedules :
        {db : Db} (now actor : ℕ) (e : Event) (starts_at ends_at send_at : ℕ)
        → db.events e.id ≡ some e
        → Step db (reschedule_event s now actor e starts_at ends_at send_at db).1
    enters_room :
        {db : Db} (actor : ℕ) (e : Event) (room_id password : String)
        → Step db (update_credentials encrypt actor e room_id password db).1
    claims :
        {db : Db} (locked : ScheduledJob → Bool) (now : ℕ) (worker : String) (limit : ℕ)
        → Step db (claim_due_jobs_sync locked now worker limit db).1
    works : {db : Db} (now : ℕ) (j : ScheduledJob) → Step db (handle_job now j db)
    retries :
        {db : Db} (now entity : ℕ) (slot : Slot) (error : String)
        → Step db (retry_or_fail now entity slot error db)
    delivers :
        {db : Db} (now : ℕ) (bot : Bot) (telegram : Sending) (e : Event) (user : User)
        (creds : RoomCredential)
        → db.events e.id ≡ some e
        → Step db (deliver_one now bot telegram e user creds db).1
    sends_proof :
        {db : Db} (event : Event) (user : User) (file_id : String) (task : Option EventSocialTask)
        → Step db (submit_proof db event user file_id task).1
    reviews_proof :
        {db : Db} (now : ℕ) (p : SocialProof) (approved : Bool) (reviewer : ℕ)
        (note : Option String)
        → Step db (review_proof now p approved reviewer note db)
    sends :
        {db : Db} (now : ℕ) (bot : Bot) (telegram : User → Sending) (users : ℕ → Option User)
        (got_lock : Bool) (j : ScheduledJob)
        → Step db (send_credentials s now bot telegram users got_lock j db)
    applies :
        {db : Db} (now : ℕ) (auto : Bool) (fresh : ℕ) (user : User)
        → Step db (get_or_apply now auto fresh user db)
    admits :
        {db : Db} (now : ℕ) (o : Organizer) (actor : ℕ) (verified : Bool)
        → Step db (approve_organizer now o actor verified db)
    declines :
        {db : Db} (now : ℕ) (o : Organizer) (actor : ℕ) (reason : String)
        → Step db (reject_organizer now o actor reason db)
    scores :
        {db : Db} (o : Organizer) (event_type : String) (related actor : Option ℕ)
        (delta : Option ℤ)
        → Step db (record_change o event_type related actor delta db).1
    reviews :
        {db : Db} (now : ℕ) (user : User) (event : Event) (rating : ℕ) (prize_paid : String)
        (comment : Option String)
        → Step db (create_review s now user event rating prize_paid comment db).1
    claims_prize :
        {db : Db} (fresh : ℕ) (user : User) (event : Event) (screenshot : String)
        → Step db (create_winner_claim fresh user event screenshot db).1
    resolves :
        {db : Db} (now : ℕ) (c : WinnerClaim) (approved : Bool) (reviewer : ℕ)
        → Step db (resolve_claim now c approved reviewer db)
    writes :
        {db : Db} (c : WinnerClaim) (sender : ℕ) (body : String) (delivered : Bool)
        (direction : WinnerMessageDirection)
        → Step db (record_message c sender body delivered direction db)
    reports :
        {db : Db} (lower casefold : Chars → Chars) (now : ℕ) (user : User) (event : Event)
        (reason : String) (body : Chars)
        → Step db (create_player_report s lower casefold now user event reason body db).1
    links :
        {db : Db} (fresh : ℕ) (token : String) (user_id : ℕ) (event_id : Option ℕ)
        (campaign : String)
        → Step db (get_or_create_link fresh token user_id event_id campaign db).1
    follows_link :
        {db : Db} (invitee : User) (token : String)
        → Step db (apply_start_referral invitee token db).1
    validates :
        {db : Db} (now : ℕ) (invitee : User) → Step db (validate_pending_referrals now invitee db).1
    copies :
        {db : Db} (limit max_refs now organizer_id : ℕ) (max_events : Option ℕ)
        (actor fresh first_task : ℕ) (e : Event)
        → count (confirmed_for fresh) db.registrations ≡ 0
        → Step db
            (copy_event encrypt limit max_refs now organizer_id max_events actor fresh first_task e
              db).1
    repeats :
        {db : Db} (limit max_refs now organizer_id : ℕ) (max_events : Option ℕ)
        (actor fresh first_task : ℕ) (e : Event) (starts_at : ℕ)
        → count (confirmed_for fresh) db.registrations ≡ 0
        → Step db
            (repeat_event encrypt limit max_refs now organizer_id max_events actor fresh first_task
              s e starts_at db).1
    looks :
        {db : Db} (event_id user_id : ℕ) (source : Option String)
        → Step db (record_view event_id user_id source db)

  -- any number of calls, one after another
  pub data Reach : Db → Db → Type 0 where
    start : {db : Db} → Reach db db
    later : {db mid after : Db} → Reach db mid → Step mid after → Reach db after
