-- ===== src/System/Soundness.antt =====
-- No sequence of calls overbooks an event or loses the waitlist's references.
use free_fire_room.Prelude.{any, if_both, ℕ, ◌≤◌, ◌≡◌, ◌⊎◌, refl, subst, some, String, count, All}
use free_fire_room.Model.{Settings, Event, Db}
use free_fire_room.Registration.Seats.{confirmed_for}
use free_fire_room.Waitlist.Links.{IsLinked}
use free_fire_room.Social.{review_proof}
use free_fire_room.Waitlist.Invariant.{IsSound, promote_waitlist-IsSound, mark_ineligible-IsSound}
use free_fire_room.Waitlist.Joining.{register_user-IsSound}
use free_fire_room.Waitlist.Neutral.{IsSound-same}
use free_fire_room.Scheduler.{claim_due_jobs_sync}
use free_fire_room.Delivery.Seats.{deliver_one-IsSound}
use free_fire_room.Jobs.{handle_job, run_job}
use free_fire_room.Dispatch.Soundness.{send_credentials-IsSound, record_change-IsSound}
use free_fire_room.Winners.{resolve_claim, record_message}
use free_fire_room.System.Feedback.{
  approve_organizer-IsSound, get_or_apply-IsSound, reject_organizer-IsSound, create_review-IsSound,
  create_winner_claim-IsSound, create_player_report-IsSound, get_or_create_link-IsSound,
  apply_start_referral-IsSound, validate_pending_referrals-IsSound,
}
use free_fire_room.System.Calls.{
  submit-IsSound, approve-IsSound, reject-IsSound, start-IsSound, cancel-IsSound,
  reschedule-IsSound, create-IsSound, enter-IsSound, work-IsSound, retry-IsSound, proof-IsSound,
}
use free_fire_room.System.Copies.{copy_event-IsSound, repeat_event-IsSound}
use free_fire_room.Funnel.{record_view, view_of}
use free_fire_room.System.{Step, Reach}

-- Every call keeps both invariants.
pub Step-IsSound :
    {s : Settings} {encrypt : String → String} {db db' : Db}
    → Step s encrypt db db'
    → IsSound db
    → IsSound db'
unfolding handle_job claim_due_jobs_sync review_proof resolve_claim record_message record_view
Step-IsSound {s} {db = db} (Step.registers now bot user event source accept fresh unused) h =
    register_user-IsSound s now bot user event source accept fresh db h unused
Step-IsSound {db = db} (Step.demotes now reason r at) h =
    mark_ineligible-IsSound now reason r db h at
Step-IsSound {db = db} (Step.promotes now k) h = promote_waitlist-IsSound now k db h
Step-IsSound {encrypt = encrypt} {db = db}
      (Step.creates limit max_refs now o max_events actor fresh first_task form z) h =
    create-IsSound encrypt limit max_refs now o max_events actor fresh first_task form db h z
Step-IsSound {s} {db = db} (Step.submits approval now actor e f) h =
    submit-IsSound s e db h f approval now actor
Step-IsSound {s} {db = db} (Step.approves now actor e f) h = approve-IsSound s e db h f now actor
Step-IsSound {s} {db = db} (Step.rejects actor reason e f) h =
    reject-IsSound s e db h f actor reason
Step-IsSound {s} {db = db} (Step.starts now actor e f) h = start-IsSound s e db h f now actor
Step-IsSound {s} {db = db} (Step.cancels now actor reason e f) h =
    cancel-IsSound s e db h f now actor reason
Step-IsSound {s} {db = db} (Step.reschedules now actor e a b c f) h =
    reschedule-IsSound s e db h f now actor a b c
Step-IsSound {encrypt = encrypt} {db = db} (Step.enters_room actor e room_id password) h =
    enter-IsSound encrypt actor e room_id password db h
Step-IsSound {db = db} (Step.claims locked now worker limit) h = IsSound-same db _ refl refl refl h
Step-IsSound {db = db} (Step.works now j) h =
    IsSound-same (run_job now j db) _ refl refl refl (work-IsSound now j.job_type j db refl h)
Step-IsSound {db = db} (Step.retries now entity slot error) h =
    retry-IsSound now entity slot error db h
Step-IsSound {db = db} (Step.delivers now bot telegram e user creds f) h =
    deliver_one-IsSound now bot telegram e user creds db h f
Step-IsSound {db = db} (Step.sends_proof event user file_id task) h =
    proof-IsSound event user file_id task db h
Step-IsSound {db = db} (Step.reviews_proof now p approved reviewer remark) h =
    IsSound-same db _ refl refl refl h
Step-IsSound {s} {db = db} (Step.sends now bot telegram users got_lock j) h =
    send_credentials-IsSound s now bot telegram users got_lock j db h
Step-IsSound {db = db} (Step.applies now auto fresh user) h =
    get_or_apply-IsSound now auto fresh user db h
Step-IsSound {db = db} (Step.admits now o actor verified) h =
    approve_organizer-IsSound now o actor verified db h
Step-IsSound {db = db} (Step.declines now o actor reason) h =
    reject_organizer-IsSound now o actor reason db h
Step-IsSound {db = db} (Step.scores o event_type related actor delta) h =
    record_change-IsSound o event_type related actor delta db h
Step-IsSound {s} {db = db} (Step.reviews now user e rating prize_paid comment) h =
    create_review-IsSound s now user e rating prize_paid comment db h
Step-IsSound {db = db} (Step.claims_prize fresh user e screenshot) h =
    create_winner_claim-IsSound fresh user e screenshot db h
Step-IsSound {db = db} (Step.resolves now c approved reviewer) h =
    IsSound-same db _ refl refl refl h
Step-IsSound {db = db} (Step.writes c sender body delivered direction) h =
    IsSound-same db _ refl refl refl h
Step-IsSound {s} {db = db} (Step.reports lower casefold now user e reason body) h =
    create_player_report-IsSound s lower casefold now user e reason body db h
Step-IsSound {db = db} (Step.links fresh token user_id event_id campaign) h =
    get_or_create_link-IsSound fresh token user_id event_id campaign db h
Step-IsSound {db = db} (Step.follows_link invitee token) h =
    apply_start_referral-IsSound invitee token db h
Step-IsSound {db = db} (Step.validates now invitee) h =
    validate_pending_referrals-IsSound now invitee db h
Step-IsSound {encrypt = encrypt} {db = db}
      (Step.copies limit max_refs now o max_events actor fresh first_task e z) h =
    copy_event-IsSound encrypt limit max_refs now o max_events actor fresh first_task db h z e
Step-IsSound {s} {encrypt = encrypt} {db = db}
      (Step.repeats limit max_refs now o max_events actor fresh first_task e starts_at z) h =
    repeat_event-IsSound encrypt limit max_refs now o max_events actor fresh first_task db h z s e
      starts_at
Step-IsSound {db = db} (Step.looks event_id user_id source) h =
    if_both IsSound (any (view_of event_id user_id) db.views) db _ h
      (IsSound-same db _ refl refl refl h)

Reach-IsSound :
    {s : Settings} {encrypt : String → String} {db db' : Db}
    → Reach s encrypt db db'
    → IsSound db
    → IsSound db'
Reach-IsSound Reach.start h = h
Reach-IsSound (Reach.later r st) h = Step-IsSound st (Reach-IsSound r h)

-- From a database with sound counters and references, whatever sequence of calls of the services
-- runs, each stored event counts exactly its confirmed registrations, and they are no more than its
-- capacity, if it has one; each entry of the waitlist names a stored registration of its own event.
pub never_overbooked :
    (s : Settings) (encrypt : String → String) (db db' : Db)
    → IsSound db
    → Reach s encrypt db db'
    → ((k : ℕ) (e : Event)
        → db'.events k ≡ some e
        → (e.confirmed_count ≡ count (confirmed_for k) db'.registrations)
          × ((e.capacity ≡ 0) ⊎ (count (confirmed_for k) db'.registrations ≤ e.capacity)))
      × All (IsLinked db'.registrations) db'.waitlist
never_overbooked s encrypt db db' h r =
    let after = Reach-IsSound r h in
    (
      (λ k e f.
          let n = after.consistent.counted k e f in
          (n, subst (λ m. (e.capacity ≡ 0) ⊎ (m ≤ e.capacity)) n (after.consistent.fits k e f))),
      after.queued.linked,
    )
