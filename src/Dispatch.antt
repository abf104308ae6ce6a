-- ===== src/Dispatch.antt =====
-- `_send_credentials` of backend/app/workers/tasks.py: the job that sends a room to all confirmed
-- players of an event, with `_expire_missing_credentials`. Redis' lock, Telegram's answers and the
-- table of users, which the worker only reads, are parameters; the messages to organizers and admins
-- change nothing and are left out.
pub mod Soundness
pub mod Sweep
use free_fire_room.Prelude.{
  ℕ, zero, suc, ◌+◌, ◌*◌, Bool, true, false, not, ◌&&◌, ◌||◌, Option, none, some, List, [], ◌∷◌,
  String, ltb, leb, ◌==◌, if◌then◌else◌, is_some, or_else, find, select, put,
}
use free_fire_room.Model.{
  Settings, minute, EventStatus, JobStatus, is_confirmed, Event, Registration, User, RoomCredential,
  ScheduledJob, Payload, Organizer, Db, save_event, organizer_id,
}
use free_fire_room.Windows.{credentials_deadline, fill_deadline, creds_were_provided}
use free_fire_room.Telegram.{Bot}
use free_fire_room.Lifecycle.{creds_of}
use free_fire_room.Delivery.{Sending, Outcome, deliver_one}
use free_fire_room.Jobs.{save_job, min}
use free_fire_room.Trust.{record_change}

abbrev pub max_cred_prompts : ℕ
max_cred_prompts = 4

-- MAX_CRED_PROMPT_GAPS, in minutes, the last one for every later prompt
abbrev pub prompt_gap : ℕ → ℕ
prompt_gap zero = 0
prompt_gap (suc zero) = 5
prompt_gap (suc (suc zero)) = 15
prompt_gap _ = 45

-- `status in {CANCELLED, REJECTED, DRAFT}`
abbrev pub is_not_sendable : EventStatus → Bool
is_not_sendable EventStatus.cancelled = true
is_not_sendable EventStatus.rejected = true
is_not_sendable EventStatus.draft = true
is_not_sendable _ = false

-- what happened to the players of one round
pub record Tally : Type 0 where
  pub sent : ℕ
  pub failed : ℕ
  pub skipped : ℕ
  pub not_admin : ℕ
  pub unverified : ℕ

abbrev pub no_tally : Tally
no_tally = record { sent = 0; failed = 0; skipped = 0; not_admin = 0; unverified = 0 }

abbrev pub add_outcome : Outcome → Tally → Tally
add_outcome Outcome.sent t = record t { sent = t.sent + 1 }
add_outcome Outcome.already t = record t { skipped = t.skipped + 1 }
add_outcome Outcome.check_failed t = record t { not_admin = t.not_admin + 1 }
add_outcome Outcome.check_unavailable t = record t { unverified = t.unverified + 1 }
add_outcome Outcome.skipped t = record t { skipped = t.skipped + 1 }
add_outcome Outcome.social_pending t = record t { skipped = t.skipped + 1 }
add_outcome _ t = record t { failed = t.failed + 1 }

-- the organizer's score after a rule
abbrev pub score_organizer : Event → String → Db → Db
score_organizer e rule db = elim (find (organizer_id e.organizer_id) db.organizers) [
  | none ↦ db
  | some o ↦ (record_change o rule (some e.id) none none db).1
]

-- the organizer let the deadline pass
unfoldable pub expire_missing_credentials : ℕ → Event → ScheduledJob → Db → Db
expire_missing_credentials now e j db = score_organizer e "credentials_missed" (
    save_event
      (record e {
        status = EventStatus.finished;
        finished_at = or_else e.finished_at (some now);
        archived_at = or_else e.archived_at (or_else e.finished_at (some now));
      })
      (save_job
        (record j {
          status = JobStatus.failed;
          last_error = some "organizer_did_not_send_credentials";
          completed_at = some now;
        })
        db))

-- whether the organizer is asked for the room once more
abbrev pub should_prompt : ℕ → Payload → Bool
should_prompt now p = ltb p.prompt_count max_cred_prompts && (elim p.last_prompt_ts [
  | none ↦ true
  | some t ↦ leb (t + prompt_gap p.prompt_count * minute) now
])

-- the job waits for the organizer
unfoldable pub wait_for_room : ℕ → ScheduledJob → ScheduledJob
wait_for_room now j =
    let p = j.payload in
    record j {
      payload =
          if should_prompt now p
          then record p { prompt_count = p.prompt_count + 1; last_prompt_ts = some now }
          else p;
      status = JobStatus.pending;
      run_at = now + (if ltb p.prompt_count max_cred_prompts then 1 else 15) * minute;
      last_error = some "waiting_organizer_credentials";
    }

module _ (s : Settings) (now : ℕ) (bot : Bot) (telegram : User → Sending)
    (users : ℕ → Option User) where
  -- one player of the round; the event's row is the one in the session
  unfoldable pub send_one : ℕ → RoomCredential → Registration → Tally → Db → Tally × Db
  send_one event_id creds r t db = elim (users r.user_id) [
    | none ↦ (record t { skipped = t.skipped + 1 }, db)
    | some u ↦ elim (db.events event_id) [
      | none ↦ (t, db)
      | some e ↦
          let result = deliver_one now bot (telegram u) e u creds db in
          (add_outcome result.0 t, result.1)
    ]
  ]

  -- the loop over the registrations that were confirmed when it began
  unfoldable pub send_all : ℕ → RoomCredential → List Registration → Tally → Db → Tally × Db
  unfolding send_one
  send_all event_id creds [] t db = (t, db)
  send_all event_id creds (r ∷ rs) t db =
      let next = send_one event_id creds r t db in send_all event_id creds rs next.0 next.1

  abbrev pub is_incomplete : Tally → Bool
  is_incomplete t = ltb 0 t.not_admin || ltb 0 t.unverified

  -- a round that could not check everybody is tried again soon
  abbrev pub retried : Tally → ScheduledJob → ScheduledJob
  retried t j =
      if is_incomplete t
      then record j {
        status = JobStatus.pending;
        run_at = now + 2 * minute;
        last_error = some (
            if ltb 0 t.not_admin
            then "bot_not_admin_on_required_channel"
            else "membership_check_unavailable");
      }
      else j

  -- until when late players are still served, by the row of the room: `creds.sent_at or now`
  abbrev pub sweep_until : Event → RoomCredential → ℕ
  sweep_until e creds =
      min (fill_deadline s e) (
        (elim creds.sent_at [ none ↦ now | some at ↦ at ]) + s.late_delivery_sweep_minutes * minute)

  abbrev pub swept : Event → RoomCredential → ScheduledJob → ScheduledJob
  swept e creds j =
      if ltb now (sweep_until e creds)
      then record j {
        status = JobStatus.pending;
        run_at = now + 2 * minute;
        attempts = 0;
        max_attempts = 40;
        last_error = none;
        completed_at = none;
      }
      else record j { status = JobStatus.done; completed_at = some now }

  abbrev pub notified : ScheduledJob → ScheduledJob
  notified j = record j { payload = record j.payload { organizer_notified = true } }

  -- `creds.sent_at = datetime.now(UTC)`
  abbrev pub sent_room : RoomCredential → RoomCredential
  sent_room creds = record creds { sent_at = some now }

  -- the room, which counts as sent, and the event, as started, are stored
  abbrev pub mark_sent : Event → RoomCredential → Db → Db
  mark_sent e creds db =
      save_event (record e { status = EventStatus.started })
        (record db { credentials = put (creds_of e.id) creds db.credentials })

  -- the organizer is told once, and scored if somebody was served
  abbrev pub reward : Event → Tally → ScheduledJob → Db → Db
  reward e t j db =
      if not j.payload.organizer_notified && ltb 0 t.sent
      then score_organizer e "credentials_delivered" db
      else db

  -- the end of a round in which somebody was served or nobody was left unchecked
  unfoldable pub close_round : Event → RoomCredential → Tally → ScheduledJob → Db → Db
  close_round e creds t j db =
      let room = sent_room creds in
      save_job (swept e room (notified j)) (reward e t j (mark_sent e room db))

  unfoldable pub finish_round : ℕ → RoomCredential → ScheduledJob → Tally → Db → Db
  unfolding close_round
  finish_round event_id creds j t db =
      let j' = retried t j in
      if is_incomplete t && t.sent == 0
      then save_job j' db
      else elim (db.events event_id) [ none ↦ db | some e ↦ close_round e creds t j' db ]

  abbrev pub confirmed_at_start : ℕ → Registration → Bool
  confirmed_at_start event_id r = r.event_id == event_id && is_confirmed r.status

  abbrev pub is_running : JobStatus → Bool
  is_running JobStatus.running = true
  is_running _ = false

  -- `got_lock` is the answer of Redis
  unfoldable pub send_round : Bool → Event → RoomCredential → ScheduledJob → Db → Db
  unfolding send_all finish_round
  send_round got_lock e creds j db =
      if not got_lock
      then save_job (if is_running j.status then record j { status = JobStatus.pending } else j) db
      else (let regs = select (confirmed_at_start e.id) db.registrations in
          let round = send_all e.id creds regs no_tally db in
          finish_round e.id creds j round.0 round.1)

  unfoldable pub send_to_event : Bool → Event → Option RoomCredential → ScheduledJob → Db → Db
  unfolding send_round expire_missing_credentials wait_for_room
  send_to_event got_lock e creds j db =
      if not (creds_were_provided creds)
      then (if ltb (credentials_deadline s e) now
          then expire_missing_credentials now e j db
          else save_job (wait_for_room now j) db)
      else elim creds [ none ↦ db | some c ↦ send_round got_lock e c j db ]

  unfoldable pub send_credentials : Bool → ScheduledJob → Db → Db
  unfolding send_to_event
  send_credentials got_lock j db = elim (db.events j.entity_id) [
    | none ↦ save_job (record j { status = JobStatus.cancelled }) db
    | some e ↦
        if is_not_sendable e.status
        then save_job (record j { status = JobStatus.cancelled }) db
        else send_to_event got_lock e (find (creds_of e.id) db.credentials) j db
  ]
