-- ===== src/Dispatch/Sweep.antt =====
-- How long a room is sent to late players.
use free_fire_room.Prelude.{
  ℕ, ◌+◌, ◌*◌, ◌≤◌, ◌<◌, ◌≡◌, refl, ap, ◌∙◌, if◌then◌else◌, inl, inr, true, not, ◌&&◌, Option, none,
  some, String, ℤ, ltb, ==_refl, find, put, find-put_self, Option-cases, if_both, arith,
}
use free_fire_room.Model.{
  Settings, minute, JobStatus, Event, User, RoomCredential, ScheduledJob, Organizer, Slot,
  same_slot, Db, organizer_id,
}
use free_fire_room.Windows.{fill_deadline}
use free_fire_room.Telegram.{Bot}
use free_fire_room.Delivery.{Sending}
use free_fire_room.Scheduler.{with_key}
use free_fire_room.Jobs.{min}
use free_fire_room.Trust.{record_change, rule_of, is_seen, add_change}
use free_fire_room.Dispatch.{
  Tally, score_organizer, mark_sent, reward, close_round, swept, sweep_until, sent_room, notified,
}

record_change-jobs :
    (o : Organizer) (t : String) (related actor : Option ℕ) (delta : Option ℤ) (db : Db)
    → (record_change o t related actor delta db).1.jobs ≡ db.jobs
unfolding record_change add_change
record_change-jobs o t related actor delta db = elim (Option-cases (rule_of t)) [
  | inl e ↦ rw (record_change, e) refl
  | inr (rule, e) ↦
      rw (record_change, e)
        (if_both (λ (x : Option ℤ × Db). x.1.jobs ≡ db.jobs) (is_seen o.id t related rule db) _ _
          refl refl)
]

score_organizer-jobs :
    (e : Event) (rule : String) (db : Db) → (score_organizer e rule db).jobs ≡ db.jobs
score_organizer-jobs e rule db =
    elim (Option-cases (find (organizer_id e.organizer_id) db.organizers)) [
      | inl gone ↦ rw (score_organizer, gone) refl
      | inr (o, f) ↦ rw (score_organizer, f) (record_change-jobs o rule (some e.id) none none db)
    ]

same_slot_refl : (x : Slot) → same_slot x x ≡ true
same_slot_refl Slot.creds = refl
same_slot_refl Slot.start = refl
same_slot_refl Slot.finish = refl
same_slot_refl Slot.purge = refl
same_slot_refl Slot.recheck = refl
same_slot_refl (Slot.rem n) = ==_refl n

ltb-min : (n a b : ℕ) → n < b → ltb n (min a b) ≡ ltb n a
ltb-min n a b k = ground arith

-- The round that closes leaves the job in the same state whenever the room was first sent: as long
-- as players may complete the conditions, pending again for two minutes later, with all its tries;
-- done from then on. So the setting late_delivery_sweep_minutes, if it is not 0, has no effect. It
-- supposes that the job is stored under its key.
pub close_round-sweeps :
    (s : Settings) (now : ℕ) (bot : Bot) (telegram : User → Sending) (users : ℕ → Option User)
    (e : Event) (creds : RoomCredential) (t : Tally) (j old : ScheduledJob) (db : Db)
    → find (with_key j.entity_id j.slot) db.jobs ≡ some old
    → 1 ≤ s.late_delivery_sweep_minutes
    → let told : ScheduledJob = record j {
      payload = record j.payload { organizer_notified = true };
    } in
      find (with_key j.entity_id j.slot) (close_round s now bot telegram users e creds t j db).jobs
      ≡ some (
          if ltb now (fill_deadline s e)
          then record told {
            status = JobStatus.pending;
            run_at = now + 2 * minute;
            attempts = 0;
            max_attempts = 40;
            last_error = none;
            completed_at = none;
          }
          else record told { status = JobStatus.done; completed_at = some now })
unfolding close_round
close_round-sweeps s now bot telegram users e creds t j old db f late =
    let room = sent_room s now bot telegram users creds in
    let started = mark_sent s now bot telegram users e room db in
    let same : (reward s now bot telegram users e t j started).jobs ≡ db.jobs =
      if_both (λ (d : Db). d.jobs ≡ db.jobs) (not j.payload.organizer_notified && ltb 0 t.sent) _ _
        (score_organizer-jobs e "credentials_delivered" started) refl in
    let key : with_key j.entity_id j.slot j ≡ true =
      rw (==_refl j.entity_id, same_slot_refl j.slot) refl in
    let told = notified s now bot telegram users j in
    let again : ScheduledJob = record told {
      status = JobStatus.pending;
      run_at = now + 2 * minute;
      attempts = 0;
      max_attempts = 40;
      last_error = none;
      completed_at = none;
    } in
    let over : ScheduledJob = record told { status = JobStatus.done; completed_at = some now } in
    let next : ScheduledJob = swept s now bot telegram users e room told in
    let until =
      ltb-min now (fill_deadline s e) (now + s.late_delivery_sweep_minutes * minute)
        (omega arith) in
    let kept : next ≡ (if ltb now (fill_deadline s e) then again else over) = rw until refl in
    let p = with_key j.entity_id j.slot in
    let p_next : p next ≡ true =
      if_both (λ (x : ScheduledJob). p x ≡ true)
        (ltb now (sweep_until s now bot telegram users e room)) again over key key in
    let put_next = find-put_self p next old db.jobs f p_next in
    let same_key : put (with_key next.entity_id next.slot) next ≡ put p next =
      if_both (λ (x : ScheduledJob). put (with_key x.entity_id x.slot) next ≡ put p next)
        (ltb now (sweep_until s now bot telegram users e room)) again over refl refl in
    rw (same_key, same) (put_next ∙ ap some kept)
