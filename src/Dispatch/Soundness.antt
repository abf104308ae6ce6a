-- ===== src/Dispatch/Soundness.antt =====
-- A round of sending keeps the seats and the waitlist sound.
use free_fire_room.Prelude.{
  ℕ, ◌≡◌, refl, sym, subst, inl, inr, Bool, not, ◌&&◌, Option, none, some, List, [], ◌∷◌, String,
  ltb, ◌==◌, find, select, put, Option-cases, Bool-cases, if_both, ℤ,
}
use free_fire_room.Model.{
  Settings, EventStatus, Event, Registration, User, RoomCredential, ScheduledJob, Organizer, Db,
  organizer_id,
}
use free_fire_room.Windows.{credentials_deadline, creds_were_provided}
use free_fire_room.Telegram.{Bot}
use free_fire_room.Lifecycle.{creds_of}
use free_fire_room.Delivery.{Sending}
use free_fire_room.Delivery.Seats.{deliver_one-IsSound}
use free_fire_room.Jobs.{save_job}
use free_fire_room.Trust.{record_change, rule_of, is_seen, add_change}
use free_fire_room.Waitlist.Invariant.{IsSound}
use free_fire_room.Waitlist.Neutral.{IsSound-same, save_event-IsSound}
use free_fire_room.Dispatch.{
  Tally, no_tally, score_organizer, expire_missing_credentials, send_one, send_all, is_incomplete,
  retried, mark_sent, sent_room, reward, close_round, finish_round, confirmed_at_start, send_round,
  send_to_event, send_credentials, is_not_sendable,
}

pub record_change-IsSound :
    (o : Organizer) (t : String) (related actor : Option ℕ) (delta : Option ℤ) (db : Db)
    → IsSound db
    → IsSound (record_change o t related actor delta db).1
unfolding record_change add_change
record_change-IsSound o t related actor delta db h = elim (Option-cases (rule_of t)) [
  | inl e ↦ rw (record_change, e) h
  | inr (rule, e) ↦
      rw (record_change, e)
        (if_both (λ (x : Option ℤ × Db). IsSound x.1) (is_seen o.id t related rule db) _ _ h
          (IsSound-same db _ refl refl refl h))
]

score_organizer-IsSound :
    (e : Event) (rule : String) (db : Db) → IsSound db → IsSound (score_organizer e rule db)
score_organizer-IsSound e rule db h =
    elim (Option-cases (find (organizer_id e.organizer_id) db.organizers)) [
      | inl gone ↦ rw (score_organizer, gone) h
      | inr (o, f) ↦
          rw (score_organizer, f) (record_change-IsSound o rule (some e.id) none none db h)
    ]

expire-IsSound :
    (now : ℕ) (e : Event) (j : ScheduledJob) (db : Db)
    → db.events e.id ≡ some e
    → IsSound db
    → IsSound (expire_missing_credentials now e j db)
unfolding expire_missing_credentials
expire-IsSound now e j db f h = score_organizer-IsSound e "credentials_missed" _ (
    save_event-IsSound e _ (save_job _ db) f (refl, refl, refl)
      (IsSound-same db _ refl refl refl h))

module _ (s : Settings) (now : ℕ) (bot : Bot) (telegram : User → Sending)
    (users : ℕ → Option User) where
  -- the row of an event is stored under its id
  at_id :
      (k : ℕ) (e : Event) (db : Db) → IsSound db → db.events k ≡ some e → db.events e.id ≡ some e
  at_id k e db h f = subst (λ i. db.events i ≡ some e) (sym (h.consistent.ids k e f)) f

  send_one-IsSound :
      (k : ℕ) (creds : RoomCredential) (r : Registration) (t : Tally) (db : Db)
      → IsSound db
      → IsSound (send_one s now bot telegram users k creds r t db).1
  unfolding send_one
  send_one-IsSound k creds r t db h = elim (Option-cases (users r.user_id)) [
    | inl gone ↦ rw (send_one, gone) h
    | inr (u, known) ↦ elim (Option-cases (db.events k)) [
      | inl gone ↦ rw (send_one, known, gone) h
      | inr (e, f) ↦
          rw (send_one, known, f)
            (deliver_one-IsSound now bot (telegram u) e u creds db h (at_id k e db h f))
    ]
  ]

  send_all-IsSound :
      (k : ℕ) (creds : RoomCredential) (rs : List Registration) (t : Tally) (db : Db)
      → IsSound db
      → IsSound (send_all s now bot telegram users k creds rs t db).1
  unfolding send_all
  send_all-IsSound k creds [] t db h = h
  send_all-IsSound k creds (r ∷ rs) t db h =
      let next = send_one s now bot telegram users k creds r t db in
      send_all-IsSound k creds rs next.0 next.1 (send_one-IsSound k creds r t db h)

  close_round-IsSound :
      (e : Event) (creds : RoomCredential) (t : Tally) (j : ScheduledJob) (db : Db)
      → db.events e.id ≡ some e
      → IsSound db
      → IsSound (close_round s now bot telegram users e creds t j db)
  unfolding close_round
  close_round-IsSound e creds t j db f h =
      let paid = record db {
        credentials = put (creds_of e.id) (record creds { sent_at = some now }) db.credentials;
      } in
      let started =
        mark_sent s now bot telegram users e (sent_room s now bot telegram users creds) db in
      let sound : IsSound started =
        save_event-IsSound e (record e { status = EventStatus.started }) paid f (refl, refl, refl)
          (IsSound-same db paid refl refl refl h) in
      let scored = reward s now bot telegram users e t j started in
      IsSound-same scored _ refl refl refl (
        if_both IsSound (not j.payload.organizer_notified && ltb 0 t.sent)
          (score_organizer e "credentials_delivered" started) started
          (score_organizer-IsSound e "credentials_delivered" started sound) sound)

  finish_round-IsSound :
      (k : ℕ) (creds : RoomCredential) (j : ScheduledJob) (t : Tally) (db : Db)
      → IsSound db
      → IsSound (finish_round s now bot telegram users k creds j t db)
  unfolding finish_round
  finish_round-IsSound k creds j t db h =
      elim (Bool-cases (is_incomplete s now bot telegram users t && t.sent == 0)) [
        | inl again ↦ rw (finish_round, again) (IsSound-same db _ refl refl refl h)
        | inr done ↦ elim (Option-cases (db.events k)) [
          | inl gone ↦ rw (finish_round, done, gone) h
          | inr (e, f) ↦
              rw (finish_round, done, f)
                (close_round-IsSound e creds t (retried s now bot telegram users t j) db
                  (at_id k e db h f) h)
        ]
      ]

  send_to_event-IsSound :
      (got_lock : Bool) (e : Event) (c : Option RoomCredential) (j : ScheduledJob) (db : Db)
      → db.events e.id ≡ some e
      → IsSound db
      → IsSound (send_to_event s now bot telegram users got_lock e c j db)
  unfolding send_to_event send_round creds_were_provided
  send_to_event-IsSound got_lock e none j db f h =
      if_both IsSound (ltb (credentials_deadline s e) now) _ _ (expire-IsSound now e j db f h)
        (IsSound-same db _ refl refl refl h)
  send_to_event-IsSound got_lock e (some c) j db f h =
      if_both IsSound (not (creds_were_provided (some c))) _ _
        (if_both IsSound (ltb (credentials_deadline s e) now) _ _ (expire-IsSound now e j db f h)
          (IsSound-same db _ refl refl refl h))
        (if_both IsSound (not got_lock) _ _ (IsSound-same db _ refl refl refl h) (
          let regs = select (confirmed_at_start s now bot telegram users e.id) db.registrations in
          let round = send_all s now bot telegram users e.id c regs no_tally db in
          finish_round-IsSound e.id c j round.0 round.1
            (send_all-IsSound e.id c regs no_tally db h)))

  -- Sending a room, whatever Telegram, Redis and the clock say, keeps both invariants.
  pub send_credentials-IsSound :
      (got_lock : Bool) (j : ScheduledJob) (db : Db)
      → IsSound db
      → IsSound (send_credentials s now bot telegram users got_lock j db)
  unfolding send_credentials
  send_credentials-IsSound got_lock j db h = elim (Option-cases (db.events j.entity_id)) [
    | inl gone ↦ rw (send_credentials, gone) (IsSound-same db _ refl refl refl h)
    | inr (e, f) ↦
        rw (send_credentials, f)
          (if_both IsSound (is_not_sendable e.status) _ _ (IsSound-same db _ refl refl refl h) (
            send_to_event-IsSound got_lock e (find (creds_of e.id) db.credentials) j db
              (at_id j.entity_id e db h f) h))
  ]
