-- ===== src/System/Copies.antt =====
-- Copying and repeating an event keep the seats and the waitlist sound.
use free_fire_room.Prelude.{ℕ, ◌≡◌, refl, Option, String, ==_refl, count, Reply, ok, raised}
use free_fire_room.Model.{Settings, EventStatus, Event, Db}
use free_fire_room.Registration.Seats.{confirmed_for}
use free_fire_room.Creation.{
  CreateError, create_event, new_event, store_event, seed_tasks, seed_requirements, seed_room,
}
use free_fire_room.Creation.Quota.{create_event_rule}
use free_fire_room.Creation.Copies.{
  copy_form, repeat_form, finish_copy, finish_repeat, copy_event, repeat_event,
}
use free_fire_room.Waitlist.Invariant.{IsSound}
use free_fire_room.Waitlist.Neutral.{IsSound-same, save_event-IsSound}
use free_fire_room.System.Calls.{create-IsSound}

finish_repeat-IsSound :
    (actor : ℕ) (x : Reply Event CreateError × Db) → IsSound x.1 → IsSound (finish_repeat actor x).1
unfolding finish_repeat
finish_repeat-IsSound actor (raised x, db) h = h
finish_repeat-IsSound actor (ok e, db) h = IsSound-same db _ refl refl refl h

module _ (encrypt : String → String) (limit max_refs now organizer_id : ℕ) (max_events : Option ℕ)
    (actor fresh first_task : ℕ) (db : Db) (h : IsSound db)
    (z : count (confirmed_for fresh) db.registrations ≡ 0) where
  pub repeat_event-IsSound :
      (s : Settings) (e : Event) (starts_at : ℕ)
      → IsSound
          (repeat_event encrypt limit max_refs now organizer_id max_events actor fresh first_task s
            e starts_at db).1
  unfolding repeat_event
  repeat_event-IsSound s e starts_at =
      let form = repeat_form s e starts_at db in
      finish_repeat-IsSound actor
        (create_event encrypt limit max_refs now organizer_id max_events actor fresh first_task form
          db)
        (create-IsSound encrypt limit max_refs now organizer_id max_events actor fresh first_task
          form db h z)

  pub copy_event-IsSound :
      (e : Event)
      → IsSound
          (copy_event encrypt limit max_refs now organizer_id max_events actor fresh first_task e
            db).1
  unfolding copy_event finish_copy store_event seed_tasks seed_requirements seed_room
  copy_event-IsSound e =
      let form = copy_form e db in
      let new = new_event fresh organizer_id form in
      create_event_rule encrypt limit max_refs now organizer_id max_events actor fresh first_task
        form db (λ (x : Reply Event CreateError × Db). IsSound x.1 → IsSound (finish_copy x).1)
        (λ x sound. sound)
        (λ room sound.
          save_event-IsSound new (record new { status = EventStatus.draft })
            (store_event encrypt actor first_task new form db) (rw (==_refl fresh) refl)
            (refl, refl, refl) sound)
        (create-IsSound encrypt limit max_refs now organizer_id max_events actor fresh first_task
          form db h z)
