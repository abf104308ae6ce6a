-- ===== src/Creation/Copies.antt =====
-- copy_event and repeat_event of backend/app/services/events.py: an event made from an earlier one.
use free_fire_room.Prelude.{
  ℕ, ◌+◌, ◌*◌, ◌≡◌, refl, subst, ◌&&◌, Option, none, some, List, [], map, String, ◌==◌, ==_refl,
  select, Reply, ok, raised, arith,
}
use free_fire_room.Model.{Settings, minute, EventStatus, Event, Db, save_event, write_audit}
use free_fire_room.Social.{list_tasks}
use free_fire_room.Creation.{
  EventData, CreateError, offsets_or_default, create_event, new_event, store_event, seed_tasks,
  seed_requirements, seed_room,
}
use free_fire_room.Creation.Quota.{create_event_rule}

-- what both take over from the source; the room is in neither
abbrev pub form_of : Event → ℕ → ℕ → ℕ → List String → List ℕ → EventData
form_of e starts_at ends_at send_at pages channel_ids = record {
  channel_id = e.channel_id;
  starts_at = starts_at;
  registration_ends_at = ends_at;
  credentials_send_at = send_at;
  capacity = e.capacity;
  waitlist_enabled = e.waitlist_enabled;
  require_rules_accept = e.require_rules_accept;
  require_ff_player_id = e.require_ff_player_id;
  require_profile_complete = e.require_profile_complete;
  required_referrals = e.required_referrals;
  reminder_offsets_minutes = offsets_or_default e.reminder_offsets_minutes;
  social_url = e.social_url;
  social_pages = pages;
  required_channel_ids = channel_ids;
  room_id = none;
  room_password = none;
}

-- every channel of the event, at the times of the event, without its pages
abbrev pub copy_form : Event → Db → EventData
copy_form e db =
    form_of e e.starts_at e.registration_ends_at e.credentials_send_at []
      (map (λ r. r.channel_id) (select (λ r. r.event_id == e.id) db.required_channels))

-- the active channels and pages, at a new time
abbrev pub repeat_form : Settings → Event → ℕ → Db → EventData
repeat_form s e starts_at db =
    form_of e starts_at (starts_at + s.auto_archive_minutes * minute) starts_at
      (map (λ t. t.url) (list_tasks db e.id))
      (map (λ r. r.channel_id)
        (select (λ r. r.event_id == e.id && r.is_active) db.required_channels))

unfoldable pub finish_copy : Reply Event CreateError × Db → Reply Event CreateError × Db
finish_copy (raised x, db) = (raised x, db)
finish_copy (ok e, db) =
    let draft = record e { status = EventStatus.draft } in (ok draft, save_event draft db)

unfoldable pub finish_repeat : ℕ → Reply Event CreateError × Db → Reply Event CreateError × Db
finish_repeat actor (raised x, db) = (raised x, db)
finish_repeat actor (ok e, db) = (ok e, write_audit "event_repeated" e.id actor db)

module _ (encrypt : String → String) (limit max_refs now organizer_id : ℕ) (max_events : Option ℕ)
    (actor fresh first_task : ℕ) where
  unfoldable pub copy_event : Event → Db → Reply Event CreateError × Db
  unfolding finish_copy
  copy_event e db = finish_copy (
      create_event encrypt limit max_refs now organizer_id max_events actor fresh first_task
        (copy_form e db) db)

  unfoldable pub repeat_event : Settings → Event → ℕ → Db → Reply Event CreateError × Db
  unfolding finish_repeat
  repeat_event s e starts_at db = finish_repeat actor (
      create_event encrypt limit max_refs now organizer_id max_events actor fresh first_task
        (repeat_form s e starts_at db) db)

  -- A repeated event that is made is a draft without players, with the source's capacity and waitlist,
  -- at the new time; the room of the source is not copied: the table of rooms is as it was, and so
  -- are all registrations.
  pub repeat_event_lem :
      (s : Settings) (source e : Event) (starts_at : ℕ) (db : Db)
      → let (answer, after) = repeat_event s source starts_at db in
        answer ≡ ok e
        → (after.credentials ≡ db.credentials)
          × (after.registrations ≡ db.registrations)
          × (e.status ≡ EventStatus.draft)
          × (e.confirmed_count ≡ 0)
          × (e.capacity ≡ source.capacity)
          × (e.waitlist_enabled ≡ source.waitlist_enabled)
          × (e.starts_at ≡ starts_at)
          × (after.events e.id ≡ some e)
  unfolding repeat_event finish_repeat store_event seed_tasks seed_requirements seed_room
  repeat_event_lem s source e starts_at db =
      let form = repeat_form s source starts_at db in
      let new = new_event fresh organizer_id form in
      create_event_rule encrypt limit max_refs now organizer_id max_events actor fresh first_task
        form db
        (λ (x : Reply Event CreateError × Db).
          let y = finish_repeat actor x in
          y.0 ≡ ok e
          → (y.1.credentials ≡ db.credentials)
            × (y.1.registrations ≡ db.registrations)
            × (e.status ≡ EventStatus.draft)
            × (e.confirmed_count ≡ 0)
            × (e.capacity ≡ source.capacity)
            × (e.waitlist_enabled ≡ source.waitlist_enabled)
            × (e.starts_at ≡ starts_at)
            × (y.1.events e.id ≡ some e))
        (λ x h. absurd (ground arith))
        (λ room h.
          let same : new ≡ e = ground arith in
          let after =
            (finish_repeat actor (ok new, store_event encrypt actor first_task new form db)).1 in
          subst
            (λ (u : Event).
              (after.credentials ≡ db.credentials)
              × (after.registrations ≡ db.registrations)
              × (u.status ≡ EventStatus.draft)
              × (u.confirmed_count ≡ 0)
              × (u.capacity ≡ source.capacity)
              × (u.waitlist_enabled ≡ source.waitlist_enabled)
              × (u.starts_at ≡ starts_at)
              × (after.events u.id ≡ some u))
            same (refl, refl, refl, refl, refl, refl, refl, rw (==_refl fresh) refl))
