-- ===== src/Tests/Making.antt =====
-- The organizer of event 1 makes another one.
use free_fire_room.Prelude.{true, false, none, some, [], ◌∷◌, String, ◌≡◌, refl}
use free_fire_room.Model.{default_settings, EventStatus, Event}
use free_fire_room.Lifecycle.{validate_times}
use free_fire_room.Creation.{EventData, create_event, event_limit, new_event, finish_creation}
use free_fire_room.Creation.Copies.{repeat_form, repeat_event, finish_repeat, repeat_event_lem}
use free_fire_room.Creation.Quota.{IsCounted, create_event-IsCounted}
use free_fire_room.Tests.Data.{cup, db}

abbrev pub plain_text : String → String
plain_text s = s

abbrev second_cup : EventData
second_cup = record {
  channel_id = some 1;
  starts_at = 2000;
  registration_ends_at = 2000;
  credentials_send_at = 2000;
  capacity = 4;
  waitlist_enabled = true;
  require_rules_accept = true;
  require_ff_player_id = false;
  require_profile_complete = false;
  required_referrals = 0;
  reminder_offsets_minutes = [];
  social_url = some "page";
  social_pages = "page" ∷ " " ∷ [];
  required_channel_ids = 5 ∷ [];
  room_id = none;
  room_password = none;
}

create_event-IsCounted_example :
    IsCounted 1
      (event_limit none 3)
      db
      (create_event plain_text 3 10 500 1 none 1 2 8 second_cup db)
create_event-IsCounted_example =
    create_event-IsCounted plain_text 3 10 500 1 none 1 2 8 second_cup db refl

abbrev repeated : Event
repeated = new_event 2 1 (repeat_form default_settings cup 2000 db)

repeat_event_lem_example :
    let (_, after) = repeat_event plain_text 3 10 500 1 none 1 2 8 default_settings cup 2000 db in
    (after.credentials ≡ db.credentials)
    × (after.registrations ≡ db.registrations)
    × (repeated.status ≡ EventStatus.draft)
    × (repeated.confirmed_count ≡ 0)
    × (repeated.capacity ≡ 1)
    × (repeated.waitlist_enabled ≡ true)
    × (repeated.starts_at ≡ 2000)
    × (after.events 2 ≡ some repeated)
unfolding create_event finish_creation repeat_event finish_repeat validate_times
repeat_event_lem_example =
    repeat_event_lem plain_text 3 10 500 1 none 1 2 8 default_settings cup repeated 2000 db refl
