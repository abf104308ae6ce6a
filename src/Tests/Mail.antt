-- ===== src/Tests/Mail.antt =====
-- Broadcasts, reminders, the purge and the panels, on small tables.
use free_fire_room.Prelude.{
  if◌then◌else◌, ℕ, ◌≡◌, ◌≤◌, ◌⊎◌, refl, true, not, none, some, [], ◌∷◌, ◌==◌, raised, All, count,
  select,
}
use free_fire_room.Model.{Account, Event, Db, default_settings}
use free_fire_room.Bans.{is_banned}
use free_fire_room.Broadcast.{
  Post, Mailbox, Mailing, new_campaign, broadcast, confirm_broadcast, broadcast_already_confirmed,
}
use free_fire_room.Broadcast.Reach.{IsReported, confirmed_is_sent}
use free_fire_room.Purge.{Tables, is_old, purge_events_older_than}
use free_fire_room.Purge.References.{IsWhole}
use free_fire_room.Purge.Sweeps.{purge_events_older_than-IsWhole}
use free_fire_room.Registration.Seats.{confirmed_for}
use free_fire_room.Waitlist.Links.{IsLinked}
use free_fire_room.Desk.Taps.{tap, cancel_own}
use free_fire_room.Desk.Rights.{is_allowed, tap-refuses}
use free_fire_room.Desk.Soundness.{Session, taps_never_overbook}
use free_fire_room.Tests.Data.{cup, player, db}
use free_fire_room.Tests.Accounts.{boss, owner}
use free_fire_room.Tests.Seats.{db-IsSound}
use free_fire_room.Tests.Making.{plain_text}

-- user 1 has blocked the bot meanwhile, all others get the message
abbrev mailbox : Mailbox
mailbox = record {
  first = λ k. if k == 1 then Post.forbidden else Post.delivered;
  second = λ k. Post.failed;
}

abbrev second_account : Account
second_account = record boss { id = 2; telegram_id = 20 }

abbrev mailing : Mailing
mailing = record {
  stored = new_campaign 3 1 (some 5000);
  loaded = new_campaign 3 1 (some 5000);
  users = boss ∷ second_account ∷ [];
  deliveries = [];
}

abbrev confirmed_mailing : Mailing
confirmed_mailing = record mailing { stored = (confirm_broadcast 100 1 mailing.stored).1 }

abbrev sent_mailing : Mailing
sent_mailing = broadcast 100 mailbox (λ k. true) confirmed_mailing

confirmed_is_sent_example :
    IsReported 100 mailbox (λ k. true) confirmed_mailing sent_mailing
    × (confirm_broadcast 200 1 sent_mailing.stored
        ≡ (raised broadcast_already_confirmed, sent_mailing.stored))
    × (broadcast 100 mailbox (λ k. true) sent_mailing ≡ sent_mailing)
confirmed_is_sent_example = confirmed_is_sent 100 mailbox (λ k. true) 100 200 1 mailing refl

abbrev tables : Tables
tables = record {
  events = cup ∷ record cup { id = 2; starts_at = 9000 } ∷ [];
  announcements = [];
  trust_events = some 1 ∷ some 2 ∷ [];
  notifications = some 1 ∷ [];
  reports = none ∷ some 1 ∷ [];
  children = 1 ∷ 2 ∷ [];
  deliveries = record { event_id = some 1; job_id = some 5 } ∷ [];
  jobs = record { id = 5; entity_id = 1 } ∷ [];
}

tables-IsWhole : IsWhole tables
tables-IsWhole = record {
  trust_events = refl;
  notifications = refl;
  reports = refl;
  children = refl;
  deliveries = refl;
  job_ids = refl;
}

purge_events_older_than-IsWhole_example :
    (removed : ℕ) × (t' : Tables) × (purge_events_older_than 5000 tables ≡ some (removed, t'))
    × (t'.events ≡ select (λ e. not (is_old 5000 e)) tables.events)
    × IsWhole t'
purge_events_older_than-IsWhole_example =
    purge_events_older_than-IsWhole 5000 tables (refl, (refl, tt)) tables-IsWhole

-- player 2 neither organizes the cup nor is an admin
tap-refuses_example :
    tap default_settings plain_text 500 none
      (owner ∷ [])
      (λ k. some (player k))
      (player 2)
      (cancel_own 1)
      db
    ≡ db
unfolding is_allowed is_banned
tap-refuses_example =
    tap-refuses default_settings plain_text 500 none (owner ∷ []) (λ k. some (player k)) (player 2)
      db (cancel_own 1) refl

abbrev cancelled_db : Db
cancelled_db =
    tap default_settings plain_text 500 none (owner ∷ []) (λ k. some (player k)) (player 9)
      (cancel_own 1) db

one_tap :
    Session default_settings plain_text none (owner ∷ []) (λ k. some (player k)) db cancelled_db
one_tap = Session.tapped 500 (player 9) (cancel_own 1) Session.opened tt

taps_never_overbook_example :
    ((k : ℕ) (e : Event)
      → cancelled_db.events k ≡ some e
      → (e.confirmed_count ≡ count (confirmed_for k) cancelled_db.registrations)
        × ((e.capacity ≡ 0) ⊎ (count (confirmed_for k) cancelled_db.registrations ≤ e.capacity)))
    × All (IsLinked cancelled_db.registrations) cancelled_db.waitlist
taps_never_overbook_example =
    taps_never_overbook default_settings plain_text none (owner ∷ []) (λ k. some (player k)) db
      cancelled_db db-IsSound one_tap
