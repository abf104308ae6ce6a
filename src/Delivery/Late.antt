-- ===== src/Delivery/Late.antt =====
-- When the room is still sent to somebody who becomes eligible late.
use free_fire_room.Prelude.{ℕ, ◌≡◌, refl, true, false, Option, String, is_some, arith}
use free_fire_room.Model.{Settings, Event, RoomCredential, Db}
use free_fire_room.Windows.{join_window_open}
use free_fire_room.Lifecycle.{mark_event_started, cancel_event}
use free_fire_room.Lifecycle.Closing.{archived_closes, started_archived}
use free_fire_room.Delivery.{queue_late_credentials}

-- the window decides first
closed_queues_nothing :
    (s : Settings) (now : ℕ) (e : Event) (creds : Option RoomCredential)
    → join_window_open s e now ≡ false
    → queue_late_credentials s now e creds ≡ false
unfolding queue_late_credentials
closed_queues_nothing s now e creds h = rw (queue_late_credentials, h) refl

cancelled_archived :
    (now actor : ℕ) (reason : String) (e : Event) (db : Db)
    → is_some (cancel_event now actor reason e db).0.archived_at ≡ true
unfolding cancel_event
cancelled_archived now actor reason e db = ground arith

-- After the organizer has started or cancelled the event, no late send of the room is queued for it,
-- whatever credentials are stored and whenever somebody becomes eligible.
pub ended_queues_nothing :
    (s : Settings) (now later actor : ℕ) (reason : String) (e : Event)
    (creds : Option RoomCredential) (db : Db)
    → (queue_late_credentials s later (mark_event_started now actor e db).0 creds ≡ false)
      × (queue_late_credentials s later (cancel_event now actor reason e db).0 creds ≡ false)
ended_queues_nothing s now later actor reason e creds db =
    let started = (mark_event_started now actor e db).0 in
    let cancelled = (cancel_event now actor reason e db).0 in
    (
      closed_queues_nothing s later started creds
          (archived_closes s started later (started_archived now actor e db)),
      closed_queues_nothing s later cancelled creds
          (archived_closes s cancelled later (cancelled_archived now actor reason e db)),
    )
