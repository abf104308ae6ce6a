-- ===== src/Lifecycle/Closing.antt =====
-- What ends an event: nobody can register for it any more, at any time.
use free_fire_room.Prelude.{
  ℕ, ◌≡◌, refl, Bool, true, false, Option, inl, inr, String, arith, Bool-cases, raised, is_some,
  ◌||◌, not, if◌then◌else◌,
}
use free_fire_room.Model.{Settings, Event, User, Db, BanScope, is_open}
use free_fire_room.Telegram.{Bot}
use free_fire_room.Windows.{join_window_open}
use free_fire_room.Registration.{
  Error, register_user, user_banned, event_not_found, event_not_open, registration_closed,
}
use free_fire_room.Lifecycle.{mark_event_started, cancel_event}
use free_fire_room.Bans.{is_banned}

-- the window is the last guard: each guard before it refuses too
closed_refuses :
    (s : Settings) (now : ℕ) (bot : Option Bot) (user : User) (event : Event)
    (source : Option String) (accept : Bool) (fresh : ℕ) (db : Db)
    → join_window_open s event now ≡ false
    → (x : Error) × (register_user s now bot user event source accept fresh db ≡ (raised x, db))
unfolding register_user
closed_refuses s now bot user event source accept fresh db h =
    elim (Bool-cases (is_some (is_banned now db user BanScope.participate))) [
      | inl b ↦ (user_banned, (rw (register_user, b) refl))
      | inr nb ↦ elim (Bool-cases (is_some event.deleted_at || not event.deep_link_active)) [
        | inl d ↦ (event_not_found, (rw (register_user, nb, d) refl))
        | inr nd ↦ elim (Bool-cases (is_open event.status)) [
          | inr o ↦ (event_not_open, (rw (register_user, nb, nd, o) refl))
          | inl o ↦ (registration_closed, (rw (register_user, nb, nd, o, h) refl))
        ]
      ]
    ]

-- an archived event has no open window
pub archived_closes :
    (s : Settings) (e : Event) (now : ℕ)
    → is_some e.archived_at ≡ true
    → join_window_open s e now ≡ false
unfolding join_window_open
archived_closes s e now h = ground arith

-- the organizer's start leaves an archived event
pub started_archived :
    (now actor : ℕ) (e : Event) (db : Db)
    → is_some (mark_event_started now actor e db).0.archived_at ≡ true
unfolding mark_event_started
started_archived now actor e db = elim (Bool-cases (is_some e.archived_at)) [
  | inl a ↦ rw (mark_event_started, a) a
  | inr n ↦ rw (mark_event_started, n) refl
]

-- Once the organizer has started the match, every later registration for the event that comes back
-- raises an error and writes nothing, whoever asks, at whatever time and in whatever database.
pub started_refuses_registration :
    (s : Settings) (now actor : ℕ) (e : Event) (db : Db) (later : ℕ) (bot : Option Bot)
    (user : User) (source : Option String) (accept : Bool) (fresh : ℕ) (db' : Db)
    → (x : Error) × (register_user s later bot user
          (mark_event_started now actor e db).0
          source
          accept
          fresh
          db'
        ≡ (raised x, db'))
started_refuses_registration s now actor e db later bot user source accept fresh db' =
    closed_refuses s later bot user (mark_event_started now actor e db).0 source accept fresh db' (
      archived_closes s (mark_event_started now actor e db).0 later
        (started_archived now actor e db))

-- Once an event is cancelled, every later registration for it raises `user_banned` for a banned
-- player and `event_not_found` for any other, and writes nothing.
pub cancelled_refuses_registration :
    (s : Settings) (now actor : ℕ) (reason : String) (e : Event) (db : Db) (later : ℕ)
    (bot : Option Bot) (user : User) (source : Option String) (accept : Bool) (fresh : ℕ) (db' : Db)
    → register_user s later bot user (cancel_event now actor reason e db).0 source accept fresh db'
      ≡ (
        raised (
            if is_some (is_banned later db' user BanScope.participate)
            then user_banned
            else event_not_found),
        db',
      )
unfolding register_user cancel_event
cancelled_refuses_registration s now actor reason e db later bot user source accept fresh db' =
    elim (Bool-cases (is_some (is_banned later db' user BanScope.participate))) [
      | inl b ↦ (rw (register_user, b) refl)
      | inr nb ↦ elim (Bool-cases (is_some e.deleted_at)) [
        | inl d ↦ (rw (register_user, nb, d) refl)
        | inr nd ↦ (rw (register_user, nb, nd) refl)
      ]
    ]
