-- ===== src/Purge.antt =====
-- Clearing old rows away: `_purge_events_older_than`, `purge_old_events` and purge_old_credentials of
-- backend/app/workers/tasks.py. Of each table the columns are kept that the purge reads or writes;
-- what the database does with rows that refer to a deleted one is that of the foreign keys in
-- backend/app/models.
pub mod References
pub mod Sweeps
use free_fire_room.Prelude.{
  ℕ, zero, suc, ◌+◌, ◌-◌, ◌*◌, Bool, true, false, not, ◌&&◌, ◌||◌, Option, none, some, is_some,
  List, [], ◌∷◌, if◌then◌else◌, ltb, ◌==◌, any, select, take, length, update_where,
}
use free_fire_room.Model.{day, hour, Event, RoomCredential}

pub record Announcement : Type 0 where
  pub id : ℕ
  pub starts_at : ℕ

-- a row of `deliveries`, by its references
pub record DeliveryRow : Type 0 where
  pub event_id : Option ℕ
  pub job_id : Option ℕ

-- a row of `scheduled_jobs`: `entity_id` is no foreign key
pub record JobRow : Type 0 where
  pub id : ℕ
  pub entity_id : ℕ

-- `trust_events`, `notifications` and `reports` by their reference to an event, `children` the same
-- of all tables whose key is ON DELETE CASCADE
pub record Tables : Type 0 where
  pub events : List Event
  pub announcements : List Announcement
  pub trust_events : List (Option ℕ)
  pub notifications : List (Option ℕ)
  pub reports : List (Option ℕ)
  pub children : List ℕ
  pub deliveries : List DeliveryRow
  pub jobs : List JobRow

-- `… .in_(ids)`
abbrev pub among : List ℕ → ℕ → Bool
among ids k = any (λ j. j == k) ids

abbrev pub refers : List ℕ → Option ℕ → Bool
refers ids none = false
refers ids (some k) = among ids k

abbrev pub cleared : List ℕ → Option ℕ → Option ℕ
cleared ids o = if refers ids o then none else o

abbrev pub clear_all : List ℕ → List (Option ℕ) → List (Option ℕ)
clear_all ids [] = []
clear_all ids (o ∷ os) = cleared ids o ∷ clear_all ids os

abbrev pub clear_events : List ℕ → List DeliveryRow → List DeliveryRow
clear_events ids [] = []
clear_events ids (d ∷ ds) = record d { event_id = cleared ids d.event_id } ∷ clear_events ids ds

abbrev pub clear_jobs : List ℕ → List DeliveryRow → List DeliveryRow
clear_jobs ids [] = []
clear_jobs ids (d ∷ ds) = record d { job_id = cleared ids d.job_id } ∷ clear_jobs ids ds

abbrev pub ids_of : List Event → List ℕ
ids_of [] = []
ids_of (e ∷ es) = e.id ∷ ids_of es

abbrev pub job_ids_of : List JobRow → List ℕ
job_ids_of [] = []
job_ids_of (j ∷ js) = j.id ∷ job_ids_of js

-- DELETE of jobs: a delivery that still refers to one is an IntegrityError
unfoldable pub delete_jobs : List ℕ → Tables → Option Tables
delete_jobs ids t =
    if any (λ d. refers ids d.job_id) t.deliveries
    then none
    else some (record t { jobs = select (λ j. not (among ids j.id)) t.jobs })

-- DELETE of events: cascading, clearing (`reports`), or an IntegrityError
unfoldable pub delete_events : List ℕ → Tables → Option Tables
delete_events ids t =
    if any (refers ids) t.trust_events || any (refers ids) t.notifications
    then none
    else some (record t {
      events = select (λ e. not (among ids e.id)) t.events;
      children = select (λ k. not (among ids k)) t.children;
      reports = clear_all ids t.reports;
      deliveries = clear_events ids t.deliveries;
    })

-- the statements before the events are deleted
unfoldable pub detach : List ℕ → Tables → Tables
detach ids t = record t {
  trust_events = clear_all ids t.trust_events;
  notifications = select (λ o. not (refers ids o)) t.notifications;
  deliveries = clear_events ids t.deliveries;
}

-- the jobs of the events, if there are any
unfoldable pub drop_jobs : List ℕ → Tables → Option Tables
unfolding delete_jobs
drop_jobs ids t = elim (job_ids_of (select (λ j. among ids j.entity_id) t.jobs)) [
  | [] ↦ some t
  | k ∷ ks ↦ delete_jobs (k ∷ ks) (record t { deliveries = clear_jobs (k ∷ ks) t.deliveries })
]

abbrev pub purge_batch : ℕ
purge_batch = 200

unfoldable pub purge_events : List ℕ → Tables → Option Tables
unfolding detach drop_jobs delete_events
purge_events ids t = elim (drop_jobs ids (detach ids t)) [
  | none ↦ none
  | some t' ↦ delete_events ids t'
]

-- `Event.starts_at < cutoff`
abbrev pub is_old : ℕ → Event → Bool
is_old cutoff e = ltb e.starts_at cutoff

abbrev pub next_batch : ℕ → ℕ → Tables → List ℕ
next_batch size cutoff t = take size (ids_of (select (is_old cutoff) t.events))

-- None: the fuel ran out, or the database refused a statement
unfoldable pub purge_loop : ℕ → ℕ → ℕ → ℕ → Tables → Option (ℕ × Tables)
unfolding purge_events
purge_loop zero size cutoff removed t = none
purge_loop (suc fuel) size cutoff removed t = elim (next_batch size cutoff t) [
  | [] ↦ some (removed, t)
  | k ∷ ks ↦ elim (purge_events (k ∷ ks) t) [
    | none ↦ none
    | some t' ↦ purge_loop fuel size cutoff (removed + length (k ∷ ks)) t'
  ]
]

-- a round deletes one event at least
unfoldable pub purge_events_older_than : ℕ → Tables → Option (ℕ × Tables)
unfolding purge_loop
purge_events_older_than cutoff t = purge_loop (suc (length t.events)) purge_batch cutoff 0 t

unfoldable pub purge_announcements_older_than : ℕ → Tables → ℕ × Tables
purge_announcements_older_than cutoff t = (
  length (select (λ (a : Announcement). ltb a.starts_at cutoff) t.announcements),
  record t {
    announcements = select (λ (a : Announcement). not (ltb a.starts_at cutoff)) t.announcements;
  },
)

-- None: rolled back
unfoldable pub purge_old_events : ℕ → ℕ → Tables → Option (ℕ × ℕ × Tables)
unfolding purge_events_older_than purge_announcements_older_than
purge_old_events retention_hours now t =
    let cutoff = now - retention_hours * hour in
    elim (purge_events_older_than cutoff t) [
      | none ↦ none
      | some x ↦
          let (removed, t1) = x in
          let (gone, t2) = purge_announcements_older_than cutoff t1 in some (removed, gone, t2)
    ]

-- `sent_at is not None and purged_at is None`, and sent before the cutoff
abbrev pub is_purgeable : ℕ → RoomCredential → Bool
is_purgeable cutoff c = elim c.sent_at [
  | none ↦ false
  | some t ↦ not (is_some c.purged_at) && ltb t cutoff
]

unfoldable pub purge_old_credentials : ℕ → ℕ → List RoomCredential → List RoomCredential
purge_old_credentials retention_days now rows =
    update_where (is_purgeable (now - retention_days * day))
      (λ c. record c {
        room_id_encrypted = "purged";
        room_password_encrypted = "purged";
        purged_at = some now;
      })
      rows
