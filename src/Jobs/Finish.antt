-- ===== src/Jobs/Finish.antt =====
-- What the backstop of an event does: the job that finishes it.
use free_fire_room.Prelude.{
  ℕ, ◌≡◌, refl, sym, subst, if_cases, true, false, Option, none, some, is_some, or_else, ==_refl,
  arith,
}
use free_fire_room.Model.{Settings, JobType, EventStatus, ScheduledJob, Event, Db, save_event}
use free_fire_room.Windows.{join_window_open, credentials_window_open, is_archived}
use free_fire_room.Jobs.{handle_job, run_job, finish_event, is_called_off}

-- an event is over: nobody may join, and the window for entering a room is closed
abbrev pub IsOver : Settings → ℕ → Option Event → Type 0
IsOver s later none = ⊥
IsOver s later (some e) =
    (join_window_open s e later ≡ false) × (credentials_window_open s e later ≡ false)

cancelled-IsOver :
    (s : Settings) (later : ℕ) (e : Event) → is_called_off e.status ≡ true → IsOver s later (some e)
unfolding join_window_open credentials_window_open is_archived
cancelled-IsOver s later e h = (ground arith, ground arith)

archived-IsOver :
    (s : Settings) (later : ℕ) (e : Event) → is_some e.archived_at ≡ true → IsOver s later (some e)
unfolding join_window_open credentials_window_open is_archived
archived-IsOver s later e h = (ground arith, ground arith)

is_some-or_else : (old : Option ℕ) (now : ℕ) → is_some (or_else old (some now)) ≡ true
is_some-or_else none now = refl
is_some-or_else (some t) now = refl

finish_event-IsOver :
    (s : Settings) (now later k : ℕ) (e : Event) (db : Db)
    → db.events k ≡ some e
    → e.id ≡ k
    → IsOver s later ((finish_event now (some e) db).events k)
unfolding finish_event
finish_event-IsOver s now later k e db f i =
    let e' = record e {
      status = EventStatus.finished;
      finished_at = or_else e.finished_at (some now);
      archived_at = or_else e.archived_at (some now);
    } in
    if_cases (λ d. IsOver s later (d.events k)) (is_called_off e.status) db (save_event e' db)
      (λ c. subst (IsOver s later) (sym f) (cancelled-IsOver s later e c))
      (λ n.
        let stored : (save_event e' db).events k ≡ some e' = ground (arith, ==_refl k) in
        subst (IsOver s later) (sym stored)
          (archived-IsOver s later e' (is_some-or_else e.archived_at now)))

-- Once the job that finishes an event has run, its stored event is closed at every later moment:
-- nobody may join it, and the window for entering a room is over (the panel still lets an organizer
-- replace a room that was entered before). It supposes that the event is stored under its id.
pub handle_job-IsOver :
    (s : Settings) (now later : ℕ) (j : ScheduledJob) (e : Event) (db : Db)
    → j.job_type ≡ JobType.event_finish
    → db.events j.entity_id ≡ some e
    → e.id ≡ j.entity_id
    → IsOver s later ((handle_job now j db).events j.entity_id)
unfolding handle_job run_job
handle_job-IsOver s now later j e db t f i =
    rw (handle_job, run_job, t, f) (finish_event-IsOver s now later j.entity_id e db f i)
