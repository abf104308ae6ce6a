-- ===== src/Scheduler/Keys.antt =====
-- The idempotency key of a job: scheduling never makes two jobs of one key.
use free_fire_room.Prelude.{
  ℕ, ◌≡◌, refl, true, none, some, inl, inr, List, [], ◌∷◌, arith, ==_refl, find, put, insert,
  find-insert-none, Option-cases, if_both,
}
use free_fire_room.Model.{Settings, Slot, same_slot, ScheduledJob, Event, Db}
use free_fire_room.Registration.Keys.{find-put-none}
use free_fire_room.Scheduler.{
  Plan, with_key, new_job, renewed, is_stale, schedule_one, schedule_all, schedule_event_jobs,
  event_plans,
}

pub same_slot_refl : (a : Slot) → same_slot a a ≡ true
same_slot_refl (Slot.rem m) = ==_refl m
same_slot_refl Slot.creds = refl
same_slot_refl Slot.start = refl
same_slot_refl Slot.finish = refl
same_slot_refl Slot.purge = refl
same_slot_refl Slot.recheck = refl

pub eq_of_same_slot : (a b : Slot) → same_slot a b ≡ true → a ≡ b
eq_of_same_slot (Slot.rem m) (Slot.rem n) h = ground arith
eq_of_same_slot a b h = ground arith

pub with_key_self : (j : ScheduledJob) → with_key j.entity_id j.slot j ≡ true
with_key_self j = ground (arith, same_slot_refl j.slot)

-- `unique=True` of the column
abbrev pub HasUniqueKeys : List ScheduledJob → Type 0
HasUniqueKeys [] = Unit
HasUniqueKeys (j ∷ js) = (find (with_key j.entity_id j.slot) js ≡ none) × HasUniqueKeys js

pub put-HasUniqueKeys :
    (k : ℕ) (s : Slot) (r old : ScheduledJob) (js : List ScheduledJob)
    → find (with_key k s) js ≡ some old
    → r.entity_id ≡ old.entity_id
    → r.slot ≡ old.slot
    → HasUniqueKeys js
    → HasUniqueKeys (put (with_key k s) r js)
put-HasUniqueKeys k s r old [] f e t u = tt
put-HasUniqueKeys k s r old (x ∷ xs) f e t u = ground (
  arith,
  put-HasUniqueKeys k s r old xs,
  find-put-none (with_key x.entity_id x.slot) (with_key k s) r old xs,
)

insert-HasUniqueKeys :
    (r : ScheduledJob) (js : List ScheduledJob)
    → find (with_key r.entity_id r.slot) js ≡ none
    → HasUniqueKeys js
    → HasUniqueKeys (insert r js)
insert-HasUniqueKeys r [] f u = (refl, tt)
insert-HasUniqueKeys r (x ∷ xs) f u = ground (
  arith,
  insert-HasUniqueKeys r xs,
  find-insert-none (with_key x.entity_id x.slot) r xs,
  eq_of_same_slot r.slot x.slot,
  same_slot_refl r.slot,
)

schedule_one-HasUniqueKeys :
    (now k : ℕ) (p : Plan) (js : List ScheduledJob)
    → HasUniqueKeys js
    → HasUniqueKeys (schedule_one now k p js)
unfolding schedule_one
schedule_one-HasUniqueKeys now k p js u =
    if_both HasUniqueKeys (is_stale now p) js _ u
      (elim (Option-cases (find (with_key k p.slot) js)) [
        | inl f ↦ rw f (insert-HasUniqueKeys (new_job k p) js f u)
        | inr (j, f) ↦
            rw f (put-HasUniqueKeys k p.slot (renewed p j) j js f (ground arith) (ground arith) u)
      ])

schedule_all-HasUniqueKeys :
    (now k : ℕ) (ps : List Plan) (js : List ScheduledJob)
    → HasUniqueKeys js
    → HasUniqueKeys (schedule_all now k ps js)
unfolding schedule_all
schedule_all-HasUniqueKeys now k [] js u = u
schedule_all-HasUniqueKeys now k (p ∷ ps) js u =
    schedule_all-HasUniqueKeys now k ps (schedule_one now k p js)
      (schedule_one-HasUniqueKeys now k p js u)

-- Scheduling an event, whatever jobs it has already, never stores two jobs under one key.
pub schedule_event_jobs-HasUniqueKeys :
    (s : Settings) (now : ℕ) (e : Event) (db : Db)
    → HasUniqueKeys db.jobs
    → HasUniqueKeys (schedule_event_jobs s now e db).jobs
unfolding schedule_event_jobs
schedule_event_jobs-HasUniqueKeys s now e db u =
    schedule_all-HasUniqueKeys now e.id (event_plans s now e) db.jobs u
