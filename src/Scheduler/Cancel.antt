-- ===== src/Scheduler/Cancel.antt =====
-- What cancelling does, and what scheduling does after it.
use free_fire_room.Prelude.{
  Bool, String, select, map, sort_by, All, if_cases, ◌==◌, ◌&&◌, ℕ, ◌≡◌, refl, ap, sym, subst, ◌∙◌,
  true, false, some, inl, inr, List, [], ◌∷◌, arith, if◌then◌else◌, find, put, update_where, count,
  find-holds, find-insert-some, find-put_self, find-put_ne, Option-cases, Bool-cases, if_both,
}
use free_fire_room.Model.{
  Settings, Slot, same_slot, JobStatus, is_waiting_job, is_pending_job, ScheduledJob, Event, Db,
}
use free_fire_room.Scheduler.{
  Plan, with_key, new_job, renewed, is_stale, schedule_one, schedule_all, schedule_event_jobs,
  event_plans, to_cancel, cancelled_job, cancel_event_jobs, is_due, due_jobs, claimed_job,
  claim_due_jobs_sync,
}
use free_fire_room.Scheduler.Claim.{All-take, All-sort_onto}
use free_fire_room.Scheduler.Keys.{eq_of_same_slot}

-- every row of the table after a cancellation
find-cancel :
    (k id : ℕ) (s : Slot) (js : List ScheduledJob) (j : ScheduledJob)
    → find (with_key id s) js ≡ some j
    → find (with_key id s) (update_where (to_cancel k) cancelled_job js)
      ≡ some (if to_cancel k j then cancelled_job j else j)
find-cancel k id s [] j f = ground arith
find-cancel k id s (x ∷ xs) j f = ground (arith, find-cancel k id s xs j)

count-cancel :
    (k : ℕ) (js : List ScheduledJob)
    → count (to_cancel k) (update_where (to_cancel k) cancelled_job js) ≡ 0
count-cancel k [] = refl
count-cancel k (x ∷ xs) = ground (arith, count-cancel k xs)

-- a job that has not run: waiting for its moment, or for another try
abbrev pub is_open_job : JobStatus → Bool
is_open_job JobStatus.pending = true
is_open_job JobStatus.failed = true
is_open_job _ = false

-- an open job of an event
abbrev pub is_open_of : ℕ → ScheduledJob → Bool
is_open_of k j = j.entity_id == k && is_open_job j.status

is_open_job-waiting : (s : JobStatus) → is_open_job s ≡ is_waiting_job s
is_open_job-waiting JobStatus.pending = refl
is_open_job-waiting JobStatus.running = refl
is_open_job-waiting JobStatus.done = refl
is_open_job-waiting JobStatus.failed = refl
is_open_job-waiting JobStatus.cancelled = refl

is_open_of-to_cancel : (k : ℕ) (j : ScheduledJob) → is_open_of k j ≡ to_cancel k j
is_open_of-to_cancel k j = rw (is_open_job-waiting j.status) refl

count-open : (k : ℕ) (js : List ScheduledJob) → count (is_open_of k) js ≡ count (to_cancel k) js
count-open k [] = refl
count-open k (x ∷ xs) = rw (is_open_of-to_cancel k x, count-open k xs) refl

-- a table without open jobs of an event has none of its jobs due
none_due :
    (locked : ScheduledJob → Bool) (now k : ℕ) (js : List ScheduledJob)
    → count (is_open_of k) js ≡ 0
    → All (λ x. (x.entity_id == k) ≡ false) (select (is_due locked now) js)
none_due locked now k [] h = tt
none_due locked now k (x ∷ xs) h =
    let rest = none_due locked now k xs (ground arith) in
    if_cases (All (λ y. (y.entity_id == k) ≡ false)) (is_due locked now x) _ _
      (λ due. (other (ground arith) x.status refl (ground arith), rest)) (λ _. rest)
  where
    other :
        is_open_of k x ≡ false
        → (s : JobStatus) → x.status ≡ s
        → is_pending_job s ≡ true
        → (x.entity_id == k) ≡ false
    other idle JobStatus.pending e p =
        let o : is_open_job x.status ≡ true = rw e refl in ground arith
    other idle JobStatus.running e p = absurd (ground arith)
    other idle JobStatus.done e p = absurd (ground arith)
    other idle JobStatus.failed e p = absurd (ground arith)
    other idle JobStatus.cancelled e p = absurd (ground arith)

none_claimed :
    (now k : ℕ) (worker : String) (js : List ScheduledJob)
    → All (λ x. (x.entity_id == k) ≡ false) js
    → All (λ x. (x.entity_id == k) ≡ false) (map (claimed_job now worker) js)
none_claimed now k worker [] h = tt
none_claimed now k worker (x ∷ xs) h = (h.0, none_claimed now k worker xs h.1)

-- Cancelling an event's jobs reports how many were open (pending or failed) and leaves none of the
-- event open; of each stored job it changes the status, to cancelled, if it was an open one of the
-- event, and nothing otherwise; and no worker that claims due jobs next, whenever that is, gets one
-- of the event.
pub cancel_event_jobs_lem :
    (k id : ℕ) (s : Slot) (j : ScheduledJob) (locked : ScheduledJob → Bool) (now : ℕ)
    (worker : String) (limit : ℕ) (db : Db)
    → find (with_key id s) db.jobs ≡ some j
    → let (n, db') = cancel_event_jobs k db in
      (n ≡ count (is_open_of k) db.jobs)
      × (count (is_open_of k) db'.jobs ≡ 0)
      × (find (with_key id s) db'.jobs
          ≡ some (
              if id == k && is_open_job j.status
              then record j { status = JobStatus.cancelled }
              else j))
      × All (λ x. (x.entity_id == k) ≡ false) (claim_due_jobs_sync locked now worker limit db').0
unfolding cancel_event_jobs claim_due_jobs_sync due_jobs
cancel_event_jobs_lem k id s j locked now worker limit db f =
    let P : ScheduledJob → Type 0 = λ x. (x.entity_id == k) ≡ false in
    let db' = (cancel_event_jobs k db).1 in
    let none_open = count-open k db'.jobs ∙ count-cancel k db.jobs in
    let due = select (is_due locked now) db'.jobs in
    let key : j.entity_id ≡ id = ground (arith, find-holds (with_key id s) db.jobs j f) in
    let same : to_cancel k j ≡ (id == k && is_open_job j.status) =
      sym (is_open_of-to_cancel k j) ∙ ap (λ (m : ℕ). m == k && is_open_job j.status) key in
    (
      sym (count-open k db.jobs),
      none_open,
      find-cancel k id s db.jobs j f
          ∙ ap (λ (b : Bool). some (if b then cancelled_job j else j)) same,
      none_claimed now k worker _ (
          All-take P limit (sort_by (λ x. x.run_at) due)
            (All-sort_onto P (λ x. x.run_at) [] due tt (none_due locked now k db'.jobs none_open))),
    )

settled_here :
    (now k : ℕ) (s : Slot) (p : Plan) (js : List ScheduledJob) (j i : ScheduledJob)
    → find (with_key k s) js ≡ some j
    → find (with_key k p.slot) js ≡ some i
    → is_waiting_job j.status ≡ false
    → p.slot ≡ s
    → find (with_key k s) (put (with_key k p.slot) (renewed p i) js) ≡ some j
settled_here now k s p js j i f g w e =
    let g' : find (with_key k s) js ≡ some i = subst (λ t. find (with_key k t) js ≡ some i) e g in
    let same : i ≡ j = ground arith in
    let kept : renewed p i ≡ j = ground arith in
    subst (λ t. find (with_key k s) (put (with_key k t) (renewed p i) js) ≡ some j) (sym e)
      (find-put_self (with_key k s) (renewed p i) i js g'
          (ground (arith, find-holds (with_key k s) js i g'))
        ∙ ap some kept)

other_key :
    (k : ℕ) (s : Slot) (p : Plan) (js : List ScheduledJob) (i : ScheduledJob)
    → find (with_key k p.slot) js ≡ some i
    → same_slot p.slot s ≡ false
    → (with_key k s (renewed p i) ≡ false) × (with_key k s i ≡ false)
other_key k s p js i g o =
    let h = find-holds (with_key k p.slot) js i g in
    let e : i.slot ≡ p.slot = eq_of_same_slot i.slot p.slot (ground arith) in
    let n : same_slot i.slot s ≡ false = subst (λ t. same_slot t s ≡ false) (sym e) o in
    (ground arith, ground arith)

-- a job that is not waiting is left as it stands by one round of the loop
schedule_one_settled :
    (now k : ℕ) (s : Slot) (p : Plan) (js : List ScheduledJob) (j : ScheduledJob)
    → find (with_key k s) js ≡ some j
    → is_waiting_job j.status ≡ false
    → find (with_key k s) (schedule_one now k p js) ≡ some j
unfolding schedule_one
schedule_one_settled now k s p js j f w =
    if_both (λ t. find (with_key k s) t ≡ some j) (is_stale now p) js _ f
      (elim (Option-cases (find (with_key k p.slot) js)) [
        | inl n ↦ rw n (find-insert-some (with_key k s) (new_job k p) js j f)
        | inr (i, g) ↦ rw g (elim (Bool-cases (same_slot p.slot s)) [
          | inl same ↦ settled_here now k s p js j i f g w (eq_of_same_slot p.slot s same)
          | inr other ↦
              find-put_ne (with_key k s) (with_key k p.slot) (renewed p i) i js g
                (other_key k s p js i g other).0 (other_key k s p js i g other).1
              ∙ f
        ])
      ])

schedule_all_settled :
    (now k : ℕ) (s : Slot) (ps : List Plan) (js : List ScheduledJob) (j : ScheduledJob)
    → find (with_key k s) js ≡ some j
    → is_waiting_job j.status ≡ false
    → find (with_key k s) (schedule_all now k ps js) ≡ some j
unfolding schedule_all
schedule_all_settled now k s [] js j f w = f
schedule_all_settled now k s (p ∷ ps) js j f w =
    schedule_all_settled now k s ps (schedule_one now k p js) j
      (schedule_one_settled now k s p js j f w) w

-- Scheduling an event right after its jobs were cancelled revives none of them: each job that
-- was waiting stays cancelled, at its old time, though the event may have a new one. Between the
-- two, anything but the table of jobs may change.
pub schedule_after_cancel :
    (st : Settings) (now : ℕ) (e : Event) (s : Slot) (j : ScheduledJob) (db db' : Db)
    → db'.jobs ≡ (cancel_event_jobs e.id db).1.jobs
    → find (with_key e.id s) db.jobs ≡ some j
    → is_waiting_job j.status ≡ true
    → find (with_key e.id s) (schedule_event_jobs st now e db').jobs ≡ some (cancelled_job j)
unfolding schedule_event_jobs cancel_event_jobs
schedule_after_cancel st now e s j db db' same f w = rw same (
    schedule_all_settled now e.id s (event_plans st now e)
      (update_where (to_cancel e.id) cancelled_job db.jobs) (cancelled_job j)
      (find-cancel e.id e.id s db.jobs j f
        ∙ ground (arith, find-holds (with_key e.id s) db.jobs j f))
      refl)

-- a job that was waiting is cancelled
pub cancel_hits :
    (k : ℕ) (s : Slot) (j : ScheduledJob) (db : Db)
    → find (with_key k s) db.jobs ≡ some j
    → is_waiting_job j.status ≡ true
    → find (with_key k s) (cancel_event_jobs k db).1.jobs ≡ some (cancelled_job j)
unfolding cancel_event_jobs
cancel_hits k s j db f w =
    find-cancel k k s db.jobs j f ∙ ground (arith, find-holds (with_key k s) db.jobs j f)
