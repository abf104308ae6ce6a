-- ===== src/Scheduler/Claim.antt =====
-- What the workers claim.
use free_fire_room.Prelude.{
  find, ◌+◌, ◌⊎◌, inl, inr, false, ℕ, zero, suc, ◌≤◌, ◌≡◌, refl, Bool, true, some, List, [], ◌∷◌,
  String, ltb, if_both, if_cases, length, take, select, map, insert_by, sort_onto, sort_by, All,
  arith,
}
use free_fire_room.Model.{JobStatus, is_pending_job, Slot, ScheduledJob, Db}
use free_fire_room.Scheduler.{with_key, is_due, claimed_job, due_jobs, claim_due_jobs_sync}
use free_fire_room.Scheduler.Marks.{HasOwnKeys, IsDueRow, mark_claimed-AreKept, mark_claimed-stored}

module _ {ℓ κ} {A : Type ℓ} (P : A → Type κ) where
  pub All-take : (n : ℕ) (xs : List A) → All P xs → All P (take n xs)
  All-take zero xs h = tt
  All-take (suc n) [] h = tt
  All-take (suc n) (x ∷ xs) h = (h.0, All-take n xs h.1)

  All-insert_by : (key : A → ℕ) (r : A) (xs : List A) → P r → All P xs → All P (insert_by key r xs)
  All-insert_by key r [] p h = (p, tt)
  All-insert_by key r (x ∷ xs) p h =
      if_both (All P) (ltb (key r) (key x)) (r ∷ x ∷ xs) (x ∷ insert_by key r xs) (p, h)
        (h.0, All-insert_by key r xs p h.1)

  pub All-sort_onto :
      (key : A → ℕ) (sorted xs : List A) → All P sorted → All P xs → All P (sort_onto key sorted xs)
  All-sort_onto key sorted [] s h = s
  All-sort_onto key sorted (x ∷ xs) s h =
      All-sort_onto key (insert_by key x sorted) xs (All-insert_by key x sorted h.0 s) h.1

-- what a query selects passes its test, and has what all rows have
All-select {ℓ κ} :
    {A : Type ℓ} (P : A → Type κ) (p : A → Bool) (xs : List A)
    → All P xs
    → All (λ x. (p x ≡ true) × P x) (select p xs)
All-select P p [] h = tt
All-select P p (x ∷ xs) h =
    if_cases (All (λ y. (p y ≡ true) × P y)) (p x) (x ∷ select p xs) (select p xs)
      (λ e. ((e, h.0), All-select P p xs h.1)) (λ _. All-select P p xs h.1)

length-take-le {ℓ} : {A : Type ℓ} (n : ℕ) (xs : List A) → length (take n xs) ≤ n
length-take-le zero xs = omega arith
length-take-le (suc n) [] = omega arith
length-take-le (suc n) (x ∷ xs) = let rest = length-take-le n xs in omega arith

length-map_le {ℓ κ} :
    {A : Type ℓ} {B : Type κ} (f : A → B) (n : ℕ) (xs : List A)
    → length xs ≤ n
    → length (map f xs) ≤ n
length-map_le f n [] h = omega arith
length-map_le f zero (x ∷ xs) h = ground arith
length-map_le f (suc n) (x ∷ xs) h = let rest = length-map_le f n xs (omega arith) in omega arith

-- A job that a worker has just taken for itself, of the tables before and after: it was stored,
-- pending, due and free, it counts one try more, and so it is stored.
pub record IsClaimed (locked : ScheduledJob → Bool) (now : ℕ) (worker : String)
    (before after : List ScheduledJob) (c : ScheduledJob) : Type 0 where
  pub old : ScheduledJob
  pub found : find (with_key c.entity_id c.slot) before ≡ some old
  pub was_pending : old.status ≡ JobStatus.pending
  pub was_due : old.run_at ≤ now
  pub was_free : locked old ≡ false
  pub counts : c.attempts ≡ old.attempts + 1
  pub runs : c.status ≡ JobStatus.running
  pub holder : c.locked_by ≡ some worker
  pub since : c.locked_at ≡ some now
  pub stored : find (with_key c.entity_id c.slot) after ≡ some c

is_pending_job-eq : (s : JobStatus) → is_pending_job s ≡ true → s ≡ JobStatus.pending
is_pending_job-eq JobStatus.pending h = refl
is_pending_job-eq JobStatus.running h = absurd (ground arith)
is_pending_job-eq JobStatus.done h = absurd (ground arith)
is_pending_job-eq JobStatus.failed h = absurd (ground arith)
is_pending_job-eq JobStatus.cancelled h = absurd (ground arith)

module _ (locked : ScheduledJob → Bool) (now : ℕ) (worker : String)
    (before after : List ScheduledJob) where
  All-IsClaimed :
      (js : List ScheduledJob)
      → All (IsDueRow locked now worker before) js
      → All (λ x. find (with_key x.entity_id x.slot) after ≡ some (claimed_job now worker x)) js
      → All (IsClaimed locked now worker before after) (map (claimed_job now worker) js)
  All-IsClaimed [] h g = tt
  All-IsClaimed (j ∷ js) h g =
      let due = h.0.0 in
      (
        record {
          old = j;
          found = h.0.1;
          was_pending = is_pending_job-eq j.status (ground arith);
          was_due = ground arith;
          was_free = ground arith;
          counts = refl;
          runs = refl;
          holder = refl;
          since = refl;
          stored = g.0;
        },
        All-IsClaimed js h.1 g.1,
      )

-- A worker claims at most as many jobs as it asks for; each was stored under its key, pending, due and
-- not held by another worker, and is now running, locked by this worker at this moment, with one
-- try more, and stored so. A stored job that is not as it was before was pending, due and not held.
-- It supposes that each job is the one that its key finds.
pub claim_due_jobs_sync_lem :
    (locked : ScheduledJob → Bool) (now : ℕ) (worker : String) (limit id : ℕ) (s : Slot)
    (j : ScheduledJob) (db : Db)
    → HasOwnKeys db.jobs
    → find (with_key id s) db.jobs ≡ some j
    → let (claimed, db') = claim_due_jobs_sync locked now worker limit db in
      (length claimed ≤ limit)
      × All (IsClaimed locked now worker db.jobs db'.jobs) claimed
      × ((find (with_key id s) db'.jobs ≡ some j)
          ⊎ ((j.status ≡ JobStatus.pending) × (j.run_at ≤ now) × (locked j ≡ false)))
unfolding claim_due_jobs_sync due_jobs
claim_due_jobs_sync_lem locked now worker limit id s j db keys f =
    let due = select (is_due locked now) db.jobs in
    let sorted = sort_by (λ x. x.run_at) due in
    let P = IsDueRow locked now worker db.jobs in
    let rows : All P (take limit sorted) =
      All-take P limit sorted (
        All-sort_onto P (λ x. x.run_at) [] due tt
          (All-select _ (is_due locked now) db.jobs keys)) in
    let start =
      λ (i : ℕ) (t : Slot) (x : ScheduledJob) (g : find (with_key i t) db.jobs ≡ some x). inl g in
    let kept =
      mark_claimed-AreKept locked now worker db.jobs (take limit sorted) db.jobs rows start in
    (
      length-map_le (claimed_job now worker) limit (take limit sorted)
          (length-take-le limit sorted),
      All-IsClaimed locked now worker db.jobs _ (take limit sorted) rows
          (mark_claimed-stored locked now worker db.jobs (take limit sorted) db.jobs rows start),
      elim (kept id s j f) [
        | inl same ↦ inl same
        | inr taken ↦
            let due_then = taken.1 in
            inr (is_pending_job-eq j.status (ground arith), ground arith, ground arith)
      ],
    )
