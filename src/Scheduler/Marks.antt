-- ===== src/Scheduler/Marks.antt =====
-- What a claim writes: the rows of the claimed jobs, each under its own key, and no other.
use free_fire_room.Prelude.{
  ℕ, ◌≡◌, ◌⊎◌, sym, subst, ◌∙◌, true, Bool, some, inl, inr, List, [], ◌∷◌, String, find, put,
  find-put_self, find-put_ne, All, Bool-cases, arith,
}
use free_fire_room.Model.{Slot, ScheduledJob}
use free_fire_room.Scheduler.{with_key, is_due, claimed_job, mark_claimed}
use free_fire_room.Scheduler.Keys.{eq_of_same_slot, with_key_self}

-- each job is the one that its key finds
abbrev pub HasOwnKeys : List ScheduledJob → Type 0
HasOwnKeys jobs = All (λ j. find (with_key j.entity_id j.slot) jobs ≡ some j) jobs

module _ (locked : ScheduledJob → Bool) (now : ℕ) (worker : String)
    (first : List ScheduledJob) where
  -- a job that is due, of the table as it was first
  abbrev pub IsDueRow : ScheduledJob → Type 0
  IsDueRow j = (is_due locked now j ≡ true) × (find (with_key j.entity_id j.slot) first ≡ some j)

  -- a row of the table while claims are written
  abbrev pub IsKept : List ScheduledJob → ℕ → Slot → ScheduledJob → Type 0
  IsKept jobs id s j =
      (find (with_key id s) jobs ≡ some j)
      ⊎ ((find (with_key id s) jobs ≡ some (claimed_job now worker j))
          × (is_due locked now j ≡ true))

  abbrev pub AreKept : List ScheduledJob → Type 0
  AreKept jobs =
      (id : ℕ) (s : Slot) (j : ScheduledJob)
      → find (with_key id s) first ≡ some j
      → IsKept jobs id s j

  -- the claim of a job is found under its key
  put_claimed :
      (y : ScheduledJob) (jobs : List ScheduledJob)
      → IsKept jobs y.entity_id y.slot y
      → find
          (with_key y.entity_id y.slot)
          (put (with_key y.entity_id y.slot) (claimed_job now worker y) jobs)
        ≡ some (claimed_job now worker y)
  put_claimed y jobs kept = elim kept [
    | inl k ↦ find-put_self _ (claimed_job now worker y) y jobs k (with_key_self y)
    | inr k ↦
        find-put_self _ (claimed_job now worker y) (claimed_job now worker y) jobs k.0
          (with_key_self y)
  ]

  -- under another key nothing changes, and under the same key it is the same job
  put_cases :
      (id : ℕ) (s : Slot) (j y : ScheduledJob) (jobs : List ScheduledJob)
      → find (with_key id s) first ≡ some j
      → IsDueRow y
      → IsKept jobs y.entity_id y.slot y
      → let after = put (with_key y.entity_id y.slot) (claimed_job now worker y) jobs in
        (find (with_key id s) after ≡ find (with_key id s) jobs)
        ⊎ ((find (with_key id s) after ≡ some (claimed_job now worker j))
            × (is_due locked now j ≡ true))
  put_cases id s j y jobs f due kept = elim (Bool-cases (with_key id s y)) [
    | inr other ↦ inl (elim kept [
      | inl k ↦
          find-put_ne (with_key id s) (with_key y.entity_id y.slot) (claimed_job now worker y) y
            jobs k other other
      | inr k ↦
          find-put_ne (with_key id s) (with_key y.entity_id y.slot) (claimed_job now worker y)
            (claimed_job now worker y) jobs k.0 other other
    ])
    | inl own ↦
        let at : y.entity_id ≡ id = ground arith in
        let slot : y.slot ≡ s = eq_of_same_slot y.slot s (ground arith) in
        let f1 = subst (λ m. find (with_key m s) first ≡ some j) (sym at) f in
        let f2 = subst (λ t. find (with_key y.entity_id t) first ≡ some j) (sym slot) f1 in
        let found = due.1 in
        let same : y ≡ j = ground arith in
        let after = put (with_key y.entity_id y.slot) (claimed_job now worker y) jobs in
        let written = put_claimed y jobs kept in
        let w1 =
          subst (λ t. find (with_key y.entity_id t) after ≡ some (claimed_job now worker y)) slot
            written in
        let w2 = subst (λ m. find (with_key m s) after ≡ some (claimed_job now worker y)) at w1 in
        inr (
          subst (λ x. find (with_key id s) after ≡ some (claimed_job now worker x)) same w2,
          subst (λ x. is_due locked now x ≡ true) same due.0,
        )
  ]

  put-AreKept :
      (y : ScheduledJob) (jobs : List ScheduledJob)
      → IsDueRow y
      → AreKept jobs
      → AreKept (put (with_key y.entity_id y.slot) (claimed_job now worker y) jobs)
  put-AreKept y jobs due kept id s j f =
      elim (put_cases id s j y jobs f due (kept y.entity_id y.slot y due.1)) [
        | inr k ↦ inr k
        | inl same ↦ elim (kept id s j f) [ inl k ↦ inl (same ∙ k) | inr k ↦ inr (same ∙ k.0, k.1) ]
      ]

  -- every row is left as it was, or was due and is claimed
  pub mark_claimed-AreKept :
      (js jobs : List ScheduledJob)
      → All IsDueRow js
      → AreKept jobs
      → AreKept (mark_claimed now worker js jobs)
  unfolding mark_claimed
  mark_claimed-AreKept [] jobs h kept = kept
  mark_claimed-AreKept (y ∷ ys) jobs h kept =
      mark_claimed-AreKept ys _ h.1 (put-AreKept y jobs h.0 kept)

  -- a row that is claimed stays so
  stays :
      (x : ScheduledJob) (js jobs : List ScheduledJob)
      → find (with_key x.entity_id x.slot) first ≡ some x
      → All IsDueRow js
      → AreKept jobs
      → find (with_key x.entity_id x.slot) jobs ≡ some (claimed_job now worker x)
      → find (with_key x.entity_id x.slot) (mark_claimed now worker js jobs)
        ≡ some (claimed_job now worker x)
  unfolding mark_claimed
  stays x [] jobs f h kept c = c
  stays x (y ∷ ys) jobs f h kept c =
      stays x ys _ f h.1 (put-AreKept y jobs h.0 kept)
        (elim (put_cases x.entity_id x.slot x y jobs f h.0 (kept y.entity_id y.slot y h.0.1)) [
          | inl same ↦ same ∙ c
          | inr k ↦ k.0
        ])

  -- each claimed job is stored as it is returned
  pub mark_claimed-stored :
      (js jobs : List ScheduledJob)
      → All IsDueRow js
      → AreKept jobs
      → All
          (λ x.
            find (with_key x.entity_id x.slot) (mark_claimed now worker js jobs)
            ≡ some (claimed_job now worker x))
          js
  unfolding mark_claimed
  mark_claimed-stored [] jobs h kept = tt
  mark_claimed-stored (y ∷ ys) jobs h kept =
      let kept' = put-AreKept y jobs h.0 kept in
      let written = put_claimed y jobs (kept y.entity_id y.slot y h.0.1) in
      (stays y ys _ h.0.1 h.1 kept' written, mark_claimed-stored ys _ h.1 kept')
