-- ===== src/Funnel/Drops.antt =====
-- The stage that the organizer is told about.
use free_fire_room.Prelude.{
  ℕ, ◌-◌, ◌≤◌, ◌<◌, Bool, ◌&&◌, Option, none, some, List, [], ◌∷◌, ltb, ◌==◌, if◌then◌else◌,
  if_cases, count, arith,
}
use free_fire_room.Model.{is_confirmed, Db}
use free_fire_room.Funnel.{FunnelStats, Stage, event_funnel, biggest_drop}

-- how many players are lost at a stage
abbrev pub loss : FunnelStats → Stage → ℕ
loss f Stage.card = f.viewed - f.started
loss f Stage.registration = f.started - f.confirmed
loss f Stage.delivery = f.confirmed - f.delivered

-- the answer is right as far as one stage is concerned
abbrev pub IsWorst : FunnelStats → Option Stage → Stage → Type 0
IsWorst f none other = loss f other < 3
IsWorst f (some stage) other = (3 ≤ loss f stage) × (loss f other ≤ loss f stage)

loss-le :
    (f : FunnelStats) (other : Stage) (n : ℕ)
    → loss f Stage.card ≤ n
    → loss f Stage.registration ≤ n
    → loss f Stage.delivery ≤ n
    → loss f other ≤ n
loss-le f Stage.card n a b c = a
loss-le f Stage.registration n a b c = b
loss-le f Stage.delivery n a b c = c

module _ (f : FunnelStats) (other : Stage) where
  abbrev Fits : Option Stage × ℕ → Type 0
  Fits x = IsWorst f (if ltb x.1 3 then none else x.0) other

  -- a stage that is the worst one, by its loss
  named :
      (stage : Stage)
      → loss f Stage.card ≤ loss f stage
      → loss f Stage.registration ≤ loss f stage
      → loss f Stage.delivery ≤ loss f stage
      → Fits (some stage, loss f stage)
  named stage a b c =
      if_cases (λ o. IsWorst f o other) (ltb (loss f stage) 3) none (some stage)
        (λ few. ground arith) (λ many. (ground arith, loss-le f other (loss f stage) a b c))

compared : (f : FunnelStats) (other : Stage) → IsWorst f (biggest_drop f) other
unfolding biggest_drop
compared f other =
    let P = Fits f other in
    if_cases P (ltb 0 (f.viewed - f.started)) _ _
      (λ h1.
        if_cases P (ltb (f.viewed - f.started) (f.started - f.confirmed)) _ _
          (λ h2.
            if_cases P (ltb (f.started - f.confirmed) (f.confirmed - f.delivered)) _ _
              (λ h3. named f other Stage.delivery (ground arith) (ground arith) (ground arith))
              (λ h3. named f other Stage.registration (ground arith) (ground arith) (ground arith)))
          (λ h2.
            if_cases P (ltb (f.viewed - f.started) (f.confirmed - f.delivered)) _ _
              (λ h3. named f other Stage.delivery (ground arith) (ground arith) (ground arith))
              (λ h3. named f other Stage.card (ground arith) (ground arith) (ground arith))))
      (λ h1.
        if_cases P (ltb 0 (f.started - f.confirmed)) _ _
          (λ h2.
            if_cases P (ltb (f.started - f.confirmed) (f.confirmed - f.delivered)) _ _
              (λ h3. named f other Stage.delivery (ground arith) (ground arith) (ground arith))
              (λ h3. named f other Stage.registration (ground arith) (ground arith) (ground arith)))
          (λ h2.
            if_cases P (ltb 0 (f.confirmed - f.delivered)) _ _
              (λ h3. named f other Stage.delivery (ground arith) (ground arith) (ground arith))
              (λ h3.
                let few = loss-le f other 0 (ground arith) (ground arith) (ground arith) in
                omega arith)))

count_and_le {ℓ} :
    {A : Type ℓ} (p q : A → Bool) (xs : List A) → count (λ x. p x && q x) xs ≤ count p xs
count_and_le p q [] = omega arith
count_and_le p q (x ∷ xs) = let rest = count_and_le p q xs in ground arith

-- No stage of an event's funnel has more players than the one before it, up to the confirmed ones; and the
-- stage that the organizer is told about loses at least three players and no fewer than any other
-- one; where none is named, every stage loses fewer than three.
pub biggest_drop_lem :
    (event_id : ℕ) (db : Db) (other : Stage)
    → let f = event_funnel event_id db in
      (f.started ≤ f.viewed) × (f.confirmed ≤ f.started) × IsWorst f (biggest_drop f) other
unfolding event_funnel
biggest_drop_lem k db other =
    let f = event_funnel k db in
    let some_of =
      count_and_le (λ r. r.event_id == k) (λ r. is_confirmed r.status) db.registrations in
    (ground arith, some_of, compared f other)
