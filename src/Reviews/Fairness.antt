-- ===== src/Reviews/Fairness.antt =====
-- What a stored review shows, and that a review leaves the scores accountable.
use free_fire_room.Prelude.{
  ℕ, ◌+◌, ◌*◌, ◌≤◌, ℤ, ◌≡◌, ◌≢◌, refl, sym, subst, inl, inr, Bool, true, false, Option, none, some,
  List, String, ==_iff, is_some, find, any, insert, Reply, ok, raised, Option-cases, Bool-cases,
  if_both, if_cases, find-holds, IsUniqueBy, insert-IsUniqueBy, arith,
}
use free_fire_room.Model.{
  Settings, hour, RegistrationStatus, TrustEventType, Event, Registration, User, Organizer,
  EventReview, review_of, Db, organizer_id,
}
use free_fire_room.Registration.{of_pair}
use free_fire_room.Trust.{apply_trust, add_change}
use free_fire_room.Trust.Audit.{IsAudited, IsAudited-same, apply_trust-IsAudited}
use free_fire_room.Reviews.{
  Refusal, existing_review, review_window_open, is_own, has_confirmed, organizer_of, can_review,
  trust_delta, is_zero, is_rating, move_score, new_review, store_review, create_review, vote_of,
  comment_of, already_reviewed, bad_rating,
}

-- what `can_review` asks for
pub record IsAllowed (s : Settings) (now : ℕ) (db : Db) (user : User) (e : Event) : Type 0 where
  pub stored : e.deleted_at ≡ none
  pub played : e.starts_at ≤ now
  pub in_time : now ≤ e.starts_at + s.past_events_hours * hour
  pub confirmed :
      (r : Registration) × (find (of_pair e.id user.id) db.registrations ≡ some r)
      × (r.status ≡ RegistrationStatus.confirmed)
  pub not_own :
      (o : Organizer)
      → find (organizer_id e.organizer_id) db.organizers ≡ some o
      → o.user_id ≢ user.id
  pub first : find (review_of user.id e.id) db.reviews ≡ none

pub confirmed_row :
    (o : Option Registration)
    → has_confirmed o ≡ true
    → (r : Registration) × (o ≡ some r) × (r.status ≡ RegistrationStatus.confirmed)
confirmed_row none h = absurd (ground arith)
confirmed_row (some r) h = (r, refl, ground arith)

not_own_row :
    (m : Option Organizer) (user_id : ℕ) (o : Organizer)
    → is_own m user_id ≡ false
    → m ≡ some o
    → o.user_id ≢ user_id
not_own_row none user_id o h e = absurd (ground arith)
not_own_row (some p) user_id o h e = λ q. ground arith

none_of : (o : Option EventReview) → is_some o ≡ false → o ≡ none
none_of none h = refl
none_of (some v) h = absurd (ground arith)

module _ (s : Settings) (now : ℕ) (db : Db) (user : User) (e : Event) where
  tests :
      can_review s now db user e ≡ none
      → (is_some e.deleted_at ≡ false)
        × (is_own (organizer_of e db) user.id ≡ false)
        × (review_window_open s e now ≡ true)
        × (is_some (existing_review db user.id e.id) ≡ false)
        × (has_confirmed (find (of_pair e.id user.id) db.registrations) ≡ true)
  unfolding can_review
  tests h = ground arith

  can_review-IsAllowed : can_review s now db user e ≡ none → IsAllowed s now db user e
  unfolding review_window_open existing_review
  can_review-IsAllowed h =
      let (stored, own, window, first, row) = tests h in
      record {
        stored = ground arith;
        played = ground arith;
        in_time = ground arith;
        confirmed = confirmed_row (find (of_pair e.id user.id) db.registrations) row;
        not_own = λ o. not_own_row (organizer_of e db) user.id o own;
        first = none_of (find (review_of user.id e.id) db.reviews) first;
      }

-- a row found by its id is found by the id that it has
found_again :
    (k : ℕ) (o : Organizer) (os : List Organizer)
    → find (organizer_id k) os ≡ some o
    → find (organizer_id o.id) os ≡ some o
found_again k o os f =
    let at = find-holds (organizer_id k) os o f in
    subst (λ j. find (organizer_id j) os ≡ some o) (sym ((==_iff o.id k).0 at)) f

move_score-IsAudited :
    (user : User) (e : Event) (delta : ℤ) (db : Db)
    → IsAudited db
    → IsAudited (move_score user e delta db)
unfolding move_score
move_score-IsAudited user e delta db h = elim (Option-cases (organizer_of e db)) [
  | inl gone ↦ rw (move_score, gone) h
  | inr (o, f) ↦
      rw (move_score, f)
        (if_both IsAudited (is_zero delta) db _ h (
          apply_trust-IsAudited o TrustEventType.player_review delta (some user.id) (some e.id) db h
            (found_again e.organizer_id o db.organizers f)))
]

move_score-reviews :
    (user : User) (e : Event) (delta : ℤ) (db : Db)
    → (move_score user e delta db).reviews ≡ db.reviews
unfolding move_score apply_trust add_change
move_score-reviews user e delta db = elim (Option-cases (organizer_of e db)) [
  | inl gone ↦ rw (move_score, gone) refl
  | inr (o, f) ↦
      rw (move_score, f)
        (if_both (λ (x : Db). x.reviews ≡ db.reviews) (is_zero delta) db _ refl refl)
]

-- what holds of the refusals and of the insert holds of the answer
pub create_review_rule {ℓ} :
    (s : Settings) (now : ℕ) (user : User) (e : Event) (rating : ℕ) (prize_paid : String)
    (comment : Option String) (db : Db) (P : Reply EventReview Refusal × Db → Type ℓ)
    → ((x : Refusal) → P (raised x, db))
    → (can_review s now db user e ≡ none
        → is_rating rating ≡ true
        → let v = new_review user e rating (vote_of prize_paid) (comment_of comment) in
          any (review_of v.reviewer_id v.event_id) db.reviews ≡ false
          → P (
            ok v,
            move_score user e
                (trust_delta v.rating v.prize_paid)
                (record db { reviews = insert v db.reviews }),
          ))
    → P (create_review s now user e rating prize_paid comment db)
unfolding create_review store_review
create_review_rule s now user e rating prize_paid comment db P refused stored =
    let v = new_review user e rating (vote_of prize_paid) (comment_of comment) in
    elim (Option-cases (can_review s now db user e)) [
      | inr (x, bad) ↦ rw (create_review, bad) (refused x)
      | inl fine ↦ elim (Bool-cases (is_rating rating)) [
        | inl r ↦
            rw (create_review, fine, r)
              (if_cases P (any (review_of v.reviewer_id v.event_id) db.reviews) _ _
                (λ _. refused already_reviewed) (stored fine r))
        | inr r ↦ rw (create_review, fine, r) (refused bad_rating)
      ]
    ]

-- A review that is stored is the only new row of its table, gives one to five stars, and comes from a
-- player with a confirmed registration, who does not organize the event and had not reviewed it,
-- between its start and the end of the time for reviews; the event is not deleted.
pub create_review-IsAllowed :
    (s : Settings) (now : ℕ) (user : User) (e : Event) (rating : ℕ) (prize_paid : String)
    (comment : Option String) (db : Db) (v : EventReview)
    → let (answer, after) = create_review s now user e rating prize_paid comment db in
      answer ≡ ok v
      → IsAllowed s now db user e
        × (1 ≤ v.rating)
        × (v.rating ≤ 5)
        × (after.reviews ≡ insert v db.reviews)
create_review-IsAllowed s now user e rating prize_paid comment db v =
    create_review_rule s now user e rating prize_paid comment db
      (λ (x : Reply EventReview Refusal × Db).
        x.0 ≡ ok v
        → IsAllowed s now db user e
          × (1 ≤ v.rating)
          × (v.rating ≤ 5)
          × (x.1.reviews ≡ insert v db.reviews))
      (λ x h. absurd (ground arith))
      (λ fine stars new h.
        let w = new_review user e rating (vote_of prize_paid) (comment_of comment) in
        let same : w ≡ v = ground arith in
        let kept =
          move_score-reviews user e (trust_delta w.rating w.prize_paid)
            (record db { reviews = insert w db.reviews }) in
        subst
          (λ u.
            IsAllowed s now db user e
            × (1 ≤ u.rating)
            × (u.rating ≤ 5)
            × ((move_score user e (trust_delta w.rating w.prize_paid)
                  (record db { reviews = insert w db.reviews })).reviews
                ≡ insert u db.reviews))
          same (can_review-IsAllowed s now db user e fine, ground arith, ground arith, kept))

abbrev pub same_review : EventReview → EventReview → Bool
same_review a b = review_of a.reviewer_id a.event_id b

-- Whatever the answer, reviewing keeps the reviews unique for each player and event, and every trust
-- score equal to what the rows of its changes make of the first one.
pub create_review-IsFair :
    (s : Settings) (now : ℕ) (user : User) (e : Event) (rating : ℕ) (prize_paid : String)
    (comment : Option String) (db : Db)
    → IsUniqueBy same_review db.reviews
    → IsAudited db
    → let after = (create_review s now user e rating prize_paid comment db).1 in
      IsUniqueBy same_review after.reviews × IsAudited after
create_review-IsFair s now user e rating prize_paid comment db u h =
    create_review_rule s now user e rating prize_paid comment db
      (λ (x : Reply EventReview Refusal × Db). IsUniqueBy same_review x.1.reviews × IsAudited x.1)
      (λ x. (u, h))
      (λ fine stars new.
        let w = new_review user e rating (vote_of prize_paid) (comment_of comment) in
        let stored = record db { reviews = insert w db.reviews } in
        let d = trust_delta w.rating w.prize_paid in
        (
          subst (IsUniqueBy same_review) (sym (move_score-reviews user e d stored))
              (insert-IsUniqueBy same_review w db.reviews (λ x. ground arith) new u),
          move_score-IsAudited user e d stored (IsAudited-same db stored refl refl h),
        ))
