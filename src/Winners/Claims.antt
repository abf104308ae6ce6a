-- ===== src/Winners/Claims.antt =====
-- Who may claim a prize.
use free_fire_room.Prelude.{
  ℕ, ◌≡◌, ◌↔◌, refl, ap, inl, inr, Bool, true, false, none, some, List, [], ◌∷◌, String, is_some,
  find, any, insert, Reply, ok, Option-cases, Bool-cases, find-none-any, arith,
}
use free_fire_room.Model.{RegistrationStatus, Event, Registration, User, WinnerClaim, claim_of, Db}
use free_fire_room.Registration.{of_pair}
use free_fire_room.Reviews.{has_confirmed}
use free_fire_room.Reviews.Fairness.{confirmed_row}
use free_fire_room.Winners.{
  ClaimError, winner_eligible, user_received_credentials, has_no_winner, check_winner_eligibility,
  new_claim, create_winner_claim,
}

-- everything that a claim asks for
pub record IsEntitled (db : Db) (user : User) (e : Event) : Type 0 where
  pub stored : e.deleted_at ≡ none
  pub running : has_no_winner e.status ≡ false
  pub seated :
      (r : Registration) × (find (of_pair e.id user.id) db.registrations ≡ some r)
      × (r.status ≡ RegistrationStatus.confirmed)
  pub served : user_received_credentials db e.id user.id ≡ true
  pub first : find (claim_of e.id user.id) db.claims ≡ none

any_of_none : {A : Type 0} (p : A → Bool) (xs : List A) → find p xs ≡ none → any p xs ≡ false
any_of_none p [] h = refl
any_of_none p (x ∷ xs) h = ground (arith, any_of_none p xs)

module _ (user : User) (e : Event) (db : Db) where
  abbrev HasPassed : Type 0
  HasPassed =
      (is_some e.deleted_at ≡ false)
      × (has_no_winner e.status ≡ false)
      × (has_confirmed (find (of_pair e.id user.id) db.registrations) ≡ true)
      × (user_received_credentials db e.id user.id ≡ true)

  eligible_tests : check_winner_eligibility db user e ≡ none → HasPassed
  unfolding check_winner_eligibility winner_eligible
  eligible_tests h = ground arith

  tests_eligible : HasPassed → check_winner_eligibility db user e ≡ none
  unfolding check_winner_eligibility winner_eligible
  tests_eligible h = let (a, b, c, d) = h in rw (check_winner_eligibility, a, b, c, d) refl

  module _ (fresh : ℕ) (screenshot : String) where
    claimed-IsEntitled :
        (create_winner_claim fresh user e screenshot db).0 ≡ ok (new_claim fresh user e screenshot)
        → IsEntitled db user e
    unfolding create_winner_claim
    claimed-IsEntitled h = elim (Option-cases (check_winner_eligibility db user e)) [
      | inr (x, bad) ↦ absurd (ground arith)
      | inl fine ↦ elim (Bool-cases (any (claim_of e.id user.id) db.claims)) [
        | inl again ↦ absurd (ground arith)
        | inr first ↦
            let (a, b, c, d) = eligible_tests fine in
            record {
              stored = ground arith;
              running = b;
              seated = confirmed_row (find (of_pair e.id user.id) db.registrations) c;
              served = d;
              first = find-none-any (claim_of e.id user.id) db.claims first;
            }
      ]
    ]

    IsEntitled-claimed :
        IsEntitled db user e
        → create_winner_claim fresh user e screenshot db ≡ (
          ok (new_claim fresh user e screenshot),
          record db { claims = insert (new_claim fresh user e screenshot) db.claims },
        )
    unfolding create_winner_claim
    IsEntitled-claimed h =
        let (r, f, seat) = h.seated in
        let a : is_some e.deleted_at ≡ false = rw h.stored refl in
        let c : has_confirmed (find (of_pair e.id user.id) db.registrations) ≡ true =
          rw (f, seat) refl in
        let fine = tests_eligible (a, h.running, c, h.served) in
        let first = any_of_none (claim_of e.id user.id) db.claims h.first in
        rw (create_winner_claim, fine, first) refl

-- A player's claim is stored, pending, exactly if the event is neither deleted nor a draft, rejected or
-- cancelled, the player's registration is confirmed, the bot has sent the player the room, and the
-- player has no claim for the event yet.
pub create_winner_claim_iff :
    (fresh : ℕ) (user : User) (e : Event) (screenshot : String) (db : Db)
    → let c = new_claim fresh user e screenshot in
      (create_winner_claim fresh user e screenshot db
        ≡ (ok c, record db { claims = insert c db.claims }))
      ↔ IsEntitled db user e
create_winner_claim_iff fresh user e screenshot db = (
  (λ h.
      claimed-IsEntitled user e db fresh screenshot
        (ap (λ (x : Reply WinnerClaim ClaimError × Db). x.0) h)),
  IsEntitled-claimed user e db fresh screenshot,
)
