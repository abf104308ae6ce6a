-- ===== src/Tests/Feedback.antt =====
-- Reviews, claims, reports and invitations of the players of event 1.
use free_fire_room.Prelude.{
  ℕ, ◌≡◌, ◌↔◌, ◌≤◌, refl, true, none, some, [], ◌∷◌, String, Chars, insert, ok, arith, IsUniqueBy,
}
use free_fire_room.Model.{default_settings, ReferralLink, PrizePaidVote, Db}
use free_fire_room.Trust.{record_change, rule_of}
use free_fire_room.Trust.Audit.{IsAudited}
use free_fire_room.Trust.Applying.{record_change-once}
use free_fire_room.Reviews.{
  create_review, can_review, existing_review, review_window_open, store_review, new_review,
  comment_of,
}
use free_fire_room.Reviews.Fairness.{
  IsAllowed, create_review-IsAllowed, create_review-IsFair, same_review,
}
use free_fire_room.Winners.{create_winner_claim, new_claim}
use free_fire_room.Winners.Claims.{IsEntitled, create_winner_claim_iff}
use free_fire_room.Reports.{create_player_report}
use free_fire_room.Reports.Limits.{IsLimited, create_player_report-IsLimited}
use free_fire_room.Referrals.{validate_pending_referrals, pending_referral}
use free_fire_room.Referrals.Counts.{IsTallied, validate_pending_referrals-IsTallied}
use free_fire_room.Funnel.{Stage, event_funnel, biggest_drop}
use free_fire_room.Funnel.Drops.{IsWorst, biggest_drop_lem}
use free_fire_room.Tests.Data.{open_cup, player, host, db}

db-IsAudited : IsAudited db
db-IsAudited = record { replayed = λ k o f. ground arith }

record_change-once_example :
    let after = (record_change host "credentials_missed" (some 1) none none db).1 in
    record_change host "credentials_missed" (some 1) none none after ≡ (none, after)
unfolding rule_of
record_change-once_example =
    record_change-once host host "credentials_missed" _ 1 none none none none db refl refl refl

-- the confirmed player reviews the event after its start
create_review-IsAllowed_example :
    IsAllowed default_settings 2000 db (player 1) open_cup
    × (1 ≤ 5)
    × (5 ≤ 5)
    × ((create_review default_settings 2000 (player 1) open_cup 5 "yes" none db).1.reviews
        ≡ insert (new_review (player 1) open_cup 5 PrizePaidVote.yes none) db.reviews)
unfolding create_review can_review existing_review review_window_open store_review comment_of
create_review-IsAllowed_example =
    create_review-IsAllowed default_settings 2000 (player 1) open_cup 5 "yes" none db
      (new_review (player 1) open_cup 5 PrizePaidVote.yes none) refl

create_review-IsFair_example :
    let after = (create_review default_settings 2000 (player 1) open_cup 1 "no" none db).1 in
    IsUniqueBy same_review after.reviews × IsAudited after
create_review-IsFair_example =
    create_review-IsFair default_settings 2000 (player 1) open_cup 1 "no" none db tt db-IsAudited

create_winner_claim_iff_example :
    let c = new_claim 30 (player 1) open_cup "f" in
    (create_winner_claim 30 (player 1) open_cup "f" db
      ≡ (ok c, record db { claims = insert c db.claims }))
    ↔ IsEntitled db (player 1) open_cup
create_winner_claim_iff_example = create_winner_claim_iff 30 (player 1) open_cup "f" db

-- a text without letters, as the tables of Unicode leave it
abbrev same : Chars → Chars
same t = t

create_player_report-IsLimited_example :
    IsLimited
      (create_player_report default_settings same same 2000
        (player 1)
        open_cup
        "cheater"
        (65 ∷ 66 ∷ [])
        db).1.reports
create_player_report-IsLimited_example =
    create_player_report-IsLimited default_settings same same 2000 (player 1) open_cup "cheater"
      (65 ∷ 66 ∷ []) db (λ u k. (omega arith, omega arith))

abbrev link : ℕ → ℕ → String → ReferralLink
link id user_id token = record {
  id = id;
  user_id = user_id;
  event_id = some 1;
  campaign = "default";
  token = token;
  is_active = true;
  valid_count = 0;
}

-- player 2 was invited by player 1
abbrev invited : Db
invited = record db {
  referral_links = link 1 1 "a" ∷ link 2 2 "b" ∷ [];
  referrals = pending_referral (link 1 1 "a") 2 "pending_onboarding" ∷ [];
}

validate_pending_referrals-IsTallied_example :
    let after = (validate_pending_referrals 2000 (player 2) invited).1 in
    IsTallied after.referral_links after.referrals
validate_pending_referrals-IsTallied_example =
    validate_pending_referrals-IsTallied 2000 (player 2) invited (λ k l f. ground arith)

biggest_drop_lem_example :
    let f = event_funnel 1 db in
    (f.started ≤ f.viewed) × (f.confirmed ≤ f.started) × IsWorst f (biggest_drop f) Stage.card
biggest_drop_lem_example = biggest_drop_lem 1 db Stage.card
