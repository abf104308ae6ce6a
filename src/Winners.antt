-- ===== src/Winners.antt =====
-- backend/app/services/winners.py: a player who was sent the room claims the prize of an event, and
-- the organizer decides.
pub mod Claims
use free_fire_room.Prelude.{
  ℕ, Bool, true, false, not, ◌&&◌, ◌||◌, Option, none, some, List, [], ◌∷◌, String, ◌==◌,
  if◌then◌else◌, is_some, find, any, count, select, put, insert, Reply, ok, raised,
}
use free_fire_room.Model.{
  EventStatus, WinnerClaimStatus, is_pending_claim, WinnerMessageDirection, Event, User, Delivery,
  is_sent, WinnerClaim, claim_of, WinnerMessage, Db,
}
use free_fire_room.Registration.{of_pair}
use free_fire_room.Reviews.{has_confirmed, cut}

-- the reasons of `check_winner_eligibility`, and the ConflictError of `create_winner_claim`
pub data ClaimError : Type 0 where
  event_not_available winner_ineligible winner_already_claimed : ClaimError

unfoldable pub winner_eligible : Bool → Bool → Bool
winner_eligible confirmed received_creds = confirmed && received_creds

-- a delivery of the room to the player, of any version, that was sent
unfoldable pub user_received_credentials : Db → ℕ → ℕ → Bool
user_received_credentials db event_id user_id =
    any (λ d. d.event_id == event_id && d.user_id == user_id && is_sent d.status) db.deliveries

-- `status in {DRAFT, REJECTED, CANCELLED}`
abbrev pub has_no_winner : EventStatus → Bool
has_no_winner EventStatus.draft = true
has_no_winner EventStatus.rejected = true
has_no_winner EventStatus.cancelled = true
has_no_winner _ = false

unfoldable pub check_winner_eligibility : Db → User → Event → Option ClaimError
unfolding winner_eligible
check_winner_eligibility db user e =
    if is_some e.deleted_at || has_no_winner e.status
    then some event_not_available
    else if not (
        winner_eligible (has_confirmed (find (of_pair e.id user.id) db.registrations))
          (user_received_credentials db e.id user.id))
    then some winner_ineligible
    else none

abbrev pub new_claim : ℕ → User → Event → String → WinnerClaim
new_claim fresh user e screenshot_file_id = record {
  id = fresh;
  event_id = e.id;
  user_id = user.id;
  organizer_id = e.organizer_id;
  screenshot_file_id = screenshot_file_id;
  status = WinnerClaimStatus.pending;
  reviewed_by = none;
  reviewed_at = none;
}

unfoldable pub create_winner_claim :
    ℕ → User → Event → String → Db → Reply WinnerClaim ClaimError × Db
create_winner_claim fresh user e screenshot_file_id db = elim (check_winner_eligibility db user e) [
  | some reason ↦ (raised reason, db)
  | none ↦
      if any (claim_of e.id user.id) db.claims
      then (raised winner_already_claimed, db)
      else (let c = new_claim fresh user e screenshot_file_id in
          (ok c, record db { claims = insert c db.claims }))
]

abbrev pub with_claim_id : ℕ → WinnerClaim → Bool
with_claim_id k c = c.id == k

-- whatever the claim's status was before
unfoldable pub resolve_claim : ℕ → WinnerClaim → Bool → ℕ → Db → Db
resolve_claim now c approved reviewer_id db = record db {
  claims =
      put (with_claim_id c.id)
        (record c {
          status = if approved then WinnerClaimStatus.approved else WinnerClaimStatus.rejected;
          reviewed_by = some reviewer_id;
          reviewed_at = some now;
        })
        db.claims;
}

unfoldable pub record_message : WinnerClaim → ℕ → String → Bool → WinnerMessageDirection → Db → Db
record_message c sender_id body delivered direction db = record db {
  messages =
      insert
        (record {
          claim_id = c.id;
          sender_id = some sender_id;
          direction = direction;
          body = cut 4000 body;
          delivered = delivered;
        })
        db.messages;
}

unfoldable pub claim_count_for_event : ℕ → Db → ℕ
claim_count_for_event event_id db = count (λ c. c.event_id == event_id) db.claims

unfoldable pub pending_claim_count : ℕ → Db → ℕ
pending_claim_count k db = count (λ c. c.organizer_id == k && is_pending_claim c.status) db.claims
