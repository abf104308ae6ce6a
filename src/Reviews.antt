-- ===== src/Reviews.antt =====
-- backend/app/services/reviews.py: who may review an event, and what a review does to the trust
-- score of its organizer.
pub mod Fairness
use free_fire_room.Prelude.{
  ℕ, zero, suc, ◌+◌, ◌*◌, ℤ, pos, negsuc, ◌+ℤ◌, Bool, true, false, not, ◌&&◌, ◌||◌, Option, none,
  some, List, [], ◌∷◌, String, str_eq, strip, leb, ◌==◌, if◌then◌else◌, is_some, find, any, count,
  insert, Reply, ok, raised,
}
use free_fire_room.Model.{
  Settings, hour, EventStatus, is_cancelled, is_confirmed, PrizePaidVote, is_yes, is_no,
  RegistrationStatus, TrustEventType, Event, Registration, User, Organizer, EventReview, review_of,
  Delivery, is_sent, Db, organizer_id,
}
use free_fire_room.Registration.{of_pair}
use free_fire_room.Trust.{apply_trust}

-- the answers of `can_review` and `create_review`, one for each text
pub data Refusal : Type 0 where
  not_available own_event too_early too_late already_reviewed not_confirmed bad_rating : Refusal

unfoldable pub existing_review : Db → ℕ → ℕ → Option EventReview
existing_review db user_id event_id = find (review_of user_id event_id) db.reviews

unfoldable pub review_window_open : Settings → Event → ℕ → Bool
review_window_open s e now =
    leb e.starts_at now && leb now (e.starts_at + s.past_events_hours * hour)

-- `org and org.user_id == user.id`
abbrev pub is_own : Option Organizer → ℕ → Bool
is_own none user_id = false
is_own (some o) user_id = o.user_id == user_id

-- `reg and reg.status == CONFIRMED`
abbrev pub has_confirmed : Option Registration → Bool
has_confirmed none = false
has_confirmed (some r) = is_confirmed r.status

-- `event.organizer`
abbrev pub organizer_of : Event → Db → Option Organizer
organizer_of e db = find (organizer_id e.organizer_id) db.organizers

-- none where the player may review
unfoldable pub can_review : Settings → ℕ → Db → User → Event → Option Refusal
unfolding existing_review review_window_open
can_review s now db user e =
    if is_some e.deleted_at
    then some not_available
    else if not e.deep_link_active && not (is_cancelled e.status)
    then some not_available
    else if is_own (organizer_of e db) user.id
    then some own_event
    else if not (review_window_open s e now)
    then some (if leb e.starts_at now then too_late else too_early)
    else if is_some (existing_review db user.id e.id)
    then some already_reviewed
    else if not (has_confirmed (find (of_pair e.id user.id) db.registrations))
    then some not_confirmed
    else none

abbrev pub star_delta : ℕ → ℤ
star_delta rating =
    if rating == 5
    then pos 200
    else if rating == 4
    then pos 100
    else if rating == 2
    then negsuc 199
    else if rating == 1
    then negsuc 399
    else pos 0

-- `_trust_delta`, in hundredths of a point
unfoldable pub trust_delta : ℕ → PrizePaidVote → ℤ
trust_delta rating PrizePaidVote.yes = star_delta rating +ℤ pos 100
trust_delta rating PrizePaidVote.no = star_delta rating +ℤ negsuc 299
trust_delta rating PrizePaidVote.unknown = star_delta rating

-- `PrizePaidVote(prize_paid)`, and UNKNOWN for any other text
abbrev pub vote_of : String → PrizePaidVote
vote_of t =
    if str_eq t "yes"
    then PrizePaidVote.yes
    else if str_eq t "no"
    then PrizePaidVote.no
    else PrizePaidVote.unknown

-- `text[:n]`
abbrev pub cut : ℕ → String → String
cut zero t = ""
cut (suc n) String.[] = ""
cut (suc n) (String.◌∷◌ c t) = String.◌∷◌ c (cut n t)

-- `(comment or "").strip()[:400] or None`
unfoldable pub comment_of : Option String → Option String
comment_of none = none
comment_of (some t) = let kept = cut 400 (strip t) in if str_eq kept "" then none else some kept

abbrev pub is_zero : ℤ → Bool
is_zero (pos zero) = true
is_zero _ = false

abbrev pub is_rating : ℕ → Bool
is_rating n = leb 1 n && leb n 5

-- the organizer's score after a review
unfoldable pub move_score : User → Event → ℤ → Db → Db
move_score user e delta db = elim (organizer_of e db) [
  | none ↦ db
  | some o ↦
      if is_zero delta
      then db
      else apply_trust o TrustEventType.player_review delta (some user.id) (some e.id) db
]

abbrev pub new_review : User → Event → ℕ → PrizePaidVote → Option String → EventReview
new_review user e rating prize comment = record {
  reviewer_id = user.id;
  event_id = e.id;
  organizer_id = e.organizer_id;
  rating = rating;
  prize_paid = prize;
  comment = comment;
}

-- the insert under the unique key (reviewer_id, event_id)
unfoldable pub store_review : EventReview → User → Event → Db → Reply EventReview Refusal × Db
unfolding move_score trust_delta
store_review v user e db =
    if any (review_of v.reviewer_id v.event_id) db.reviews then (raised already_reviewed, db) else (
      ok v,
      move_score user e (trust_delta v.rating v.prize_paid)
          (record db { reviews = insert v db.reviews }),
    )

unfoldable pub create_review :
    Settings → ℕ → User → Event → ℕ → String → Option String → Db → Reply EventReview Refusal × Db
create_review s now user e rating prize_paid comment db = elim (can_review s now db user e) [
  | some refusal ↦ (raised refusal, db)
  | none ↦
      if not (is_rating rating)
      then (raised bad_rating, db)
      else store_review (new_review user e rating (vote_of prize_paid) (comment_of comment)) user e
          db
]

-- `review_summary_for_event` and `review_summary_for_organizer`: the average is the sum over the count
pub record Summary : Type 0 where
  pub reviews : ℕ
  pub rating_sum : ℕ
  pub prize_yes : ℕ
  pub prize_no : ℕ

abbrev pub sum_ratings : (EventReview → Bool) → List EventReview → ℕ
sum_ratings p [] = 0
sum_ratings p (v ∷ vs) = (if p v then v.rating else 0) + sum_ratings p vs

unfoldable pub review_summary : (EventReview → Bool) → Db → Summary
review_summary p db = record {
  reviews = count p db.reviews;
  rating_sum = sum_ratings p db.reviews;
  prize_yes = count (λ v. p v && is_yes v.prize_paid) db.reviews;
  prize_no = count (λ v. p v && is_no v.prize_paid) db.reviews;
}

unfoldable pub review_summary_for_event : ℕ → Db → Summary
unfolding review_summary
review_summary_for_event event_id db = review_summary (λ v. v.event_id == event_id) db

unfoldable pub review_summary_for_organizer : ℕ → Db → Summary
unfolding review_summary
review_summary_for_organizer k db = review_summary (λ v. v.organizer_id == k) db

pub record AudienceStats : Type 0 where
  pub total : ℕ
  pub confirmed : ℕ
  pub pending : ℕ
  pub waitlisted : ℕ
  pub ineligible : ℕ
  pub from_link : ℕ
  pub delivered : ℕ

abbrev pub is_pending_registration : RegistrationStatus → Bool
is_pending_registration RegistrationStatus.pending = true
is_pending_registration _ = false

abbrev pub is_waiting_registration : RegistrationStatus → Bool
is_waiting_registration RegistrationStatus.waitlisted = true
is_waiting_registration _ = false

abbrev pub is_ineligible : RegistrationStatus → Bool
is_ineligible RegistrationStatus.ineligible = true
is_ineligible _ = false

-- `source == "deep_link"`, NULL being no match
abbrev pub is_from_link : Option String → Bool
is_from_link none = false
is_from_link (some t) = str_eq t "deep_link"

unfoldable pub event_audience_stats : ℕ → Db → AudienceStats
event_audience_stats k db = record {
  total = count (λ r. r.event_id == k) db.registrations;
  confirmed = count (λ r. r.event_id == k && is_confirmed r.status) db.registrations;
  pending = count (λ r. r.event_id == k && is_pending_registration r.status) db.registrations;
  waitlisted = count (λ r. r.event_id == k && is_waiting_registration r.status) db.registrations;
  ineligible = count (λ r. r.event_id == k && is_ineligible r.status) db.registrations;
  from_link = count (λ r. r.event_id == k && is_from_link r.source) db.registrations;
  delivered = count (λ d. d.event_id == k && is_sent d.status) db.deliveries;
}
