-- ===== src/Model/Feedback.antt =====
-- The rows of models/organizer.py, models/review.py, models/report.py, models/winner.py and
-- models/analytics.py.
use free_fire_room.Prelude.{ℕ, ℤ, String, Bool, Option, List, ◌&&◌, ◌==◌}
use free_fire_room.Model.Enums.{
  OrganizerStatus, PrizePaidVote, ReportReason, ReportStatus, WinnerClaimStatus,
  WinnerMessageDirection,
}

-- class Organizer. The score and its changes are in hundredths of a point.
pub record Organizer : Type 0 where
  pub id : ℕ
  pub user_id : ℕ
  pub status : OrganizerStatus
  pub verified_badge : Bool
  pub trust_score : ℤ
  pub rejection_reason : Option String
  pub reviewed_by : Option ℕ
  pub reviewed_at : Option ℕ
  pub payout_contact : Option String

-- class OrganizerTrustEvent
pub record OrganizerTrustEvent : Type 0 where
  pub organizer_id : ℕ
  pub event_type : String
  pub delta : ℤ
  pub related_event_id : Option ℕ
  pub created_by : Option ℕ

-- class UserRole
pub record UserRole : Type 0 where
  pub user_id : ℕ
  pub role_id : ℕ
  pub granted_by : Option ℕ

-- class EventReview
pub record EventReview : Type 0 where
  pub reviewer_id : ℕ
  pub event_id : ℕ
  pub organizer_id : ℕ
  pub rating : ℕ
  pub prize_paid : PrizePaidVote
  pub comment : Option String

-- `UniqueConstraint("reviewer_id", "event_id")`
abbrev pub review_of : ℕ → ℕ → EventReview → Bool
review_of user_id event_id v = v.reviewer_id == user_id && v.event_id == event_id

-- class Report. The body is the list of its code points.
pub record Report : Type 0 where
  pub reporter_id : ℕ
  pub event_id : ℕ
  pub organizer_id : ℕ
  pub reason : ReportReason
  pub body : List ℕ
  pub status : ReportStatus

-- class WinnerClaim
pub record WinnerClaim : Type 0 where
  pub id : ℕ
  pub event_id : ℕ
  pub user_id : ℕ
  pub organizer_id : ℕ
  pub screenshot_file_id : String
  pub status : WinnerClaimStatus
  pub reviewed_by : Option ℕ
  pub reviewed_at : Option ℕ

-- `UniqueConstraint("event_id", "user_id")`
abbrev pub claim_of : ℕ → ℕ → WinnerClaim → Bool
claim_of event_id user_id c = c.event_id == event_id && c.user_id == user_id

-- class WinnerMessage
pub record WinnerMessage : Type 0 where
  pub claim_id : ℕ
  pub sender_id : Option ℕ
  pub direction : WinnerMessageDirection
  pub body : String
  pub delivered : Bool

-- class EventView of models/analytics.py
pub record EventView : Type 0 where
  pub event_id : ℕ
  pub user_id : ℕ
  pub source : Option String
