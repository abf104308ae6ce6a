-- ===== src/Model/Follow.antt =====
-- The rows of models/social.py.
use free_fire_room.Prelude.{ℕ, String, Bool, Option}
use free_fire_room.Model.Enums.{SocialProofStatus}

-- class EventSocialTask
pub record EventSocialTask : Type 0 where
  pub id : ℕ
  pub event_id : ℕ
  pub url : String
  pub sort_order : ℕ
  pub is_active : Bool

-- class SocialProof
pub record SocialProof : Type 0 where
  pub event_id : ℕ
  pub user_id : ℕ
  pub task_id : Option ℕ
  pub file_id : String
  pub status : SocialProofStatus
  pub reviewed_by : Option ℕ
  pub reviewed_at : Option ℕ
  pub review_note : Option String
