-- ===== src/Model/Rooms.antt =====
-- The rows of models/event.py and models/registration.py.
use free_fire_room.Prelude.{ℕ, String, Bool, Option, List}
use free_fire_room.Model.Enums.{EventStatus, RegistrationStatus, RequirementType}

-- class Event. A custom room that players register for. `capacity` 0 means unlimited.
pub record Event : Type 0 where
  pub id : ℕ
  pub organizer_id : ℕ
  pub channel_id : Option ℕ
  pub starts_at : ℕ
  pub registration_ends_at : ℕ
  pub credentials_send_at : ℕ
  pub capacity : ℕ
  pub confirmed_count : ℕ
  pub waitlist_enabled : Bool
  pub status : EventStatus
  pub require_rules_accept : Bool
  pub require_ff_player_id : Bool
  pub require_profile_complete : Bool
  pub required_referrals : ℕ
  pub reminder_offsets_minutes : List ℕ
  pub rejection_reason : Option String
  pub cancel_reason : Option String
  pub published_at : Option ℕ
  pub cancelled_at : Option ℕ
  pub finished_at : Option ℕ
  pub reviewed_by : Option ℕ
  pub deep_link_active : Bool
  pub archived_at : Option ℕ
  pub social_url : Option String
  pub deleted_at : Option ℕ

-- class Registration
pub record Registration : Type 0 where
  pub id : ℕ
  pub event_id : ℕ
  pub user_id : ℕ
  pub status : RegistrationStatus
  pub waitlist_position : Option ℕ
  pub conditions_met_at : Option ℕ
  pub confirmed_at : Option ℕ
  pub ineligible_reason : Option String
  pub source : Option String
  pub rules_accepted_at : Option ℕ

-- class WaitlistEntry
pub record WaitlistEntry : Type 0 where
  pub event_id : ℕ
  pub user_id : ℕ
  pub registration_id : ℕ
  pub position : ℕ
  pub promoted_at : Option ℕ
  pub is_active : Bool

-- class EventRequirement
pub record EventRequirement : Type 0 where
  pub event_id : ℕ
  pub requirement_type : RequirementType
  pub ref_id : Option ℕ
  pub sort_order : ℕ
  pub is_active : Bool

-- class EventRequiredChannel
pub record EventRequiredChannel : Type 0 where
  pub event_id : ℕ
  pub channel_id : ℕ
  pub is_active : Bool

-- class RoomCredential
pub record RoomCredential : Type 0 where
  pub event_id : ℕ
  pub room_id_encrypted : String
  pub room_password_encrypted : String
  pub version : ℕ
  pub sent_at : Option ℕ
  pub purged_at : Option ℕ
  pub last_changed_by : Option ℕ
  pub correction_required : Bool
