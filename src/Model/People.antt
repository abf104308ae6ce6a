-- ===== src/Model/People.antt =====
-- The rows of models/user.py, models/channel.py and models/referral.py.
use free_fire_room.Prelude.{ℕ, String, Bool, Option}
use free_fire_room.Model.Enums.{UserStatus, BanScope}

-- class UserProfile
pub record UserProfile : Type 0 where
  pub ff_player_id : Option String
  pub region : Option String

-- class User
pub record User : Type 0 where
  pub id : ℕ
  pub telegram_id : ℕ
  pub status : UserStatus
  pub is_bot_blocked : Bool
  pub profile : Option UserProfile
  pub referred_by_user_id : Option ℕ
  pub onboarding_completed_at : Option ℕ

-- class Ban
pub record Ban : Type 0 where
  pub user_id : ℕ
  pub scope : BanScope
  pub expires_at : Option ℕ
  pub is_active : Bool

-- class Channel
pub record Channel : Type 0 where
  pub id : ℕ
  pub telegram_chat_id : ℕ
  pub bot_is_admin : Bool

-- class GlobalRequiredChannel
pub record GlobalRequiredChannel : Type 0 where
  pub channel_id : ℕ
  pub is_active : Bool
  pub starts_at : Option ℕ
  pub ends_at : Option ℕ
  pub applies_to_events : Bool

-- class ReferralLink
pub record ReferralLink : Type 0 where
  pub id : ℕ
  pub user_id : ℕ
  pub event_id : Option ℕ
  pub campaign : String
  pub token : String
  pub is_active : Bool
  pub valid_count : ℕ

-- class Referral
pub record Referral : Type 0 where
  pub link_id : ℕ
  pub event_id : Option ℕ
  pub inviter_id : ℕ
  pub invitee_id : ℕ
  pub is_valid : Bool
  pub invalid_reason : Option String
  pub onboarded_at : Option ℕ
  pub validated_at : Option ℕ
