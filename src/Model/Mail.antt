-- ===== src/Model/Mail.antt =====
-- The rows of models/broadcast.py.
use free_fire_room.Prelude.{ℕ, Option}
use free_fire_room.Model.Enums.{BroadcastStatus, DeliveryStatus}

-- class BroadcastCampaign
pub record BroadcastCampaign : Type 0 where
  pub id : ℕ
  pub status : BroadcastStatus
  pub scheduled_at : Option ℕ
  pub started_at : Option ℕ
  pub finished_at : Option ℕ
  pub created_by : ℕ
  pub confirmed_by : Option ℕ
  pub confirmed_at : Option ℕ
  pub sent_count : ℕ
  pub fail_count : ℕ

-- class BroadcastDelivery
pub record BroadcastDelivery : Type 0 where
  pub campaign_id : ℕ
  pub user_id : ℕ
  pub status : DeliveryStatus
  pub sent_at : Option ℕ
