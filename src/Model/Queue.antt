-- ===== src/Model/Queue.antt =====
-- The rows of models/jobs.py, and those of the audit log.
use free_fire_room.Prelude.{ℕ, String, Bool, Option, none, ◌==◌, false, true}
use free_fire_room.Model.Enums.{JobType, JobStatus, DeliveryStatus}

-- The last part of `_key` in services/scheduler.py: "creds", "start", "finish", "purge",
-- "recheck", or "rem" with a number of minutes.
pub data Slot : Type 0 where
  creds start finish purge recheck : Slot
  rem : ℕ → Slot

abbrev pub same_slot : Slot → Slot → Bool
same_slot creds creds = true
same_slot start start = true
same_slot finish finish = true
same_slot purge purge = true
same_slot recheck recheck = true
same_slot (rem m) (rem n) = m == n
same_slot _ _ = false

-- the keys of a job's payload that the workers read
pub record Payload : Type 0 where
  pub prompt_count : ℕ
  pub last_prompt_ts : Option ℕ
  pub organizer_notified : Bool

-- the payload of a new job
abbrev pub no_payload : Payload
no_payload = record { prompt_count = 0; last_prompt_ts = none; organizer_notified = false }

-- class ScheduledJob. `slot`, with the entity, stands for the idempotency key: each slot belongs
-- to one job type.
pub record ScheduledJob : Type 0 where
  pub job_type : JobType
  pub entity_id : ℕ
  pub slot : Slot
  pub run_at : ℕ
  pub status : JobStatus
  pub attempts : ℕ
  pub max_attempts : ℕ
  pub last_error : Option String
  pub locked_at : Option ℕ
  pub locked_by : Option String
  pub completed_at : Option ℕ
  pub payload : Payload

-- class Delivery, of kind "room_credentials": the idempotency key is the event, the user and the
-- version of the credentials.
pub record Delivery : Type 0 where
  pub event_id : ℕ
  pub user_id : ℕ
  pub version : ℕ
  pub status : DeliveryStatus
  pub telegram_message_id : Option ℕ
  pub error_message : Option String
  pub attempts : ℕ
  pub sent_at : Option ℕ

-- class AuditLog: what was done, to which row, by whom
pub record AuditLog : Type 0 where
  pub action : String
  pub entity_id : Option ℕ
  pub actor_id : ℕ
