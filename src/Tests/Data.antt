-- ===== src/Tests/Data.antt =====
-- The rows that the tests run on. Event 1 has one seat, which player 1 holds; player 2 waits for it.
use free_fire_room.Prelude.{ℕ, pos, Bool, true, false, none, some, [], ◌∷◌, ◌==◌, if◌then◌else◌}
use free_fire_room.Model.{
  no_payload, OrganizerStatus, Organizer, EventStatus, RegistrationStatus, JobType, JobStatus,
  UserStatus, SocialProofStatus, Event, Registration, WaitlistEntry, RoomCredential, User, Channel,
  EventSocialTask, SocialProof, Slot, ScheduledJob, Db,
}

abbrev pub cup : Event
cup = record {
  id = 1;
  organizer_id = 1;
  channel_id = some 1;
  starts_at = 1000;
  registration_ends_at = 1000;
  credentials_send_at = 900;
  capacity = 1;
  confirmed_count = 1;
  waitlist_enabled = true;
  status = EventStatus.full;
  require_rules_accept = false;
  require_ff_player_id = false;
  require_profile_complete = false;
  required_referrals = 0;
  reminder_offsets_minutes = [];
  rejection_reason = none;
  cancel_reason = none;
  published_at = some 10;
  cancelled_at = none;
  finished_at = none;
  reviewed_by = none;
  deep_link_active = true;
  archived_at = none;
  social_url = some "page";
  deleted_at = none;
}

-- the same event, with nothing to follow
abbrev pub open_cup : Event
open_cup = record cup { social_url = none }

abbrev pub player : ℕ → User
player n = record {
  id = n;
  telegram_id = n;
  status = UserStatus.active;
  is_bot_blocked = false;
  profile = none;
  referred_by_user_id = none;
  onboarding_completed_at = some 5;
}

abbrev pub entered : ℕ → ℕ → RegistrationStatus → Registration
entered id user_id status = record {
  id = id;
  event_id = 1;
  user_id = user_id;
  status = status;
  waitlist_position = none;
  conditions_met_at = none;
  confirmed_at = none;
  ineligible_reason = none;
  source = none;
  rules_accepted_at = none;
}

abbrev pub seated : Registration
seated = entered 11 1 RegistrationStatus.confirmed

abbrev pub waiting : Registration
waiting = entered 12 2 RegistrationStatus.waitlisted

abbrev pub gone : Registration
gone = entered 13 3 RegistrationStatus.ineligible

abbrev pub place : ℕ → ℕ → Bool → WaitlistEntry
place user_id registration_id is_active = record {
  event_id = 1;
  user_id = user_id;
  registration_id = registration_id;
  position = user_id;
  promoted_at = none;
  is_active = is_active;
}

abbrev pub room : RoomCredential
room = record {
  event_id = 1;
  room_id_encrypted = "r";
  room_password_encrypted = "p";
  version = 1;
  sent_at = none;
  purged_at = none;
  last_changed_by = none;
  correction_required = false;
}

abbrev pub sending_job : ScheduledJob
sending_job = record {
  job_type = JobType.send_credentials;
  entity_id = 1;
  slot = Slot.creds;
  run_at = 900;
  status = JobStatus.pending;
  attempts = 0;
  max_attempts = 3;
  last_error = none;
  locked_at = none;
  locked_by = none;
  completed_at = none;
  payload = no_payload;
}

abbrev pub chat : Channel
chat = record { id = 5; telegram_chat_id = 50; bot_is_admin = true }

abbrev pub page : EventSocialTask
page = record { id = 7; event_id = 1; url = "page"; sort_order = 0; is_active = true }

abbrev pub shot : ℕ → SocialProof
shot user_id = record {
  event_id = 1;
  user_id = user_id;
  task_id = some 7;
  file_id = "f";
  status = SocialProofStatus.pending;
  reviewed_by = none;
  reviewed_at = none;
  review_note = none;
}

-- player 9 organizes
abbrev pub host : Organizer
host = record {
  id = 1;
  user_id = 9;
  status = OrganizerStatus.approved;
  verified_badge = false;
  trust_score = pos 5000;
  rejection_reason = none;
  reviewed_by = none;
  reviewed_at = none;
  payout_contact = none;
}

abbrev pub db_of : Event → Db
db_of e = record {
  events = λ k. if k == 1 then some e else none;
  event_ids = 1 ∷ [];
  registrations = seated ∷ waiting ∷ gone ∷ [];
  waitlist = place 2 12 true ∷ place 3 13 false ∷ [];
  requirements = [];
  required_channels = record { event_id = 1; channel_id = 5; is_active = true } ∷ [];
  credentials = room ∷ [];
  bans = [];
  channels = λ k. if k == 5 then some chat else none;
  global_channels = [];
  referrals = [];
  tasks = page ∷ [];
  proofs = shot 1 ∷ shot 2 ∷ [];
  jobs = sending_job ∷ [];
  deliveries = [];
  audit = [];
  organizers = host ∷ [];
  trust_events = [];
  organizer_role = some 3;
  user_roles = [];
  reviews = [];
  reports = [];
  claims = [];
  messages = [];
  referral_links = [];
  views = [];
}

abbrev pub db : Db
db = db_of cup
