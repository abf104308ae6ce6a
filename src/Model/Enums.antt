-- ===== src/Model/Enums.antt =====
-- backend/app/core/enums.py: a data type for each enum, with a Boolean test where the code
-- compares two values of it.
use free_fire_room.Prelude.{Bool, true, false}

pub data UserStatus : Type 0 where
  active banned deleted : UserStatus

pub data BanScope : Type 0 where
  bot organize participate : BanScope

pub data OrganizerStatus : Type 0 where
  pending approved rejected suspended : OrganizerStatus

pub data EventStatus : Type 0 where
  draft pending_approval published full started finished cancelled rejected : EventStatus

pub data EventVisibility : Type 0 where
  public unlisted : EventVisibility

pub data RequirementType : Type 0 where
  channel_membership global_channel_membership referrals rules_accept : RequirementType
  profile_complete ff_player_id not_banned capacity social_follow : RequirementType

pub data RequirementStatus : Type 0 where
  done not_done pending_review rejected expired : RequirementStatus

pub data RegistrationStatus : Type 0 where
  pending confirmed waitlisted cancelled ineligible : RegistrationStatus

pub data JobType : Type 0 where
  send_credentials reminder recheck_requirements event_start event_finish : JobType
  purge_credentials broadcast membership_recheck channel_access_recheck : JobType

pub data JobStatus : Type 0 where
  pending running done failed cancelled : JobStatus

pub data DeliveryStatus : Type 0 where
  pending sent failed permanent_fail skipped : DeliveryStatus

pub data SocialProofStatus : Type 0 where
  pending approved rejected : SocialProofStatus

abbrev pub is_confirmed : RegistrationStatus → Bool
is_confirmed RegistrationStatus.confirmed = true
is_confirmed _ = false

abbrev pub is_waitlisted : RegistrationStatus → Bool
is_waitlisted RegistrationStatus.waitlisted = true
is_waitlisted _ = false

abbrev pub is_full : EventStatus → Bool
is_full EventStatus.full = true
is_full _ = false

abbrev pub is_published : EventStatus → Bool
is_published EventStatus.published = true
is_published _ = false

abbrev pub is_cancelled : EventStatus → Bool
is_cancelled EventStatus.cancelled = true
is_cancelled _ = false

-- `status in {PUBLISHED, FULL}`
abbrev pub is_listed : EventStatus → Bool
is_listed EventStatus.published = true
is_listed EventStatus.full = true
is_listed _ = false

-- `status in {PUBLISHED, FULL, STARTED}`
abbrev pub is_open : EventStatus → Bool
is_open EventStatus.published = true
is_open EventStatus.full = true
is_open EventStatus.started = true
is_open _ = false

abbrev pub same_scope : BanScope → BanScope → Bool
same_scope BanScope.bot BanScope.bot = true
same_scope BanScope.organize BanScope.organize = true
same_scope BanScope.participate BanScope.participate = true
same_scope _ _ = false

abbrev pub is_banned_status : UserStatus → Bool
is_banned_status UserStatus.banned = true
is_banned_status _ = false

abbrev pub is_done : RequirementStatus → Bool
is_done RequirementStatus.done = true
is_done _ = false

abbrev pub is_pending_job : JobStatus → Bool
is_pending_job JobStatus.pending = true
is_pending_job _ = false

-- `status in {PENDING, FAILED}`
abbrev pub is_waiting_job : JobStatus → Bool
is_waiting_job JobStatus.pending = true
is_waiting_job JobStatus.failed = true
is_waiting_job _ = false

abbrev pub is_done_job : JobStatus → Bool
is_done_job JobStatus.done = true
is_done_job _ = false

abbrev pub is_sent : DeliveryStatus → Bool
is_sent DeliveryStatus.sent = true
is_sent _ = false

abbrev pub is_rejected_proof : SocialProofStatus → Bool
is_rejected_proof SocialProofStatus.rejected = true
is_rejected_proof _ = false

abbrev pub is_approved_proof : SocialProofStatus → Bool
is_approved_proof SocialProofStatus.approved = true
is_approved_proof _ = false

pub data TrustEventType : Type 0 where
  successful_event confirmed_report cancellation credential_accuracy : TrustEventType
  prize_proof activity_duration player_review channel_verified : TrustEventType

pub data PrizePaidVote : Type 0 where
  yes no unknown : PrizePaidVote

pub data ReportReason : Type 0 where
  no_credentials fake_prize fake_organizer wrong_room sudden_rule_change : ReportReason
  unpaid_prize cheater inappropriate other : ReportReason

pub data ReportStatus : Type 0 where
  new in_review confirmed rejected closed : ReportStatus

pub data WinnerMessageDirection : Type 0 where
  to_winner to_organizer : WinnerMessageDirection

pub data WinnerClaimStatus : Type 0 where
  pending approved rejected : WinnerClaimStatus

abbrev pub is_yes : PrizePaidVote → Bool
is_yes PrizePaidVote.yes = true
is_yes _ = false

abbrev pub is_no : PrizePaidVote → Bool
is_no PrizePaidVote.no = true
is_no _ = false

abbrev pub is_cheater : ReportReason → Bool
is_cheater ReportReason.cheater = true
is_cheater _ = false

abbrev pub is_pending_claim : WinnerClaimStatus → Bool
is_pending_claim WinnerClaimStatus.pending = true
is_pending_claim _ = false

pub data BroadcastStatus : Type 0 where
  draft scheduled running paused done cancelled : BroadcastStatus

-- `status in {RUNNING, SCHEDULED}`
abbrev pub is_sendable : BroadcastStatus → Bool
is_sendable BroadcastStatus.running = true
is_sendable BroadcastStatus.scheduled = true
is_sendable _ = false

abbrev pub is_draft_campaign : BroadcastStatus → Bool
is_draft_campaign BroadcastStatus.draft = true
is_draft_campaign _ = false

abbrev pub is_paused : BroadcastStatus → Bool
is_paused BroadcastStatus.paused = true
is_paused _ = false
