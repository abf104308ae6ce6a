-- ===== src/Model/Store.antt =====
-- The database as one session sees it.
use free_fire_room.Prelude.{ℕ, String, Option, some, List, ◌==◌, if◌then◌else◌, Bool, put, insert}
use free_fire_room.Model.Rooms.{
  Event, Registration, WaitlistEntry, EventRequirement, EventRequiredChannel, RoomCredential,
}
use free_fire_room.Model.People.{Ban, Channel, GlobalRequiredChannel, ReferralLink, Referral}
use free_fire_room.Model.Queue.{ScheduledJob, Delivery, AuditLog}
use free_fire_room.Model.Follow.{EventSocialTask, SocialProof}
use free_fire_room.Model.Feedback.{
  Organizer, OrganizerTrustEvent, UserRole, EventReview, Report, WinnerClaim, WinnerMessage,
  EventView,
}

-- Tables that are read by primary key are functions of it, the others lists in insertion
-- order; `event_ids` lists the keys of the stored events, `organizer_role` is the role's id.
pub record Db : Type 0 where
  pub events : ℕ → Option Event
  pub event_ids : List ℕ
  pub registrations : List Registration
  pub waitlist : List WaitlistEntry
  pub requirements : List EventRequirement
  pub required_channels : List EventRequiredChannel
  pub credentials : List RoomCredential
  pub bans : List Ban
  pub channels : ℕ → Option Channel
  pub global_channels : List GlobalRequiredChannel
  pub referrals : List Referral
  pub tasks : List EventSocialTask
  pub proofs : List SocialProof
  pub jobs : List ScheduledJob
  pub deliveries : List Delivery
  pub audit : List AuditLog
  pub organizers : List Organizer
  pub trust_events : List OrganizerTrustEvent
  pub organizer_role : Option ℕ
  pub user_roles : List UserRole
  pub reviews : List EventReview
  pub reports : List Report
  pub claims : List WinnerClaim
  pub messages : List WinnerMessage
  pub referral_links : List ReferralLink
  pub views : List EventView

-- the row of an event is written back
abbrev pub save_event : Event → Db → Db
save_event e db = record db { events = λ k. if k == e.id then some e else db.events k }

-- `write_audit`: a new row of the log; the id is None before the entity is flushed
abbrev pub write_audit_for : String → Option ℕ → ℕ → Db → Db
write_audit_for action entity actor db = record db {
  audit = insert (record { action = action; entity_id = entity; actor_id = actor }) db.audit;
}

abbrev pub write_audit : String → ℕ → ℕ → Db → Db
write_audit action entity actor db = write_audit_for action (some entity) actor db

abbrev pub organizer_id : ℕ → Organizer → Bool
organizer_id k o = o.id == k

-- the row of an organizer is written back
abbrev pub save_organizer : Organizer → Db → Db
save_organizer o db = record db { organizers = put (organizer_id o.id) o db.organizers }
