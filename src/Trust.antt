-- ===== src/Trust.antt =====
-- The trust score of an organizer: backend/app/services/trust.py, and the parts of
-- backend/app/services/organizers.py that move it. Scores and changes are in hundredths of a point,
-- so `round(value, 2)` is the identity.
pub mod Audit
pub mod Applying
use free_fire_room.Prelude.{
  ℕ, ℤ, pos, negsuc, ◌+ℤ◌, ltb_ℤ, Bool, true, false, not, ◌&&◌, Option, none, some, List, [], ◌∷◌,
  String, str_eq, ltb, ◌==◌, if◌then◌else◌, is_some, same_ref, find, any, count, insert,
}
use free_fire_room.Model.{
  OrganizerStatus, TrustEventType, Organizer, OrganizerTrustEvent, UserRole, User, Db,
  save_organizer, write_audit, write_audit_for,
}

-- class TrustRule; the reason is only shown
pub record TrustRule : Type 0 where
  pub delta : ℤ
  pub once_per_event : Bool

abbrev pub start_score : ℤ
start_score = pos 5000

abbrev pub min_score : ℤ
min_score = pos 0

abbrev pub max_score : ℤ
max_score = pos 10000

-- `RULES.get(event_type)`
unfoldable pub rule_of : String → Option TrustRule
rule_of t =
    if str_eq t "credentials_delivered"
    then some (record { delta = pos 600; once_per_event = true })
    else if str_eq t "credentials_missed"
    then some (record { delta = negsuc 1799; once_per_event = true })
    else if str_eq t "event_cancelled_late"
    then some (record { delta = negsuc 799; once_per_event = true })
    else if str_eq t "prize_paid_confirmed"
    then some (record { delta = pos 400; once_per_event = true })
    else if str_eq t "prize_unpaid_reported"
    then some (record { delta = negsuc 1399; once_per_event = true })
    else if str_eq t "report_upheld"
    then some (record { delta = negsuc 999; once_per_event = true })
    else if str_eq t "good_review"
    then some (record { delta = pos 200; once_per_event = false })
    else if str_eq t "bad_review"
    then some (record { delta = negsuc 299; once_per_event = false })
    else if str_eq t "admin_adjustment"
    then some (record { delta = pos 0; once_per_event = false })
    else none

-- `max(lo, min(hi, v))`
abbrev pub clamp : ℤ → ℤ
clamp v = if ltb_ℤ v min_score then min_score else if ltb_ℤ max_score v then max_score else v

-- `_recompute`, from a score that is stored
unfoldable pub recompute : ℤ → ℤ → ℤ
recompute base delta = clamp (base +ℤ delta)

-- an earlier change of the same kind for the same event
abbrev pub same_change : ℕ → String → ℕ → OrganizerTrustEvent → Bool
same_change organizer_id event_type related t =
    t.organizer_id == organizer_id
    && str_eq t.event_type event_type
    && same_ref t.related_event_id related

-- what the rule's limit forbids: without a related event, nothing
unfoldable pub is_seen : ℕ → String → Option ℕ → TrustRule → Db → Bool
is_seen organizer_id event_type none rule db = false
is_seen organizer_id event_type (some k) rule db =
    rule.once_per_event && ltb 0 (count (same_change organizer_id event_type k) db.trust_events)

-- the new score and the row that says why
unfoldable pub add_change : Organizer → String → ℤ → Option ℕ → Option ℕ → ℤ → Db → Db
add_change o event_type delta related actor score db =
    save_organizer (record o { trust_score = score })
      (record db {
        trust_events =
            insert
              (record {
                organizer_id = o.id;
                event_type = event_type;
                delta = delta;
                related_event_id = related;
                created_by = actor;
              })
              db.trust_events;
      })

-- `delta` where the caller gives one, else the rule's
abbrev pub applied_delta : Option ℤ → TrustRule → ℤ
applied_delta none rule = rule.delta
applied_delta (some d) rule = d

-- `record` and `record_sync`, which do the same
unfoldable pub record_change :
    Organizer → String → Option ℕ → Option ℕ → Option ℤ → Db → Option ℤ × Db
record_change o event_type related actor delta db = elim (rule_of event_type) [
  | none ↦ (none, db)
  | some rule ↦
      if is_seen o.id event_type related rule db
      then (none, db)
      else (let d = applied_delta delta rule in
          let score = recompute o.trust_score d in
          (some score, add_change o event_type d related actor score db))
]

-- the value of a TrustEventType, where the services use it
abbrev pub type_text : TrustEventType → String
type_text TrustEventType.successful_event = "successful_event"
type_text TrustEventType.confirmed_report = "confirmed_report"
type_text TrustEventType.cancellation = "cancellation"
type_text TrustEventType.credential_accuracy = "credential_accuracy"
type_text TrustEventType.prize_proof = "prize_proof"
type_text TrustEventType.activity_duration = "activity_duration"
type_text TrustEventType.player_review = "player_review"
type_text TrustEventType.channel_verified = "channel_verified"

-- of services/organizers.py: no rule, no limit per event
unfoldable pub apply_trust : Organizer → TrustEventType → ℤ → Option ℕ → Option ℕ → Db → Db
unfolding add_change
apply_trust o event_type delta actor related db =
    add_change o (type_text event_type) delta related actor (recompute o.trust_score delta) db

abbrev pub has_role : ℕ → ℕ → UserRole → Bool
has_role user_id role_id u = u.user_id == user_id && u.role_id == role_id

-- the organizer's role, unless it is granted already
unfoldable pub grant_role : ℕ → ℕ → Db → Db
grant_role user_id actor db = elim db.organizer_role [
  | none ↦ db
  | some role_id ↦ elim (find (has_role user_id role_id) db.user_roles) [
    | some _ ↦ db
    | none ↦ record db {
      user_roles =
          insert (record { user_id = user_id; role_id = role_id; granted_by = some actor })
            db.user_roles;
    }
  ]
]

abbrev pub approved_organizer : ℕ → ℕ → Bool → Organizer → Organizer
approved_organizer now actor verified o = record o {
  status = OrganizerStatus.approved;
  verified_badge = verified;
  reviewed_by = some actor;
  reviewed_at = some now;
}

unfoldable pub approve_organizer : ℕ → Organizer → ℕ → Bool → Db → Db
unfolding grant_role apply_trust
approve_organizer now o actor verified db =
    let e = approved_organizer now actor verified o in
    write_audit "organizer_approved" o.id actor (
      apply_trust e TrustEventType.channel_verified (pos 500) (some actor) none
        (grant_role o.user_id actor (save_organizer e db)))

unfoldable pub reject_organizer : ℕ → Organizer → ℕ → String → Db → Db
reject_organizer now o actor reason db = write_audit "organizer_rejected" o.id actor (
    save_organizer
      (record o {
        status = OrganizerStatus.rejected;
        rejection_reason = some reason;
        reviewed_by = some actor;
        reviewed_at = some now;
      })
      db)

abbrev pub applicant : ℕ → ℕ → Organizer
applicant fresh user_id = record {
  id = fresh;
  user_id = user_id;
  status = OrganizerStatus.pending;
  verified_badge = false;
  trust_score = start_score;
  rejection_reason = none;
  reviewed_by = none;
  reviewed_at = none;
  payout_contact = none;
}

abbrev pub is_pending_organizer : OrganizerStatus → Bool
is_pending_organizer OrganizerStatus.pending = true
is_pending_organizer _ = false

-- `Organizer.user_id == user.id`
abbrev pub of_user : ℕ → Organizer → Bool
of_user user_id o = o.user_id == user_id

-- `auto` is the setting auto_approve_organizers; the database gives the new row the id `fresh` when
-- it is flushed, after the log has read it
unfoldable pub get_or_apply : ℕ → Bool → ℕ → User → Db → Db
get_or_apply now auto fresh user db = elim (find (of_user user.id) db.organizers) [
  | some o ↦
      if is_pending_organizer o.status && auto then approve_organizer now o user.id false db else db
  | none ↦
      let o = applicant fresh user.id in
      let stored =
        write_audit_for "organizer_applied" none user.id
          (record db { organizers = insert o db.organizers }) in
      if auto then approve_organizer now o user.id false stored else stored
]

-- `is_risky`, below 30 points unless the caller says otherwise
unfoldable pub is_risky : ℤ → Option Organizer → Bool
is_risky threshold none = false
is_risky threshold (some o) = ltb_ℤ o.trust_score threshold
