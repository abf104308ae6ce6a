-- ===== src/Desk.antt =====
-- What the bot's panel lets an organizer do: handlers of backend/app/bot/handlers/organizer.py. A
-- handler gets the id of the row that its button names; the table of admins and that of users, which
-- it only reads, are parameters. The messages are left out, and so are the tasks that a handler
-- starts after its commit; a reason that is stored is written in English here.
pub mod Handlers
pub mod Owner
pub mod Rights
pub mod Soundness
pub mod Taps
use mathlib.Core.List.{reverse}
use free_fire_room.Prelude.{
  ℕ, Bool, true, false, not, ◌&&◌, ◌||◌, Option, none, some, is_some, List, [], ◌∷◌, String, str_eq,
  ◌==◌, ltb, if◌then◌else◌, any, find, select, take, Reply, ok, raised,
}
use free_fire_room.Model.{
  Settings, BanScope, EventStatus, is_confirmed, is_rejected_proof, is_approved_proof,
  SocialProofStatus, is_pending_claim, WinnerMessageDirection, Event, User, Registration,
  SocialProof, Organizer, WinnerClaim, Admin, Db, organizer_id, write_audit,
}
use free_fire_room.Bans.{is_banned}
use free_fire_room.Windows.{credentials_window_open, creds_were_provided}
use free_fire_room.Telegram.{Bot}
use free_fire_room.Social.{review_proof}
use free_fire_room.Registration.{Error, duplicate_key, RegisterResult, of_pair, register_user}
use free_fire_room.Waitlist.{mark_ineligible}
use free_fire_room.Lifecycle.{
  creds_of, cancel_event, mark_event_started, update_credentials, approve_event, reject_event,
}
use free_fire_room.Winners.{with_claim_id, resolve_claim, record_message}
use free_fire_room.Trust.{record_change, approve_organizer, reject_organizer}

-- is_active_admin of backend/app/bot/access.py
unfoldable pub is_active_admin : List Admin → ℕ → Bool
is_active_admin admins k = any (λ d. d.user_id == k && d.is_active) admins

abbrev pub blocked_organize : ℕ → User → Db → Bool
blocked_organize now user db = is_some (is_banned now db user BanScope.organize)

-- `event.organizer and event.organizer.user_id == db_user.id`
unfoldable pub organizes : User → Event → Db → Bool
organizes user e db = elim (find (organizer_id e.organizer_id) db.organizers) [
  | none ↦ false
  | some o ↦ o.user_id == user.id
]

-- `_own_event`
unfoldable pub own_event : User → ℕ → Db → Option Event
unfolding organizes
own_event user id db = elim (db.events id) [
  | none ↦ none
  | some e ↦ if organizes user e db then some e else none
]

-- `_audit_event`: an admin may open any event
unfoldable pub audit_event : List Admin → User → ℕ → Db → Option Event
unfolding is_active_admin own_event
audit_event admins user id db = elim (own_event user id db) [
  | some e ↦ some e
  | none ↦ if is_active_admin admins user.id then db.events id else none
]

-- `status in {CANCELLED, FINISHED}`
abbrev pub cannot_cancel : EventStatus → Bool
cannot_cancel EventStatus.cancelled = true
cannot_cancel EventStatus.finished = true
cannot_cancel _ = false

-- `status in {CANCELLED, REJECTED}`
abbrev pub cannot_start : EventStatus → Bool
cannot_start EventStatus.cancelled = true
cannot_start EventStatus.rejected = true
cannot_start _ = false

-- a tap that only an organizer of the event, not banned from organizing, may make
abbrev pub as_organizer : ℕ → User → ℕ → Db → (Event → Db) → Db
as_organizer now user id db act =
    if blocked_organize now user db
    then db
    else elim (own_event user id db) [ none ↦ db | some e ↦ act e ]

unfoldable pub org_cancel : ℕ → User → ℕ → Db → Db
unfolding own_event
org_cancel now user id db = as_organizer now user id db (λ e.
    if cannot_cancel e.status
    then db
    else (cancel_event now user.id "cancelled by the organizer" e db).1)

unfoldable pub org_mark_started : ℕ → User → ℕ → Db → Db
unfolding own_event
org_mark_started now user id db = as_organizer now user id db (λ e.
    if cannot_start e.status || is_some e.archived_at
    then db
    else if not (creds_were_provided (find (creds_of e.id) db.credentials))
    then db
    else (mark_event_started now user.id e db).1)

-- confirm_creds_send with `_commit_creds_send`: the room that was typed before
unfoldable pub confirm_creds_send :
    Settings → (String → String) → ℕ → User → ℕ → String → String → Db → Db
unfolding own_event
confirm_creds_send s encrypt now user id room_id password db = as_organizer now user id db (λ e.
    if str_eq room_id "" || str_eq password ""
    then db
    else if not (credentials_window_open s e now)
        && not (creds_were_provided (find (creds_of e.id) db.credentials))
    then db
    else (update_credentials encrypt user.id e room_id password db).1)

-- `_may_review_proof`
unfoldable pub may_review_proof : List Admin → User → Event → Db → Bool
unfolding organizes is_active_admin
may_review_proof admins user e db = organizes user e db || is_active_admin admins user.id

-- `_void_registration`: the seat of a confirmed player is taken back
unfoldable pub void_registration : ℕ → ℕ → ℕ → Db → Db
void_registration now event_id player db = elim (find (of_pair event_id player) db.registrations) [
  | none ↦ db
  | some r ↦ if is_confirmed r.status then mark_ineligible now "social_rejected" r db else db
]

-- `proof.status == target`
abbrev pub is_as_wanted : Bool → SocialProofStatus → Bool
is_as_wanted approved status =
    if approved then is_approved_proof status else is_rejected_proof status

-- a violated key breaks the session: the commit after it fails, and all is rolled back
abbrev pub kept {ℓ} : {A : Type ℓ} → Db → Reply A Error × Db → Db
kept before (raised duplicate_key, after) = before
kept before (_, after) = after

-- `_resolve_social` after the review, which is given: an undone rejection registers the player
unfoldable pub settle_seat :
    Settings → ℕ → Option Bot → (ℕ → Option User) → SocialProof → Event → Bool → ℕ → Db → Db → Db
unfolding void_registration
settle_seat s now bot users p e approved fresh db reviewed = elim (users p.user_id) [
  | none ↦ reviewed
  | some player ↦
      if approved
      then kept db (register_user s now bot player e (some "social") true fresh reviewed)
      else void_registration now p.event_id player.id reviewed
]

-- `_resolve_social`: a rejection, or the undoing of one
unfoldable pub resolve_social :
    Settings
    → ℕ
    → Option Bot
    → List Admin
    → (ℕ → Option User)
    → User
    → SocialProof
    → Bool
    → ℕ
    → Db
    → Db
unfolding may_review_proof settle_seat
resolve_social s now bot admins users user p approved fresh db = elim (db.events p.event_id) [
  | none ↦ db
  | some e ↦
      if not (may_review_proof admins user e db) || is_as_wanted approved p.status
      then db
      else settle_seat s now bot users p e approved fresh db
          (review_proof now p approved user.id none db)
]

abbrev pub bulk_social_limit : ℕ
bulk_social_limit = 60

-- proofs_for_event of services/social.py, of the statuses pending and approved: the newest first
unfoldable pub live_proofs : ℕ → Db → List SocialProof
live_proofs event_id db =
    take bulk_social_limit
      (reverse (select (λ p. p.event_id == event_id && not (is_rejected_proof p.status)) db.proofs))

unfoldable pub review_all : ℕ → ℕ → Bool → List SocialProof → Db → Db
review_all now reviewer approved [] db = db
review_all now reviewer approved (p ∷ ps) db =
    review_all now reviewer approved ps (review_proof now p approved reviewer none db)

-- the keys of `players`, a dictionary: each player once, in the order of the first proof
abbrev pub players_of : List SocialProof → List ℕ → List ℕ
players_of [] seen = reverse seen
players_of (p ∷ ps) seen =
    players_of ps (if any (λ k. k == p.user_id) seen then seen else p.user_id ∷ seen)

unfoldable pub void_all : ℕ → ℕ → List ℕ → Db → Db
unfolding void_registration
void_all now event_id [] db = db
void_all now event_id (k ∷ ks) db = void_all now event_id ks (void_registration now event_id k db)

-- pending_proofs_for_event of services/social.py: the oldest first; a status that is neither approved
-- nor rejected is pending
unfoldable pub pending_proofs : ℕ → Db → List SocialProof
pending_proofs event_id db = take bulk_social_limit (
    select
      (λ p.
        p.event_id == event_id && not (is_approved_proof p.status || is_rejected_proof p.status))
      db.proofs)

-- the screenshots are marked as looked at
unfoldable pub org_social_all_ok : ℕ → List Admin → User → ℕ → Db → Db
unfolding audit_event pending_proofs review_all
org_social_all_ok now admins user id db =
    if blocked_organize now user db then db else elim (audit_event admins user id db) [
      | none ↦ db
      | some e ↦ review_all now user.id true (pending_proofs id db) db
    ]

unfoldable pub org_social_all_no : ℕ → List Admin → User → ℕ → Db → Db
unfolding audit_event live_proofs review_all void_all
org_social_all_no now admins user id db =
    if blocked_organize now user db then db else elim (audit_event admins user id db) [
      | none ↦ db
      | some e ↦
          let rows = live_proofs id db in
          void_all now id (players_of rows []) (review_all now user.id false rows db)
    ]

-- `_claim_for_organizer`: the organizer of the claim, or an admin
unfoldable pub claim_for_organizer : List Admin → User → ℕ → Db → Option (WinnerClaim × Event)
unfolding is_active_admin
claim_for_organizer admins user claim_id db = elim (find (with_claim_id claim_id) db.claims) [
  | none ↦ none
  | some c ↦ elim (db.events c.event_id) [
    | none ↦ none
    | some e ↦
        if (elim (find (organizer_id c.organizer_id) db.organizers) [
          | none ↦ false
          | some o ↦ o.user_id == user.id
        ])
          || is_active_admin admins user.id
        then some (c, e)
        else none
  ]
]

-- an approved winner raises the organizer's score
abbrev pub reward_organizer : ℕ → ℕ → ℕ → Db → Db
reward_organizer organizer event_id actor db = elim (find (organizer_id organizer) db.organizers) [
  | none ↦ db
  | some o ↦ (record_change o "prize_paid_confirmed" (some event_id) (some actor) none db).1
]

-- `_resolve_claim_cb`
unfoldable pub resolve_claim_cb : ℕ → List Admin → User → ℕ → Bool → Db → Db
unfolding claim_for_organizer
resolve_claim_cb now admins user claim_id approved db =
    elim (claim_for_organizer admins user claim_id db) [
      | none ↦ db
      | some x ↦
          let (c, e) = x in
          if not (is_pending_claim c.status)
          then db
          else (let db1 = resolve_claim now c approved user.id db in
              if approved then reward_organizer e.organizer_id e.id user.id db1 else db1)
    ]
