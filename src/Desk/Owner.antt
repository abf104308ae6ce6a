-- ===== src/Desk/Owner.antt =====
-- What the bot's panel lets an admin do: handlers of backend/app/bot/handlers/admin.py.
use free_fire_room.Prelude.{ℕ, Bool, true, not, none, some, List, if◌then◌else◌, find}
use free_fire_room.Model.{
  Settings, is_pending_claim, Event, User, Admin, Db, organizer_id, write_audit,
}
use free_fire_room.Lifecycle.{cancel_event, approve_event, reject_event}
use free_fire_room.Winners.{with_claim_id, resolve_claim}
use free_fire_room.Trust.{approve_organizer, reject_organizer}
use free_fire_room.Desk.{is_active_admin, cannot_cancel, reward_organizer}

-- `_resolve_winner` of the admin's panel
unfoldable pub resolve_winner : ℕ → List Admin → User → ℕ → Bool → Db → Db
unfolding is_active_admin
resolve_winner now admins user claim_id approved db =
    if not (is_active_admin admins user.id)
    then db
    else elim (find (with_claim_id claim_id) db.claims) [
      | none ↦ db
      | some c ↦
          if not (is_pending_claim c.status)
          then db
          else (let db1 =
                write_audit "winner_claim_reviewed" c.id user.id
                  (resolve_claim now c approved user.id db) in
              if approved then reward_organizer c.organizer_id c.event_id user.id db1 else db1)
    ]

-- a tap that only an active admin may make, on a stored event
abbrev pub as_admin : List Admin → User → ℕ → Db → (Event → Db) → Db
as_admin admins user id db act =
    if not (is_active_admin admins user.id)
    then db
    else elim (db.events id) [ none ↦ db | some e ↦ act e ]

unfoldable pub admin_event_cancel : ℕ → List Admin → User → ℕ → Db → Db
unfolding is_active_admin
admin_event_cancel now admins user id db = as_admin admins user id db (λ e.
    if cannot_cancel e.status
    then db
    else (cancel_event now user.id "cancelled by the owner" e db).1)

unfoldable pub admin_event_approve : Settings → ℕ → List Admin → User → ℕ → Db → Db
unfolding is_active_admin
admin_event_approve s now admins user id db =
    as_admin admins user id db (λ e. (approve_event s now user.id e db).1)

unfoldable pub admin_event_reject : List Admin → User → ℕ → Db → Db
unfolding is_active_admin
admin_event_reject admins user id db =
    as_admin admins user id db (λ e. (reject_event user.id "rejected in the panel" e db).1)

-- admin_org_approve and admin_org_reject
unfoldable pub admin_org_review : ℕ → List Admin → User → ℕ → Bool → Db → Db
unfolding is_active_admin
admin_org_review now admins user id approved db =
    if not (is_active_admin admins user.id)
    then db
    else elim (find (organizer_id id) db.organizers) [
      | none ↦ db
      | some o ↦
          if approved
          then approve_organizer now o user.id true db
          else reject_organizer now o user.id "rejected in the panel" db
    ]
