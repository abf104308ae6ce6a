-- ===== src/Desk/Taps.antt =====
-- The buttons of the panels: which handler answers the tap on which.
use free_fire_room.Prelude.{ℕ, Bool, Option, List, String}
use free_fire_room.Model.{Settings, User, SocialProof, Admin, Db}
use free_fire_room.Telegram.{Bot}
use free_fire_room.Desk.{
  org_cancel, org_mark_started, org_social_all_ok, org_social_all_no, confirm_creds_send,
  resolve_social, resolve_claim_cb,
}
use free_fire_room.Desk.Owner.{
  resolve_winner, admin_event_cancel, admin_event_approve, admin_event_reject, admin_org_review,
}

-- A tap on a button, by what the button names. `fresh` is the id of a new registration.
pub data Tap : Type 0 where
  cancel_own start_own accept_all reject_all : ℕ → Tap
  send_room : ℕ → String → String → Tap
  resolve_proof : SocialProof → Bool → ℕ → Tap
  resolve_win resolve_win_as_admin : ℕ → Bool → Tap
  cancel_any approve reject : ℕ → Tap
  review_organizer : ℕ → Bool → Tap

-- the handlers by the prefixes of the buttons' data
module _ (s : Settings) (encrypt : String → String) (now : ℕ) (bot : Option Bot)
    (admins : List Admin) (users : ℕ → Option User) (user : User) where
  unfoldable pub tap : Tap → Db → Db
  tap (cancel_own id) db = org_cancel now user id db
  tap (start_own id) db = org_mark_started now user id db
  tap (accept_all id) db = org_social_all_ok now admins user id db
  tap (reject_all id) db = org_social_all_no now admins user id db
  tap (send_room id room_id password) db =
      confirm_creds_send s encrypt now user id room_id password db
  tap (resolve_proof p approved fresh) db =
      resolve_social s now bot admins users user p approved fresh db
  tap (resolve_win id approved) db = resolve_claim_cb now admins user id approved db
  tap (resolve_win_as_admin id approved) db = resolve_winner now admins user id approved db
  tap (cancel_any id) db = admin_event_cancel now admins user id db
  tap (approve id) db = admin_event_approve s now admins user id db
  tap (reject id) db = admin_event_reject admins user id db
  tap (review_organizer id approved) db = admin_org_review now admins user id approved db
