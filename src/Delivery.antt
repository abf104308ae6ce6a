-- ===== src/Delivery.antt =====
-- The sending of a room's id and password to one player: backend/app/services/credentials.py. The
-- texts of the messages are left out, and so are the cipher that they are read with, which does not
-- fail here, and the player's flag is_bot_blocked.
pub mod Once
pub mod Late
pub mod Seats
use free_fire_room.Prelude.{
  ℕ, ◌+◌, ◌-◌, Bool, true, false, not, ◌&&◌, Option, none, some, List, [], ◌∷◌, ltb, ◌==◌,
  if◌then◌else◌, is_some, or_else, find, put, insert, String,
}
use free_fire_room.Model.{
  Settings, BanScope, DeliveryStatus, is_sent, RegistrationStatus, is_confirmed, Event,
  Registration, User, Channel, GlobalRequiredChannel, EventRequiredChannel, RoomCredential,
  Delivery, Db, save_event,
}
use free_fire_room.Bans.{is_banned_sync}
use free_fire_room.Windows.{join_window_open, creds_were_provided}
use free_fire_room.Telegram.{Bot, CheckError, MembershipResult, unknown, get_membership}
use free_fire_room.Social.{social_gate_ok}
use free_fire_room.Requirements.{event_rules, event_channels}
use free_fire_room.Registration.{of_pair, save}

-- why a player does not get the message
pub data Reason : Type 0 where
  unchecked : Option CheckError → Reason
  left_channel : ℕ → Reason
  banned social_missing : Reason

abbrev cons_chat : Option Channel → List ℕ → List ℕ
cons_chat none ids = ids
cons_chat (some c) ids = c.telegram_chat_id ∷ ids

unfoldable pub global_chats : Db → List GlobalRequiredChannel → List ℕ → List ℕ
global_chats db [] ids = ids
global_chats db (g ∷ gs) ids = cons_chat (db.channels g.channel_id) (global_chats db gs ids)

unfoldable pub own_chats : Db → List EventRequiredChannel → List ℕ
own_chats db [] = []
own_chats db (r ∷ rs) = cons_chat (db.channels r.channel_id) (own_chats db rs)

-- Whatever its period, a rule that is active counts here.
unfoldable pub collect_required_chat_ids : Db → Event → List ℕ
collect_required_chat_ids db event =
    global_chats db (event_rules db) (own_chats db (event_channels db event.id))

-- `_recheck_user_async`: the reason against the player, if there is one
unfoldable pub recheck_user : Bot → User → List ℕ → Option Reason
recheck_user bot user [] = none
recheck_user bot user (chat ∷ chats) =
    let rest = recheck_user bot user chats in
    let result = get_membership (bot chat user.telegram_id) in
    if unknown result
    then some (unchecked result.error)
    else if not result.ok
    then some (left_channel chat)
    else rest

-- the idempotency key of a delivery
abbrev pub with_idem : ℕ → ℕ → ℕ → Delivery → Bool
with_idem event_id user_id version d =
    d.event_id == event_id && (d.user_id == user_id && d.version == version)

abbrev pub first_delivery : ℕ → ℕ → ℕ → ℕ → DeliveryStatus → Option String → Option ℕ → Delivery
first_delivery now event_id user_id version status error message = record {
  event_id = event_id;
  user_id = user_id;
  version = version;
  status = status;
  telegram_message_id = message;
  error_message = error;
  attempts = 1;
  sent_at = if is_sent status then some now else none;
}

abbrev pub next_delivery : ℕ → DeliveryStatus → Option String → Option ℕ → Delivery → Delivery
next_delivery now status error message d = record d {
  status = status;
  attempts = d.attempts + 1;
  error_message = error;
  telegram_message_id = or_else message d.telegram_message_id;
  sent_at = if is_sent status then some now else d.sent_at;
}

-- `_upsert_delivery`
unfoldable pub upsert_delivery : ℕ → ℕ → ℕ → ℕ → DeliveryStatus → Option String → Option ℕ → Db → Db
upsert_delivery now event_id user_id version status error message db =
    elim (find (with_idem event_id user_id version) db.deliveries) [
      | none ↦ record db {
        deliveries =
            insert (first_delivery now event_id user_id version status error message) db.deliveries;
      }
      | some d ↦ if is_sent d.status then db else record db {
        deliveries =
            put (with_idem event_id user_id version) (next_delivery now status error message d)
              db.deliveries;
      }
    ]

-- What `bot.send_message` does: it returns the message's id, or raises.
pub data Sending : Type 0 where
  delivered : ℕ → Sending
  forbidden : String → Sending
  broken : String → Sending

-- the text that `deliver_one` returns
pub data Outcome : Type 0 where
  already check_failed check_unavailable social_pending skipped sent blocked failed : Outcome

-- the player loses the seat, `event` the row as this worker read it
unfoldable pub demote : Event → ℕ → String → Db → Db
demote event user_id reason db = elim (find (of_pair event.id user_id) db.registrations) [
  | none ↦ db
  | some r ↦
      if is_confirmed r.status
      then save_event (record event { confirmed_count = event.confirmed_count - 1 })
          (save
            (record r { status = RegistrationStatus.ineligible; ineligible_reason = some reason })
            db)
      else db
]

-- the reason, less the chat that the text in the database names too
abbrev pub reason_text : Reason → String
reason_text (unchecked _) = "unchecked"
reason_text (left_channel _) = "left_channel"
reason_text banned = "banned"
reason_text social_missing = "social_missing"

-- `ok, reason` after the three checks, a ban over a channel, a channel over a screenshot
unfoldable pub verdict : ℕ → Bot → Db → Event → User → Option Reason
verdict now bot db event user =
    if is_some (is_banned_sync now db user BanScope.participate)
    then some banned
    else elim (recheck_user bot user (collect_required_chat_ids db event)) [
      | some reason ↦ some reason
      | none ↦ if social_gate_ok db event user then none else some social_missing
    ]

abbrev pub is_bot_not_admin : Option CheckError → Bool
is_bot_not_admin none = false
is_bot_not_admin (some e) = elim e [ CheckError.bot_not_admin ↦ true | _ ↦ false ]

-- what the worker does with a player that it does not serve
unfoldable pub refuse : ℕ → Event → User → ℕ → Reason → Db → Outcome × Db
refuse now event user version (unchecked error) db =
    if is_bot_not_admin error then (check_failed, db) else (check_unavailable, db)
refuse now event user version social_missing db = (social_pending, db)
refuse now event user version reason db = (
  skipped,
  demote event user.id (reason_text reason) (
      upsert_delivery now event.id user.id version DeliveryStatus.skipped
        (some (reason_text reason)) none db),
)

unfoldable pub record_sending : ℕ → Event → User → ℕ → Sending → Db → Outcome × Db
record_sending now event user version (delivered message) db =
    (sent, upsert_delivery now event.id user.id version DeliveryStatus.sent none (some message) db)
record_sending now event user version (forbidden error) db = (
  blocked,
  upsert_delivery now event.id user.id version DeliveryStatus.permanent_fail (some error) none db,
)
record_sending now event user version (broken error) db = (
  failed,
  upsert_delivery now event.id user.id version DeliveryStatus.failed (some error) none db,
)

unfoldable pub serve : ℕ → Sending → Event → User → ℕ → Option Reason → Db → Outcome × Db
serve now telegram event user version none db = record_sending now event user version telegram db
serve now telegram event user version (some reason) db = refuse now event user version reason db

-- `existing and existing.status == SENT`
abbrev pub was_sent : Option Delivery → Bool
was_sent none = false
was_sent (some d) = is_sent d.status

-- `telegram` is what the sending of the message would do, asked only if the player is served.
unfoldable pub deliver_one : ℕ → Bot → Sending → Event → User → RoomCredential → Db → Outcome × Db
deliver_one now bot telegram event user creds db =
    if was_sent (find (with_idem event.id user.id creds.version) db.deliveries)
    then (already, db)
    else serve now telegram event user creds.version (verdict now bot db event user) db

-- Whether a send is queued for whoever has just become eligible; `creds` is the event's row, read
-- after the window is tested.
unfoldable pub queue_late_credentials : Settings → ℕ → Event → Option RoomCredential → Bool
queue_late_credentials s now event creds =
    if not (join_window_open s event now) then false else creds_were_provided creds
