-- ===== src/Broadcast.antt =====
-- Broadcasts: `_broadcast` of backend/app/workers/tasks.py, and the routes and the bot's handler that
-- confirm and pause a campaign. Telegram's answers are a parameter; the texts, the rows of the audit
-- log and the commits between two messages are left out.
pub mod Reach
use free_fire_room.Prelude.{
  ℕ, ◌+◌, Bool, true, false, not, ◌&&◌, Option, none, some, is_some, List, [], ◌∷◌, if◌then◌else◌,
  ◌==◌, select, put, insert, Reply, ok, raised,
}
use free_fire_room.Model.{
  BroadcastStatus, DeliveryStatus, is_sendable, is_draft_campaign, is_paused, Account, account_id,
  BroadcastCampaign, BroadcastDelivery,
}

-- What `bot.send_message` does: it returns, or raises one of aiogram's exceptions or another one.
pub data Post : Type 0 where
  delivered retry_after forbidden failed : Post

-- the answers to the first and to the second message to a user
pub record Mailbox : Type 0 where
  pub first : ℕ → Post
  pub second : ℕ → Post

-- what became of one user: a throttled message is sent once more
unfoldable pub outcome : Mailbox → Account → Post
outcome m u = elim (m.first u.id) [
  | delivered ↦ delivered
  | retry_after ↦ elim (m.second u.id) [ delivered ↦ delivered | _ ↦ failed ]
  | forbidden ↦ forbidden
  | failed ↦ failed
]

-- `User.deleted_at.is_(None), User.is_bot_blocked.is_(False)`
abbrev pub is_reachable : Account → Bool
is_reachable u = not (is_some u.deleted_at) && not u.is_bot_blocked

-- The database, as far as a campaign goes, and the worker's own copy of the campaign: the session of
-- a worker does not read a row again that it has loaded.
pub record Mailing : Type 0 where
  pub stored : BroadcastCampaign
  pub loaded : BroadcastCampaign
  pub users : List Account
  pub deliveries : List BroadcastDelivery

abbrev pub new_delivery : ℕ → ℕ → Account → Post → BroadcastDelivery
new_delivery now campaign u delivered = record {
  campaign_id = campaign;
  user_id = u.id;
  status = DeliveryStatus.sent;
  sent_at = some now;
}
new_delivery now campaign u forbidden = record {
  campaign_id = campaign;
  user_id = u.id;
  status = DeliveryStatus.permanent_fail;
  sent_at = none;
}
new_delivery now campaign u _ = record {
  campaign_id = campaign;
  user_id = u.id;
  status = DeliveryStatus.failed;
  sent_at = none;
}

abbrev pub tally : Post → BroadcastCampaign → BroadcastCampaign
tally delivered c = record c { sent_count = c.sent_count + 1 }
tally _ c = record c { fail_count = c.fail_count + 1 }

-- a user who has blocked the bot is not written to again
abbrev pub mark_blocked : Post → Account → List Account → List Account
mark_blocked forbidden u users = put (account_id u.id) (record u { is_bot_blocked = true }) users
mark_blocked _ u users = users

unfoldable pub post_one : ℕ → Mailbox → Account → Mailing → Mailing
unfolding outcome
post_one now m u s =
    let p = outcome m u in
    record s {
      loaded = tally p s.loaded;
      users = mark_blocked p u s.users;
      deliveries = insert (new_delivery now s.loaded.id u p) s.deliveries;
    }

-- the route POST /admin/broadcasts/…/pause, of another session
unfoldable pub pause_broadcast : BroadcastCampaign → BroadcastCampaign
pause_broadcast c = record c { status = BroadcastStatus.paused }

-- `pauses` says before whose turn somebody pauses the campaign
abbrev pub interrupted : (ℕ → Bool) → Account → Mailing → Mailing
interrupted pauses u s = if pauses u.id then record s { stored = pause_broadcast s.stored } else s

unfoldable pub post_all : ℕ → Mailbox → (ℕ → Bool) → List Account → Mailing → Mailing
unfolding post_one pause_broadcast
post_all now m pauses [] s = s
post_all now m pauses (u ∷ us) s =
    let s1 = interrupted pauses u s in
    let rest = post_all now m pauses us (post_one now m u s1) in
    if is_paused s1.loaded.status then s1 else rest

-- the columns that the worker has changed are written
unfoldable pub finish_broadcast : ℕ → Mailing → Mailing
finish_broadcast now s =
    let done = record s.loaded { status = BroadcastStatus.done; finished_at = some now } in
    record s {
      loaded = done;
      stored = record s.stored {
        status = done.status;
        finished_at = done.finished_at;
        sent_count = done.sent_count;
        fail_count = done.fail_count;
      };
    }

-- a worker loads the campaign and starts
unfoldable pub start_broadcast : ℕ → Mailing → Mailing
start_broadcast now s =
    let c = record s.stored { status = BroadcastStatus.running; started_at = some now } in
    record s { loaded = c; stored = c }

-- `_broadcast`; the moment of each send is the call's
unfoldable pub broadcast : ℕ → Mailbox → (ℕ → Bool) → Mailing → Mailing
unfolding post_all finish_broadcast start_broadcast
broadcast now m pauses s =
    if is_sendable s.stored.status
    then finish_broadcast now
        (post_all now m pauses (select is_reachable s.users) (start_broadcast now s))
    else s

pub data BroadcastError : Type 0 where
  broadcast_already_confirmed : BroadcastError

abbrev pub new_campaign : ℕ → ℕ → Option ℕ → BroadcastCampaign
new_campaign id actor scheduled_at = record {
  id = id;
  status = BroadcastStatus.draft;
  scheduled_at = scheduled_at;
  started_at = none;
  finished_at = none;
  created_by = actor;
  confirmed_by = none;
  confirmed_at = none;
  sent_count = 0;
  fail_count = 0;
}

-- the route POST /admin/broadcasts/…/confirm; after its commit it starts `broadcast` at once
unfoldable pub confirm_broadcast :
    ℕ → ℕ → BroadcastCampaign → Reply BroadcastStatus BroadcastError × BroadcastCampaign
confirm_broadcast now actor c =
    if not (is_draft_campaign c.status)
    then (raised broadcast_already_confirmed, c)
    else (let status =
          if is_some c.scheduled_at then BroadcastStatus.scheduled else BroadcastStatus.running in
        (
          ok status,
          record c { status = status; confirmed_by = some actor; confirmed_at = some now },
        ))

-- the bot's handler: it starts the worker first, and commits afterwards
unfoldable pub admin_bc_confirm :
    ℕ → ℕ → BroadcastCampaign → Reply BroadcastStatus BroadcastError × BroadcastCampaign
admin_bc_confirm now actor c =
    if not (is_draft_campaign c.status) then (raised broadcast_already_confirmed, c) else (
      ok BroadcastStatus.running,
      record c {
        status = BroadcastStatus.running;
        confirmed_by = some actor;
        confirmed_at = some now;
      },
    )
