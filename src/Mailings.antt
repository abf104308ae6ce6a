-- ===== src/Mailings.antt =====
-- Messages to all who use the bot: the reminders of an event, the digest of the day and the news of
-- a new event, of backend/app/workers/tasks.py and backend/app/services/digest.py. Telegram's answers
-- and Redis' lock are parameters; the texts are left out, and so is the message to the organizer,
-- which changes nothing, and the commits between two messages.
pub mod Recipients
use free_fire_room.Prelude.{
  ℕ, ◌+◌, ◌*◌, Bool, true, false, not, ◌&&◌, ◌||◌, Option, none, some, is_some, List, [], ◌∷◌,
  if◌then◌else◌, leb, ◌==◌, any, select, insert, take, sort_by, find,
}
use free_fire_room.Model.{
  Settings, minute, EventStatus, EventVisibility, UserStatus, is_listed, is_confirmed, Event,
  Registration, Account, account_id, Organizer, organizer_id, Db,
}
use free_fire_room.Windows.{is_archived}
use free_fire_room.Broadcast.{Post, Mailbox, outcome, mark_blocked}

abbrev pub is_active_user : UserStatus → Bool
is_active_user UserStatus.active = true
is_active_user _ = false

abbrev pub is_public : EventVisibility → Bool
is_public EventVisibility.public = true
is_public EventVisibility.unlisted = false

-- the users whom the three mailings select
abbrev pub is_subscribed : Account → Bool
is_subscribed u =
    not (is_some u.deleted_at)
    && not u.is_bot_blocked
    && u.notification_enabled
    && is_active_user u.status

-- the counts of a mailing, the table of users and the users who got the message
pub record Round : Type 0 where
  pub sent : ℕ
  pub failed : ℕ
  pub skipped : ℕ
  pub users : List Account
  pub written : List ℕ

abbrev pub new_round : List Account → Round
new_round users = record { sent = 0; failed = 0; skipped = 0; users = users; written = [] }

abbrev pub count_post : Post → Account → Round → Round
count_post Post.delivered u r = record r { sent = r.sent + 1; written = insert u.id r.written }
count_post Post.forbidden u r = record r {
  skipped = r.skipped + 1;
  users = mark_blocked Post.forbidden u r.users;
}
count_post _ u r = record r { failed = r.failed + 1 }

-- one user of the loop that the three mailings share
unfoldable pub mail_one : Mailbox → (ℕ → Bool) → Account → Round → Round
unfolding outcome
mail_one m left_out u r =
    if u.telegram_id == 0 || left_out u.id
    then record r { skipped = r.skipped + 1 }
    else count_post (outcome m u) u r

unfoldable pub mail_all : Mailbox → (ℕ → Bool) → List Account → Round → Round
unfolding mail_one
mail_all m left_out [] r = r
mail_all m left_out (u ∷ us) r = mail_all m left_out us (mail_one m left_out u r)

unfoldable pub mail_subscribers : Mailbox → (ℕ → Bool) → List Account → Round
unfolding mail_all
mail_subscribers m left_out users =
    mail_all m left_out (select is_subscribed users) (new_round users)

-- `redis.set(…, nx=True)`: None where it raised; a mailing goes on then
abbrev pub may_send : Option Bool → Bool
may_send none = true
may_send (some locked) = locked

-- the guards that the reminder and the news of an event share
unfoldable pub is_advertised : Bool → EventVisibility → Event → Bool
is_advertised enabled visibility e =
    enabled && (is_public visibility && e.deep_link_active) && is_listed e.status

unfoldable pub broadcast_event_reminder :
    Bool → EventVisibility → Option Bool → Mailbox → Event → List ℕ → List Account → Round
unfolding is_advertised mail_subscribers
broadcast_event_reminder enabled visibility lock m e already users =
    if is_advertised enabled visibility e && may_send lock
    then mail_subscribers m (λ k. any (λ j. j == k) already) users
    else new_round users

-- the user who organizes the event
abbrev pub organizer_user : Event → Db → Option ℕ
organizer_user e db = elim (find (organizer_id e.organizer_id) db.organizers) [
  | none ↦ none
  | some o ↦ some o.user_id
]

unfoldable pub broadcast_new_event :
    Bool → EventVisibility → Option Bool → Mailbox → Event → Db → List Account → Round
unfolding is_advertised mail_subscribers
broadcast_new_event enabled visibility lock m e db users =
    if is_advertised enabled visibility e && may_send lock
    then mail_subscribers m (λ k. elim (organizer_user e db) [ none ↦ false | some o ↦ k == o ])
        users
    else new_round users

-- `status in {CANCELLED, REJECTED, FINISHED}`
abbrev pub is_past_reminding : EventStatus → Bool
is_past_reminding EventStatus.cancelled = true
is_past_reminding EventStatus.rejected = true
is_past_reminding EventStatus.finished = true
is_past_reminding _ = false

abbrev pub confirmed_player : ℕ → Registration → Bool
confirmed_player event_id r = r.event_id == event_id && is_confirmed r.status

-- the ids of the confirmed players, whatever happens to their messages
abbrev pub player_ids : List Registration → List ℕ
player_ids [] = []
player_ids (r ∷ rs) = r.user_id ∷ player_ids rs

-- the id of a player whom the reminder reaches: no second try, and nobody is marked as blocked
unfoldable pub remind_one : Mailbox → List Account → Registration → Option ℕ
remind_one m users r = elim (find (account_id r.user_id) users) [
  | none ↦ none
  | some u ↦
      if u.is_bot_blocked
      then none
      else (elim (m.first u.id) [ Post.delivered ↦ some u.id | _ ↦ none ])
]

unfoldable pub remind_players : Mailbox → List Account → List Registration → List ℕ
unfolding remind_one
remind_players m users [] = []
remind_players m users (r ∷ rs) =
    let rest = remind_players m users rs in
    elim (remind_one m users r) [ none ↦ rest | some k ↦ k ∷ rest ]

-- the messages of one reminder: to the players, and to everyone else
pub record Reminded : Type 0 where
  pub players : List ℕ
  pub others : Round

unfoldable pub send_reminders :
    Settings
    → ℕ
    → Bool
    → EventVisibility
    → Option Bool
    → Mailbox
    → Option Event
    → Db
    → List Account
    → Reminded
unfolding broadcast_event_reminder remind_players
send_reminders s now enabled visibility lock m none db users = record {
  players = [];
  others = new_round users;
}
send_reminders s now enabled visibility lock m (some e) db users =
    if is_past_reminding e.status || is_archived s e now
    then record { players = []; others = new_round users }
    else (let regs = select (confirmed_player e.id) db.registrations in
        record {
          players = remind_players m users regs;
          others = broadcast_event_reminder enabled visibility lock m e (player_ids regs) users;
        })

abbrev pub digest_limit : ℕ
digest_limit = 8

unfoldable pub is_upcoming : Settings → ℕ → (ℕ → EventVisibility) → Event → Bool
is_upcoming s now visibility e =
    not (is_some e.deleted_at)
    && is_public (visibility e.id)
    && is_listed e.status
    && not (is_some e.archived_at)
    && leb now (e.starts_at + s.auto_archive_minutes * minute)
    && e.deep_link_active

-- the stored events, in the order of their insertion
abbrev pub stored_events : Db → List ℕ → List Event
stored_events db [] = []
stored_events db (k ∷ ks) =
    let rest = stored_events db ks in elim (db.events k) [ none ↦ rest | some e ↦ e ∷ rest ]

unfoldable pub upcoming_prize_customs : Settings → ℕ → (ℕ → EventVisibility) → Db → List Event
unfolding is_upcoming
upcoming_prize_customs s now visibility db = take digest_limit (
    sort_by (λ e. e.starts_at)
      (select (is_upcoming s now visibility) (stored_events db db.event_ids)))

-- None if another worker has sent the digest of the day, or nothing is coming up
unfoldable pub send_daily_custom_digest :
    Settings
    → ℕ
    → (ℕ → EventVisibility)
    → Option Bool
    → Mailbox
    → Db
    → List Account
    → Option (List Event × Round)
unfolding upcoming_prize_customs mail_subscribers
send_daily_custom_digest s now visibility lock m db users =
    if not (may_send lock) then none else (elim (upcoming_prize_customs s now visibility db) [
      | [] ↦ none
      | e ∷ es ↦ some (e ∷ es, mail_subscribers m (λ k. false) users)
    ])
