-- ===== src/Windows.antt =====
-- The time windows of backend/app/services/reports.py: until when players may join and the
-- organizer may enter the room's id and password.
pub mod Laws
use free_fire_room.Prelude.{
  ℕ, ◌+◌, ◌*◌, Bool, true, false, not, ◌&&◌, Option, none, some, str_eq, ltb, if◌then◌else◌,
  is_some,
}
use free_fire_room.Model.{Settings, minute, EventStatus, Event, RoomCredential}

-- When the bot gives up waiting for the organizer to tap "custom started".
unfoldable pub auto_archive_deadline : Settings → Event → ℕ
auto_archive_deadline s e = e.starts_at + s.auto_archive_minutes * minute

-- `status in {CANCELLED, REJECTED, FINISHED}`
abbrev pub is_over : EventStatus → Bool
is_over EventStatus.cancelled = true
is_over EventStatus.rejected = true
is_over EventStatus.finished = true
is_over _ = false

unfoldable pub is_archived : Settings → Event → ℕ → Bool
unfolding auto_archive_deadline
is_archived s e now =
    if is_some e.archived_at
    then true
    else if is_over e.status
    then true
    else ltb (auto_archive_deadline s e) now

unfoldable pub credentials_deadline : Settings → Event → ℕ
unfolding auto_archive_deadline
credentials_deadline s e = elim e.archived_at [ some t ↦ t | none ↦ auto_archive_deadline s e ]

unfoldable pub fill_deadline : Settings → Event → ℕ
unfolding credentials_deadline
fill_deadline s e = credentials_deadline s e

-- `status in {CANCELLED, REJECTED}`
abbrev is_called_off : EventStatus → Bool
is_called_off EventStatus.cancelled = true
is_called_off EventStatus.rejected = true
is_called_off _ = false

unfoldable pub credentials_window_open : Settings → Event → ℕ → Bool
unfolding is_archived
credentials_window_open s e now =
    if is_called_off e.status then false else not (is_archived s e now)

-- `status in {CANCELLED, REJECTED, DRAFT, FINISHED}`
abbrev is_not_joinable : EventStatus → Bool
is_not_joinable EventStatus.cancelled = true
is_not_joinable EventStatus.rejected = true
is_not_joinable EventStatus.draft = true
is_not_joinable EventStatus.finished = true
is_not_joinable _ = false

unfoldable pub join_window_open : Settings → Event → ℕ → Bool
unfolding is_archived
join_window_open s e now = if is_not_joinable e.status then false else not (is_archived s e now)

unfoldable pub creds_were_provided : Option RoomCredential → Bool
creds_were_provided none = false
creds_were_provided (some c) = not (is_some c.purged_at) && not (str_eq c.room_id_encrypted "")

unfoldable pub creds_were_sent : Option RoomCredential → Bool
unfolding creds_were_provided
creds_were_sent none = false
creds_were_sent (some c) = creds_were_provided (some c) && is_some c.sent_at
