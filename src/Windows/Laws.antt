-- ===== src/Windows/Laws.antt =====
-- When the windows are open.
use free_fire_room.Prelude.{ℕ, ◌+◌, ◌*◌, ◌≤◌, ◌≡◌, ◌↔◌, refl, true, false, none, arith}
use free_fire_room.Model.{Settings, minute, EventStatus, Event}
use free_fire_room.Windows.{join_window_open, credentials_window_open}

-- the statuses in which an event may be joined, or is not yet published
abbrev pub IsLive : EventStatus → Type 0
IsLive EventStatus.pending_approval = Unit
IsLive EventStatus.published = Unit
IsLive EventStatus.full = Unit
IsLive EventStatus.started = Unit
IsLive _ = ⊥

-- the statuses that the window refuses leave only the live ones
live :
    (s : Settings) (e : Event) (now : ℕ) (status : EventStatus)
    → e.status ≡ status
    → join_window_open s e now ≡ true
    → IsLive status
unfolding join_window_open
live s e now EventStatus.pending_approval q h = tt
live s e now EventStatus.published q h = tt
live s e now EventStatus.full q h = tt
live s e now EventStatus.started q h = tt
live s e now EventStatus.draft q h = ground arith
live s e now EventStatus.cancelled q h = ground arith
live s e now EventStatus.rejected q h = ground arith
live s e now EventStatus.finished q h = ground arith

-- Joining is open exactly while the organizer has not archived the event, its status is pending
-- approval, published, full or started, and the automatic archiving time has not passed.
pub join_window_open_iff :
    (s : Settings) (e : Event) (now : ℕ)
    → (join_window_open s e now ≡ true) ↔ (
        (e.archived_at ≡ none)
        × IsLive e.status
        × (now ≤ e.starts_at + s.auto_archive_minutes * minute))
unfolding join_window_open
join_window_open_iff s e now =
    ((λ h. (ground arith, live s e now e.status refl h, ground arith)), (λ h. ground arith))

-- A window that is closed stays closed as time passes, for joining and for the credentials alike.
pub windows_stay_closed :
    (s : Settings) (e : Event) (now later : ℕ)
    → now ≤ later
    → (join_window_open s e now ≡ false → join_window_open s e later ≡ false)
      × (credentials_window_open s e now ≡ false → credentials_window_open s e later ≡ false)
unfolding join_window_open credentials_window_open
windows_stay_closed s e now later h = ((λ c. ground arith), (λ c. ground arith))
