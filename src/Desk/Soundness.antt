-- ===== src/Desk/Soundness.antt =====
-- The panels' handlers keep the counters and the waitlist sound, on top of the calls that they make.
use free_fire_room.Prelude.{ℕ, ◌≡◌, ◌≤◌, ◌⊎◌, count, All, Option, none, some, List, String, find}
use free_fire_room.Model.{Settings, Event, User, Admin, Db}
use free_fire_room.Telegram.{Bot}
use free_fire_room.Registration.{with_id}
use free_fire_room.Waitlist.Invariant.{IsSound}
use free_fire_room.Registration.Seats.{confirmed_for}
use free_fire_room.Waitlist.Links.{IsLinked}
use free_fire_room.System.{Step, Reach}
use free_fire_room.System.Soundness.{Step-IsSound, never_overbooked}
use free_fire_room.Desk.Taps.{
  Tap, tap, cancel_own, start_own, accept_all, reject_all, send_room, resolve_proof, resolve_win,
  resolve_win_as_admin, cancel_any, approve, reject, review_organizer,
}
use free_fire_room.Desk.Handlers.{
  org_cancel-IsSound, org_mark_started-IsSound, org_social_all_ok-IsSound,
  org_social_all_no-IsSound, confirm_creds_send-IsSound, resolve_social-IsSound,
  resolve_claim_cb-IsSound, resolve_winner-IsSound, admin_event_cancel-IsSound,
  admin_event_approve-IsSound, admin_event_reject-IsSound, admin_org_review-IsSound,
}

-- a tap that registers a player writes the row under an id that is not in use
abbrev pub CanTap : Db → Tap → Type 0
CanTap db (resolve_proof _ _ fresh) = find (with_id fresh) db.registrations ≡ none
CanTap db _ = Unit

module _ (s : Settings) (encrypt : String → String) (now : ℕ) (bot : Option Bot)
    (admins : List Admin) (users : ℕ → Option User) (user : User) (db : Db) (h : IsSound db) where
  tap-IsSound : (t : Tap) → CanTap db t → IsSound (tap s encrypt now bot admins users user t db)
  unfolding tap
  tap-IsSound (cancel_own id) _ = org_cancel-IsSound s encrypt now bot admins users user db h id
  tap-IsSound (start_own id) _ =
      org_mark_started-IsSound s encrypt now bot admins users user db h id
  tap-IsSound (accept_all id) _ =
      org_social_all_ok-IsSound s encrypt now bot admins users user db h id
  tap-IsSound (reject_all id) _ =
      org_social_all_no-IsSound s encrypt now bot admins users user db h id
  tap-IsSound (send_room id room_id password) _ =
      confirm_creds_send-IsSound s encrypt now bot admins users user db h id room_id password
  tap-IsSound (resolve_proof p approved fresh) unused =
      resolve_social-IsSound s encrypt now bot admins users user db h p approved fresh unused
  tap-IsSound (resolve_win id approved) _ =
      resolve_claim_cb-IsSound s encrypt now bot admins users user db h id approved
  tap-IsSound (resolve_win_as_admin id approved) _ =
      resolve_winner-IsSound s encrypt now bot admins users user db h id approved
  tap-IsSound (cancel_any id) _ =
      admin_event_cancel-IsSound s encrypt now bot admins users user db h id
  tap-IsSound (approve id) _ =
      admin_event_approve-IsSound s encrypt now bot admins users user db h id
  tap-IsSound (reject id) _ = admin_event_reject-IsSound s encrypt now bot admins users user db h id
  tap-IsSound (review_organizer id approved) _ =
      admin_org_review-IsSound s encrypt now bot admins users user db h id approved

-- Calls of the services by other handlers and by the workers, and taps on the panels by anyone, in
-- any order.
module _ (s : Settings) (encrypt : String → String) (bot : Option Bot) (admins : List Admin)
    (users : ℕ → Option User) where
  pub data Session : Db → Db → Type 0 where
    opened : {db : Db} → Session db db
    called : {db db' db'' : Db} → Session db db' → Step s encrypt db' db'' → Session db db''
    tapped :
        {db db' : Db} (now : ℕ) (user : User) (t : Tap)
        → Session db db'
        → CanTap db' t
        → Session db (tap s encrypt now bot admins users user t db')

module _ {s : Settings} {encrypt : String → String} {bot : Option Bot} {admins : List Admin}
    {users : ℕ → Option User} where
  Session-IsSound :
      {db db' : Db} → IsSound db → Session s encrypt bot admins users db db' → IsSound db'
  Session-IsSound h opened = h
  Session-IsSound h (called r c) = Step-IsSound c (Session-IsSound h r)
  Session-IsSound h (tapped now user t r c) =
      tap-IsSound s encrypt now bot admins users user _ (Session-IsSound h r) t c

-- From a database with sound counters and references, whatever the organizers and the admins tap in
-- their panels, in turn with calls of the services, no event has more confirmed registrations than
-- its capacity, if it has one, its counter is their number, and each entry of the waitlist names a
-- stored registration of its own event. A tap that registers a player does it under an unused id.
pub taps_never_overbook :
    (s : Settings) (encrypt : String → String) (bot : Option Bot) (admins : List Admin)
    (users : ℕ → Option User) (db db' : Db)
    → IsSound db
    → Session s encrypt bot admins users db db'
    → ((k : ℕ) (e : Event)
        → db'.events k ≡ some e
        → (e.confirmed_count ≡ count (confirmed_for k) db'.registrations)
          × ((e.capacity ≡ 0) ⊎ (count (confirmed_for k) db'.registrations ≤ e.capacity)))
      × All (IsLinked db'.registrations) db'.waitlist
taps_never_overbook s encrypt bot admins users db db' h r =
    never_overbooked s encrypt db' db' (Session-IsSound h r) Reach.start
