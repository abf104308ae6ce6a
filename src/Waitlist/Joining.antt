-- ===== src/Waitlist/Joining.antt =====
-- Registering keeps the waitlist's references whole, whatever the answer.
use free_fire_room.Prelude.{
  ℕ, ◌+◌, ◌≡◌, refl, inl, inr, Bool, true, Option, none, some, List, String, find, insert, any,
  find-holds, ==_refl, find-put_self, find-insert-none, if_both, if_cases, All-insert, Option-cases,
  raised, is_some, not, ◌||◌, Reply, arith,
}
use free_fire_room.Model.{Settings, BanScope, is_open, Event, Registration, User, Db}
use free_fire_room.Bans.{is_banned}
use free_fire_room.Windows.{join_window_open}
use free_fire_room.Telegram.{Bot}
use free_fire_room.Requirements.{CheckItem, evaluate_requirements}
use free_fire_room.Registration.{
  Error, duplicate_key, user_banned, event_not_found, event_not_open, registration_closed,
  event_full, already_registered, RegisterResult, of_pair, with_id, save, has_seat, any_rejected,
  any_hard_missing, confirm, confirmed_row, same_place, last_position, waitlisted_row, new_entry,
  join_waitlist, allot, rejected_row, pending_row, decide, admit, merge_registration_source,
  merged_row, new_holder, holds_place, enrol, register_user,
}
use free_fire_room.Registration.Keys.{find-with_id}
use free_fire_room.Registration.Invariant.{
  IsHeld, not_confirmed_of_free, register_user-IsConsistent,
}
use free_fire_room.Waitlist.Links.{
  IsLinked, IsQueued, save-IsQueued, insert-IsQueued, new_place-HasUniquePlaces,
}
use free_fire_room.Waitlist.Invariant.{IsSound}

-- a stored registration is rewritten for the same event
saved :
    (r old : Registration) (db : Db)
    → IsQueued db
    → find (with_id r.id) db.registrations ≡ some old
    → r.event_id ≡ old.event_id
    → IsQueued (save r db)
saved r old db h f e = record {
  places = h.places;
  linked = save-IsQueued r old db.registrations db.waitlist f e h.linked;
}

-- of a reply and the database that comes with it
abbrev Keeps : Reply RegisterResult Error × Db → Type 0
Keeps x = IsQueued x.1

confirm-Keeps :
    (now : ℕ) (user : User) (e : Event) (r : Registration) (items : List CheckItem) (db : Db)
    → IsQueued db
    → IsHeld e.id r db
    → Keeps (confirm now user e r items db)
unfolding confirm
confirm-Keeps now user e r items db h held =
    let s = saved (confirmed_row now r) r db h held.stored refl in
    record { places = s.places; linked = s.linked }

join_waitlist-Keeps :
    (before : Db) (user : User) (e : Event) (r : Registration) (items : List CheckItem) (db : Db)
    → IsQueued before
    → IsQueued db
    → IsHeld e.id r db
    → Keeps (join_waitlist before user e r items db)
unfolding join_waitlist
join_waitlist-Keeps before user e r items db hb h held =
    let n = last_position e.id db.waitlist + 1 in
    let row = waitlisted_row n r in
    let entry = new_entry e.id user.id r.id n in
    let s = saved row r db h held.stored refl in
    if_cases Keeps (any (same_place e.id user.id) db.waitlist) (raised duplicate_key, before) _
      (λ _. hb)
      (λ free. record {
        places = new_place-HasUniquePlaces entry db.waitlist free h.places;
        linked =
            All-insert (IsLinked (save row db).registrations) entry db.waitlist
              (
                row,
                find-put_self (with_id r.id) row r db.registrations held.stored
                    (ground (arith, ==_refl r.id)),
                held.of_event,
              )
              s.linked;
      })

allot-Keeps :
    (now : ℕ) (before : Db) (user : User) (event_id : ℕ) (r : Registration) (items : List CheckItem)
    (db : Db)
    → ((k : ℕ) (e : Event) → db.events k ≡ some e → e.id ≡ k)
    → IsQueued before
    → IsQueued db
    → IsHeld event_id r db
    → Keeps (allot now before user (db.events event_id) r items db)
unfolding allot
allot-Keeps now before user event_id r items db ids hb h held =
    elim (Option-cases (db.events event_id)) [
      | inl gone ↦ rw gone h
      | inr (e, le) ↦ rw le (locked_case e le)
    ]
  where
    locked_case :
        (e : Event)
        → db.events event_id ≡ some e
        → Keeps (allot now before user (some e) r items db)
    locked_case e le =
        let held' : IsHeld e.id r db = rw (ids event_id e le) held in
        if_both Keeps (has_seat e) (confirm now user e r items db) _
          (confirm-Keeps now user e r items db h held')
          (if_both Keeps e.waitlist_enabled (join_waitlist before user e r items db)
            (raised event_full, db) (join_waitlist-Keeps before user e r items db hb h held') h)

decide-Keeps :
    (now : ℕ) (before : Db) (user : User) (event : Event) (r : Registration)
    (items : List CheckItem) (db : Db)
    → ((k : ℕ) (e : Event) → db.events k ≡ some e → e.id ≡ k)
    → IsQueued before
    → IsQueued db
    → IsHeld event.id r db
    → Keeps (decide now before user event r items db)
unfolding decide
decide-Keeps now before user event r items db ids hb h held =
    if_both Keeps (any_rejected items) _ _ (saved (rejected_row r) r db h held.stored refl) (
      if_both Keeps (any_hard_missing items) _ _ (saved (pending_row r) r db h held.stored refl)
        (allot-Keeps now before user event.id r items db ids hb h held))

module _ (now : ℕ) (bot : Option Bot) (user : User) (event : Event) (source : Option String)
    (accept : Bool) (fresh : ℕ) (db : Db) (h : IsSound db) where
  enrol_known-Keeps :
      (r : Registration)
      → find (of_pair event.id user.id) db.registrations ≡ some r
      → Keeps (enrol now bot user event source accept fresh (some r) db)
  unfolding enrol admit
  enrol_known-Keeps r f =
      let at = find-with_id (of_pair event.id user.id) db.registrations r h.consistent.keyed f in
      let mine : of_pair event.id user.id r ≡ true =
        find-holds (of_pair event.id user.id) db.registrations r f in
      let holder = merged_row now source accept r in
      let kept = record r { source = merge_registration_source r.source source } in
      if_cases Keeps (holds_place r.status) (raised already_registered, save kept db) _
        (λ _. saved kept r db h.queued at refl)
        (λ free.
          decide-Keeps now db user event holder
            (evaluate_requirements now bot (save holder db) user event (some holder)).items
            (save holder db) h.consistent.ids h.queued (saved holder r db h.queued at refl)
            (record {
              stored = find-put_self (with_id r.id) holder r db.registrations at (ground arith);
              of_event = ground arith;
              waiting = not_confirmed_of_free r.status free;
            }))

  enrol_new-Keeps :
      find (with_id fresh) db.registrations ≡ none
      → Keeps (enrol now bot user event source accept fresh none db)
  unfolding enrol admit
  enrol_new-Keeps unused =
      let holder = new_holder fresh event.id user.id now source accept in
      let d = record db { registrations = insert holder db.registrations } in
      decide-Keeps now db user event holder
        (evaluate_requirements now bot d user event (some holder)).items d h.consistent.ids h.queued
        (record {
          places = h.queued.places;
          linked = insert-IsQueued holder db.registrations db.waitlist h.queued.linked;
        })
        (record {
          stored = ground (arith, find-insert-none (with_id fresh) holder db.registrations unused);
          of_event = refl;
          waiting = refl;
        })

-- What holds of every refusal and of the rest of the call holds of the whole call.
register_user_rule :
    (P : Reply RegisterResult Error × Db → Type 0) (s : Settings) (now : ℕ) (bot : Option Bot)
    (user : User) (event : Event) (source : Option String) (accept : Bool) (fresh : ℕ) (db : Db)
    → ((x : Error) → P (raised x, db))
    → P (
        enrol now bot user event source accept fresh
          (find (of_pair event.id user.id) db.registrations)
          db)
    → P (register_user s now bot user event source accept fresh db)
unfolding register_user
register_user_rule P s now bot user event source accept fresh db bad good =
    if_both P (is_some (is_banned now db user BanScope.participate)) _ _ (bad user_banned) (
      if_both P (is_some event.deleted_at || not event.deep_link_active) _ _ (bad event_not_found) (
        if_both P (not (is_open event.status)) _ _ (bad event_not_open)
          (if_both P (not (join_window_open s event now)) _ _ (bad registration_closed) good)))

-- Registering keeps both invariants: of the seats, and of the waitlist, whose entries keep naming
-- stored registrations of their own events. It supposes that the new row's id is not in use.
pub register_user-IsSound :
    (s : Settings) (now : ℕ) (bot : Option Bot) (user : User) (event : Event)
    (source : Option String) (accept : Bool) (fresh : ℕ) (db : Db)
    → IsSound db
    → find (with_id fresh) db.registrations ≡ none
    → IsSound (register_user s now bot user event source accept fresh db).1
register_user-IsSound s now bot user event source accept fresh db h unused = record {
  consistent =
      register_user-IsConsistent s now bot user event source accept fresh db h.consistent unused;
  queued = queued;
}
  where
    queued : Keeps (register_user s now bot user event source accept fresh db)
    queued =
        register_user_rule Keeps s now bot user event source accept fresh db (λ _. h.queued)
          (elim (Option-cases (find (of_pair event.id user.id) db.registrations)) [
            | inl f ↦ rw f (enrol_new-Keeps now bot user event source accept fresh db h unused)
            | inr (r, f) ↦ rw f (enrol_known-Keeps now bot user event source accept fresh db h r f)
          ])
