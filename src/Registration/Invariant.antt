-- ===== src/Registration/Invariant.antt =====
-- `register_user` keeps the counters true and the capacity, however it ends.
use free_fire_room.Prelude.{
  ℕ, ◌+◌, ◌≡◌, inl, inr, refl, sym, Bool, true, false, Option, none, some, List, arith, String, any,
  find, insert, find-holds, find-put_self, find-insert-none, Bool-cases, Option-cases, if_both,
  raised, subst,
}
use free_fire_room.Model.{
  Settings, RegistrationStatus, is_confirmed, Event, Registration, User, Db, save_event,
}
use free_fire_room.Telegram.{Bot}
use free_fire_room.Requirements.{CheckItem, evaluate_requirements}
use free_fire_room.Registration.{
  event_full, of_pair, with_id, save, take_seat, has_seat, any_rejected, any_hard_missing,
  same_place, last_position, confirm, join_waitlist, allot, decide, admit, enrol, register_user,
  merge_registration_source, merged_row, new_holder, confirmed_row, waitlisted_row, fill_up,
  holds_place, pending_row, rejected_row,
}
use free_fire_room.Registration.Keys.{find-with_id}
use free_fire_room.Registration.Seats.{
  Fits, IsConsistent, save-IsConsistent, save-IsConsistent_idle, insert-IsConsistent,
}

-- a registration whose row is stored as it stands, for an event, and not confirmed
pub record IsHeld (event_id : ℕ) (r : Registration) (db : Db) : Type 0 where
  pub stored : find (with_id r.id) db.registrations ≡ some r
  pub of_event : r.event_id ≡ event_id
  pub waiting : is_confirmed r.status ≡ false

take_seat-Fits : (e : Event) → has_seat e ≡ true → Fits (take_seat e)
unfolding take_seat
take_seat-Fits e h = ground arith

confirm-IsConsistent :
    (now : ℕ) (user : User) (e : Event) (r : Registration) (items : List CheckItem) (db : Db)
    → IsConsistent db
    → IsHeld e.id r db
    → db.events e.id ≡ some e
    → has_seat e ≡ true
    → IsConsistent (confirm now user e r items db).1
unfolding confirm take_seat
confirm-IsConsistent now user e r items db h held le seat =
    let s : IsConsistent (save_event (take_seat e) (save (confirmed_row now r) db)) =
      save-IsConsistent (confirmed_row now r) r e (take_seat e) db h held.stored refl refl
        (rw held.of_event le) refl (rw held.waiting (omega arith)) (take_seat-Fits e seat) in
    record { keyed = s.keyed; ids = s.ids; counted = s.counted; fits = s.fits }

join_waitlist-IsConsistent :
    (before : Db) (user : User) (e : Event) (r : Registration) (items : List CheckItem) (db : Db)
    → IsConsistent before
    → IsConsistent db
    → IsHeld e.id r db
    → db.events e.id ≡ some e
    → IsConsistent (join_waitlist before user e r items db).1
unfolding join_waitlist last_position
join_waitlist-IsConsistent before user e r items db hb h held le =
    elim (Bool-cases (any (same_place e.id user.id) db.waitlist)) [
      | inl taken ↦ rw taken hb
      | inr free ↦
          let row = waitlisted_row (last_position e.id db.waitlist + 1) r in
          let s : IsConsistent (save_event (fill_up e) (save row db)) =
            save-IsConsistent row r e (fill_up e) db h held.stored refl refl (rw held.of_event le)
              refl (rw held.waiting refl) (h.fits e.id e le) in
          rw free (record { keyed = s.keyed; ids = s.ids; counted = s.counted; fits = s.fits })
    ]

allot-IsConsistent :
    (now : ℕ) (before : Db) (user : User) (event_id : ℕ) (r : Registration) (items : List CheckItem)
    (db : Db)
    → IsConsistent before
    → IsConsistent db
    → IsHeld event_id r db
    → IsConsistent (allot now before user (db.events event_id) r items db).1
unfolding allot
allot-IsConsistent now before user event_id r items db hb h held =
    elim (Option-cases (db.events event_id)) [
      | inl gone ↦ rw gone h
      | inr (e, le) ↦ rw le (locked_case e le)
    ]
  where
    locked_case :
        (e : Event)
        → db.events event_id ≡ some e
        → IsConsistent (allot now before user (some e) r items db).1
    locked_case e le =
        let i = h.ids event_id e le in
        let held' : IsHeld e.id r db = rw i held in
        let le' : db.events e.id ≡ some e = subst (λ j. db.events j ≡ some e) (sym i) le in
        elim (Bool-cases (has_seat e)) [
          | inl seat ↦ rw seat (confirm-IsConsistent now user e r items db h held' le' seat)
          | inr full ↦ rw full (
              if_both (λ x. IsConsistent x.1) e.waitlist_enabled
                (join_waitlist before user e r items db) (raised event_full, db)
                (join_waitlist-IsConsistent before user e r items db hb h held' le') h)
        ]

decide-IsConsistent :
    (now : ℕ) (before : Db) (user : User) (event : Event) (r : Registration)
    (items : List CheckItem) (db : Db)
    → IsConsistent before
    → IsConsistent db
    → IsHeld event.id r db
    → IsConsistent (decide now before user event r items db).1
unfolding decide
decide-IsConsistent now before user event r items db hb h held =
    elim (Bool-cases (any_rejected items)) [
      | inl bad ↦
          rw bad (
            save-IsConsistent_idle (rejected_row r) r db h held.stored refl refl (sym held.waiting))
      | inr fine ↦ elim (Bool-cases (any_hard_missing items)) [
        | inl missing ↦
            rw (fine, missing)
              (save-IsConsistent_idle (pending_row r) r db h held.stored refl refl
                (sym held.waiting))
        | inr complete ↦
            rw (fine, complete) (allot-IsConsistent now before user event.id r items db hb h held)
      ]
    ]

admit-IsConsistent :
    (now : ℕ) (bot : Option Bot) (before : Db) (user : User) (event : Event) (r : Registration)
    (db : Db)
    → IsConsistent before
    → IsConsistent db
    → IsHeld event.id r db
    → IsConsistent (admit now bot before user event r db).1
unfolding admit
admit-IsConsistent now bot before user event r db hb h held =
    decide-IsConsistent now before user event r
      (evaluate_requirements now bot db user event (some r)).items db hb h held

pub not_confirmed_of_free :
    (s : RegistrationStatus) → holds_place s ≡ false → is_confirmed s ≡ false
not_confirmed_of_free s h = ground arith

module _ (now : ℕ) (bot : Option Bot) (user : User) (event : Event) (source : Option String)
    (accept : Bool) (fresh : ℕ) (db : Db) (h : IsConsistent db) where
  enrol_known :
      (r : Registration)
      → find (of_pair event.id user.id) db.registrations ≡ some r
      → IsConsistent (enrol now bot user event source accept fresh (some r) db).1
  unfolding enrol
  enrol_known r f =
      let at = find-with_id (of_pair event.id user.id) db.registrations r h.keyed f in
      let mine : of_pair event.id user.id r ≡ true =
        find-holds (of_pair event.id user.id) db.registrations r f in
      elim (Bool-cases (holds_place r.status)) [
        | inl placed ↦ rw placed (
            save-IsConsistent_idle (record r { source = merge_registration_source r.source source })
              r db h at refl refl refl)
        | inr free ↦
            let holder = merged_row now source accept r in
            rw free (
              admit-IsConsistent now bot db user event holder (save holder db) h
                (save-IsConsistent_idle holder r db h at refl refl refl)
                (record {
                  stored = find-put_self (with_id r.id) holder r db.registrations at (ground arith);
                  of_event = ground arith;
                  waiting = not_confirmed_of_free r.status free;
                }))
      ]

  enrol_new :
      find (with_id fresh) db.registrations ≡ none
      → find (of_pair event.id user.id) db.registrations ≡ none
      → IsConsistent (enrol now bot user event source accept fresh none db).1
  unfolding enrol
  enrol_new unused f =
      let holder = new_holder fresh event.id user.id now source accept in
      admit-IsConsistent now bot db user event holder
        (record db { registrations = insert holder db.registrations }) h
        (insert-IsConsistent holder db h unused f refl)
        (record {
          stored = ground (arith, find-insert-none (with_id fresh) holder db.registrations unused);
          of_event = refl;
          waiting = refl;
        })

-- Registering keeps the invariant on every path, the errors included: each event counts exactly
-- its confirmed registrations, no event with a capacity has more confirmed players than that, and
-- ids and (event, player) pairs stay unique. It supposes that the new row's id is not in use.
pub register_user-IsConsistent :
    (s : Settings) (now : ℕ) (bot : Option Bot) (user : User) (event : Event)
    (source : Option String) (accept : Bool) (fresh : ℕ) (db : Db)
    → IsConsistent db
    → find (with_id fresh) db.registrations ≡ none
    → IsConsistent (register_user s now bot user event source accept fresh db).1
unfolding register_user
register_user-IsConsistent s now bot user event source accept fresh db h unused =
    ground (arith, enrolled)
  where
    enrolled :
        IsConsistent
          (enrol now bot user event source accept fresh
            (find (of_pair event.id user.id) db.registrations)
            db).1
    enrolled = elim (Option-cases (find (of_pair event.id user.id) db.registrations)) [
      | inl f ↦ rw f (enrol_new now bot user event source accept fresh db h unused f)
      | inr (r, f) ↦ rw f (enrol_known now bot user event source accept fresh db h r f)
    ]
