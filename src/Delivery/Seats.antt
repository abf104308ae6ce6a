-- ===== src/Delivery/Seats.antt =====
-- A delivery that takes a seat away takes it off the counter too.
use free_fire_room.Prelude.{
  ℕ, ◌-◌, ◌≤◌, ◌≡◌, refl, sym, subst, inl, inr, true, Option, none, some, String, find, count,
  find-holds, count_pos_of_find, Option-cases, Bool-cases, if_both, if_cases, arith,
}
use free_fire_room.Model.{
  RegistrationStatus, is_confirmed, Event, User, Registration, RoomCredential, Db, DeliveryStatus,
  save_event,
}
use free_fire_room.Telegram.{Bot}
use free_fire_room.Registration.{of_pair, save}
use free_fire_room.Registration.Keys.{find-with_id}
use free_fire_room.Registration.Seats.{Fits, save-IsConsistent, confirmed_for}
use free_fire_room.Waitlist.Links.{save-IsQueued}
use free_fire_room.Waitlist.Invariant.{IsSound}
use free_fire_room.Waitlist.Neutral.{IsSound-same}
use free_fire_room.Delivery.{
  Reason, Outcome, Sending, already, check_failed, check_unavailable, is_bot_not_admin,
  upsert_delivery, with_idem, was_sent, demote, refuse, record_sending, serve, verdict, deliver_one,
}

-- a delivery record is no seat
upsert_delivery-keeps :
    (now event_id user_id version : ℕ) (status : DeliveryStatus) (error : Option String)
    (message : Option ℕ) (db : Db)
    → let db' = upsert_delivery now event_id user_id version status error message db in
      (db'.events ≡ db.events)
      × (db'.registrations ≡ db.registrations)
      × (db'.waitlist ≡ db.waitlist)
unfolding upsert_delivery
upsert_delivery-keeps now event_id user_id version status error message db =
    elim (Option-cases (find (with_idem event_id user_id version) db.deliveries)) [
      | inl first ↦ rw (upsert_delivery, first) (refl, refl, refl)
      | inr (d, found) ↦ elim (Bool-cases (was_sent (some d))) [
        | inl s ↦ rw (upsert_delivery, found, s) (refl, refl, refl)
        | inr s ↦ rw (upsert_delivery, found, s) (refl, refl, refl)
      ]
    ]

upsert_delivery-IsSound :
    (now event_id user_id version : ℕ) (status : DeliveryStatus) (error : Option String)
    (message : Option ℕ) (db : Db)
    → IsSound db
    → IsSound (upsert_delivery now event_id user_id version status error message db)
upsert_delivery-IsSound now event_id user_id version status error message db h =
    let (e, r, w) = upsert_delivery-keeps now event_id user_id version status error message db in
    IsSound-same db (upsert_delivery now event_id user_id version status error message db) e r w h

demote-IsSound :
    (e : Event) (user_id : ℕ) (reason : String) (db : Db)
    → IsSound db
    → db.events e.id ≡ some e
    → IsSound (demote e user_id reason db)
unfolding demote
demote-IsSound e user_id reason db h le =
    elim (Option-cases (find (of_pair e.id user_id) db.registrations)) [
      | inl gone ↦ rw (demote, gone) h
      | inr (r, f) ↦
          rw (demote, f) (if_cases IsSound (is_confirmed r.status) _ db (λ c. taken r f c) (λ _. h))
    ]
  where
    taken :
        (r : Registration)
        → find (of_pair e.id user_id) db.registrations ≡ some r
        → is_confirmed r.status ≡ true
        → IsSound (
            save_event
              (record e { confirmed_count = e.confirmed_count - 1 })
              (save
                (record r {
                  status = RegistrationStatus.ineligible;
                  ineligible_reason = some reason;
                })
                db))
    taken r f c =
        let row = record r {
          status = RegistrationStatus.ineligible;
          ineligible_reason = some reason;
        } in
        let mine : of_pair e.id user_id r ≡ true =
          find-holds (of_pair e.id user_id) db.registrations r f in
        let here : r.event_id ≡ e.id = ground arith in
        let at = find-with_id (of_pair e.id user_id) db.registrations r h.consistent.keyed f in
        let n = h.consistent.counted e.id e le in
        let some_one : 1 ≤ count (confirmed_for e.id) db.registrations =
          count_pos_of_find (confirmed_for e.id) (of_pair e.id user_id) db.registrations r f
            (ground arith) in
        record {
          consistent =
              save-IsConsistent row r e (record e { confirmed_count = e.confirmed_count - 1 }) db
                h.consistent at refl refl (rw here le) refl (rw c (omega arith))
                (let fits : Fits e = h.consistent.fits e.id e le in ground arith);
          queued = record {
            places = h.queued.places;
            linked = save-IsQueued row r db.registrations db.waitlist at refl h.queued.linked;
          };
        }

skipped-IsSound :
    (now : ℕ) (e : Event) (user : User) (version : ℕ) (reason : String) (db : Db)
    → IsSound db
    → db.events e.id ≡ some e
    → IsSound (
        demote e user.id reason
          (upsert_delivery now e.id user.id version DeliveryStatus.skipped (some reason) none db))
skipped-IsSound now e user version reason db h le =
    let noted =
      upsert_delivery now e.id user.id version DeliveryStatus.skipped (some reason) none db in
    let keeps =
      upsert_delivery-keeps now e.id user.id version DeliveryStatus.skipped (some reason) none db in
    demote-IsSound e user.id reason noted
      (upsert_delivery-IsSound now e.id user.id version DeliveryStatus.skipped (some reason) none db
        h)
      (subst (λ f. f e.id ≡ some e) (sym keeps.0) le)

serve-IsSound :
    (now : ℕ) (telegram : Sending) (e : Event) (user : User) (version : ℕ) (reason : Option Reason)
    (db : Db)
    → IsSound db
    → db.events e.id ≡ some e
    → IsSound (serve now telegram e user version reason db).1
unfolding serve refuse record_sending
serve-IsSound now (Sending.delivered message) e user version none db h le =
    upsert_delivery-IsSound now e.id user.id version DeliveryStatus.sent none (some message) db h
serve-IsSound now (Sending.forbidden error) e user version none db h le =
    upsert_delivery-IsSound now e.id user.id version DeliveryStatus.permanent_fail (some error) none
      db h
serve-IsSound now (Sending.broken error) e user version none db h le =
    upsert_delivery-IsSound now e.id user.id version DeliveryStatus.failed (some error) none db h
serve-IsSound now telegram e user version (some (Reason.unchecked error)) db h le =
    if_both (λ (x : Outcome × Db). IsSound x.1) (is_bot_not_admin error) (check_failed, db)
      (check_unavailable, db) h h
serve-IsSound now telegram e user version (some Reason.social_missing) db h le = h
serve-IsSound now telegram e user version (some (Reason.left_channel chat)) db h le =
    skipped-IsSound now e user version "left_channel" db h le
serve-IsSound now telegram e user version (some Reason.banned) db h le =
    skipped-IsSound now e user version "banned" db h le

-- Delivering the room to a player of a stored event keeps both invariants: where the player loses
-- the seat, the event counts one player fewer.
pub deliver_one-IsSound :
    (now : ℕ) (bot : Bot) (telegram : Sending) (e : Event) (user : User) (creds : RoomCredential)
    (db : Db)
    → IsSound db
    → db.events e.id ≡ some e
    → IsSound (deliver_one now bot telegram e user creds db).1
unfolding deliver_one
deliver_one-IsSound now bot telegram e user creds db h le =
    if_both (λ (x : Outcome × Db). IsSound x.1)
      (was_sent (find (with_idem e.id user.id creds.version) db.deliveries)) (already, db) _ h
      (serve-IsSound now telegram e user creds.version (verdict now bot db e user) db h le)
