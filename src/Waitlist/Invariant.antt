-- ===== src/Waitlist/Invariant.antt =====
-- Promotion and demotion keep the counters true, the capacity, and the waitlist's references.
use free_fire_room.Prelude.{
  ℕ, zero, suc, ◌+◌, ◌≡◌, ◌≤◌, inl, inr, refl, sym, ap, subst, ◌∙◌, true, false, some, String,
  arith, find, count, count_pos_of_find, All-put, All-find, Bool-cases, Option-cases, leb, not,
  ◌&&◌, b2n, find-holds,
}
use free_fire_room.Model.{
  RegistrationStatus, Event, Registration, WaitlistEntry, Db, save_event, is_waitlisted,
  is_confirmed,
}
use free_fire_room.Registration.{with_id, same_place, save, waits_for, unlimited}
use free_fire_room.Registration.Seats.{
  Fits, IsConsistent, save-IsConsistent, save-IsConsistent_idle, save-IsConsistent_orphan,
  confirmed_for,
}
use free_fire_room.Waitlist.{
  first_waiting, save_entry, closed, promoted, promoted_row, fill_seat, promote_to, promote_step,
  promote_loop, promote_waitlist, free_seat, release, leave_waitlist, entry_of, ineligible_row,
  mark_ineligible,
}
use free_fire_room.Waitlist.Queue.{
  put-HasUniquePlaces, first_waiting-waits, first_waiting-stored, find-same_place,
}
use free_fire_room.Waitlist.Loop.{promote_step_rule}
use free_fire_room.Waitlist.Links.{IsLinked, IsQueued, save-IsQueued}

-- both invariants of registrations, events and waitlist
pub record IsSound (db : Db) : Type 0 where
  pub consistent : IsConsistent db
  pub queued : IsQueued db

fill_seat-Fits :
    (e : Event)
    → (not (unlimited e) && leb e.capacity e.confirmed_count) ≡ false
    → Fits (fill_seat e)
unfolding fill_seat
fill_seat-Fits e h = ground arith

fill_seat-id : (e : Event) → (fill_seat e).id ≡ e.id
unfolding fill_seat
fill_seat-id e = refl

seat_taken :
    (e : Event) (s : RegistrationStatus)
    → is_waitlisted s ≡ true
    → (fill_seat e).confirmed_count + b2n (is_confirmed s) ≡ e.confirmed_count + 1
unfolding fill_seat
seat_taken e s h = ground arith

-- an entry is rewritten with its own registration
save_entry-IsSound :
    (w w' : WaitlistEntry) (db : Db)
    → IsSound db
    → find (same_place w.event_id w.user_id) db.waitlist ≡ some w
    → w'.event_id ≡ w.event_id
    → w'.user_id ≡ w.user_id
    → w'.registration_id ≡ w.registration_id
    → IsSound (save_entry w' db)
save_entry-IsSound w w' db h f e u g = record {
  consistent = record {
    keyed = h.consistent.keyed;
    ids = h.consistent.ids;
    counted = h.consistent.counted;
    fits = h.consistent.fits;
  };
  queued = record {
    places = put-HasUniquePlaces w' w db.waitlist (rw (e, u) f) h.queued.places;
    linked =
        All-put (IsLinked db.registrations) (same_place w'.event_id w'.user_id) w' db.waitlist
          (let (r, f', h') =
              All-find (IsLinked db.registrations) (same_place w.event_id w.user_id) db.waitlist w
                h.queued.linked f in
            (r, rw g f', h' ∙ sym e))
          h.queued.linked;
  };
}

-- a row that is found by a reference is found by its own id
at_own_id :
    (id : ℕ) (r : Registration) (db : Db)
    → find (with_id id) db.registrations ≡ some r
    → find (with_id r.id) db.registrations ≡ some r
at_own_id id r db f =
    let i : id ≡ r.id = ground (arith, find-holds (with_id id) db.registrations r f) in
    subst (λ j. find (with_id j) db.registrations ≡ some r) i f

-- the registration that an active entry names belongs to the entry's event
of_event :
    (k : ℕ) (w : WaitlistEntry) (r : Registration) (db : Db)
    → IsSound db
    → first_waiting k db.waitlist ≡ some w
    → find (with_id w.registration_id) db.registrations ≡ some r
    → r.event_id ≡ k
of_event k w r db h fw f =
    let stored = first_waiting-stored k db.waitlist w h.queued.places fw in
    let (x, g, e) =
      All-find (IsLinked db.registrations) (same_place w.event_id w.user_id) db.waitlist w
        h.queued.linked stored in
    let same : r ≡ x = ground arith in
    ap (λ (y : Registration). y.event_id) same
    ∙ e
    ∙ ground (arith, first_waiting-waits k db.waitlist w fw)

promote_to-IsSound :
    (now k : ℕ) (e : Event) (w : WaitlistEntry) (r : Registration) (db : Db)
    → IsSound db
    → db.events k ≡ some e
    → (not (unlimited e) && leb e.capacity e.confirmed_count) ≡ false
    → first_waiting k db.waitlist ≡ some w
    → find (with_id w.registration_id) db.registrations ≡ some r
    → is_waitlisted r.status ≡ true
    → IsSound (promote_to now e w r db).1
unfolding promote_to
promote_to-IsSound now k e w r db h le room fw f wl =
    let row = promoted_row now r in
    let at = at_own_id w.registration_id r db f in
    let here = of_event k w r db h fw f in
    let seated : IsSound (save_event (fill_seat e) (save row db)) = record {
      consistent =
          save-IsConsistent row r e (fill_seat e) db h.consistent at refl refl
            (subst (λ j. db.events j ≡ some e) (sym here) le) (fill_seat-id e)
            (seat_taken e r.status wl) (fill_seat-Fits e room);
      queued = record {
        places = h.queued.places;
        linked = save-IsQueued row r db.registrations db.waitlist at refl h.queued.linked;
      };
    } in
    save_entry-IsSound w (promoted now w) (save_event (fill_seat e) (save row db)) seated
      (first_waiting-stored k db.waitlist w h.queued.places fw) refl refl refl

promote_loop-IsSound :
    (fuel now k : ℕ) (db : Db) → IsSound db → IsSound (promote_loop fuel now k db).1
unfolding promote_loop promote_step
promote_loop-IsSound zero now k db h = h
promote_loop-IsSound (suc fuel) now k db h =
    promote_step_rule (λ x. IsSound x.1) (promote_loop fuel now k) now k db h
      (λ w fw. promote_loop-IsSound fuel now k (save_entry (closed w) db) (
        save_entry-IsSound w (closed w) db h
          (first_waiting-stored k db.waitlist w h.queued.places fw) refl refl refl))
      (λ e w r le room fw f wl. promote_to-IsSound now k e w r db h le room fw f wl)

-- Promoting from the waitlist keeps every counter equal to the number of confirmed registrations,
-- no capacity is passed, and the waitlist still names stored registrations of its own events.
pub promote_waitlist-IsSound :
    (now k : ℕ) (db : Db) → IsSound db → IsSound (promote_waitlist now k db).1
unfolding promote_waitlist
promote_waitlist-IsSound now k db h =
    promote_loop-IsSound (suc (count (waits_for k) db.waitlist)) now k db h

free_seat-Fits : (e : Event) → Fits e → Fits (free_seat e)
unfolding free_seat
free_seat-Fits e h = ground arith

free_seat-id : (e : Event) → (free_seat e).id ≡ e.id
unfolding free_seat
free_seat-id e = ground arith

seat_freed :
    (e : Event) → 1 ≤ e.confirmed_count → (free_seat e).confirmed_count + 1 ≡ e.confirmed_count
unfolding free_seat
seat_freed e h = ground arith

release-IsSound :
    (reason : String) (r : Registration) (db : Db)
    → IsSound db
    → find (with_id r.id) db.registrations ≡ some r
    → is_confirmed r.status ≡ true
    → IsSound (release reason r db)
unfolding release
release-IsSound reason r db h at c = elim (Option-cases (db.events r.event_id)) [
  | inl gone ↦ rw gone (record {
    consistent =
        save-IsConsistent_orphan (ineligible_row reason r) r db h.consistent at refl refl gone;
    queued = links;
  })
  | inr (e, le) ↦
      let counted : 1 ≤ e.confirmed_count = rw (h.consistent.counted r.event_id e le) (
        count_pos_of_find (confirmed_for r.event_id) (with_id r.id) db.registrations r at
          (ground arith)) in
      rw le (record {
        consistent =
            save-IsConsistent (ineligible_row reason r) r e (free_seat e) db h.consistent at refl
              refl le (free_seat-id e) (rw c (omega (arith, seat_freed e counted)))
              (free_seat-Fits e (h.consistent.fits r.event_id e le));
        queued = record { places = links.places; linked = links.linked };
      })
]
  where
    links : IsQueued (save (ineligible_row reason r) db)
    links = record {
      places = h.queued.places;
      linked =
          save-IsQueued (ineligible_row reason r) r db.registrations db.waitlist at refl
            h.queued.linked;
    }

-- a registration that is neither confirmed nor becomes so
save-IsSound_idle :
    (r old : Registration) (db : Db)
    → IsSound db
    → find (with_id r.id) db.registrations ≡ some old
    → r.event_id ≡ old.event_id
    → r.user_id ≡ old.user_id
    → is_confirmed r.status ≡ is_confirmed old.status
    → IsSound (save r db)
save-IsSound_idle r old db h at re ru c = record {
  consistent = save-IsConsistent_idle r old db h.consistent at re ru c;
  queued = record {
    places = h.queued.places;
    linked = save-IsQueued r old db.registrations db.waitlist at re h.queued.linked;
  };
}

leave_waitlist-IsSound :
    (reason : String) (r : Registration) (db : Db)
    → IsSound db
    → find (with_id r.id) db.registrations ≡ some r
    → is_waitlisted r.status ≡ true
    → IsSound (leave_waitlist reason r db)
unfolding leave_waitlist
leave_waitlist-IsSound reason r db h at c =
    let idle : is_confirmed RegistrationStatus.ineligible ≡ is_confirmed r.status = ground arith in
    elim (Option-cases (find (entry_of r.id) db.waitlist)) [
      | inl alone ↦ rw alone (save-IsSound_idle (ineligible_row reason r) r db h at refl refl idle)
      | inr (w, fw) ↦ rw fw (
          save-IsSound_idle (ineligible_row reason r) r (save_entry (closed w) db)
            (save_entry-IsSound w (closed w) db h
              (find-same_place (entry_of r.id) db.waitlist w h.queued.places fw) refl refl refl)
            at refl refl idle)
    ]

-- Demoting a stored registration keeps every counter equal to the number of confirmed
-- registrations and the waitlist's references whole, whatever its status was, and no capacity is
-- passed when the seat goes to the head of the waitlist.
pub mark_ineligible-IsSound :
    (now : ℕ) (reason : String) (r : Registration) (db : Db)
    → IsSound db
    → find (with_id r.id) db.registrations ≡ some r
    → IsSound (mark_ineligible now reason r db)
unfolding mark_ineligible
mark_ineligible-IsSound now reason r db h at = elim (Bool-cases (is_confirmed r.status)) [
  | inl c ↦ rw c (
      promote_waitlist-IsSound now r.event_id (release reason r db)
        (release-IsSound reason r db h at c))
  | inr n ↦ elim (Bool-cases (is_waitlisted r.status)) [
    | inl w ↦ rw (n, w) (leave_waitlist-IsSound reason r db h at w)
    | inr o ↦ rw (n, o) h
  ]
]
