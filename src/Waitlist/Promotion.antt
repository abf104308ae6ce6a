-- ===== src/Waitlist/Promotion.antt =====
-- A seat that is free goes to somebody, as long as somebody waits for it.
use free_fire_room.Prelude.{
  ℕ, zero, suc, ◌<◌, ◌≡◌, refl, sym, ◌∙◌, subst, inl, inr, true, false, not, ◌&&◌, some, List, leb,
  is_some, find, count, find-put_ne, count_pos_of_find, Option-cases, Bool-cases, arith,
}
use free_fire_room.Model.{is_waitlisted, Event, WaitlistEntry, Db}
use free_fire_room.Registration.{waits_for, same_place, with_id, unlimited}
use free_fire_room.Waitlist.{
  first_waiting, save_entry, closed, still_waiting, promote_to, promote_step, promote_loop,
  promote_waitlist,
}
use free_fire_room.Waitlist.Queue.{HasUniquePlaces, first_waiting-none, first_waiting-stored}
use free_fire_room.Waitlist.Loop.{count-closed, closed-HasUniquePlaces}

-- an entry of the event whose player still waits
pub record IsWaiting (k : ℕ) (w : WaitlistEntry) (db : Db) : Type 0 where
  pub stored : find (same_place w.event_id w.user_id) db.waitlist ≡ some w
  pub active : waits_for k w ≡ true
  pub waits : still_waiting (find (with_id w.registration_id) db.registrations) ≡ true

-- one key, one row
same_row :
    (w b : WaitlistEntry) (ws : List WaitlistEntry)
    → find (same_place w.event_id w.user_id) ws ≡ some w
    → find (same_place b.event_id b.user_id) ws ≡ some b
    → same_place w.event_id w.user_id b ≡ true
    → w ≡ b
same_row w b ws fw fb h =
    let p : b.event_id ≡ w.event_id = ground arith in
    let q : b.user_id ≡ w.user_id = ground arith in
    let moved = subst (λ n. find (same_place n b.user_id) ws ≡ some b) p fb in
    let found = subst (λ n. find (same_place w.event_id n) ws ≡ some b) q moved in
    let both : some w ≡ some b = sym fw ∙ found in ground arith

-- closing an entry of a player who does not wait leaves the one who does
IsWaiting-closed :
    (k : ℕ) (w b : WaitlistEntry) (db : Db)
    → HasUniquePlaces db.waitlist
    → IsWaiting k w db
    → first_waiting k db.waitlist ≡ some b
    → still_waiting (find (with_id b.registration_id) db.registrations) ≡ false
    → IsWaiting k w (save_entry (closed b) db)
IsWaiting-closed k w b db u h f n =
    let fb = first_waiting-stored k db.waitlist b u f in
    let other : same_place w.event_id w.user_id b ≡ false =
      elim (Bool-cases (same_place w.event_id w.user_id b)) [
        | inr e ↦ e
        | inl e ↦
            let same = same_row w b db.waitlist h.stored fb e in
            let clash =
              subst (λ x. still_waiting (find (with_id x.registration_id) db.registrations) ≡ true)
                same h.waits in
            absurd (ground arith)
      ] in
    record {
      stored =
          find-put_ne (same_place w.event_id w.user_id) (same_place b.event_id b.user_id) (closed b)
            b db.waitlist fb other other
          ∙ h.stored;
      active = h.active;
      waits = h.waits;
    }

loop_promotes :
    (n now k : ℕ) (e : Event) (w : WaitlistEntry) (db : Db)
    → count (waits_for k) db.waitlist < n
    → HasUniquePlaces db.waitlist
    → db.events k ≡ some e
    → (not (unlimited e) && leb e.capacity e.confirmed_count) ≡ false
    → IsWaiting k w db
    → is_some (promote_loop n now k db).0 ≡ true
unfolding promote_loop promote_step promote_to
loop_promotes zero now k e w db lt u f seat h = absurd (omega arith)
loop_promotes (suc n) now k e w db lt u f seat h =
    elim (Option-cases (first_waiting k db.waitlist)) [
      | inl nobody ↦
          let some_entry =
            count_pos_of_find (waits_for k) (same_place w.event_id w.user_id) db.waitlist w h.stored
              h.active in
          let no_entry = first_waiting-none k db.waitlist nobody in absurd (omega arith)
      | inr (b, head) ↦
          let again =
            λ (x : still_waiting (find (with_id b.registration_id) db.registrations) ≡ false).
              loop_promotes n now k e w (save_entry (closed b) db)
                (omega (arith, count-closed k db b u head)) (closed-HasUniquePlaces k db b u head) f
                seat (IsWaiting-closed k w b db u h head x) in
          elim (Option-cases (find (with_id b.registration_id) db.registrations)) [
            | inl gone ↦ rw (promote_loop, promote_step, f, seat, head, gone) (again (rw gone refl))
            | inr (r, found) ↦ elim (Bool-cases (is_waitlisted r.status)) [
              | inl waits ↦ rw (promote_loop, promote_step, f, seat, head, found, waits) refl
              | inr left ↦
                  rw (promote_loop, promote_step, f, seat, head, found, left)
                    (again (rw (found, left) refl))
            ]
          ]
    ]

-- If an event has a free seat and one of its active waitlist entries belongs to a registration that
-- still waits, then promoting returns a registration, however many entries of players who wait no
-- longer stand before it. It supposes that no player stands twice in one event's waitlist.
pub promote_waitlist-is_some :
    (now k : ℕ) (e : Event) (w : WaitlistEntry) (db : Db)
    → HasUniquePlaces db.waitlist
    → db.events k ≡ some e
    → (not (unlimited e) && leb e.capacity e.confirmed_count) ≡ false
    → IsWaiting k w db
    → is_some (promote_waitlist now k db).0 ≡ true
unfolding promote_waitlist
promote_waitlist-is_some now k e w db u f seat h =
    loop_promotes (suc (count (waits_for k) db.waitlist)) now k e w db (omega arith) u f seat h
