-- ===== src/Registration/Seats.antt =====
-- The invariant that ties the events' counters to the registrations: every event counts its
-- confirmed players, and none has more than its capacity.
use free_fire_room.Prelude.{
  ℕ, ◌+◌, ◌≤◌, ◌≡◌, sym, ap, ◌∙◌, subst, ◌⊎◌, Bool, false, ◌&&◌, none, some, arith, ◌==◌, b2n, find,
  count, insert, count-put, count-insert,
}
use free_fire_room.Model.{is_confirmed, Event, Registration, Db, save_event}
use free_fire_room.Registration.{of_pair, with_id, save}
use free_fire_room.Registration.Keys.{IsKeyed, put-IsKeyed, insert-IsKeyed}

abbrev pub confirmed_for : ℕ → Registration → Bool
confirmed_for k r = r.event_id == k && is_confirmed r.status

-- the players that an event counts do not pass its capacity; 0 is no limit
abbrev pub Fits : Event → Type 0
Fits e = (e.capacity ≡ 0) ⊎ (e.confirmed_count ≤ e.capacity)

pub record IsConsistent (db : Db) : Type 0 where
  pub keyed : IsKeyed db.registrations
  pub ids : (k : ℕ) (e : Event) → db.events k ≡ some e → e.id ≡ k
  pub counted :
      (k : ℕ) (e : Event)
      → db.events k ≡ some e
      → e.confirmed_count ≡ count (confirmed_for k) db.registrations
  pub fits : (k : ℕ) (e : Event) → db.events k ≡ some e → Fits e

-- what a rewritten registration does to the number of confirmed ones of an event
count-save :
    (k : ℕ) (r old : Registration) (db : Db)
    → find (with_id r.id) db.registrations ≡ some old
    → r.event_id ≡ old.event_id
    → count (confirmed_for k) (save r db).registrations
        + b2n (r.event_id == k && is_confirmed old.status)
      ≡ count (confirmed_for k) db.registrations + b2n (r.event_id == k && is_confirmed r.status)
count-save k r old db f e =
    ground (arith, count-put (confirmed_for k) (with_id r.id) r old db.registrations f)

-- A registration changes and its event's counter follows.
pub save-IsConsistent :
    (r old : Registration) (e e' : Event) (db : Db)
    → IsConsistent db
    → find (with_id r.id) db.registrations ≡ some old
    → r.event_id ≡ old.event_id
    → r.user_id ≡ old.user_id
    → db.events r.event_id ≡ some e
    → e'.id ≡ e.id
    → e'.confirmed_count + b2n (is_confirmed old.status)
      ≡ e.confirmed_count + b2n (is_confirmed r.status)
    → Fits e'
    → IsConsistent (save_event e' (save r db))
save-IsConsistent r old e e' db h f re ru le ie ce fe = record {
  keyed = put-IsKeyed r old db.registrations f re ru h.keyed;
  ids = λ k x p. ground (arith, h.ids k x);
  counted = λ k x p. ground (
    arith,
    h.counted k x,
    h.counted r.event_id e le,
    h.ids r.event_id e le,
    count-save k r old db f re,
  );
  fits = λ k x p. ground (arith, h.fits k x);
}

-- A registration changes that is not confirmed, before or after.
pub save-IsConsistent_idle :
    (r old : Registration) (db : Db)
    → IsConsistent db
    → find (with_id r.id) db.registrations ≡ some old
    → r.event_id ≡ old.event_id
    → r.user_id ≡ old.user_id
    → is_confirmed r.status ≡ is_confirmed old.status
    → IsConsistent (save r db)
save-IsConsistent_idle r old db h f re ru c = record {
  keyed = put-IsKeyed r old db.registrations f re ru h.keyed;
  ids = h.ids;
  counted = λ k x p. ground (arith, h.counted k x, count-save k r old db f re);
  fits = h.fits;
}

-- A new registration that is not confirmed.
pub insert-IsConsistent :
    (r : Registration) (db : Db)
    → IsConsistent db
    → find (with_id r.id) db.registrations ≡ none
    → find (of_pair r.event_id r.user_id) db.registrations ≡ none
    → is_confirmed r.status ≡ false
    → IsConsistent (record db { registrations = insert r db.registrations })
insert-IsConsistent r db h f p c = record {
  keyed = insert-IsKeyed r db.registrations f p h.keyed;
  ids = h.ids;
  counted =
      λ k x q. ground (arith, h.counted k x q, count-insert (confirmed_for k) r db.registrations);
  fits = h.fits;
}

-- A registration of no stored event changes.
pub save-IsConsistent_orphan :
    (r old : Registration) (db : Db)
    → IsConsistent db
    → find (with_id r.id) db.registrations ≡ some old
    → r.event_id ≡ old.event_id
    → r.user_id ≡ old.user_id
    → db.events r.event_id ≡ none
    → IsConsistent (save r db)
save-IsConsistent_orphan r old db h f re ru gone = record {
  keyed = put-IsKeyed r old db.registrations f re ru h.keyed;
  ids = h.ids;
  counted = λ k x p. ground (arith, h.counted k x, count-save k r old db f re);
  fits = h.fits;
}

-- the invariant of the seats reads the events and the registrations only
pub IsConsistent-same :
    (db db' : Db)
    → db'.events ≡ db.events
    → db'.registrations ≡ db.registrations
    → IsConsistent db
    → IsConsistent db'
IsConsistent-same db db' p r c = record {
  keyed = subst IsKeyed (sym r) c.keyed;
  ids = λ k e h. c.ids k e (ap (λ f. f k) (sym p) ∙ h);
  counted = λ k e h.
      subst (λ rs. e.confirmed_count ≡ count (confirmed_for k) rs) (sym r)
        (c.counted k e (ap (λ f. f k) (sym p) ∙ h));
  fits = λ k e h. c.fits k e (ap (λ f. f k) (sym p) ∙ h);
}
