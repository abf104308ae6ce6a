-- ===== src/Waitlist/Neutral.antt =====
-- What leaves the seats and the waitlist alone keeps both invariants.
use free_fire_room.Prelude.{◌≡◌, sym, subst, some, All, arith}
use free_fire_room.Model.{Event, Db, save_event}
use free_fire_room.Registration.Seats.{IsConsistent-same}
use free_fire_room.Waitlist.Queue.{HasUniquePlaces}
use free_fire_room.Waitlist.Links.{IsLinked, IsQueued}
use free_fire_room.Waitlist.Invariant.{IsSound}

pub IsQueued-same :
    (db db' : Db)
    → db'.registrations ≡ db.registrations
    → db'.waitlist ≡ db.waitlist
    → IsQueued db
    → IsQueued db'
IsQueued-same db db' r w h = record {
  places = subst HasUniquePlaces (sym w) h.places;
  linked =
      subst (λ rs. All (IsLinked rs) db'.waitlist) (sym r)
        (subst (All (IsLinked db.registrations)) (sym w) h.linked);
}

-- tables other than these three do not matter
pub IsSound-same :
    (db db' : Db)
    → db'.events ≡ db.events
    → db'.registrations ≡ db.registrations
    → db'.waitlist ≡ db.waitlist
    → IsSound db
    → IsSound db'
IsSound-same db db' e r w h = record {
  consistent = IsConsistent-same db db' e r h.consistent;
  queued = IsQueued-same db db' r w h.queued;
}

-- the same event as far as seats are concerned
abbrev pub HasSameSeats : Event → Event → Type 0
HasSameSeats e e' =
    (e'.id ≡ e.id) × (e'.capacity ≡ e.capacity) × (e'.confirmed_count ≡ e.confirmed_count)

-- a stored event is rewritten, but for its seats
pub save_event-IsSound :
    (e e' : Event) (db : Db)
    → db.events e.id ≡ some e
    → HasSameSeats e e'
    → IsSound db
    → IsSound (save_event e' db)
save_event-IsSound e e' db f (i, c, n) h = record {
  consistent = record {
    keyed = h.consistent.keyed;
    ids = λ k x g. ground (arith, h.consistent.ids k x);
    counted = λ k x g. ground (arith, h.consistent.counted k x, h.consistent.counted e.id e f);
    fits = λ k x g. ground (arith, h.consistent.fits k x, h.consistent.fits e.id e f);
  };
  queued = record { places = h.queued.places; linked = h.queued.linked };
}
