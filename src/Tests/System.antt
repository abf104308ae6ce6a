-- ===== src/Tests/System.antt =====
-- A short run of the services: the confirmed player of event 1 leaves, and player 2 moves up.
use free_fire_room.Prelude.{ℕ, ◌≡◌, ◌⊎◌, ◌≤◌, refl, some, count, All}
use free_fire_room.Model.{default_settings, Event, Db}
use free_fire_room.Registration.Seats.{confirmed_for}
use free_fire_room.Waitlist.{mark_ineligible, promote_waitlist}
use free_fire_room.Waitlist.Links.{IsLinked}
use free_fire_room.System.{Step, Reach}
use free_fire_room.System.Soundness.{never_overbooked}
use free_fire_room.Tests.Data.{seated, db}
use free_fire_room.Tests.Seats.{db-IsSound}
use free_fire_room.Tests.Making.{plain_text}

-- the player leaves, then a worker promotes once more
abbrev after : Db
after = (promote_waitlist 501 1 (mark_ineligible 500 "left" seated db)).1

two_calls : Reach default_settings plain_text db after
two_calls =
    Reach.later (Reach.later Reach.start (Step.demotes 500 "left" seated refl))
      (Step.promotes 501 1)

never_overbooked_example :
    ((k : ℕ) (e : Event)
      → after.events k ≡ some e
      → (e.confirmed_count ≡ count (confirmed_for k) after.registrations)
        × ((e.capacity ≡ 0) ⊎ (count (confirmed_for k) after.registrations ≤ e.capacity)))
    × All (IsLinked after.registrations) after.waitlist
never_overbooked_example =
    never_overbooked default_settings plain_text db after db-IsSound two_calls
