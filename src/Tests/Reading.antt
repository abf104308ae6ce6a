-- ===== src/Tests/Reading.antt =====
-- A clock time in Persian digits, and the queue of event 1.
use free_fire_room.Prelude.{
  ℕ, ◌+◌, ◌-◌, ◌<◌, ◌≡◌, refl, ◌&&◌, Option, none, some, leb, if◌then◌else◌, arith,
}
use free_fire_room.Clock.{parse_clock, clock_text}
use free_fire_room.Clock.Reading.{parse_clock-clock_text}
use free_fire_room.Waitlist.{promote_waitlist}
use free_fire_room.Waitlist.Fifo.{queue}
use free_fire_room.Waitlist.Refinement.{serve, has_waiter, can_promote, promote_waitlist-serve}
use free_fire_room.Tests.Data.{db_of}
use free_fire_room.Tests.Seats.{wide_cup}
use free_fire_room.Model.{Db}
use mathlib.Core.Option
use free_fire_room.Prelude.{◌==◌, ◌&&◌, none}

-- the ASCII digits alone
abbrev ascii_digit : ℕ → Option ℕ
ascii_digit c = if leb 48 c && leb c 57 then some (c - 48) else none

ascii_digit-plus : (d : ℕ) → d < 10 → ascii_digit (48 + d) ≡ some d
ascii_digit-plus d h = ground arith

parse_clock-clock_text_example : parse_clock ascii_digit (clock_text 21 5) ≡ some (21, 5)
parse_clock-clock_text_example =
    parse_clock-clock_text ascii_digit 21 5 ascii_digit-plus (omega arith) (omega arith)

abbrev wide_db : Db
wide_db = db_of wide_cup

-- a second seat is made while player 2 waits, and player 3's entry is closed
promote_waitlist-serve_example :
    let x = promote_waitlist 500 1 wide_db in
    (Option.map (λ r. r.id) x.0 ≡ (
      if can_promote 1 wide_db
      then Option.map
          (λ w. w.registration_id)
          (serve (has_waiter wide_db) (queue 1 wide_db.waitlist)).0
      else none))
    × (queue 1 x.1.waitlist ≡ (
        if 1 == 1 && can_promote 1 wide_db
        then (serve (has_waiter wide_db) (queue 1 wide_db.waitlist)).1
        else queue 1 wide_db.waitlist))
promote_waitlist-serve_example = promote_waitlist-serve 500 1 1 wide_db (refl, (refl, tt))
