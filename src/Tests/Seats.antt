-- ===== src/Tests/Seats.antt =====
-- Seats and the waitlist of one event.
use free_fire_room.Prelude.{
  is_some, ◌≡◌, refl, subst, true, none, some, inr, has_text, is_blank, arith,
}
use free_fire_room.Model.{default_settings, Event, BanScope, is_open}
use free_fire_room.Bans.{is_banned, active_bans, ban_active_clause}
use free_fire_room.Registration.{
  register_user, enrol, admit, decide, allot, confirm, take_seat, any_rejected, any_hard_missing,
}
use free_fire_room.Registration.Seats.{IsConsistent, Fits}
use free_fire_room.Registration.Invariant.{register_user-IsConsistent}
use free_fire_room.Registration.Outcome.{register_user-confirmed, HasSeat, IsClear}
use free_fire_room.Windows.{join_window_open, is_archived, auto_archive_deadline}
use free_fire_room.Requirements.{
  evaluate_requirements, own_items, ban_item, capacity_item, add, add_if, add_option, add_channel,
  add_global_channels, add_event_channels, channel_item, membership_item, social_item,
}
use free_fire_room.Telegram.{Bot, Answer, ChatMemberStatus, get_membership}
use free_fire_room.Social.{social_required}
use free_fire_room.Waitlist.{promote_waitlist, mark_ineligible}
use free_fire_room.Waitlist.Promotion.{promote_waitlist-is_some}
use free_fire_room.Waitlist.Loop.{Run, promote_waitlist-Run}
use free_fire_room.Waitlist.Invariant.{IsSound, promote_waitlist-IsSound, mark_ineligible-IsSound}
use free_fire_room.Tests.Data.{cup, open_cup, player, seated, waiting, gone, place, db, db_of}

abbrev pub members : Bot
members chat user = Answer.found ChatMemberStatus.member true

-- the event with a second seat
abbrev pub wide_cup : Event
wide_cup = record open_cup { capacity = 2 }

pub db_of-IsConsistent :
    (e : Event) → e.id ≡ 1 → e.confirmed_count ≡ 1 → Fits e → IsConsistent (db_of e)
db_of-IsConsistent e i c f = record {
  keyed = (refl, refl, (refl, refl, (refl, refl, tt)));
  ids = λ k e' h. ground arith;
  counted = λ k e' h. ground arith;
  fits = λ k e' h. let s : e ≡ e' = ground arith in subst Fits s f;
}

pub db-IsSound : IsSound db
db-IsSound = record {
  consistent = db_of-IsConsistent cup refl refl (inr (omega arith));
  queued = record {
    places = (refl, (refl, tt));
    linked = ((waiting, refl, refl), ((gone, refl, refl), tt));
  };
}

register_user-IsConsistent_example :
    IsConsistent
      (register_user default_settings 500
        (some members)
        (player 4)
        wide_cup
        none
        true
        14
        (db_of wide_cup)).1
register_user-IsConsistent_example =
    register_user-IsConsistent default_settings 500 (some members) (player 4) wide_cup none true 14
      (db_of wide_cup) (db_of-IsConsistent wide_cup refl refl (inr (omega arith))) refl

promote_waitlist-IsSound_example : IsSound (promote_waitlist 500 1 db).1
promote_waitlist-IsSound_example = promote_waitlist-IsSound 500 1 db db-IsSound

mark_ineligible-IsSound_example : IsSound (mark_ineligible 500 "left" seated db)
mark_ineligible-IsSound_example = mark_ineligible-IsSound 500 "left" seated db db-IsSound refl

promote_waitlist-Run_example : Run 500 1 db (promote_waitlist 500 1 db)
promote_waitlist-Run_example = promote_waitlist-Run 500 1 db (refl, (refl, tt))

-- a second seat is made while player 2 waits
promote_waitlist-is_some_example : is_some (promote_waitlist 500 1 (db_of wide_cup)).0 ≡ true
promote_waitlist-is_some_example =
    promote_waitlist-is_some 500 1 wide_cup (place 2 12 true) (db_of wide_cup) (refl, (refl, tt))
      refl refl (record { stored = refl; active = refl; waits = refl })

-- a newcomer with the conditions fulfilled takes the second seat
register_user-confirmed_example :
    (is_banned 500 (db_of wide_cup) (player 4) BanScope.participate ≡ none)
    × (is_open wide_cup.status ≡ true)
    × (join_window_open default_settings wide_cup 500 ≡ true)
    × HasSeat ((db_of wide_cup).events 1)
    × IsClear
        (register_user default_settings 500
          (some members)
          (player 4)
          wide_cup
          none
          true
          14
          (db_of wide_cup)).0
unfolding register_user is_banned active_bans ban_active_clause join_window_open is_archived
    auto_archive_deadline enrol admit decide allot confirm take_seat any_rejected any_hard_missing
    evaluate_requirements own_items ban_item capacity_item add add_if add_option add_channel
    add_global_channels add_event_channels channel_item membership_item social_item get_membership
    social_required has_text is_blank
register_user-confirmed_example =
    register_user-confirmed default_settings 500 (some members) (player 4) wide_cup none true 14
      (db_of wide_cup) refl
