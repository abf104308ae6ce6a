-- ===== src/Tests/Gates.antt =====
-- Who may join, and when.
use free_fire_room.Prelude.{◌≡◌, true, none, some, raised}
use free_fire_room.Model.{default_settings}
use free_fire_room.Telegram.{Bot, Answer, ChatMemberStatus}
use free_fire_room.Requirements.{evaluate_requirements}
use free_fire_room.Requirements.Meaning.{is_eligible, evaluate_requirements-is_eligible}
use free_fire_room.Registration.{Error, register_user}
use free_fire_room.Lifecycle.{mark_event_started}
use free_fire_room.Lifecycle.Closing.{started_refuses_registration}
use free_fire_room.Tests.Data.{cup, open_cup, player, seated, db}

abbrev members : Bot
members chat user = Answer.found ChatMemberStatus.member true

evaluate_requirements-is_eligible_example :
    (evaluate_requirements 500 (some members) db (player 1) cup (some seated)).all_ok
    ≡ is_eligible 500 (some members) db (player 1) cup (some seated)
evaluate_requirements-is_eligible_example =
    evaluate_requirements-is_eligible 500 (some members) db (player 1) cup (some seated)

started_refuses_registration_example :
    (x : Error) × (register_user default_settings 600
        (some members)
        (player 4)
        (mark_event_started 500 1 open_cup db).0
        none
        true
        14
        db
      ≡ (raised x, db))
started_refuses_registration_example =
    started_refuses_registration default_settings 500 1 open_cup db 600 (some members) (player 4)
      none true 14 db
