-- ===== src/Telegram.antt =====
-- backend/app/services/telegram_ops.py: how an answer of Telegram is read. The answer itself is a
-- parameter: a bot is a function from a chat and a user to what Telegram says of them.
use free_fire_room.Prelude.{ℕ, Bool, true, false, Option, none, some, String, if◌then◌else◌}

-- aiogram's ChatMemberStatus; `left` stands for every value that the code does not name
pub data ChatMemberStatus : Type 0 where
  creator administrator member restricted left : ChatMemberStatus

-- What `bot.get_chat_member` does: it returns a member, or raises one of aiogram's exceptions.
pub data Answer : Type 0 where
  found : ChatMemberStatus → Bool → Answer
  forbidden : Answer
  transient : Answer
  bad_request : String → Answer
  api_error : Answer
  other_error : Answer

abbrev pub Bot : Type 0
Bot = ℕ → ℕ → Answer

pub data CheckError : Type 0 where
  bot_not_admin check_unavailable : CheckError
  refused : String → CheckError

pub record MembershipResult : Type 0 where
  pub ok : Bool
  pub error : Option CheckError

-- `MEMBER_STATUSES`
abbrev pub is_member_status : ChatMemberStatus → Bool
is_member_status left = false
is_member_status _ = true

-- `MembershipResult.unknown`: the answer is "we could not check", not "not a member".
abbrev pub unknown : MembershipResult → Bool
unknown r = elim r.error [ none ↦ false | some e ↦ elim e [ refused _ ↦ false | _ ↦ true ] ]

abbrev pub is_restricted : ChatMemberStatus → Bool
is_restricted restricted = true
is_restricted _ = false

unfoldable pub get_membership : Answer → MembershipResult
get_membership (found status is_member) =
    if is_restricted status
    then (if is_member
        then record { ok = true; error = none }
        else record { ok = false; error = none })
    else record { ok = is_member_status status; error = none }
get_membership forbidden = record { ok = false; error = some bot_not_admin }
get_membership transient = record { ok = false; error = some check_unavailable }
get_membership (bad_request text) = record { ok = false; error = some (refused text) }
get_membership api_error = record { ok = false; error = some check_unavailable }
get_membership other_error = record { ok = false; error = some check_unavailable }
