-- ===== src/Moderation.antt =====
-- Banning: the handlers of backend/app/bot/handlers/admin.py and the routes of
-- backend/app/api/v1/routers.py that ban a user or lift the bans. The reason of a ban is only shown
-- and left out, and so are the messages to the user. An operation returns the user's row with the
-- database.
pub mod Bans
use free_fire_room.Prelude.{
  ℕ, Bool, true, false, ◌&&◌, Option, none, some, find, put, insert, update_where, ◌==◌,
  if◌then◌else◌,
}
use free_fire_room.Model.{BanScope, same_scope, UserStatus, User, Ban, Db, write_audit}

abbrev pub new_ban : ℕ → BanScope → Option ℕ → Ban
new_ban user_id scope expires_at = record {
  user_id = user_id;
  scope = scope;
  expires_at = expires_at;
  is_active = true;
}

-- `if scope == BanScope.BOT: target.status = "banned"`
abbrev pub mark_banned : BanScope → User → User
mark_banned scope u =
    if same_scope scope BanScope.bot then record u { status = UserStatus.banned } else u

-- the route: a new row for each ban
unfoldable pub ban_user : ℕ → BanScope → Option ℕ → User → Db → User × Db
ban_user actor scope expires_at u db = (
  mark_banned scope u,
  write_audit "user_banned" u.id actor
      (record db { bans = insert (new_ban u.id scope expires_at) db.bans }),
)

-- the row that the bot's handler takes for an open ban
abbrev pub same_ban : ℕ → BanScope → Ban → Bool
same_ban user_id scope b = b.user_id == user_id && (same_scope b.scope scope && b.is_active)

-- the bot's handler: an open row of the scope is used again, with another reason
unfoldable pub admin_ban_do : ℕ → BanScope → User → Db → User × Db
admin_ban_do actor scope u db = (
  mark_banned scope u,
  elim (find (same_ban u.id scope) db.bans) [
    | none ↦
        write_audit "user_banned" u.id actor
          (record db { bans = insert (new_ban u.id scope none) db.bans })
    | some b ↦ write_audit "user_ban_updated" u.id actor db
  ],
)

abbrev pub open_ban : ℕ → Ban → Bool
open_ban user_id b = b.user_id == user_id && b.is_active

-- unban_user of the routes and admin_unban of the bot
unfoldable pub unban_user : ℕ → User → Db → User × Db
unban_user actor u db = (
  record u { status = UserStatus.active },
  write_audit "user_unbanned" u.id actor (record db {
    bans = update_where (open_ban u.id) (λ b. record b { is_active = false }) db.bans;
  }),
)
