-- ===== src/Bans.antt =====
-- backend/app/services/bans.py
use free_fire_room.Prelude.{
  ℕ, Bool, true, ◌&&◌, ◌||◌, Option, none, some, List, [], ◌∷◌, ltb, ◌==◌, if◌then◌else◌, find,
  select,
}
use free_fire_room.Model.{BanScope, same_scope, is_banned_status, User, Ban, Db}

-- `or_(Ban.expires_at.is_(None), Ban.expires_at > now)`
abbrev not_expired : ℕ → Option ℕ → Bool
not_expired now none = true
not_expired now (some t) = ltb now t

-- `_ban_active_clause`; every caller under app/services passes a scope
unfoldable pub ban_active_clause : ℕ → BanScope → Ban → Bool
ban_active_clause now scope b =
    b.is_active
    && not_expired now b.expires_at
    && (same_scope b.scope BanScope.bot || same_scope b.scope scope)

unfoldable pub active_bans : ℕ → Db → ℕ → BanScope → List Ban
unfolding ban_active_clause
active_bans now db user_id scope =
    select (λ b. b.user_id == user_id && ban_active_clause now scope b) db.bans

-- `Ban(scope=BanScope.BOT, reason="banned", is_active=True)`, a row that is not stored
abbrev standing_ban : ℕ → Ban
standing_ban user_id = record {
  user_id = user_id;
  scope = BanScope.bot;
  expires_at = none;
  is_active = true;
}

-- `bans[0] if bans else …`
abbrev first_ban : Option Ban → List Ban → Option Ban
first_ban otherwise [] = otherwise
first_ban otherwise (b ∷ _) = some b

unfoldable pub is_banned : ℕ → Db → User → BanScope → Option Ban
unfolding active_bans
is_banned now db user scope =
    if is_banned_status user.status && same_scope scope BanScope.bot
    then first_ban (some (standing_ban user.id)) (active_bans now db user.id BanScope.bot)
    else first_ban none (active_bans now db user.id scope)

-- the variant of the workers, which does not look at the user's status
unfoldable pub is_banned_sync : ℕ → Db → User → BanScope → Option Ban
unfolding ban_active_clause
is_banned_sync now db user scope =
    find (λ b. b.user_id == user.id && ban_active_clause now scope b) db.bans
