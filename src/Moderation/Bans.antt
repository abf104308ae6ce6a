-- ===== src/Moderation/Bans.antt =====
-- How long a ban lasts.
use free_fire_room.Prelude.{
  ℕ, ◌≡◌, refl, true, false, ◌&&◌, Option, none, some, is_some, List, [], ◌∷◌, find, select, ◌==◌,
  update_where, arith,
}
use free_fire_room.Model.{BanScope, User, Ban, Db}
use free_fire_room.Bans.{is_banned, active_bans, ban_active_clause}
use free_fire_room.Moderation.{ban_user, unban_user, admin_ban_do, open_ban, same_ban}

none_active :
    (now user_id : ℕ) (scope : BanScope) (bans : List Ban)
    → select
        (λ b. b.user_id == user_id && ban_active_clause now scope b)
        (update_where (open_ban user_id) (λ b. record b { is_active = false }) bans)
      ≡ []
unfolding ban_active_clause
none_active now user_id scope [] = refl
none_active now user_id scope (b ∷ bs) = ground (arith, none_active now user_id scope bs)

lifted :
    (actor now : ℕ) (scope : BanScope) (u : User) (db : Db)
    → is_banned now (unban_user actor u db).1 (unban_user actor u db).0 scope ≡ none
unfolding unban_user is_banned active_bans
lifted actor now scope u db = let gone = none_active now u.id scope db.bans in ground arith

-- A user whom the route bans from the bot is refused at every moment, the ones after the end that
-- the ban was given included; once the bans are lifted, the user is banned from nothing.
pub ban_user-lasts :
    (actor now : ℕ) (scope : BanScope) (expires_at : Option ℕ) (u : User) (db : Db)
    → let (u', db') = ban_user actor BanScope.bot expires_at u db in
      let (u2, db2) = unban_user actor u' db' in
      (is_some (is_banned now db' u' BanScope.bot) ≡ true) × (is_banned now db2 u2 scope ≡ none)
unfolding ban_user is_banned
ban_user-lasts actor now scope expires_at u db =
    let (u', db') = ban_user actor BanScope.bot expires_at u db in
    (ground arith, lifted actor now scope u' db')

-- A user who has a ban on organizing that was never lifted, expired or not, is not banned anew by the
-- bot's handler: whoever is asked about, at whatever moment and for whatever scope, is banned
-- exactly if they were before.
pub admin_ban_do-reuses :
    (actor now : ℕ) (scope : BanScope) (u asked : User) (b : Ban) (db : Db)
    → find (same_ban u.id BanScope.organize) db.bans ≡ some b
    → let (u', db') = admin_ban_do actor BanScope.organize u db in
      (u' ≡ u) × (is_banned now db' asked scope ≡ is_banned now db asked scope)
unfolding admin_ban_do is_banned active_bans
admin_ban_do-reuses actor now scope u asked b db h = (refl, ground arith)
