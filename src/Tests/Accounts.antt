-- ===== src/Tests/Accounts.antt =====
-- Signing in, the panels, settings and the audit log, on small tables.
use free_fire_room.Prelude.{
  zero, suc, ◌≤◌, strip, ℕ, ◌≡◌, refl, true, false, Option, none, some, List, [], ◌∷◌, String,
  str_eq, eq_iff, if◌then◌else◌, ◌+◌, raised, arith,
}
use free_fire_room.Model.{
  BanScope, UserStatus, Ban, Account, Admin, AdminSession, Accounts, Db, Fields, str, num, dict,
  field, no_fields, get_field,
}
use free_fire_room.Auth.{
  otp_locked, session_expired, Key, otp, otp_tries, rl_otp, rl_login, same_redis_key, max_number,
  Redis, RedisLaws, or_zero, is_wrong, issue_otp, verify_otp, Crypto, Login, token_for,
  get_by_telegram, active_admin,
}
use free_fire_room.Auth.Tokens.{refresh_tokens, revoke_refresh}
use free_fire_room.Auth.Codes.{after_tries, guesses_lock}
use free_fire_room.Auth.Lockout.{IsWrongPassword, after_logins, guessing_never_locks}
use free_fire_room.Auth.Sessions.{HasUniqueJtis, refresh_tokens-once, revoke_refresh-ends}
use free_fire_room.Log.{sanitize, sanitize_value, is_sensitive, redacted}
use free_fire_room.Log.Secrets.{IsClean, sanitize-IsClean}
use free_fire_room.Config.{get_setting, set_setting}
use free_fire_room.Config.Stored.{read_as, get_setting-set_setting}
use free_fire_room.Tests.Data.{db}
use mathlib.Core.Option

-- a value of Redis: a text, or a number, which GET returns as a text (here, in strokes)
data Value : Type 0 where
  text : String → Value
  number : ℕ → Value

abbrev strokes : ℕ → String
strokes zero = ""
strokes (suc n) = String.◌∷◌ "I" (strokes n)

abbrev text_of : Option Value → Option String
text_of none = none
text_of (some (text v)) = some v
text_of (some (number n)) = some (strokes n)

abbrev number_of : Option Value → Option ℕ
number_of (some (number n)) = some n
number_of _ = none

-- one value for each key
abbrev Memory : Type 0
Memory = Key → Option Value

abbrev written : Key → Option Value → Memory → Memory
written k v s j = if same_redis_key j k then v else s j

abbrev memory : Redis
memory = record {
  Store = Memory;
  get_text = λ k s. text_of (s k);
  get_number = λ k s. number_of (s k);
  set_text = λ k v s. written k (some (text v)) s;
  set_number = λ k n s. written k (some (number n)) s;
  incr = λ k s. written k (some (number (or_zero (number_of (s k)) + 1))) s;
  expire = λ k s. s;
  delete = λ k s. written k none s;
}

same_key_refl : (k : Key) → same_redis_key k k ≡ true
same_key_refl (otp n) = ground arith
same_key_refl (otp_tries n) = ground arith
same_key_refl (rl_otp n) = ground arith
same_key_refl (rl_login s) = (eq_iff s s).1 refl

memory-RedisLaws : RedisLaws memory
memory-RedisLaws = record {
  text_set = λ k v s. rw (same_key_refl k) refl;
  text_set_number = λ j k n s h. rw h refl;
  number_set = λ k n s. rw (same_key_refl k) refl;
  text_incr = λ j k s h. rw h refl;
  number_incr = λ k n s g h. rw (same_key_refl k, g) refl;
  text_delete = λ k s. rw (same_key_refl k) refl;
  number_delete = λ j k s h. rw h refl;
}

abbrev empty_memory : Memory
empty_memory k = none

-- two attempts
abbrev few : 2 ≤ max_number
few = omega arith

abbrev two_guesses : List String
two_guesses = "000000" ∷ "111111" ∷ []

abbrev guessed : Memory
guessed =
    after_tries memory memory-RedisLaws 2 7 few two_guesses
      (issue_otp memory 5 7 "123456" empty_memory).1

guesses_lock_example : verify_otp memory 2 7 "123456" guessed ≡ (raised otp_locked, guessed)
unfolding issue_otp is_wrong strip
guesses_lock_example =
    guesses_lock memory memory-RedisLaws 2 7 few 5 "123456" "123456" two_guesses empty_memory refl
      (refl, (refl, tt)) (omega arith)

abbrev pub boss : Account
boss = record {
  id = 1;
  telegram_id = 10;
  status = UserStatus.active;
  deleted_at = none;
  is_bot_blocked = false;
  notification_enabled = true;
}

abbrev pub owner : Admin
owner = record {
  id = 4;
  user_id = 1;
  password_hash = some "secret";
  totp_secret_encrypted = none;
  totp_enabled = false;
  is_super_admin = true;
  is_active = true;
  failed_login_count = 7;
  locked_until = none;
  last_login_at = none;
}

abbrev browser : AdminSession
browser = record {
  admin_id = 4;
  refresh_jti = "old";
  ip_address = none;
  user_agent = none;
  expires_at = 9000;
  last_seen_at = 0;
  revoked_at = none;
}

abbrev accounts : Accounts
accounts = record { users = boss ∷ []; admins = owner ∷ []; sessions = browser ∷ []; audit = [] }

abbrev attempt : Login
attempt = record {
  telegram_id = 10;
  password = "guess";
  totp_code = none;
  key = "1.2.3.4";
  ip = some "1.2.3.4";
  user_agent = none;
  at = 100;
  new_jti = "new";
}

abbrev plain_crypto : Crypto
plain_crypto = record {
  verify_password = λ password hash. str_eq password hash;
  verify_totp = λ secret code. str_eq secret code;
}

attempt-IsWrongPassword : IsWrongPassword plain_crypto accounts attempt
unfolding get_by_telegram active_admin
attempt-IsWrongPassword u d hash f g h =
    let found : u ≡ boss = ground arith in
    let g1 : active_admin 1 accounts ≡ some d = rw found at g in
    let same : d ≡ owner = ground arith in
    let stored : some "secret" ≡ some hash = rw same at h in
    let e : hash ≡ "secret" = ground arith in rw e refl

guessing_never_locks_example :
    (after_logins memory plain_crypto 30 10 (attempt ∷ attempt ∷ []) (accounts, empty_memory)).0
    ≡ accounts
guessing_never_locks_example =
    guessing_never_locks memory plain_crypto 30 10 (attempt ∷ attempt ∷ []) accounts empty_memory
      (attempt-IsWrongPassword, (attempt-IsWrongPassword, tt))

browser-HasUniqueJtis : HasUniqueJtis accounts.sessions
browser-HasUniqueJtis jti = ground arith

abbrev refreshed : Accounts
refreshed = (refresh_tokens attempt (some (token_for 1 "old")) accounts).1

refresh_tokens-once_example :
    refresh_tokens attempt (some (token_for 1 "old")) refreshed
    ≡ (raised session_expired, refreshed)
unfolding refresh_tokens active_admin
refresh_tokens-once_example =
    refresh_tokens-once attempt attempt 1 "old" boss owner accounts (token_for 1 "new") refl refl
      browser-HasUniqueJtis refl refl

abbrev logged_off : Accounts
logged_off = revoke_refresh 200 (some (token_for 1 "old")) accounts

revoke_refresh-ends_example :
    refresh_tokens attempt (some (token_for 1 "old")) logged_off
    ≡ (raised session_expired, logged_off)
unfolding active_admin
revoke_refresh-ends_example =
    revoke_refresh-ends 200 attempt 1 "old" boss owner accounts refl refl browser-HasUniqueJtis refl

abbrev expired_ban : Ban
expired_ban = record {
  user_id = 1;
  scope = BanScope.organize;
  expires_at = some 50;
  is_active = true;
}

abbrev db_banned : Db
db_banned = record db { bans = expired_ban ∷ [] }

abbrev logged : Fields
logged =
    field "room_id" (str "77")
      (field "extra" (dict (field "password" (str "p") no_fields)) no_fields)

sanitize-IsClean_example :
    IsClean (λ s. s) (sanitize (λ s. s) logged)
    × (get_field "extra" (sanitize (λ s. s) logged)
        ≡ Option.map
            (λ v. if is_sensitive (λ s. s) "extra" then redacted else sanitize_value (λ s. s) v)
            (get_field "extra" logged))
    × (sanitize (λ s. s) (sanitize (λ s. s) logged) ≡ sanitize (λ s. s) logged)
sanitize-IsClean_example = sanitize-IsClean (λ s. s) "extra" logged

get_setting-set_setting_example :
    get_setting "maintenance_mode" none (set_setting "maintenance_mode" (num 1) (some 1) none [])
    ≡ (if str_eq "maintenance_mode" "maintenance_mode"
        then some (read_as (num 1))
        else get_setting "maintenance_mode" none [])
get_setting-set_setting_example =
    get_setting-set_setting "maintenance_mode" (num 1) (some 1) none [] "maintenance_mode" none
