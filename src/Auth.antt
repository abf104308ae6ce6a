-- ===== src/Auth.antt =====
-- Signing in: backend/app/services/auth.py, hit_rate_limit of backend/app/core/rate_limit.py, and the
-- routes under /auth of backend/app/api/v1/routers.py. Redis, the check of passwords and one-time
-- secrets and the coding of tokens are libraries: they are parameters. A token is its payload.
pub mod Tokens
pub mod Codes
pub mod Sessions
pub mod Lockout
use free_fire_room.Prelude.{
  ℕ, ◌+◌, ◌<◌, ◌*◌, Bool, true, false, not, ◌&&◌, ◌||◌, Option, none, some, String, str_eq, strip,
  ltb, leb, ◌==◌, if◌then◌else◌, is_some, or_else, truthy, find, put, insert, Reply, ok, raised,
  ◌≡◌,
}
use free_fire_room.Model.{
  minute, hour, Account, Admin, AdminSession, Accounts, account_id, admin_id, session_jti,
}

pub data AuthError : Type 0 where
  rate_limited otp_locked invalid_otp invalid_credentials admin_locked totp_required : AuthError
  invalid_totp user_not_found invalid_token session_expired stale_login : AuthError

-- the keys of Redis that the code makes
pub data Key : Type 0 where
  otp : ℕ → Key
  otp_tries : ℕ → Key
  rl_otp : ℕ → Key
  rl_login : String → Key

abbrev pub same_redis_key : Key → Key → Bool
same_redis_key (otp m) (otp n) = m == n
same_redis_key (otp_tries m) (otp_tries n) = m == n
same_redis_key (rl_otp m) (rl_otp n) = m == n
same_redis_key (rl_login s) (rl_login t) = str_eq s t
same_redis_key _ _ = false

-- The commands of Redis that the code sends; a value is a text or a number.
pub record Redis : Type 1 where
  pub Store : Type 0
  pub get_text : Key → Store → Option String
  pub get_number : Key → Store → Option ℕ
  pub set_text : Key → String → Store → Store
  pub set_number : Key → ℕ → Store → Store
  pub incr : Key → Store → Store
  pub expire : Key → Store → Store
  pub delete : Key → Store → Store

-- `int(raw or 0)`
abbrev pub or_zero : Option ℕ → ℕ
or_zero none = 0
or_zero (some n) = n

-- the greatest number that INCR can store
abbrev pub max_number : ℕ
max_number = 9223372036854775807

-- What the documentation of Redis says of these commands, as long as no key expires. A key has one
-- value; `get_number` is that value read as a number, where it is one.
pub record RedisLaws (r : Redis) : Type 0 where
  pub text_set : (k : Key) (v : String) (s : r.Store) → r.get_text k (r.set_text k v s) ≡ some v
  pub text_set_number :
      (j k : Key) (n : ℕ) (s : r.Store)
      → same_redis_key j k ≡ false
      → r.get_text j (r.set_number k n s) ≡ r.get_text j s
  pub number_set : (k : Key) (n : ℕ) (s : r.Store) → r.get_number k (r.set_number k n s) ≡ some n
  pub text_incr :
      (j k : Key) (s : r.Store)
      → same_redis_key j k ≡ false
      → r.get_text j (r.incr k s) ≡ r.get_text j s
  pub number_incr :
      (k : Key) (n : ℕ) (s : r.Store)
      → r.get_number k s ≡ some n
      → n < max_number
      → r.get_number k (r.incr k s) ≡ some (n + 1)
  pub text_delete : (k : Key) (s : r.Store) → r.get_text k (r.delete k s) ≡ none
  pub number_delete :
      (j k : Key) (s : r.Store)
      → same_redis_key j k ≡ false
      → r.get_number j (r.delete k s) ≡ r.get_number j s

-- `not expected or expected != code.strip()`
unfoldable pub is_wrong : Option String → String → Bool
is_wrong none code = true
is_wrong (some expected) code = str_eq expected "" || not (str_eq expected (strip code))

module _ (r : Redis) where
  open r use {Store, get_text, get_number, set_text, set_number, incr, expire, delete}

  -- one more hit in the current window; the first one starts it
  unfoldable pub hit_rate_limit : Key → ℕ → Store → Bool × Store
  hit_rate_limit key limit s =
      let s1 = incr key s in
      let n = or_zero (get_number key s1) in
      (not (ltb limit n), if n == 1 then expire key s1 else s1)

  -- `code` is what `generate_otp` drew
  unfoldable pub issue_otp : ℕ → ℕ → String → Store → Reply String AuthError × Store
  unfolding hit_rate_limit
  issue_otp limit telegram_id code s =
      let (allowed, s1) = hit_rate_limit (rl_otp telegram_id) limit s in
      if allowed
      then (ok code, set_number (otp_tries telegram_id) 0 (set_text (otp telegram_id) code s1))
      else (raised rate_limited, s1)

  unfoldable pub verify_otp : ℕ → ℕ → String → Store → Reply Bool AuthError × Store
  unfolding is_wrong
  verify_otp max_attempts telegram_id code s =
      if leb max_attempts (or_zero (get_number (otp_tries telegram_id) s))
      then (raised otp_locked, s)
      else if is_wrong (get_text (otp telegram_id) s) code
      then (ok false, incr (otp_tries telegram_id) s)
      else (ok true, delete (otp telegram_id) s)

-- what the code calls of the libraries for passwords and one-time secrets: `verify_totp` takes the
-- secret as it is stored, so it includes the decryption
pub record Crypto : Type 0 where
  pub verify_password : String → String → Bool
  pub verify_totp : String → String → Bool

-- the payload of a refresh token, as `decode_token` gives it
pub record Claims : Type 0 where
  pub is_refresh : Bool
  pub sub : Option ℕ
  pub jti : Option String

-- what is asked with a password; `key` is the client's address, or else the Telegram id
pub record Login : Type 0 where
  pub telegram_id : ℕ
  pub password : String
  pub totp_code : Option String
  pub key : String
  pub ip : Option String
  pub user_agent : Option String
  pub at : ℕ
  pub new_jti : String

-- `get_by_telegram` of services/users.py
unfoldable pub get_by_telegram : ℕ → Accounts → Option Account
get_by_telegram telegram_id a =
    find (λ u. u.telegram_id == telegram_id && not (is_some u.deleted_at)) a.users

-- the active admin of a user
unfoldable pub active_admin : ℕ → Accounts → Option Admin
active_admin user_id a = find (λ d. d.user_id == user_id && d.is_active) a.admins

abbrev pub save_admin : Admin → Accounts → Accounts
save_admin d a = record a { admins = put (admin_id d.id) d a.admins }

-- `locked_until and locked_until > now`
abbrev pub is_locked : ℕ → Option ℕ → Bool
is_locked now none = false
is_locked now (some t) = ltb now t

-- a wrong password is counted, the eighth one locks
unfoldable pub failed_login : ℕ → Admin → Admin
failed_login now d =
    let n = d.failed_login_count + 1 in
    record d {
      failed_login_count = n;
      locked_until = if leb 8 n then some (now + 15 * minute) else d.locked_until;
    }

abbrev pub new_session : ℕ → ℕ → Login → AdminSession
new_session days admin_id l = record {
  admin_id = admin_id;
  refresh_jti = l.new_jti;
  ip_address = l.ip;
  user_agent = l.user_agent;
  expires_at = l.at + days * (24 * hour);
  last_seen_at = l.at;
  revoked_at = none;
}

abbrev pub token_for : ℕ → String → Claims
token_for user_id jti = record { is_refresh = true; sub = some user_id; jti = some jti }

-- the writes of a login that succeeds, and its refresh token
unfoldable pub open_session :
    ℕ → Login → Account → Admin → Accounts → Reply Claims AuthError × Accounts
open_session days l u d a =
    let saved = save_admin (record d { failed_login_count = 0; last_login_at = some l.at }) a in
    (
      ok (token_for u.id l.new_jti),
      record saved {
        sessions = insert (new_session days d.id l) saved.sessions;
        audit =
            insert (record { action = "admin_login"; entity_id = some d.id; actor_id = u.id })
              saved.audit;
      },
    )

-- the second factor, if the admin has one
unfoldable pub second_factor : Crypto → Option String → Admin → Option AuthError
second_factor c totp_code d = if not d.totp_enabled then none else (elim totp_code [
  | none ↦ some totp_required
  | some code ↦ elim d.totp_secret_encrypted [
    | none ↦ some totp_required
    | some secret ↦
        if str_eq code "" || str_eq secret ""
        then some totp_required
        else if c.verify_totp secret code
        then none
        else some invalid_totp
  ]
])

-- the password of an admin, then the second factor
unfoldable pub check_admin :
    Crypto → ℕ → Login → Account → Admin → String → Accounts → Reply Claims AuthError × Accounts
unfolding failed_login second_factor open_session
check_admin c days l u d hash a =
    if str_eq hash ""
    then (raised invalid_credentials, a)
    else if is_locked l.at d.locked_until
    then (raised admin_locked, a)
    else if not (c.verify_password l.password hash)
    then (raised invalid_credentials, save_admin (failed_login l.at d) a)
    else (elim (second_factor c l.totp_code d) [
      | some e ↦ (raised e, a)
      | none ↦ open_session days l u d a
    ])

-- after the rate limit: the guards in the order of the code
unfoldable pub sign_in : Crypto → ℕ → Login → Accounts → Reply Claims AuthError × Accounts
unfolding get_by_telegram active_admin check_admin
sign_in c days l a = elim (get_by_telegram l.telegram_id a) [
  | none ↦ (raised invalid_credentials, a)
  | some u ↦ elim (active_admin u.id a) [
    | none ↦ (raised invalid_credentials, a)
    | some d ↦ elim d.password_hash [
      | none ↦ (raised invalid_credentials, a)
      | some hash ↦ check_admin c days l u d hash a
    ]
  ]
]

-- `get_db` with the commit at the end of a route: what a call that raised has written is rolled back
abbrev pub committed {ℓ} : {A : Type ℓ} {E S : Type 0} → S → Reply A E × S → Reply A E × S
committed before (ok x, after) = (ok x, after)
committed before (raised e, after) = (raised e, before)

module _ (r : Redis) where
  open r use {Store}

  unfoldable pub login_super_admin :
      Crypto → ℕ → ℕ → Login → Accounts × Store → Reply Claims AuthError × Accounts × Store
  unfolding hit_rate_limit sign_in
  login_super_admin c days limit l (a, s) =
      let (allowed, s1) = hit_rate_limit r (rl_login l.key) limit s in
      if allowed
      then (let (reply, a1) = sign_in c days l a in (reply, a1, s1))
      else (raised rate_limited, a, s1)

  -- the route POST /auth/login/password: Redis has no part in the rollback
  unfoldable pub login_password :
      Crypto → ℕ → ℕ → Login → Accounts × Store → Reply Claims AuthError × Accounts × Store
  unfolding login_super_admin
  login_password c days limit l (a, s) =
      let (reply, a1, s1) = login_super_admin c days limit l (a, s) in
      let (answer, a2) = committed a (reply, a1) in (answer, a2, s1)
