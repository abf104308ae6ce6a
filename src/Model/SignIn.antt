-- ===== src/Model/SignIn.antt =====
-- The rows of models/user.py and models/admin.py that signing in and the mailings use.
use free_fire_room.Prelude.{ℕ, String, Bool, Option, List, ◌==◌, str_eq}
use free_fire_room.Model.Enums.{UserStatus}
use free_fire_room.Model.Queue.{AuditLog}

-- class User: the columns that signing in and the mailings read
pub record Account : Type 0 where
  pub id : ℕ
  pub telegram_id : ℕ
  pub status : UserStatus
  pub deleted_at : Option ℕ
  pub is_bot_blocked : Bool
  pub notification_enabled : Bool

-- class Admin
pub record Admin : Type 0 where
  pub id : ℕ
  pub user_id : ℕ
  pub password_hash : Option String
  pub totp_secret_encrypted : Option String
  pub totp_enabled : Bool
  pub is_super_admin : Bool
  pub is_active : Bool
  pub failed_login_count : ℕ
  pub locked_until : Option ℕ
  pub last_login_at : Option ℕ

-- class AdminSession
pub record AdminSession : Type 0 where
  pub admin_id : ℕ
  pub refresh_jti : String
  pub ip_address : Option String
  pub user_agent : Option String
  pub expires_at : ℕ
  pub last_seen_at : ℕ
  pub revoked_at : Option ℕ

-- the tables that signing in reads and writes
pub record Accounts : Type 0 where
  pub users : List Account
  pub admins : List Admin
  pub sessions : List AdminSession
  pub audit : List AuditLog

-- `User.telegram_id == k`, of an account that is not deleted, is `get_by_telegram`
abbrev pub account_id : ℕ → Account → Bool
account_id k u = u.id == k

abbrev pub admin_id : ℕ → Admin → Bool
admin_id k a = a.id == k

-- the unique key `refresh_jti`
abbrev pub session_jti : String → AdminSession → Bool
session_jti jti s = str_eq s.refresh_jti jti
