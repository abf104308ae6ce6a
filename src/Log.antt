-- ===== src/Log.antt =====
-- What the audit log keeps of the dictionaries that it is given: `_sanitize` of
-- backend/app/services/audit.py. Unicode's lower case is a parameter.
pub mod Secrets
use Prim.Native.Char.{code}
use free_fire_room.Prelude.{
  ℕ, String, str_eq, Bool, true, false, ◌||◌, Option, none, some, List, [], ◌∷◌, if◌then◌else◌, any,
  Chars, starts_with,
}
use free_fire_room.Model.{Json, Items, Fields, null, bool, num, str, list, dict, no_fields, field}

abbrev pub codes : String → List ℕ
codes String.[] = []
codes (String.◌∷◌ c s) = code c ∷ codes s

-- `part in t`
abbrev pub contains : Chars → Chars → Bool
contains part [] = starts_with [] part
contains part (c ∷ t) = starts_with (c ∷ t) part || contains part t

abbrev pub sensitive_fields : List String
sensitive_fields =
    "room_id" ∷ "room_password" ∷ "password" ∷ "room_id_encrypted" ∷ "room_password_encrypted"
    ∷ "totp_secret_encrypted" ∷ "password_hash" ∷ "bot_token" ∷ "otp" ∷ []

abbrev pub redacted : Json
redacted = str "[REDACTED]"

module _ (lower : String → String) where
  -- the keys whose values are not kept
  unfoldable pub is_sensitive : String → Bool
  is_sensitive k =
      any (str_eq (lower k)) sensitive_fields
      || contains (codes "password") (codes (lower k))
      || contains (codes "secret") (codes (lower k))

  unfoldable mutual
    pub sanitize : Fields → Fields
    sanitize no_fields = no_fields
    sanitize (field k v fs) =
        field k (if is_sensitive k then redacted else sanitize_value v) (sanitize fs)

    -- only a dictionary is looked into
    pub sanitize_value : Json → Json
    sanitize_value null = null
    sanitize_value (bool b) = bool b
    sanitize_value (num n) = num n
    sanitize_value (str s) = str s
    sanitize_value (list xs) = list xs
    sanitize_value (dict fs) = dict (sanitize fs)
