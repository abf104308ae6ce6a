-- ===== src/Config.antt =====
-- The settings that are stored: backend/app/services/settings.py. The settings of the environment are
-- a parameter.
pub mod Stored
use free_fire_room.Prelude.{
  ℕ, String, str_eq, Bool, true, false, Option, none, some, List, [], ◌∷◌, if◌then◌else◌, is_some,
  or_else, truthy, find, put, insert,
}
use free_fire_room.Model.{
  Json, Items, Fields, bool, num, str, list, dict, item, no_items, no_fields, field, get_field,
}

-- class SystemSetting; the value is a dictionary
pub record SystemSetting : Type 0 where
  pub key : String
  pub value : Fields
  pub description : Option String
  pub updated_by : Option ℕ

abbrev pub setting_key : String → SystemSetting → Bool
setting_key k s = str_eq s.key k

abbrev feature_flags : Fields
feature_flags = field "waitlist" (bool true) (
    field "reveal_button" (bool true)
      (field "organizer_panel" (bool true) (field "captcha_on_suspicious" (bool true) no_fields)))

abbrev data_retention : Fields
data_retention =
    field "room_credentials_days" (num 7)
      (field "audit_days" (num 365) (field "delivery_days" (num 90) no_fields))

-- DEFAULTS
abbrev pub defaults : Fields
defaults = field "event_approval_required" (bool false) (
    field "auto_approve_organizers" (bool true) (
      field "max_announcements_per_day" (num 5) (
        field "max_events_per_organizer" (num 10) (
          field "max_required_channels_per_event" (num 8) (
            field "max_required_referrals" (num 20) (
              field "maintenance_mode" (bool false) (
                field "default_timezone" (str "Asia/Tehran") (
                  field "support_contact" (str "@support") (
                    field "reminder_offsets_minutes" (list (item (num 60) (item (num 10) no_items)))
                      (field "feature_flags" (dict feature_flags) (
                        field "data_retention" (dict data_retention) (
                          field "new_user_referral_hours" (num 24) (
                            field "min_account_age_hours_for_referral" (num 0)
                              no_fields)))))))))))))

-- `value.get("v", value)`
unfoldable pub unwrap : Fields → Json
unwrap value = elim (get_field "v" value) [ none ↦ dict value | some v ↦ v ]

-- `value if isinstance(value, dict) and "v" in value else {"v": value}`
unfoldable pub wrap : Json → Fields
wrap (dict fs) = if is_some (get_field "v" fs) then fs else field "v" (dict fs) no_fields
wrap v = field "v" v no_fields

-- get_setting and get_setting_sync
unfoldable pub get_setting : String → Option Json → List SystemSetting → Option Json
unfolding unwrap
get_setting key default rows = elim (find (setting_key key) rows) [
  | none ↦ or_else default (get_field key defaults)
  | some row ↦ some (unwrap row.value)
]

unfoldable pub set_setting :
    String → Json → Option ℕ → Option String → List SystemSetting → List SystemSetting
unfolding wrap
set_setting key value updated_by description rows = elim (find (setting_key key) rows) [
  | none ↦
      insert
        (record {
          key = key;
          value = wrap value;
          description = description;
          updated_by = updated_by;
        })
        rows
  | some row ↦
      put (setting_key key)
        (record row {
          value = wrap value;
          updated_by = updated_by;
          description = if truthy description then description else row.description;
        })
        rows
]

-- the settings of the environment that all_settings shows
pub record EnvSettings : Type 0 where
  pub event_approval_required : Bool
  pub auto_approve_organizers : Bool
  pub max_events_per_organizer : ℕ
  pub max_required_channels_per_event : ℕ
  pub max_required_referrals : ℕ
  pub maintenance_mode : Bool

-- `data[key] = value`
abbrev pub set_field : String → Json → Fields → Fields
set_field k v no_fields = field k v no_fields
set_field k v (field j w fs) = if str_eq j k then field k v fs else field j w (set_field k v fs)

unfoldable pub with_env : EnvSettings → Fields → Fields
with_env e d = set_field "maintenance_mode" (bool e.maintenance_mode) (
    set_field "max_required_referrals" (num e.max_required_referrals) (
      set_field "max_required_channels_per_event" (num e.max_required_channels_per_event) (
        set_field "max_events_per_organizer" (num e.max_events_per_organizer) (
          set_field "auto_approve_organizers" (bool e.auto_approve_organizers)
            (set_field "event_approval_required" (bool e.event_approval_required) d)))))

unfoldable pub with_rows : List SystemSetting → Fields → Fields
unfolding unwrap
with_rows [] d = d
with_rows (row ∷ rows) d = with_rows rows (set_field row.key (unwrap row.value) d)

unfoldable pub all_settings : EnvSettings → List SystemSetting → Fields
unfolding with_env with_rows
all_settings e rows = with_rows rows (with_env e defaults)
