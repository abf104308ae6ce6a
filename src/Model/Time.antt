-- ===== src/Model/Time.antt =====
-- Lengths of time in microseconds, Python's resolution, and the settings of core/config.py that
-- the services read.
use free_fire_room.Prelude.{ℕ}

abbrev pub second : ℕ
second = 1_000_000

abbrev pub minute : ℕ
minute = 60_000_000

abbrev pub hour : ℕ
hour = 3_600_000_000

abbrev pub day : ℕ
day = 86_400_000_000

-- The settings come from the environment, so they are a parameter of what reads them.
pub record Settings : Type 0 where
  pub auto_archive_minutes : ℕ
  pub past_events_hours : ℕ
  pub late_delivery_sweep_minutes : ℕ

-- the values that core/config.py gives where the environment says nothing
abbrev pub default_settings : Settings
default_settings = record {
  auto_archive_minutes = 30;
  past_events_hours = 24;
  late_delivery_sweep_minutes = 45;
}
