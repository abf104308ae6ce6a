-- ===== src/Model/Values.antt =====
-- The values of JSON columns. `null`, numbers and texts are what the code puts there besides lists
-- and dictionaries; a dictionary keeps its order.
use free_fire_room.Prelude.{ℕ, String, Bool, Option, none, some, if◌then◌else◌, str_eq}

mutual
  pub data Json : Type 0 where
    null : Json
    bool : Bool → Json
    num : ℕ → Json
    str : String → Json
    list : Items → Json
    dict : Fields → Json

  pub data Items : Type 0 where
    no_items : Items
    item : Json → Items → Items

  pub data Fields : Type 0 where
    no_fields : Fields
    field : String → Json → Fields → Fields

-- `d.get(k)`
abbrev pub get_field : String → Fields → Option Json
get_field k no_fields = none
get_field k (field j v fs) = if str_eq j k then some v else get_field k fs
