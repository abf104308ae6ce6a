-- ===== src/Config/Stored.antt =====
-- A setting that is written is read back.
use free_fire_room.Prelude.{
  ℕ, String, str_eq, eq_iff, ◌≡◌, refl, sym, Bool, true, false, Option, none, some, List, [], ◌∷◌,
  if◌then◌else◌, truthy, find, insert, find-insert-none, find-put_self, find-put_ne, find-holds,
  Bool-cases, Option-cases, inl, inr, arith,
}
use free_fire_room.Model.{Json, null, bool, num, str, list, dict, get_field}
use free_fire_room.Config.{SystemSetting, setting_key, unwrap, wrap, get_setting, set_setting}

-- what a value that is written reads as: a dictionary with an entry "v" stands for that entry
abbrev pub read_as : Json → Json
read_as (dict fs) = elim (get_field "v" fs) [ none ↦ dict fs | some v ↦ v ]
read_as v = v

unwrap-wrap : (v : Json) → unwrap (wrap v) ≡ read_as v
unfolding unwrap wrap
unwrap-wrap null = refl
unwrap-wrap (bool b) = refl
unwrap-wrap (num n) = refl
unwrap-wrap (str s) = refl
unwrap-wrap (list xs) = refl
unwrap-wrap (dict fs) = elim (Option-cases (get_field "v" fs)) [
  | inl e ↦ ground arith
  | inr (v, e) ↦ ground arith
]

find-insert_ne :
    {A : Type 0} (p : A → Bool) (r : A) (xs : List A)
    → p r ≡ false
    → find p (insert r xs) ≡ find p xs
find-insert_ne p r [] h = ground arith
find-insert_ne p r (x ∷ xs) h = ground (arith, find-insert_ne p r xs)

str_eq_self : (k : String) → str_eq k k ≡ true
str_eq_self k = (eq_iff k k).1 refl

module _ (k : String) (v : Json) (by : Option ℕ) (description : Option String)
    (rows : List SystemSetting) where
  -- the row that is written is found
  written :
      (row : SystemSetting) × (find (setting_key k) (set_setting k v by description rows)
        ≡ some row)
      × (row.value ≡ wrap v)
  unfolding set_setting
  written = elim (Option-cases (find (setting_key k) rows)) [
    | inl e ↦
        let row : SystemSetting = record {
          key = k;
          value = wrap v;
          description = description;
          updated_by = by;
        } in
        let self = str_eq_self k in
        let new = find-insert-none (setting_key k) row rows e in (row, ground arith, refl)
    | inr (old, e) ↦
        let row : SystemSetting = record old {
          value = wrap v;
          updated_by = by;
          description = if truthy description then description else old.description;
        } in
        let own = find-holds (setting_key k) rows old e in
        let new = find-put_self (setting_key k) row old rows e own in (row, ground arith, refl)
  ]

  -- no other row is
  others :
      (j : String)
      → str_eq k j ≡ false
      → find (setting_key j) (set_setting k v by description rows) ≡ find (setting_key j) rows
  unfolding set_setting
  others j h = elim (Option-cases (find (setting_key k) rows)) [
    | inl e ↦
        let row : SystemSetting = record {
          key = k;
          value = wrap v;
          description = description;
          updated_by = by;
        } in
        let step = find-insert_ne (setting_key j) row rows h in ground arith
    | inr (old, e) ↦
        let own = (eq_iff old.key k).0 (find-holds (setting_key k) rows old e) in
        let row : SystemSetting = record old {
          value = wrap v;
          updated_by = by;
          description = if truthy description then description else old.description;
        } in
        let ne : str_eq old.key j ≡ false = rw own h in
        let step = find-put_ne (setting_key j) (setting_key k) row old rows e ne ne in ground arith
  ]

  pub get_written :
      (default : Option Json)
      → get_setting k default (set_setting k v by description rows) ≡ some (read_as v)
  unfolding get_setting
  get_written default =
      let (row, e, value) = written in
      let same : unwrap row.value ≡ read_as v = rw value (unwrap-wrap v) in ground arith

  get_other :
      (j : String) (default : Option Json)
      → str_eq k j ≡ false
      → get_setting j default (set_setting k v by description rows) ≡ get_setting j default rows
  unfolding get_setting
  get_other j default h = let e = others j h in rw (e, get_setting) refl

  -- Whatever is stored, a setting that was written is read back, as the value that it stands for:
  -- itself, or the entry "v" of a dictionary that has one; every other setting reads as before, its
  -- default included.
  pub get_setting-set_setting :
      (j : String) (default : Option Json)
      → get_setting j default (set_setting k v by description rows)
        ≡ (if str_eq k j then some (read_as v) else get_setting j default rows)
  get_setting-set_setting j default = elim (Bool-cases (str_eq k j)) [
    | inl h ↦ let same = (eq_iff k j).0 h in rw h (rw (sym same) (get_written default))
    | inr h ↦ rw h (get_other j default h)
  ]
