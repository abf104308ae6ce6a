-- ===== src/Log/Secrets.antt =====
-- No secret is written to the audit log, as far as dictionaries go.
use mathlib.Core.Option
use free_fire_room.Prelude.{
  String, ◌≡◌, refl, ap, true, if◌then◌else◌, if_both, str_eq, eq_iff, Bool-cases, inl, inr,
}
use free_fire_room.Model.{
  Json, Fields, null, bool, num, str, list, dict, no_fields, field, get_field,
}
use free_fire_room.Log.{redacted, is_sensitive, sanitize, sanitize_value}

module _ (lower : String → String) where
  -- the value of a sensitive key is redacted, at each depth of dictionaries in dictionaries
  abbrev mutual
    pub IsClean : Fields → Type 0
    IsClean no_fields = Unit
    IsClean (field k v fs) =
        (is_sensitive lower k ≡ true → v ≡ redacted) × IsCleanValue v × IsClean fs

    pub IsCleanValue : Json → Type 0
    IsCleanValue (dict fs) = IsClean fs
    IsCleanValue _ = Unit

  mutual
    unfolding sanitize

    clean : (fs : Fields) → IsClean (sanitize lower fs)
    clean no_fields = tt
    clean (field k v fs) = (
      λ h. rw h refl,
      if_both IsCleanValue (is_sensitive lower k) redacted (sanitize_value lower v) tt
          (clean_value v),
      clean fs,
    )

    clean_value : (v : Json) → IsCleanValue (sanitize_value lower v)
    clean_value null = tt
    clean_value (bool b) = tt
    clean_value (num n) = tt
    clean_value (str s) = tt
    clean_value (list xs) = tt
    clean_value (dict fs) = clean fs

  mutual
    unfolding sanitize

    again : (fs : Fields) → sanitize lower (sanitize lower fs) ≡ sanitize lower fs
    again no_fields = refl
    again (field k v fs) = elim (Bool-cases (is_sensitive lower k)) [
      | inl h ↦ rw (h, again fs) refl
      | inr h ↦ rw (h, again_value v, again fs) refl
    ]

    again_value :
        (v : Json) → sanitize_value lower (sanitize_value lower v) ≡ sanitize_value lower v
    again_value null = refl
    again_value (bool b) = refl
    again_value (num n) = refl
    again_value (str s) = refl
    again_value (list xs) = refl
    again_value (dict fs) = ap dict (again fs)

  -- a field of a dictionary is where it was
  pub get_field-sanitize :
      (k : String) (fs : Fields)
      → get_field k (sanitize lower fs)
        ≡ Option.map
            (λ v. if is_sensitive lower k then redacted else sanitize_value lower v)
            (get_field k fs)
  unfolding sanitize
  get_field-sanitize k no_fields = refl
  get_field-sanitize k (field j v fs) = elim (Bool-cases (str_eq j k)) [
    | inl h ↦ let same = (eq_iff j k).0 h in rw (same, (eq_iff k k).1 refl) refl
    | inr h ↦ rw h (get_field-sanitize k fs)
  ]

  -- What the audit log keeps of a dictionary has the value of each sensitive key redacted, in the
  -- dictionaries inside it too, however deep, but not in lists; every other key keeps its value, with
  -- a dictionary there cleaned alike, and no key is added or lost; cleaning it again changes
  -- nothing.
  pub sanitize-IsClean :
      (k : String) (fs : Fields)
      → IsClean (sanitize lower fs)
        × (get_field k (sanitize lower fs)
            ≡ Option.map
                (λ v. if is_sensitive lower k then redacted else sanitize_value lower v)
                (get_field k fs))
        × (sanitize lower (sanitize lower fs) ≡ sanitize lower fs)
  sanitize-IsClean k fs = (clean fs, get_field-sanitize k fs, again fs)
