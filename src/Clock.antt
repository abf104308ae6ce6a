-- ===== src/Clock.antt =====
-- The clock times of backend/app/core/time.py, which organizers type and players read. A text is the
-- list of its code points; which of them Unicode counts as decimal digits (`\d`), and their values,
-- is a parameter.
pub mod Reading
use free_fire_room.Prelude.{
  ℕ, zero, suc, ◌+◌, ◌-◌, ◌*◌, ◌/◌, ◌%◌, Bool, true, false, ◌&&◌, ◌||◌, Option, none, some, List,
  [], ◌∷◌, ◌++◌, map, leb, ◌==◌, if◌then◌else◌, is_space, Chars, starts_with, strip_text, select,
  not,
}

-- '0' is 48, the Persian digits begin at 1776, the Arabic ones at 1632
abbrev pub fa_digit : ℕ → ℕ
fa_digit c = if leb 48 c && leb c 57 then c - 48 + 1776 else c

abbrev pub en_digit : ℕ → ℕ
en_digit c =
    if leb 1776 c && leb c 1785
    then c - 1776 + 48
    else if leb 1632 c && leb c 1641
    then c - 1632 + 48
    else c

-- `text.translate(_FA_DIGITS)`
unfoldable pub to_fa_digits : Chars → Chars
to_fa_digits t = map fa_digit t

-- `text.translate(_EN_DIGITS)`
unfoldable pub to_en_digits : Chars → Chars
to_en_digits t = map en_digit t

-- the Persian word for the hour
abbrev pub hour_word : Chars
hour_word = 1587 ∷ 1575 ∷ 1593 ∷ 1578 ∷ []

-- the rest of a text of which `n` more characters belong to a word that is replaced already
abbrev pub replace_from : ℕ → Chars → Chars
replace_from n [] = []
replace_from (suc n) (c ∷ t) = replace_from n t
replace_from zero (c ∷ t) =
    let kept = c ∷ replace_from 0 t in
    let replaced = 32 ∷ replace_from 3 t in if starts_with (c ∷ t) hour_word then replaced else kept

-- `.replace(word, " ")`
unfoldable pub replace_word : Chars → Chars
replace_word t = replace_from 0 t

-- `.replace(".", ":").replace("،", ":")`: the full stop and the Arabic comma
abbrev pub to_colon : ℕ → ℕ
to_colon c = if c == 46 || c == 1548 then 58 else c

-- what `parse_clock` looks at: `re.sub(r"\s+", "", …)` of the replaced text
unfoldable pub tidy : Chars → Chars
unfolding to_en_digits replace_word
tidy t = select (λ c. not (is_space c)) (map to_colon (replace_word (to_en_digits (strip_text t))))

module _ (digit : ℕ → Option ℕ) where
  -- the value of two digits
  unfoldable pub two : ℕ → ℕ → Option ℕ
  two a b = elim (digit a) [
    | none ↦ none
    | some x ↦ elim (digit b) [ none ↦ none | some y ↦ some (x * 10 + y) ]
  ]

  abbrev pub pair : Option ℕ → Option ℕ → Option (ℕ × ℕ)
  pair (some h) (some m) = some (h, m)
  pair _ _ = none

  -- the hour and the minute of the patterns that `re.fullmatch` tries: one or two digits, one or
  -- two digits with a colon and two more, three or four digits
  unfoldable pub read_clock : Chars → Option (ℕ × ℕ)
  unfolding two
  read_clock (a ∷ []) = pair (digit a) (some 0)
  read_clock (a ∷ b ∷ []) = pair (two a b) (some 0)
  read_clock (a ∷ b ∷ c ∷ []) = pair (digit a) (two b c)
  read_clock (a ∷ b ∷ c ∷ d ∷ []) =
      if b == 58 then pair (digit a) (two c d) else pair (two a b) (two c d)
  read_clock (a ∷ b ∷ c ∷ d ∷ e ∷ []) = if c == 58 then pair (two a b) (two d e) else none
  read_clock _ = none

  -- none is the ValueError
  abbrev pub in_range : Option (ℕ × ℕ) → Option (ℕ × ℕ)
  in_range none = none
  in_range (some (h, m)) = if leb h 23 && leb m 59 then some (h, m) else none

  unfoldable pub parse_clock : Chars → Option (ℕ × ℕ)
  unfolding read_clock tidy
  parse_clock t = in_range (read_clock (tidy t))

-- two decimal places, `:02d` of a number below 100
abbrev pub two_places : ℕ → Chars
two_places n = (48 + n / 10) ∷ (48 + n % 10) ∷ []

-- the clock that `format_when_line` writes
unfoldable pub clock_text : ℕ → ℕ → Chars
unfolding to_fa_digits
clock_text h m = to_fa_digits (two_places h ++ (58 ∷ two_places m))
