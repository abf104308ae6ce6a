-- ===== src/Clock/Reading.antt =====
-- What the bot writes, it reads.
use free_fire_room.Prelude.{
  ℕ, ◌+◌, ◌*◌, ◌/◌, ◌%◌, ◌<◌, ◌≡◌, refl, ◌∙◌, ap, true, false, not, Option, some, [], ◌∷◌, map, leb,
  ◌==◌, is_space, Chars, strip_text-plain, select, any, arith,
}
use free_fire_room.Clock.{
  fa_digit, en_digit, to_fa_digits, to_en_digits, replace_word, to_colon, tidy, two, read_clock,
  in_range, parse_clock, clock_text,
}

fa_digit-plus : (d : ℕ) → d < 10 → fa_digit (48 + d) ≡ 1776 + d
fa_digit-plus d h = ground arith

en_digit-plus : (d : ℕ) → d < 10 → en_digit (1776 + d) ≡ 48 + d
en_digit-plus d h = ground arith

fa_not_space : (d : ℕ) → d < 10 → is_space (1776 + d) ≡ false
fa_not_space d h = ground arith

en_not_space : (d : ℕ) → d < 10 → is_space (48 + d) ≡ false
en_not_space d h = ground arith

en_not_word : (d : ℕ) → d < 10 → (48 + d == 1587) ≡ false
en_not_word d h = ground arith

to_colon-plus : (d : ℕ) → d < 10 → to_colon (48 + d) ≡ 48 + d
to_colon-plus d h = ground arith

-- the digits of a clock, written in Persian and in ASCII
abbrev fa_clock : ℕ → ℕ → ℕ → ℕ → Chars
fa_clock a b c d = (1776 + a) ∷ (1776 + b) ∷ 58 ∷ (1776 + c) ∷ (1776 + d) ∷ []

abbrev en_clock : ℕ → ℕ → ℕ → ℕ → Chars
en_clock a b c d = (48 + a) ∷ (48 + b) ∷ 58 ∷ (48 + c) ∷ (48 + d) ∷ []

module _ (a b c d : ℕ) (ha : a < 10) (hb : b < 10) (hc : c < 10) (hd : d < 10) where
  written : to_fa_digits (en_clock a b c d) ≡ fa_clock a b c d
  unfolding to_fa_digits
  written = rw (fa_digit-plus a ha, fa_digit-plus b hb, fa_digit-plus c hc, fa_digit-plus d hd) refl

  plain : any is_space (fa_clock a b c d) ≡ false
  plain = rw (fa_not_space a ha, fa_not_space b hb, fa_not_space c hc, fa_not_space d hd) refl

  translated : to_en_digits (fa_clock a b c d) ≡ en_clock a b c d
  unfolding to_en_digits
  translated =
      rw (en_digit-plus a ha, en_digit-plus b hb, en_digit-plus c hc, en_digit-plus d hd) refl

  no_word : replace_word (en_clock a b c d) ≡ en_clock a b c d
  unfolding replace_word
  no_word = rw (en_not_word a ha, en_not_word b hb, en_not_word c hc, en_not_word d hd) refl

  colons : map to_colon (en_clock a b c d) ≡ en_clock a b c d
  colons = rw (to_colon-plus a ha, to_colon-plus b hb, to_colon-plus c hc, to_colon-plus d hd) refl

  no_spaces : select (λ x. not (is_space x)) (en_clock a b c d) ≡ en_clock a b c d
  no_spaces = rw (en_not_space a ha, en_not_space b hb, en_not_space c hc, en_not_space d hd) refl

  tidied : tidy (fa_clock a b c d) ≡ en_clock a b c d
  unfolding tidy
  tidied =
      let keep : Chars → Chars = λ t. select (λ x. not (is_space x)) t in
      ap (λ (t : Chars). keep (map to_colon (replace_word (to_en_digits t))))
        (strip_text-plain (fa_clock a b c d) plain)
      ∙ ap (λ (t : Chars). keep (map to_colon (replace_word t))) translated
      ∙ ap (λ (t : Chars). keep (map to_colon t)) no_word
      ∙ ap keep colons
      ∙ no_spaces

read_back :
    (digit : ℕ → Option ℕ) (h m : ℕ)
    → ((d : ℕ) → d < 10 → digit (48 + d) ≡ some d)
    → h < 24
    → m < 60
    → in_range digit (read_clock digit (en_clock (h / 10) (h % 10) (m / 10) (m % 10))) ≡ some (h, m)
unfolding read_clock two
read_back digit h m ascii hh hm =
    let a = ascii (h / 10) (omega arith) in
    let b = ascii (h % 10) (omega arith) in
    let c = ascii (m / 10) (omega arith) in
    let d = ascii (m % 10) (omega arith) in
    let hour_back : h / 10 * 10 + h % 10 ≡ h = omega arith in
    let minute_back : m / 10 * 10 + m % 10 ≡ m = omega arith in
    let h_ok : leb h 23 ≡ true = ground arith in
    let m_ok : leb m 59 ≡ true = ground arith in
    rw (read_clock, two, a, b, c, d, hour_back, minute_back, h_ok, m_ok) refl

-- A clock time that the bot writes, in Persian digits, is read back as the same hour and minute, for each
-- of the 1440 minutes of a day. It supposes that the ten ASCII digits are decimal digits with their
-- values.
pub parse_clock-clock_text :
    (digit : ℕ → Option ℕ) (h m : ℕ)
    → ((d : ℕ) → d < 10 → digit (48 + d) ≡ some d)
    → h < 24
    → m < 60
    → parse_clock digit (clock_text h m) ≡ some (h, m)
unfolding parse_clock clock_text
parse_clock-clock_text digit h m ascii hh hm =
    let ha : h / 10 < 10 = omega arith in
    let hb : h % 10 < 10 = omega arith in
    let hc : m / 10 < 10 = omega arith in
    let hd : m % 10 < 10 = omega arith in
    ap (λ (t : Chars). parse_clock digit t)
      (written (h / 10) (h % 10) (m / 10) (m % 10) ha hb hc hd)
    ∙ ap (λ (t : Chars). in_range digit (read_clock digit t))
        (tidied (h / 10) (h % 10) (m / 10) (m % 10) ha hb hc hd)
    ∙ read_back digit h m ascii hh hm
