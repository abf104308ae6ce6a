-- ===== src/Reports/Texts.antt =====
-- The texts of backend/app/services/reports.py as lists of code points. What Unicode's tables say of
-- upper and lower case is a parameter.
use free_fire_room.Prelude.{
  if◌then◌else◌, Option, none, some, List, [], ◌∷◌, ◌++◌, length, take, drop, Chars, starts_with,
  strip_text,
}
use free_fire_room.Model.{ReportReason}

abbrev pub name_prefix : Chars
name_prefix = 1606 ∷ 1575 ∷ 1605 ∷ 32 ∷ 1670 ∷ 1740 ∷ 1578 ∷ 1585 ∷ 58 ∷ []

abbrev pub short_prefix : Chars
short_prefix = 1670 ∷ 1740 ∷ 1578 ∷ 1585 ∷ 58 ∷ []

abbrev pub english_prefix : Chars
english_prefix = 99 ∷ 104 ∷ 101 ∷ 97 ∷ 116 ∷ 101 ∷ 114 ∷ 58 ∷ []

-- the start of a stored report on a cheater
abbrev pub body_prefix : Chars
body_prefix = 1606 ∷ 1575 ∷ 1605 ∷ 32 ∷ 1670 ∷ 1740 ∷ 1578 ∷ 1585 ∷ 58 ∷ 32 ∷ []

-- REPORT_LABELS
unfoldable pub report_label : ReportReason → Chars
report_label ReportReason.no_credentials =
    82 ∷ 79 ∷ 79 ∷ 77 ∷ 32 ∷ 73 ∷ 68 ∷ 32 ∷ 47 ∷ 32 ∷ 80 ∷ 65 ∷ 83 ∷ 83 ∷ 32 ∷ 1585 ∷ 1575 ∷ 32
    ∷ 1587 ∷ 1585 ∷ 32 ∷ 1587 ∷ 1575 ∷ 1593 ∷ 1578 ∷ 32 ∷ 1606 ∷ 1601 ∷ 1585 ∷ 1587 ∷ 1578 ∷ 1575
    ∷ 1583 ∷ []
report_label ReportReason.unpaid_prize =
    1576 ∷ 1593 ∷ 1583 ∷ 32 ∷ 1575 ∷ 1586 ∷ 32 ∷ 1705 ∷ 1575 ∷ 1587 ∷ 1578 ∷ 1608 ∷ 1605 ∷ 32 ∷ 1580
    ∷ 1575 ∷ 1740 ∷ 1586 ∷ 1607 ∷ 32 ∷ 1585 ∷ 1575 ∷ 32 ∷ 1606 ∷ 1583 ∷ 1575 ∷ 1583 ∷ []
report_label ReportReason.wrong_room =
    82 ∷ 79 ∷ 79 ∷ 77 ∷ 32 ∷ 73 ∷ 68 ∷ 32 ∷ 1740 ∷ 1575 ∷ 32 ∷ 80 ∷ 65 ∷ 83 ∷ 83 ∷ 32 ∷ 1575 ∷ 1588
    ∷ 1578 ∷ 1576 ∷ 1575 ∷ 1607 ∷ 32 ∷ 1576 ∷ 1608 ∷ 1583 ∷ []
report_label ReportReason.fake_prize =
    1580 ∷ 1575 ∷ 1740 ∷ 1586 ∷ 1607 ∷ 32 ∷ 1583 ∷ 1585 ∷ 1608 ∷ 1594 ∷ 32 ∷ 47 ∷ 32 ∷ 1705 ∷ 1575
    ∷ 1587 ∷ 1578 ∷ 1608 ∷ 1605 ∷ 32 ∷ 1580 ∷ 1593 ∷ 1604 ∷ 1740 ∷ []
report_label ReportReason.fake_organizer =
    1576 ∷ 1585 ∷ 1711 ∷ 1586 ∷ 1575 ∷ 1585 ∷ 1705 ∷ 1606 ∷ 1606 ∷ 1583 ∷ 1607 ∷ 32 ∷ 1580 ∷ 1593
    ∷ 1604 ∷ 1740 ∷ []
report_label ReportReason.sudden_rule_change =
    1602 ∷ 1608 ∷ 1575 ∷ 1606 ∷ 1740 ∷ 1606 ∷ 32 ∷ 1585 ∷ 1575 ∷ 32 ∷ 1606 ∷ 1575 ∷ 1711 ∷ 1607
    ∷ 1575 ∷ 1606 ∷ 32 ∷ 1593 ∷ 1608 ∷ 1590 ∷ 32 ∷ 1705 ∷ 1585 ∷ 1583 ∷ []
report_label ReportReason.cheater =
    1670 ∷ 1740 ∷ 1578 ∷ 1585 ∷ 32 ∷ 1583 ∷ 1585 ∷ 32 ∷ 1705 ∷ 1575 ∷ 1587 ∷ 1578 ∷ 1608 ∷ 1605 ∷ []
report_label ReportReason.inappropriate =
    1605 ∷ 1581 ∷ 1578 ∷ 1608 ∷ 1575 ∷ 1740 ∷ 32 ∷ 1606 ∷ 1575 ∷ 1605 ∷ 1606 ∷ 1575 ∷ 1587 ∷ 1576
    ∷ []
report_label ReportReason.other = 1605 ∷ 1608 ∷ 1585 ∷ 1583 ∷ 32 ∷ 1583 ∷ 1740 ∷ 1711 ∷ 1585 ∷ []

-- the text without the prefix, if it starts with it whatever the case
abbrev pub without : (Chars → Chars) → Chars → Chars → Option Chars
without lower t p =
    if starts_with (lower t) (lower p) then some (strip_text (drop (length p) t)) else none

abbrev pub first_without : (Chars → Chars) → Chars → List Chars → Chars
first_without lower t [] = t
first_without lower t (p ∷ ps) = elim (without lower t p) [
  | some rest ↦ rest
  | none ↦ first_without lower t ps
]

unfoldable pub normalize_cheater_name : (Chars → Chars) → Chars → Chars
normalize_cheater_name lower t =
    take 48 (first_without lower (strip_text t) (name_prefix ∷ short_prefix ∷ english_prefix ∷ []))

unfoldable pub format_cheater_body : (Chars → Chars) → Chars → Chars
unfolding normalize_cheater_name
format_cheater_body lower name = body_prefix ++ normalize_cheater_name lower name
