-- ===== src/Reports.antt =====
-- The reports of players, the rest of backend/app/services/reports.py: which reports are accepted,
-- and how many.
pub mod Texts
pub mod Limits
use free_fire_room.Prelude.{
  ℕ, Bool, true, false, not, ◌&&◌, ◌||◌, Option, none, some, List, [], ◌∷◌, String, str_eq, ltb,
  leb, ◌==◌, if◌then◌else◌, is_some, find, any, count, select, insert, length, take, map, Chars,
  same_text, strip_text, Reply, ok, raised,
}
use free_fire_room.Model.{
  Settings, ReportReason, ReportStatus, is_cheater, Event, User, RoomCredential, Organizer, Report,
  Db, organizer_id,
}
use free_fire_room.Windows.{credentials_window_open, creds_were_provided}
use free_fire_room.Lifecycle.{creds_of}
use free_fire_room.Reviews.{is_own, organizer_of}
use free_fire_room.Reports.Texts.{report_label, normalize_cheater_name, format_cheater_body}

abbrev pub cheater_report_limit : ℕ
cheater_report_limit = 5

-- `ReportReason(reason)`
abbrev pub reason_of : String → Option ReportReason
reason_of t =
    if str_eq t "no_credentials"
    then some ReportReason.no_credentials
    else if str_eq t "fake_prize"
    then some ReportReason.fake_prize
    else if str_eq t "fake_organizer"
    then some ReportReason.fake_organizer
    else if str_eq t "wrong_room"
    then some ReportReason.wrong_room
    else if str_eq t "sudden_rule_change"
    then some ReportReason.sudden_rule_change
    else if str_eq t "unpaid_prize"
    then some ReportReason.unpaid_prize
    else if str_eq t "cheater"
    then some ReportReason.cheater
    else if str_eq t "inappropriate"
    then some ReportReason.inappropriate
    else if str_eq t "other"
    then some ReportReason.other
    else none

-- PLAYER_REASONS
abbrev pub is_player_reason : ReportReason → Bool
is_player_reason ReportReason.no_credentials = true
is_player_reason ReportReason.unpaid_prize = true
is_player_reason ReportReason.wrong_room = true
is_player_reason ReportReason.fake_prize = true
is_player_reason ReportReason.cheater = true
is_player_reason ReportReason.other = true
is_player_reason _ = false

-- the answers of `create_player_report`, one for each text
pub data ReportError : Type 0 where
  invalid_reason not_for_players own_event name_too_short not_started too_many_cheaters
        same_cheater :
      ReportError
  already_reported window_still_open credentials_were_provided : ReportError

unfoldable pub event_missed_credentials : Settings → ℕ → Event → Db → Bool
event_missed_credentials s now e db =
    if credentials_window_open s e now
    then false
    else not (creds_were_provided (find (creds_of e.id) db.credentials))

abbrev pub reported_by : ℕ → ℕ → Report → Bool
reported_by user_id event_id r = r.reporter_id == user_id && r.event_id == event_id

abbrev pub is_cheater_report : ℕ → ℕ → Report → Bool
is_cheater_report user_id event_id r = reported_by user_id event_id r && is_cheater r.reason

abbrev pub is_other_report : ℕ → ℕ → Report → Bool
is_other_report user_id event_id r = reported_by user_id event_id r && not (is_cheater r.reason)

unfoldable pub existing_user_report : Db → ℕ → ℕ → Option Report
existing_user_report db user_id event_id = find (is_other_report user_id event_id) db.reports

unfoldable pub cheater_reports_for_user : Db → ℕ → ℕ → List Report
cheater_reports_for_user db user_id event_id =
    select (is_cheater_report user_id event_id) db.reports

module _ (s : Settings) (lower casefold : Chars → Chars) where
  -- the checks on a report about a cheater, with the body that is stored
  unfoldable pub check_cheater : ℕ → User → Event → Chars → Db → Reply Chars ReportError
  unfolding cheater_reports_for_user
  check_cheater now user e body db =
      let name = normalize_cheater_name lower body in
      let earlier = cheater_reports_for_user db user.id e.id in
      if ltb (length name) 2
      then raised name_too_short
      else if ltb now e.starts_at
      then raised not_started
      else if leb cheater_report_limit (length earlier)
      then raised too_many_cheaters
      else if any (λ r. same_text (casefold name) (casefold (normalize_cheater_name lower r.body)))
          earlier
      then raised same_cheater
      else ok (format_cheater_body lower name)

  -- the checks on any other report
  unfoldable pub check_other : User → Event → Chars → Db → Reply Chars ReportError
  unfolding existing_user_report
  check_other user e body db =
      if is_some (existing_user_report db user.id e.id) then raised already_reported else ok body

  -- the checks that depend on the reason
  unfoldable pub check_reason : ℕ → Event → ReportReason → Db → Option ReportError
  unfolding event_missed_credentials
  check_reason now e ReportReason.no_credentials db =
      if credentials_window_open s e now
      then some window_still_open
      else if not (event_missed_credentials s now e db)
      then some credentials_were_provided
      else none
  check_reason now e ReportReason.unpaid_prize db =
      if ltb now e.starts_at then some not_started else none
  check_reason now e ReportReason.wrong_room db =
      if credentials_window_open s e now then some window_still_open else none
  check_reason now e _ db = none

  -- `(body or "").strip() or report_label(reason)`, at most 4000 characters
  unfoldable pub body_of : ReportReason → Chars → Chars
  body_of reason body =
      let kept = strip_text body in
      take 4000 (if same_text kept [] then report_label reason else kept)

  abbrev pub new_report : User → Event → ReportReason → Chars → Report
  new_report user e reason body = record {
    reporter_id = user.id;
    event_id = e.id;
    organizer_id = e.organizer_id;
    reason = reason;
    body = body_of reason body;
    status = ReportStatus.new;
  }

  unfoldable pub file_report :
      ℕ → User → Event → ReportReason → Reply Chars ReportError → Db → Reply Report ReportError × Db
  file_report now user e reason (raised x) db = (raised x, db)
  file_report now user e reason (ok body) db = elim (check_reason now e reason db) [
    | some x ↦ (raised x, db)
    | none ↦
        let r = new_report user e reason body in (ok r, record db { reports = insert r db.reports })
  ]

  -- `body` is `body or ""`
  unfoldable pub create_player_report :
      ℕ → User → Event → String → Chars → Db → Reply Report ReportError × Db
  unfolding file_report
  create_player_report now user e reason body db = elim (reason_of reason) [
    | none ↦ (raised invalid_reason, db)
    | some t ↦
        if not (is_player_reason t)
        then (raised not_for_players, db)
        else if not (is_cheater t) && is_own (organizer_of e db) user.id
        then (raised own_event, db)
        else if is_cheater t
        then file_report now user e t (check_cheater now user e body db) db
        else file_report now user e t (check_other user e body db) db
  ]
