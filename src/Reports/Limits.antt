-- ===== src/Reports/Limits.antt =====
-- How many reports of one player an event can have.
use free_fire_room.Prelude.{
  ℕ, ◌≤◌, ◌<◌, ◌≡◌, refl, ap, subst, inl, inr, Bool, true, false, not, ◌&&◌, List, [], ◌∷◌, String,
  is_some, b2n, find, count, count-insert, select, insert, length, Chars, Reply, ok, raised,
  Option-cases, Bool-cases, if_both, if_cases, arith,
}
use free_fire_room.Model.{Settings, ReportReason, is_cheater, Event, User, Report, Db}
use free_fire_room.Reviews.{is_own, organizer_of}
use free_fire_room.Reports.{
  ReportError, reported_by, is_cheater_report, is_other_report, existing_user_report,
  cheater_reports_for_user, check_cheater, check_other, check_reason, new_report, file_report,
  create_player_report, reason_of, is_player_reason,
}

-- at most five reports on cheaters and one other, for each player and event
abbrev pub IsLimited : List Report → Type 0
IsLimited rs =
    (u k : ℕ) → (count (is_cheater_report u k) rs ≤ 5) × (count (is_other_report u k) rs ≤ 1)

-- one more report of this kind keeps to the limits
abbrev pub HasRoom : ReportReason → ℕ → ℕ → List Report → Type 0
HasRoom t u k rs =
    (is_cheater t ≡ true → count (is_cheater_report u k) rs < 5)
    × (is_cheater t ≡ false → count (is_other_report u k) rs ≡ 0)

insert_own :
    (r : Report) (u k : ℕ) (rs : List Report)
    → reported_by u k r ≡ true
    → HasRoom r.reason u k rs
    → (count (is_cheater_report u k) rs ≤ 5) × (count (is_other_report u k) rs ≤ 1)
    → (count (is_cheater_report u k) (insert r rs) ≤ 5)
      × (count (is_other_report u k) (insert r rs) ≤ 1)
insert_own r u k rs own room h =
    let a = count-insert (is_cheater_report u k) r rs in
    let b = count-insert (is_other_report u k) r rs in
    elim (Bool-cases (is_cheater r.reason)) [
      | inl c ↦
          let x : is_cheater_report u k r ≡ true = rw (own, c) refl in
          let y : is_other_report u k r ≡ false = rw (own, c) refl in
          let p = ap b2n x in let q = ap b2n y in let free = room.0 c in (omega arith, omega arith)
      | inr c ↦
          let x : is_cheater_report u k r ≡ false = rw (own, c) refl in
          let y : is_other_report u k r ≡ true = rw (own, c) refl in
          let p = ap b2n x in let q = ap b2n y in let free = room.1 c in (omega arith, omega arith)
    ]

insert_other :
    (r : Report) (u k : ℕ) (rs : List Report)
    → reported_by u k r ≡ false
    → (count (is_cheater_report u k) rs ≤ 5) × (count (is_other_report u k) rs ≤ 1)
    → (count (is_cheater_report u k) (insert r rs) ≤ 5)
      × (count (is_other_report u k) (insert r rs) ≤ 1)
insert_other r u k rs other h =
    let a = count-insert (is_cheater_report u k) r rs in
    let b = count-insert (is_other_report u k) r rs in
    let x : is_cheater_report u k r ≡ false = rw other refl in
    let y : is_other_report u k r ≡ false = rw other refl in
    let p = ap b2n x in let q = ap b2n y in (omega arith, omega arith)

insert-IsLimited :
    (r : Report) (rs : List Report)
    → HasRoom r.reason r.reporter_id r.event_id rs
    → IsLimited rs
    → IsLimited (insert r rs)
insert-IsLimited r rs room h u k = elim (Bool-cases (reported_by u k r)) [
  | inl own ↦
      let at : (r.reporter_id ≡ u) × (r.event_id ≡ k) = ground arith in
      insert_own r u k rs own
        (subst (λ j. HasRoom r.reason u j rs) at.1
          (subst (λ j. HasRoom r.reason j r.event_id rs) at.0 room))
        (h u k)
  | inr other ↦ insert_other r u k rs other (h u k)
]

length-select {ℓ} : {A : Type ℓ} (p : A → Bool) (xs : List A) → length (select p xs) ≡ count p xs
length-select p [] = refl
length-select p (x ∷ xs) = ground (arith, length-select p xs)

count_none {ℓ} :
    {A : Type ℓ} (p : A → Bool) (xs : List A) → is_some (find p xs) ≡ false → count p xs ≡ 0
count_none p [] h = refl
count_none p (x ∷ xs) h = ground (arith, count_none p xs)

module _ (s : Settings) (lower casefold : Chars → Chars) (now : ℕ) (user : User) (e : Event)
    (db : Db) where
  check_cheater-room :
      (body kept : Chars)
      → check_cheater s lower casefold now user e body db ≡ ok kept
      → count (is_cheater_report user.id e.id) db.reports < 5
  unfolding check_cheater cheater_reports_for_user
  check_cheater-room body kept h =
      let n = length-select (is_cheater_report user.id e.id) db.reports in ground arith

  check_other-room :
      (body kept : Chars)
      → check_other s lower casefold user e body db ≡ ok kept
      → count (is_other_report user.id e.id) db.reports ≡ 0
  unfolding check_other existing_user_report
  check_other-room body kept h = count_none (is_other_report user.id e.id) db.reports (ground arith)

  file_report-IsLimited :
      (t : ReportReason) (checked : Reply Chars ReportError)
      → IsLimited db.reports
      → ((body : Chars) → checked ≡ ok body → HasRoom t user.id e.id db.reports)
      → IsLimited (file_report s lower casefold now user e t checked db).1.reports
  unfolding file_report
  file_report-IsLimited t (raised x) h room = h
  file_report-IsLimited t (ok body) h room =
      elim (Option-cases (check_reason s lower casefold now e t db)) [
        | inr (x, bad) ↦ rw (file_report, bad) h
        | inl fine ↦
            rw (file_report, fine)
              (insert-IsLimited (new_report s lower casefold user e t body) db.reports
                (room body refl) h)
      ]

-- If no event has more than five reports on cheaters and one other report of one player, then it is
-- so after a call of create_player_report, the bot's way to report, whatever it answers. The web
-- route POST /reports stores reports without this function, and is not covered.
pub create_player_report-IsLimited :
    (s : Settings) (lower casefold : Chars → Chars) (now : ℕ) (user : User) (e : Event)
    (reason : String) (body : Chars) (db : Db)
    → IsLimited db.reports
    → IsLimited (create_player_report s lower casefold now user e reason body db).1.reports
unfolding create_player_report
create_player_report-IsLimited s lower casefold now user e reason body db h =
    let P : Reply Report ReportError × Db → Type 0 = λ x. IsLimited x.1.reports in
    elim (Option-cases (reason_of reason)) [
      | inl gone ↦ rw (create_player_report, gone) h
      | inr (t, f) ↦
          rw (create_player_report, f)
            (if_both P (not (is_player_reason t)) _ _ h (
              if_both P (not (is_cheater t) && is_own (organizer_of e db) user.id) _ _ h (
                if_cases P (is_cheater t) _ _
                  (λ c.
                    file_report-IsLimited s lower casefold now user e db t
                      (check_cheater s lower casefold now user e body db) h
                      (λ kept q. (
                        (λ _. check_cheater-room s lower casefold now user e db body kept q),
                        (λ n. absurd (ground arith)),
                      )))
                  (λ c.
                    file_report-IsLimited s lower casefold now user e db t
                      (check_other s lower casefold user e body db) h
                      (λ kept q. (
                        (λ y. absurd (ground arith)),
                        (λ _. check_other-room s lower casefold now user e db body kept q),
                      ))))))
    ]
