-- ===== src/Registration/Outcome.antt =====
-- Who gets a seat, and who comes back to the waitlist in vain.
use free_fire_room.Prelude.{
  ℕ, ◌≡◌, Bool, true, false, not, ◌||◌, Option, none, some, List, String, if◌then◌else◌, if_both,
  if_cases, is_some, find, insert, Reply, ok, raised, arith,
}
use free_fire_room.Model.{Settings, BanScope, is_confirmed, is_open, Event, Registration, User, Db}
use free_fire_room.Bans.{is_banned}
use free_fire_room.Windows.{join_window_open}
use free_fire_room.Telegram.{Bot}
use free_fire_room.Requirements.{CheckItem, evaluate_requirements}
use free_fire_room.Registration.{
  Error, registration_closed, event_not_open, event_not_found, user_banned, pending_row,
  rejected_row, merge_registration_source, already_registered, event_full, RegisterResult, of_pair,
  save, has_seat, any_rejected, any_hard_missing, confirm, join_waitlist, allot, decide, admit,
  holds_place, merged_row, new_holder, enrol, register_user,
}

-- the player is in
abbrev pub IsSeated : Reply RegisterResult Error → Type 0
IsSeated (ok r) = is_confirmed r.registration.status ≡ true
IsSeated (raised _) = ⊥

-- the checklist that the player is shown has nothing rejected, and misses nothing but a seat
abbrev pub IsClear : Reply RegisterResult Error → Type 0
IsClear (ok r) = (any_rejected r.checklist ≡ false) × (any_hard_missing r.checklist ≡ false)
IsClear (raised _) = Unit

-- the event that the lock reads has a seat
abbrev pub HasSeat : Option Event → Type 0
HasSeat none = ⊥
HasSeat (some locked) = has_seat locked ≡ true

-- what a seat means, of a reply and the database that comes with it
abbrev Means : Option Event → Reply RegisterResult Error × Db → Type 0
Means l x = IsSeated x.0 → HasSeat l × IsClear x.0

-- nobody is in on the waitlist
join_waitlist-Means :
    (before : Db) (user : User) (e : Event) (r : Registration) (items : List CheckItem) (db : Db)
    → Means (some e) (join_waitlist before user e r items db)
unfolding join_waitlist
join_waitlist-Means before user e r items db h = absurd (ground arith)

allot-Means :
    (now : ℕ) (before : Db) (user : User) (l : Option Event) (r : Registration)
    (items : List CheckItem) (db : Db)
    → any_rejected items ≡ false
    → any_hard_missing items ≡ false
    → Means l (allot now before user l r items db)
unfolding allot confirm
allot-Means now before user none r items db a b = λ h. absurd h
allot-Means now before user (some e) r items db a b =
    if_cases (Means (some e)) (has_seat e) (confirm now user e r items db)
      (if e.waitlist_enabled
        then join_waitlist before user e r items db
        else (raised event_full, db))
      (λ seat h. (seat, clear h))
      (λ full.
        if_both (Means (some e)) e.waitlist_enabled (join_waitlist before user e r items db)
          (raised event_full, db) waits (λ h. absurd h))
  where
    clear : IsSeated (confirm now user e r items db).0 → IsClear (confirm now user e r items db).0
    clear h = (a, b)

    waits : Means (some e) (join_waitlist before user e r items db)
    waits = join_waitlist-Means before user e r items db

decide-Means :
    (now : ℕ) (before : Db) (user : User) (event : Event) (r : Registration)
    (items : List CheckItem) (db : Db)
    → Means (db.events event.id) (decide now before user event r items db)
unfolding decide
decide-Means now before user event r items db =
    let P = Means (db.events event.id) in
    let rejected = rejected_row r in
    let pending = pending_row r in
    if_cases P (any_rejected items)
      (
        ok (record { registration = rejected; waitlisted = false; checklist = items }),
        save rejected db,
      )
      (if any_hard_missing items
        then (
          ok (record { registration = pending; waitlisted = false; checklist = items }),
          save pending db,
        )
        else allot now before user (db.events event.id) r items db)
      (λ _ h. absurd (ground arith))
      (λ a.
        if_cases P (any_hard_missing items)
          (
            ok (record { registration = pending; waitlisted = false; checklist = items }),
            save pending db,
          )
          (allot now before user (db.events event.id) r items db) (λ _ h. absurd (ground arith))
          (λ b. allot-Means now before user (db.events event.id) r items db a b))

enrol-Means :
    (now : ℕ) (bot : Option Bot) (user : User) (event : Event) (source : Option String)
    (accept : Bool) (fresh : ℕ) (found : Option Registration) (db : Db)
    → Means (db.events event.id) (enrol now bot user event source accept fresh found db)
unfolding enrol admit
enrol-Means now bot user event source accept fresh none db =
    let holder = new_holder fresh event.id user.id now source accept in
    let stored = record db { registrations = insert holder db.registrations } in
    decide-Means now db user event holder
      (evaluate_requirements now bot stored user event (some holder)).items stored
enrol-Means now bot user event source accept fresh (some r) db =
    let kept = record r { source = merge_registration_source r.source source } in
    let holder = merged_row now source accept r in
    if_both (Means (db.events event.id)) (holds_place r.status)
      (raised already_registered, save kept db)
      (admit now bot db user event holder (save holder db)) (λ h. absurd h)
      (decide-Means now db user event holder
        (evaluate_requirements now bot (save holder db) user event (some holder)).items
        (save holder db))

-- the reply says that the player is in, so no guard refused
abbrev Passed : Settings → ℕ → User → Event → Db → Reply RegisterResult Error × Db → Type 0
Passed s now user event db x =
    IsSeated x.0
    → (is_banned now db user BanScope.participate ≡ none)
      × (is_open event.status ≡ true)
      × (join_window_open s event now ≡ true)
      × HasSeat (db.events event.id)
      × IsClear x.0

-- Whoever a registration confirms is not banned, finds the event open and its joining window open,
-- finds a seat in the row of the event that the lock reads, and is shown a checklist on which
-- nothing is rejected and nothing but a seat is missing.
pub register_user-confirmed :
    (s : Settings) (now : ℕ) (bot : Option Bot) (user : User) (event : Event)
    (source : Option String) (accept : Bool) (fresh : ℕ) (db : Db)
    → IsSeated (register_user s now bot user event source accept fresh db).0
    → (is_banned now db user BanScope.participate ≡ none)
      × (is_open event.status ≡ true)
      × (join_window_open s event now ≡ true)
      × HasSeat (db.events event.id)
      × IsClear (register_user s now bot user event source accept fresh db).0
unfolding register_user
register_user-confirmed s now bot user event source accept fresh db =
    let P = Passed s now user event db in
    let enrolled =
      enrol now bot user event source accept fresh
        (find (of_pair event.id user.id) db.registrations) db in
    if_cases P (is_some (is_banned now db user BanScope.participate)) (raised user_banned, db)
      (if is_some event.deleted_at || not event.deep_link_active
        then (raised event_not_found, db)
        else if not (is_open event.status)
        then (raised event_not_open, db)
        else if not (join_window_open s event now)
        then (raised registration_closed, db)
        else enrolled)
      (λ _ h. absurd h)
      (λ a.
        if_both P (is_some event.deleted_at || not event.deep_link_active)
          (raised event_not_found, db)
          (if not (is_open event.status)
            then (raised event_not_open, db)
            else if not (join_window_open s event now)
            then (raised registration_closed, db)
            else enrolled)
          (λ h. absurd h)
          (if_cases P (not (is_open event.status)) (raised event_not_open, db)
            (if not (join_window_open s event now)
              then (raised registration_closed, db)
              else enrolled)
            (λ _ h. absurd h)
            (λ b.
              if_cases P (not (join_window_open s event now)) (raised registration_closed, db)
                enrolled (λ _ h. absurd h)
                (λ c h.
                  let m =
                    enrol-Means now bot user event source accept fresh
                      (find (of_pair event.id user.id) db.registrations) db h in
                  (ground arith, ground arith, ground arith, m.0, m.1)))))
