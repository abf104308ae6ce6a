-- ===== src/Delivery/Once.antt =====
-- What a delivery promises.
use free_fire_room.Prelude.{
  ℕ, ◌≡◌, ◌↔◌, refl, Bool, true, false, Option, none, some, List, [], ◌∷◌, inl, inr, Bool-cases,
  Option-cases, if◌then◌else◌, find, find-put_self, find-insert-none, find-holds, All, arith,
}
use free_fire_room.Model.{DeliveryStatus, is_sent, Event, User, RoomCredential, Db}
use free_fire_room.Telegram.{Bot, get_membership, unknown}
use free_fire_room.Delivery.{
  Reason, Outcome, Sending, was_sent, with_idem, first_delivery, next_delivery, upsert_delivery,
  refuse, record_sending, recheck_user, verdict, serve, deliver_one,
}

-- a sent delivery is found again
upsert_delivery-sent :
    (now event_id user_id version message : ℕ) (db : Db)
    → let db' =
        upsert_delivery now event_id user_id version DeliveryStatus.sent none (some message) db in
      was_sent (find (with_idem event_id user_id version) db'.deliveries) ≡ true
unfolding upsert_delivery
upsert_delivery-sent now event_id user_id version message db =
    let p = with_idem event_id user_id version in
    elim (Option-cases (find p db.deliveries)) [
      | inl none_yet ↦
          let r =
            first_delivery now event_id user_id version DeliveryStatus.sent none (some message) in
          rw (upsert_delivery, none_yet, find-insert-none p r db.deliveries none_yet) (ground arith)
      | inr (d, found) ↦ elim (Bool-cases (is_sent d.status)) [
        | inl s ↦ rw (upsert_delivery, found, s) (ground arith)
        | inr s ↦
            let r = next_delivery now DeliveryStatus.sent none (some message) d in
            let h = find-holds p db.deliveries d found in
            rw (upsert_delivery, found, s, find-put_self p r d db.deliveries found h) refl
      ]
    ]

-- the key of a delivery that came back as sent
serve-sent :
    (now : ℕ) (telegram : Sending) (event : Event) (user : User) (version : ℕ)
    (reason : Option Reason) (db : Db)
    → (serve now telegram event user version reason db).0 ≡ Outcome.sent
    → let db' = (serve now telegram event user version reason db).1 in
      was_sent (find (with_idem event.id user.id version) db'.deliveries) ≡ true
unfolding serve record_sending refuse
serve-sent now (Sending.delivered message) event user version none db h =
    upsert_delivery-sent now event.id user.id version message db
serve-sent now (Sending.forbidden error) event user version none db h = ground arith
serve-sent now (Sending.broken error) event user version none db h = ground arith
serve-sent now telegram event user version (some (Reason.unchecked error)) db h = ground arith
serve-sent now telegram event user version (some (Reason.left_channel chat)) db h = ground arith
serve-sent now telegram event user version (some Reason.banned) db h = ground arith
serve-sent now telegram event user version (some Reason.social_missing) db h = ground arith

-- a message that was sent is not sent again
deliver_one-already :
    (now : ℕ) (bot : Bot) (telegram : Sending) (event : Event) (user : User)
    (creds : RoomCredential) (db : Db)
    → was_sent (find (with_idem event.id user.id creds.version) db.deliveries) ≡ true
    → deliver_one now bot telegram event user creds db ≡ (Outcome.already, db)
unfolding deliver_one
deliver_one-already now bot telegram event user creds db h = rw (deliver_one, h) refl

deliver_one-sent :
    (now : ℕ) (bot : Bot) (telegram : Sending) (event : Event) (user : User)
    (creds : RoomCredential) (db : Db)
    → (deliver_one now bot telegram event user creds db).0 ≡ Outcome.sent
    → let db' = (deliver_one now bot telegram event user creds db).1 in
      was_sent (find (with_idem event.id user.id creds.version) db'.deliveries) ≡ true
unfolding deliver_one
deliver_one-sent now bot telegram event user creds db =
    go (was_sent (find (with_idem event.id user.id creds.version) db.deliveries))
  where
    served : Outcome × Db
    served = serve now telegram event user creds.version (verdict now bot db event user) db

    go :
        (b : Bool)
        → (if b then (Outcome.already, db) else served).0 ≡ Outcome.sent
        → was_sent (
            find
              (with_idem event.id user.id creds.version)
              ((if b then (Outcome.already, db) else served).1).deliveries)
          ≡ true
    go true h = ground arith
    go false h =
        serve-sent now telegram event user creds.version (verdict now bot db event user) db h

-- Once a message is sent, delivering the same version of the credentials to the same player again,
-- at any time and with any answers of Telegram, sends nothing and changes nothing.
pub deliver_one-idempotent :
    (now : ℕ) (bot : Bot) (telegram : Sending) (event : Event) (user : User)
    (creds : RoomCredential) (db : Db) (later : ℕ) (bot' : Bot) (telegram' : Sending)
    → (deliver_one now bot telegram event user creds db).0 ≡ Outcome.sent
    → let db' = (deliver_one now bot telegram event user creds db).1 in
      deliver_one later bot' telegram' event user creds db' ≡ (Outcome.already, db')
deliver_one-idempotent now bot telegram event user creds db later bot' telegram' h =
    deliver_one-already later bot' telegram' event user creds
      (deliver_one now bot telegram event user creds db).1
      (deliver_one-sent now bot telegram event user creds db h)

-- the outcomes of a player whom the worker could not judge, or who may still complete the conditions
abbrev pub IsPostponed : Outcome → Type 0
IsPostponed Outcome.check_failed = Unit
IsPostponed Outcome.check_unavailable = Unit
IsPostponed Outcome.social_pending = Unit
IsPostponed _ = ⊥

serve-postponed :
    (now : ℕ) (telegram : Sending) (event : Event) (user : User) (version : ℕ)
    (reason : Option Reason) (db : Db)
    → IsPostponed (serve now telegram event user version reason db).0
    → (serve now telegram event user version reason db).1 ≡ db
unfolding serve record_sending refuse
serve-postponed now (Sending.delivered message) event user version none db h = absurd h
serve-postponed now (Sending.forbidden error) event user version none db h = absurd h
serve-postponed now (Sending.broken error) event user version none db h = absurd h
serve-postponed now telegram event user version (some (Reason.unchecked error)) db h = ground arith
serve-postponed now telegram event user version (some (Reason.left_channel chat)) db h = absurd h
serve-postponed now telegram event user version (some Reason.banned) db h = absurd h
serve-postponed now telegram event user version (some Reason.social_missing) db h = refl

-- A player whom Telegram could not be asked about, or who owes a screenshot, loses nothing: the
-- database is unchanged, the registration and the seat included.
pub deliver_one-postponed :
    (now : ℕ) (bot : Bot) (telegram : Sending) (event : Event) (user : User)
    (creds : RoomCredential) (db : Db)
    → IsPostponed (deliver_one now bot telegram event user creds db).0
    → (deliver_one now bot telegram event user creds db).1 ≡ db
unfolding deliver_one
deliver_one-postponed now bot telegram event user creds db =
    go (was_sent (find (with_idem event.id user.id creds.version) db.deliveries))
  where
    served : Outcome × Db
    served = serve now telegram event user creds.version (verdict now bot db event user) db

    go :
        (b : Bool)
        → IsPostponed (if b then (Outcome.already, db) else served).0
        → (if b then (Outcome.already, db) else served).1 ≡ db
    go true h = refl
    go false h =
        serve-postponed now telegram event user creds.version (verdict now bot db event user) db h

-- The recheck finds nothing against a player exactly if in every chat the answer of Telegram could
-- be read and says that the player is a member.
pub recheck_user_iff :
    (bot : Bot) (user : User) (chats : List ℕ)
    → (recheck_user bot user chats ≡ none)
      ↔ All
          (λ chat.
            let r = get_membership (bot chat user.telegram_id) in
            (unknown r ≡ false) × (r.ok ≡ true))
          chats
unfolding recheck_user
recheck_user_iff bot user [] = ((λ _. tt), (λ _. refl))
recheck_user_iff bot user (chat ∷ chats) =
    let (to, from) = recheck_user_iff bot user chats in
    (
      (λ h. ((ground arith, ground arith), to (ground arith))),
      (λ h. let rest = from h.1 in let a = h.0.0 in let b = h.0.1 in ground arith),
    )
