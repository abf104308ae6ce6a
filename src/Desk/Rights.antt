-- ===== src/Desk/Rights.antt =====
-- Who may tap what in the panels: an account of the handlers' own checks by the kind of the button.
use free_fire_room.Prelude.{
  ℕ, ◌≡◌, refl, Bool, false, not, ◌&&◌, ◌||◌, Option, none, some, List, String, find, ◌==◌,
  Option-cases, Bool-cases, inl, inr, arith,
}
use free_fire_room.Model.{Settings, Event, User, SocialProof, Admin, Db, organizer_id}
use free_fire_room.Telegram.{Bot}
use free_fire_room.Winners.{with_claim_id}
use free_fire_room.Desk.{
  blocked_organize, organizes, is_active_admin, own_event, audit_event, as_organizer, org_cancel,
  org_mark_started, confirm_creds_send, resolve_social, may_review_proof, org_social_all_no,
  claim_for_organizer, resolve_claim_cb, org_social_all_ok,
}
use free_fire_room.Desk.Owner.{
  resolve_winner, as_admin, admin_event_cancel, admin_event_approve, admin_event_reject,
  admin_org_review,
}
use free_fire_room.Desk.Taps.{
  Tap, tap, cancel_own, start_own, accept_all, reject_all, send_room, resolve_proof, resolve_win,
  resolve_win_as_admin, cancel_any, approve, reject, review_organizer,
}

-- a stored event of the user's own
unfoldable pub runs : User → Db → ℕ → Bool
unfolding organizes
runs user db id = elim (db.events id) [ none ↦ false | some e ↦ organizes user e db ]

-- a claim of a stored event, given out by the user
unfoldable pub gave_out : User → Db → ℕ → Bool
gave_out user db id = elim (find (with_claim_id id) db.claims) [
  | none ↦ false
  | some c ↦ elim (find (organizer_id c.organizer_id) db.organizers) [
    | none ↦ false
    | some o ↦ o.user_id == user.id
  ]
]

-- who may make a tap
unfoldable pub is_allowed : ℕ → List Admin → User → Db → Tap → Bool
unfolding runs gave_out is_active_admin
is_allowed now admins user db t =
    let own : ℕ → Bool = λ id. not (blocked_organize now user db) && runs user db id in
    let admin : Bool = is_active_admin admins user.id in
    elim t [
      | cancel_own id ↦ own id
      | start_own id ↦ own id
      | send_room id _ _ ↦ own id
      | accept_all id ↦ not (blocked_organize now user db) && (runs user db id || admin)
      | reject_all id ↦ not (blocked_organize now user db) && (runs user db id || admin)
      | resolve_proof p _ _ ↦ runs user db p.event_id || admin
      | resolve_win id _ ↦ gave_out user db id || admin
      | resolve_win_as_admin _ _ ↦ admin
      | cancel_any _ ↦ admin
      | approve _ ↦ admin
      | reject _ ↦ admin
      | review_organizer _ _ ↦ admin
    ]

own_event-none :
    (user : User) (id : ℕ) (db : Db) → runs user db id ≡ false → own_event user id db ≡ none
unfolding own_event runs
own_event-none user id db h = elim (Option-cases (db.events id)) [
  | inl e ↦ rw (own_event, e) refl
  | inr (x, e) ↦
      let o : organizes user x db ≡ false = rw (runs, e) at h in rw (own_event, e, o) refl
]

audit_event-none :
    (admins : List Admin) (user : User) (id : ℕ) (db : Db)
    → runs user db id || is_active_admin admins user.id ≡ false
    → audit_event admins user id db ≡ none
unfolding audit_event
audit_event-none admins user id db h = elim (Bool-cases (runs user db id)) [
  | inl o ↦ absurd (ground arith)
  | inr o ↦
      let a : is_active_admin admins user.id ≡ false = rw o at h in
      let none_own = own_event-none user id db o in rw (audit_event, none_own, a) refl
]

as_organizer-refuses :
    (now : ℕ) (user : User) (id : ℕ) (db : Db) (act : Event → Db)
    → not (blocked_organize now user db) && runs user db id ≡ false
    → as_organizer now user id db act ≡ db
as_organizer-refuses now user id db act h = elim (Bool-cases (blocked_organize now user db)) [
  | inl b ↦ rw b refl
  | inr b ↦
      let o : runs user db id ≡ false = rw b at h in
      let none_own = own_event-none user id db o in rw (b, none_own) refl
]

as_admin-refuses :
    (admins : List Admin) (user : User) (id : ℕ) (db : Db) (act : Event → Db)
    → is_active_admin admins user.id ≡ false
    → as_admin admins user id db act ≡ db
as_admin-refuses admins user id db act h = rw h refl

resolve_proof-refuses :
    (s : Settings) (now : ℕ) (bot : Option Bot) (admins : List Admin) (users : ℕ → Option User)
    (user : User) (p : SocialProof) (approved : Bool) (fresh : ℕ) (db : Db)
    → runs user db p.event_id || is_active_admin admins user.id ≡ false
    → resolve_social s now bot admins users user p approved fresh db ≡ db
unfolding resolve_social may_review_proof runs
resolve_proof-refuses s now bot admins users user p approved fresh db h =
    elim (Option-cases (db.events p.event_id)) [
      | inl e ↦ rw (resolve_social, e) refl
      | inr (x, e) ↦
          let m : organizes user x db || is_active_admin admins user.id ≡ false =
            rw (runs, e) at h in
          rw (resolve_social, e, may_review_proof, m) refl
    ]

accept_all-refuses :
    (now : ℕ) (admins : List Admin) (user : User) (id : ℕ) (db : Db)
    → not (blocked_organize now user db) && (runs user db id || is_active_admin admins user.id)
      ≡ false
    → org_social_all_ok now admins user id db ≡ db
unfolding org_social_all_ok
accept_all-refuses now admins user id db h = elim (Bool-cases (blocked_organize now user db)) [
  | inl b ↦ rw (org_social_all_ok, b) refl
  | inr b ↦
      let m : runs user db id || is_active_admin admins user.id ≡ false = rw b at h in
      let none_open = audit_event-none admins user id db m in
      rw (org_social_all_ok, b, none_open) refl
]

reject_all-refuses :
    (now : ℕ) (admins : List Admin) (user : User) (id : ℕ) (db : Db)
    → not (blocked_organize now user db) && (runs user db id || is_active_admin admins user.id)
      ≡ false
    → org_social_all_no now admins user id db ≡ db
unfolding org_social_all_no
reject_all-refuses now admins user id db h = elim (Bool-cases (blocked_organize now user db)) [
  | inl b ↦ rw (org_social_all_no, b) refl
  | inr b ↦
      let m : runs user db id || is_active_admin admins user.id ≡ false = rw b at h in
      let none_open = audit_event-none admins user id db m in
      rw (org_social_all_no, b, none_open) refl
]

resolve_win-refuses :
    (now : ℕ) (admins : List Admin) (user : User) (id : ℕ) (approved : Bool) (db : Db)
    → gave_out user db id || is_active_admin admins user.id ≡ false
    → resolve_claim_cb now admins user id approved db ≡ db
unfolding resolve_claim_cb claim_for_organizer gave_out
resolve_win-refuses now admins user id approved db h =
    elim (Option-cases (find (with_claim_id id) db.claims)) [
      | inl e ↦ rw (resolve_claim_cb, claim_for_organizer, e) refl
      | inr (c, e) ↦ elim (Option-cases (db.events c.event_id)) [
        | inl f ↦ rw (resolve_claim_cb, claim_for_organizer, e, f) refl
        | inr (x, f) ↦
            let m = rw (gave_out, e) at h in
            rw (resolve_claim_cb, claim_for_organizer, e, f, m) refl
      ]
    ]

-- A tap of somebody who may not make it changes nothing in the database: own events are for their
-- organizer, while not banned from organizing, all screenshots of an event at once for an active
-- admin too; single screenshots and claims are for the organizer, banned or not, and for active
-- admins; the owner's panel is for active admins.
pub tap-refuses :
    (s : Settings) (encrypt : String → String) (now : ℕ) (bot : Option Bot) (admins : List Admin)
    (users : ℕ → Option User) (user : User) (db : Db) (t : Tap)
    → is_allowed now admins user db t ≡ false
    → tap s encrypt now bot admins users user t db ≡ db
unfolding tap is_allowed org_cancel org_mark_started confirm_creds_send resolve_winner
    admin_event_cancel admin_event_approve admin_event_reject admin_org_review
tap-refuses s encrypt now bot admins users user db (cancel_own id) h =
    as_organizer-refuses now user id db _ h
tap-refuses s encrypt now bot admins users user db (start_own id) h =
    as_organizer-refuses now user id db _ h
tap-refuses s encrypt now bot admins users user db (send_room id a b) h =
    as_organizer-refuses now user id db _ h
tap-refuses s encrypt now bot admins users user db (accept_all id) h =
    accept_all-refuses now admins user id db h
tap-refuses s encrypt now bot admins users user db (reject_all id) h =
    reject_all-refuses now admins user id db h
tap-refuses s encrypt now bot admins users user db (resolve_proof p approved fresh) h =
    resolve_proof-refuses s now bot admins users user p approved fresh db h
tap-refuses s encrypt now bot admins users user db (resolve_win id approved) h =
    resolve_win-refuses now admins user id approved db h
tap-refuses s encrypt now bot admins users user db (resolve_win_as_admin id approved) h =
    rw (resolve_winner, h) refl
tap-refuses s encrypt now bot admins users user db (cancel_any id) h =
    as_admin-refuses admins user id db _ h
tap-refuses s encrypt now bot admins users user db (approve id) h =
    as_admin-refuses admins user id db _ h
tap-refuses s encrypt now bot admins users user db (reject id) h =
    as_admin-refuses admins user id db _ h
tap-refuses s encrypt now bot admins users user db (review_organizer id approved) h =
    rw (admin_org_review, h) refl
