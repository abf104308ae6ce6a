-- ===== src/Desk/Handlers.antt =====
-- Each handler of the panels keeps the counters and the waitlist sound.
use free_fire_room.Prelude.{
  ℕ, ◌≡◌, refl, sym, subst, Bool, true, false, Option, none, some, List, [], ◌∷◌, String, find,
  if_both, Option-cases, Bool-cases, inl, inr, Reply, ok, raised, arith,
}
use free_fire_room.Model.{
  Settings, Event, User, SocialProof, WinnerClaim, Admin, Db, organizer_id, write_audit,
}
use free_fire_room.Telegram.{Bot}
use free_fire_room.Social.{review_proof}
use free_fire_room.Registration.{Error, RegisterResult, of_pair, with_id}
use free_fire_room.Registration.Keys.{find-with_id}
use free_fire_room.Waitlist.Invariant.{IsSound, mark_ineligible-IsSound}
use free_fire_room.Waitlist.Joining.{register_user-IsSound}
use free_fire_room.Waitlist.Neutral.{IsSound-same}
use free_fire_room.Dispatch.Soundness.{record_change-IsSound}
use free_fire_room.Winners.{resolve_claim, with_claim_id}
use free_fire_room.System.{Step}
use free_fire_room.System.Soundness.{Step-IsSound}
use free_fire_room.Desk.{
  void_registration, review_all, void_all, kept, blocked_organize, organizes, is_active_admin,
  own_event, audit_event, as_organizer, cannot_cancel, org_cancel, org_mark_started,
  confirm_creds_send, settle_seat, resolve_social, live_proofs, pending_proofs, players_of,
  org_social_all_no, claim_for_organizer, reward_organizer, resolve_claim_cb, org_social_all_ok,
}
use free_fire_room.Desk.Owner.{
  resolve_winner, as_admin, admin_event_cancel, admin_event_approve, admin_event_reject,
  admin_org_review,
}

review_proof-IsSound :
    (now : ℕ) (p : SocialProof) (approved : Bool) (reviewer : ℕ) (remark : Option String) (db : Db)
    → IsSound db
    → IsSound (review_proof now p approved reviewer remark db)
unfolding review_proof
review_proof-IsSound now p approved reviewer remark db h = IsSound-same db _ refl refl refl h

void_registration-IsSound :
    (now event_id player : ℕ) (db : Db)
    → IsSound db
    → IsSound (void_registration now event_id player db)
unfolding void_registration
void_registration-IsSound now event_id player db h =
    elim (Option-cases (find (of_pair event_id player) db.registrations)) [
      | inl e ↦ rw (e, void_registration) h
      | inr (r, e) ↦
          let at = find-with_id (of_pair event_id player) db.registrations r h.consistent.keyed e in
          rw (e, void_registration)
            (if_both IsSound _ _ _ (mark_ineligible-IsSound now "social_rejected" r db h at) h)
    ]

review_all-IsSound :
    (now reviewer : ℕ) (approved : Bool) (ps : List SocialProof) (db : Db)
    → IsSound db
    → IsSound (review_all now reviewer approved ps db)
unfolding review_all
review_all-IsSound now reviewer approved [] db h = h
review_all-IsSound now reviewer approved (p ∷ ps) db h =
    review_all-IsSound now reviewer approved ps _
      (review_proof-IsSound now p approved reviewer none db h)

void_all-IsSound :
    (now event_id : ℕ) (ks : List ℕ) (db : Db) → IsSound db → IsSound (void_all now event_id ks db)
unfolding void_all
void_all-IsSound now event_id [] db h = h
void_all-IsSound now event_id (k ∷ ks) db h =
    void_all-IsSound now event_id ks _ (void_registration-IsSound now event_id k db h)

kept-IsSound :
    (before : Db) (x : Reply RegisterResult Error × Db)
    → IsSound before
    → IsSound x.1
    → IsSound (kept before x)
kept-IsSound before (ok r, after) h k = k
kept-IsSound before (raised Error.duplicate_key, after) h k = h
kept-IsSound before (raised _, after) h k = k

-- an event that is loaded by an id is stored under its own
stored_event :
    (id : ℕ) (e : Event) (db : Db) → IsSound db → db.events id ≡ some e → db.events e.id ≡ some e
stored_event id e db h f = subst (λ (k : ℕ). db.events k ≡ some e) (sym (h.consistent.ids id e f)) f

own_event-stored :
    (user : User) (id : ℕ) (e : Event) (db : Db)
    → own_event user id db ≡ some e
    → db.events id ≡ some e
unfolding own_event
own_event-stored user id e db h = elim (Option-cases (db.events id)) [
  | inl f ↦ absurd (ground arith)
  | inr (x, f) ↦ elim (Bool-cases (organizes user x db)) [
    | inl o ↦ ground arith
    | inr o ↦ absurd (ground arith)
  ]
]

as_organizer-IsSound :
    (now : ℕ) (user : User) (id : ℕ) (db : Db) (act : Event → Db)
    → IsSound db
    → ((e : Event) → db.events e.id ≡ some e → IsSound (act e))
    → IsSound (as_organizer now user id db act)
as_organizer-IsSound now user id db act h k = elim (Bool-cases (blocked_organize now user db)) [
  | inl b ↦ rw b h
  | inr b ↦ elim (Option-cases (own_event user id db)) [
    | inl e ↦ rw (b, e) h
    | inr (x, e) ↦ rw (b, e) (k x (stored_event id x db h (own_event-stored user id x db e)))
  ]
]

as_admin-IsSound :
    (admins : List Admin) (user : User) (id : ℕ) (db : Db) (act : Event → Db)
    → IsSound db
    → ((e : Event) → db.events e.id ≡ some e → IsSound (act e))
    → IsSound (as_admin admins user id db act)
as_admin-IsSound admins user id db act h k = elim (Bool-cases (is_active_admin admins user.id)) [
  | inr b ↦ rw b h
  | inl b ↦ elim (Option-cases (db.events id)) [
    | inl e ↦ rw (b, e) h
    | inr (x, e) ↦ rw (b, e) (k x (stored_event id x db h e))
  ]
]

reward_organizer-IsSound :
    (organizer event_id actor : ℕ) (db : Db)
    → IsSound db
    → IsSound (reward_organizer organizer event_id actor db)
reward_organizer-IsSound organizer event_id actor db h =
    elim (Option-cases (find (organizer_id organizer) db.organizers)) [
      | inl e ↦ rw (reward_organizer, e) h
      | inr (o, e) ↦
          rw (reward_organizer, e)
            (record_change-IsSound o "prize_paid_confirmed" (some event_id) (some actor) none db h)
    ]

module _ (s : Settings) (encrypt : String → String) (now : ℕ) (bot : Option Bot)
    (admins : List Admin) (users : ℕ → Option User) (user : User) (db : Db) (h : IsSound db) where
  pub org_cancel-IsSound : (id : ℕ) → IsSound (org_cancel now user id db)
  unfolding org_cancel
  org_cancel-IsSound id = as_organizer-IsSound now user id db _ h (λ e f.
      if_both IsSound (cannot_cancel e.status) _ _ h (
        Step-IsSound {s = s} {encrypt = encrypt}
          (Step.cancels now user.id "cancelled by the organizer" e f) h))

  pub org_mark_started-IsSound : (id : ℕ) → IsSound (org_mark_started now user id db)
  unfolding org_mark_started
  org_mark_started-IsSound id = as_organizer-IsSound now user id db _ h (λ e f.
      if_both IsSound _ _ _ h (
        if_both IsSound _ _ _ h
          (Step-IsSound {s = s} {encrypt = encrypt} (Step.starts now user.id e f) h)))

  pub confirm_creds_send-IsSound :
      (id : ℕ) (room_id password : String)
      → IsSound (confirm_creds_send s encrypt now user id room_id password db)
  unfolding confirm_creds_send
  confirm_creds_send-IsSound id room_id password = as_organizer-IsSound now user id db _ h (λ e f.
      if_both IsSound _ _ _ h (
        if_both IsSound _ _ _ h (
          Step-IsSound {s = s} {encrypt = encrypt} (Step.enters_room user.id e room_id password)
            h)))

  pub admin_event_cancel-IsSound : (id : ℕ) → IsSound (admin_event_cancel now admins user id db)
  unfolding admin_event_cancel
  admin_event_cancel-IsSound id = as_admin-IsSound admins user id db _ h (λ e f.
      if_both IsSound (cannot_cancel e.status) _ _ h (
        Step-IsSound {s = s} {encrypt = encrypt}
          (Step.cancels now user.id "cancelled by the owner" e f) h))

  pub admin_event_approve-IsSound : (id : ℕ) → IsSound (admin_event_approve s now admins user id db)
  unfolding admin_event_approve
  admin_event_approve-IsSound id =
      as_admin-IsSound admins user id db _ h
        (λ e f. Step-IsSound {s = s} {encrypt = encrypt} (Step.approves now user.id e f) h)

  pub admin_event_reject-IsSound : (id : ℕ) → IsSound (admin_event_reject admins user id db)
  unfolding admin_event_reject
  admin_event_reject-IsSound id = as_admin-IsSound admins user id db _ h (λ e f.
      Step-IsSound {s = s} {encrypt = encrypt} (Step.rejects user.id "rejected in the panel" e f) h)

  pub admin_org_review-IsSound :
      (id : ℕ) (approved : Bool) → IsSound (admin_org_review now admins user id approved db)
  unfolding admin_org_review
  admin_org_review-IsSound id approved = elim (Bool-cases (is_active_admin admins user.id)) [
    | inr b ↦ rw (admin_org_review, b) h
    | inl b ↦ elim (Option-cases (find (organizer_id id) db.organizers)) [
      | inl e ↦ rw (admin_org_review, b, e) h
      | inr (o, e) ↦
          rw (admin_org_review, b, e)
            (if_both IsSound approved _ _
              (Step-IsSound {s = s} {encrypt = encrypt} (Step.admits now o user.id true) h)
              (Step-IsSound {s = s} {encrypt = encrypt}
                (Step.declines now o user.id "rejected in the panel") h))
    ]
  ]

  resolve_claim-IsSound :
      (c : WinnerClaim) (approved : Bool) → IsSound (resolve_claim now c approved user.id db)
  resolve_claim-IsSound c approved =
      Step-IsSound {s = s} {encrypt = encrypt} (Step.resolves now c approved user.id) h

  pub resolve_claim_cb-IsSound :
      (id : ℕ) (approved : Bool) → IsSound (resolve_claim_cb now admins user id approved db)
  unfolding resolve_claim_cb
  resolve_claim_cb-IsSound id approved =
      elim (Option-cases (claim_for_organizer admins user id db)) [
        | inl e ↦ rw (resolve_claim_cb, e) h
        | inr ((c, x), e) ↦
            rw (resolve_claim_cb, e)
              (if_both IsSound _ _ _ h (
                if_both IsSound approved _ _
                  (reward_organizer-IsSound x.organizer_id x.id user.id _
                    (resolve_claim-IsSound c approved))
                  (resolve_claim-IsSound c approved)))
      ]

  pub resolve_winner-IsSound :
      (id : ℕ) (approved : Bool) → IsSound (resolve_winner now admins user id approved db)
  unfolding resolve_winner
  resolve_winner-IsSound id approved = elim (Bool-cases (is_active_admin admins user.id)) [
    | inr b ↦ rw (resolve_winner, b) h
    | inl b ↦ elim (Option-cases (find (with_claim_id id) db.claims)) [
      | inl e ↦ rw (resolve_winner, b, e) h
      | inr (c, e) ↦
          let logged : IsSound (
              write_audit "winner_claim_reviewed" c.id user.id
                (resolve_claim now c approved user.id db)) =
            IsSound-same (resolve_claim now c approved user.id db) _ refl refl refl
              (resolve_claim-IsSound c approved) in
          rw (resolve_winner, b, e)
            (if_both IsSound _ _ _ h (
              if_both IsSound approved _ _
                (reward_organizer-IsSound c.organizer_id c.event_id user.id _ logged) logged))
    ]
  ]

  pub org_social_all_ok-IsSound : (id : ℕ) → IsSound (org_social_all_ok now admins user id db)
  unfolding org_social_all_ok
  org_social_all_ok-IsSound id = elim (Bool-cases (blocked_organize now user db)) [
    | inl b ↦ rw (org_social_all_ok, b) h
    | inr b ↦ elim (Option-cases (audit_event admins user id db)) [
      | inl e ↦ rw (org_social_all_ok, b, e) h
      | inr (x, e) ↦
          rw (org_social_all_ok, b, e)
            (review_all-IsSound now user.id true (pending_proofs id db) db h)
    ]
  ]

  pub org_social_all_no-IsSound : (id : ℕ) → IsSound (org_social_all_no now admins user id db)
  unfolding org_social_all_no
  org_social_all_no-IsSound id = elim (Bool-cases (blocked_organize now user db)) [
    | inl b ↦ rw (org_social_all_no, b) h
    | inr b ↦ elim (Option-cases (audit_event admins user id db)) [
      | inl e ↦ rw (org_social_all_no, b, e) h
      | inr (x, e) ↦
          rw (org_social_all_no, b, e)
            (void_all-IsSound now id (players_of (live_proofs id db) []) _
              (review_all-IsSound now user.id false (live_proofs id db) db h))
    ]
  ]

  settle_seat-IsSound :
      (p : SocialProof) (e : Event) (approved : Bool) (fresh : ℕ) (reviewed : Db)
      → IsSound reviewed
      → find (with_id fresh) reviewed.registrations ≡ none
      → IsSound (settle_seat s now bot users p e approved fresh db reviewed)
  unfolding settle_seat
  settle_seat-IsSound p e approved fresh reviewed h1 unused =
      elim (Option-cases (users p.user_id)) [
        | inl g ↦ rw (settle_seat, g) h1
        | inr (player, g) ↦
            rw (settle_seat, g)
              (if_both IsSound approved _ _
                (kept-IsSound db _ h (
                  register_user-IsSound s now bot player e (some "social") true fresh reviewed h1
                    unused))
                (void_registration-IsSound now p.event_id player.id reviewed h1))
      ]

  pub resolve_social-IsSound :
      (p : SocialProof) (approved : Bool) (fresh : ℕ)
      → find (with_id fresh) db.registrations ≡ none
      → IsSound (resolve_social s now bot admins users user p approved fresh db)
  unfolding review_proof resolve_social
  resolve_social-IsSound p approved fresh unused = elim (Option-cases (db.events p.event_id)) [
    | inl f ↦ rw (resolve_social, f) h
    | inr (e, f) ↦
        rw (resolve_social, f)
          (if_both IsSound _ _ _ h (
            settle_seat-IsSound p e approved fresh _
              (review_proof-IsSound now p approved user.id none db h) unused))
  ]
