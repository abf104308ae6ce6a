-- ===== src/System/Feedback.antt =====
-- Reviews, scores, claims, reports and invitations leave the seats and the waitlist alone.
use free_fire_room.Prelude.{
  ℕ, ℤ, pos, refl, inl, inr, Bool, false, not, ◌&&◌, Option, none, some, List, String, ◌==◌,
  is_some, find, any, insert, Chars, Reply, ok, raised, Option-cases, Bool-cases, if_both,
}
use free_fire_room.Model.{
  Settings, TrustEventType, Event, User, Organizer, EventReview, Report, ReportReason, WinnerClaim,
  claim_of, is_cheater, save_organizer, Referral, Db, write_audit_for,
}
use free_fire_room.Waitlist.Invariant.{IsSound}
use free_fire_room.Waitlist.Neutral.{IsSound-same}
use free_fire_room.Trust.{
  apply_trust, add_change, grant_role, has_role, approve_organizer, approved_organizer,
  reject_organizer, get_or_apply, of_user, is_pending_organizer, applicant,
}
use free_fire_room.Reviews.{
  Refusal, create_review, move_score, organizer_of, is_zero, new_review, vote_of, comment_of,
  trust_delta, is_own,
}
use free_fire_room.Reviews.Fairness.{create_review_rule}
use free_fire_room.Winners.{ClaimError, create_winner_claim, check_winner_eligibility}
use free_fire_room.Reports.{
  ReportError, create_player_report, file_report, check_reason, check_cheater, check_other,
  reason_of, is_player_reason,
}
use free_fire_room.Referrals.{
  get_or_create_link, same_link, apply_start_referral, add_referral, stored_or, with_token,
  of_invitee, same_key, pending_referral, validate_pending_referrals,
}

apply_trust-IsSound :
    (o : Organizer) (t : TrustEventType) (delta : ℤ) (actor related : Option ℕ) (db : Db)
    → IsSound db
    → IsSound (apply_trust o t delta actor related db)
unfolding apply_trust add_change
apply_trust-IsSound o t delta actor related db h = IsSound-same db _ refl refl refl h

grant_role-IsSound :
    (user_id actor : ℕ) (db : Db) → IsSound db → IsSound (grant_role user_id actor db)
unfolding grant_role
grant_role-IsSound user_id actor db h = elim (Option-cases db.organizer_role) [
  | inl off ↦ rw (grant_role, off) h
  | inr (r, e) ↦ elim (Option-cases (find (has_role user_id r) db.user_roles)) [
    | inl fresh ↦ rw (grant_role, e, fresh) (IsSound-same db _ refl refl refl h)
    | inr (u, again) ↦ rw (grant_role, e, again) h
  ]
]

pub approve_organizer-IsSound :
    (now : ℕ) (o : Organizer) (actor : ℕ) (verified : Bool) (db : Db)
    → IsSound db
    → IsSound (approve_organizer now o actor verified db)
unfolding approve_organizer
approve_organizer-IsSound now o actor verified db h =
    let e = approved_organizer now actor verified o in
    let saved = save_organizer e db in
    let granted = grant_role o.user_id actor saved in
    let scored =
      apply_trust e TrustEventType.channel_verified (pos 500) (some actor) none granted in
    IsSound-same scored _ refl refl refl (
      apply_trust-IsSound e TrustEventType.channel_verified (pos 500) (some actor) none granted
        (grant_role-IsSound o.user_id actor saved (IsSound-same db saved refl refl refl h)))

pub get_or_apply-IsSound :
    (now : ℕ) (auto : Bool) (fresh : ℕ) (user : User) (db : Db)
    → IsSound db
    → IsSound (get_or_apply now auto fresh user db)
unfolding get_or_apply
get_or_apply-IsSound now auto fresh user db h =
    elim (Option-cases (find (of_user user.id) db.organizers)) [
      | inr (o, e) ↦
          rw (get_or_apply, e)
            (if_both IsSound (is_pending_organizer o.status && auto) _ db
              (approve_organizer-IsSound now o user.id false db h) h)
      | inl e ↦
          let o = applicant fresh user.id in
          let logged =
            write_audit_for "organizer_applied" none user.id
              (record db { organizers = insert o db.organizers }) in
          let sound = IsSound-same db logged refl refl refl h in
          rw (get_or_apply, e)
            (if_both IsSound auto _ logged
              (approve_organizer-IsSound now o user.id false logged sound) sound)
    ]

pub reject_organizer-IsSound :
    (now : ℕ) (o : Organizer) (actor : ℕ) (reason : String) (db : Db)
    → IsSound db
    → IsSound (reject_organizer now o actor reason db)
unfolding reject_organizer
reject_organizer-IsSound now o actor reason db h = IsSound-same db _ refl refl refl h

move_score-IsSound :
    (user : User) (e : Event) (delta : ℤ) (db : Db)
    → IsSound db
    → IsSound (move_score user e delta db)
unfolding move_score
move_score-IsSound user e delta db h = elim (Option-cases (organizer_of e db)) [
  | inl gone ↦ rw (move_score, gone) h
  | inr (o, f) ↦
      rw (move_score, f)
        (if_both IsSound (is_zero delta) db _ h (
          apply_trust-IsSound o TrustEventType.player_review delta (some user.id) (some e.id) db h))
]

pub create_review-IsSound :
    (s : Settings) (now : ℕ) (user : User) (e : Event) (rating : ℕ) (prize_paid : String)
    (comment : Option String) (db : Db)
    → IsSound db
    → IsSound (create_review s now user e rating prize_paid comment db).1
create_review-IsSound s now user e rating prize_paid comment db h =
    create_review_rule s now user e rating prize_paid comment db
      (λ (x : Reply EventReview Refusal × Db). IsSound x.1) (λ _. h)
      (λ fine stars new.
        let w = new_review user e rating (vote_of prize_paid) (comment_of comment) in
        let stored = record db { reviews = insert w db.reviews } in
        move_score-IsSound user e (trust_delta w.rating w.prize_paid) stored
          (IsSound-same db stored refl refl refl h))

pub create_winner_claim-IsSound :
    (fresh : ℕ) (user : User) (e : Event) (screenshot : String) (db : Db)
    → IsSound db
    → IsSound (create_winner_claim fresh user e screenshot db).1
unfolding create_winner_claim
create_winner_claim-IsSound fresh user e screenshot db h =
    elim (Option-cases (check_winner_eligibility db user e)) [
      | inr (x, bad) ↦ rw (create_winner_claim, bad) h
      | inl fine ↦
          rw (create_winner_claim, fine)
            (if_both (λ (x : Reply WinnerClaim ClaimError × Db). IsSound x.1)
              (any (claim_of e.id user.id) db.claims) _ _ h (IsSound-same db _ refl refl refl h))
    ]

module _ (s : Settings) (lower casefold : Chars → Chars) (now : ℕ) (user : User) (e : Event) where
  file_report-IsSound :
      (t : ReportReason) (checked : Reply Chars ReportError) (db : Db)
      → IsSound db
      → IsSound (file_report s lower casefold now user e t checked db).1
  unfolding file_report
  file_report-IsSound t (raised x) db h = h
  file_report-IsSound t (ok body) db h =
      elim (Option-cases (check_reason s lower casefold now e t db)) [
        | inr (x, bad) ↦ rw (file_report, bad) h
        | inl fine ↦ rw (file_report, fine) (IsSound-same db _ refl refl refl h)
      ]

  pub create_player_report-IsSound :
      (reason : String) (body : Chars) (db : Db)
      → IsSound db
      → IsSound (create_player_report s lower casefold now user e reason body db).1
  unfolding create_player_report
  create_player_report-IsSound reason body db h =
      let P : Reply Report ReportError × Db → Type 0 = λ x. IsSound x.1 in
      elim (Option-cases (reason_of reason)) [
        | inl bad ↦ rw (create_player_report, bad) h
        | inr (t, f) ↦
            rw (create_player_report, f)
              (if_both P (not (is_player_reason t)) _ _ h (
                if_both P (not (is_cheater t) && is_own (organizer_of e db) user.id) _ _ h (
                  if_both P (is_cheater t) _ _
                    (file_report-IsSound t (check_cheater s lower casefold now user e body db) db h)
                    (file_report-IsSound t (check_other s lower casefold user e body db) db h))))
      ]

pub get_or_create_link-IsSound :
    (fresh : ℕ) (token : String) (user_id : ℕ) (event_id : Option ℕ) (campaign : String) (db : Db)
    → IsSound db
    → IsSound (get_or_create_link fresh token user_id event_id campaign db).1
unfolding get_or_create_link
get_or_create_link-IsSound fresh token user_id event_id campaign db h =
    elim (Option-cases (find (same_link user_id event_id campaign) db.referral_links)) [
      | inl first ↦ rw (get_or_create_link, first) (IsSound-same db _ refl refl refl h)
      | inr (l, again) ↦ rw (get_or_create_link, again) h
    ]

add_referral-IsSound :
    {A : Type 0} (answer : A) (r : Referral) (db : Db)
    → IsSound db
    → IsSound (stored_or answer db (add_referral r db)).1
unfolding add_referral
add_referral-IsSound answer r db h =
    if_both (λ (o : Option Db). IsSound (stored_or answer db o).1)
      (any (same_key r.event_id r.invitee_id) db.referrals) _ _ h
      (IsSound-same db _ refl refl refl h)

pub apply_start_referral-IsSound :
    (invitee : User) (token : String) (db : Db)
    → IsSound db
    → IsSound (apply_start_referral invitee token db).1
unfolding apply_start_referral
apply_start_referral-IsSound invitee token db h =
    elim (Option-cases (find (with_token token) db.referral_links)) [
      | inl gone ↦ rw (apply_start_referral, gone) h
      | inr (l, f) ↦ elim (Bool-cases (l.user_id == invitee.id)) [
        | inl own ↦
            rw (apply_start_referral, f, own)
              (add_referral-IsSound (none, invitee) (pending_referral l invitee.id "self_referral")
                db h)
        | inr other ↦ elim (Option-cases (find (of_invitee l.event_id invitee.id) db.referrals)) [
          | inr (r, known) ↦ rw (apply_start_referral, f, other, known) h
          | inl new ↦
              rw (apply_start_referral, f, other, new)
                (add_referral-IsSound _ (pending_referral l invitee.id "pending_onboarding") db h)
        ]
      ]
    ]

pub validate_pending_referrals-IsSound :
    (now : ℕ) (invitee : User) (db : Db)
    → IsSound db
    → IsSound (validate_pending_referrals now invitee db).1
unfolding validate_pending_referrals
validate_pending_referrals-IsSound now invitee db h =
    if_both (λ (x : List Referral × Db). IsSound x.1)
      (not (is_some invitee.onboarding_completed_at)) _ _ h (IsSound-same db _ refl refl refl h)
