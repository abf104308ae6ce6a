-- ===== src/Referrals.antt =====
-- backend/app/services/referrals.py: links that invite players, and which invitations count.
pub mod Counts
use free_fire_room.Prelude.{
  ℕ, ◌+◌, Bool, true, false, not, ◌&&◌, Option, none, some, List, [], ◌∷◌, String, str_eq, ◌==◌,
  if◌then◌else◌, is_some, same_ref, same_option, or_else, map, find, any, select, insert,
  update_where, Reply, ok, raised,
}
use free_fire_room.Model.{User, ReferralLink, Referral, Db}

-- `event_id == event_id if event_id else event_id.is_(None)`
abbrev pub same_link : ℕ → Option ℕ → String → ReferralLink → Bool
same_link user_id event_id campaign l =
    l.user_id == user_id && same_option l.event_id event_id && str_eq l.campaign campaign

-- the token is random, and the database gives the new row the id `fresh`
unfoldable pub get_or_create_link : ℕ → String → ℕ → Option ℕ → String → Db → ReferralLink × Db
get_or_create_link fresh token user_id event_id campaign db =
    elim (find (same_link user_id event_id campaign) db.referral_links) [
      | some l ↦ (l, db)
      | none ↦
          let l : ReferralLink = record {
            id = fresh;
            user_id = user_id;
            event_id = event_id;
            campaign = campaign;
            token = token;
            is_active = true;
            valid_count = 0;
          } in
          (l, record db { referral_links = insert l db.referral_links })
    ]

abbrev pub with_token : String → ReferralLink → Bool
with_token token l = str_eq l.token token && l.is_active

-- `Referral.event_id == event_id`, which is IS NULL for None
abbrev pub of_invitee : Option ℕ → ℕ → Referral → Bool
of_invitee event_id invitee_id r = same_option r.event_id event_id && r.invitee_id == invitee_id

-- `UniqueConstraint("event_id", "invitee_id")`: two NULLs differ
abbrev pub same_key : Option ℕ → ℕ → Referral → Bool
same_key none invitee_id r = false
same_key (some k) invitee_id r = same_ref r.event_id k && r.invitee_id == invitee_id

abbrev pub pending_referral : ReferralLink → ℕ → String → Referral
pending_referral l invitee_id reason = record {
  link_id = l.id;
  event_id = l.event_id;
  inviter_id = l.user_id;
  invitee_id = invitee_id;
  is_valid = false;
  invalid_reason = some reason;
  onboarded_at = none;
  validated_at = none;
}

-- the insert, or the IntegrityError of the unique key
unfoldable pub add_referral : Referral → Db → Option Db
add_referral r db =
    if any (same_key r.event_id r.invitee_id) db.referrals
    then none
    else some (record db { referrals = insert r db.referrals })

-- a text of invalid_reason and `event_invitee_duplicate`, the IntegrityError
pub data ReferralError : Type 0 where
  event_invitee_duplicate : ReferralError

abbrev pub stored_or : {A : Type 0} → A → Db → Option Db → Reply A ReferralError × Db
stored_or answer db none = (raised event_invitee_duplicate, db)
stored_or answer db (some db') = (ok answer, db')

-- the answer is the referral, if any, and the invitee's row as it is afterwards
unfoldable pub apply_start_referral :
    User → String → Db → Reply (Option Referral × User) ReferralError × Db
unfolding add_referral
apply_start_referral invitee token db = elim (find (with_token token) db.referral_links) [
  | none ↦ (ok (none, invitee), db)
  | some l ↦
      if l.user_id == invitee.id
      then stored_or (none, invitee) db
          (add_referral (pending_referral l invitee.id "self_referral") db)
      else elim (find (of_invitee l.event_id invitee.id) db.referrals) [
        | some r ↦ (ok (some r, invitee), db)
        | none ↦
            let u = record invitee {
              referred_by_user_id = or_else invitee.referred_by_user_id (some l.user_id);
            } in
            let r = pending_referral l invitee.id "pending_onboarding" in
            stored_or (some r, u) db (add_referral r db)
      ]
]

-- `invalid_reason == "pending_onboarding"`, NULL being no match
abbrev pub is_pending_reason : Option String → Bool
is_pending_reason none = false
is_pending_reason (some t) = str_eq t "pending_onboarding"

abbrev pub waits_for_invitee : ℕ → Referral → Bool
waits_for_invitee invitee_id r =
    r.invitee_id == invitee_id && not r.is_valid && is_pending_reason r.invalid_reason

abbrev pub link_id : ℕ → ReferralLink → Bool
link_id k l = l.id == k

-- `valid_count=ReferralLink.valid_count + 1` where the id is the link's
unfoldable pub bump : ℕ → List ReferralLink → List ReferralLink
bump k links = update_where (link_id k) (λ l. record l { valid_count = l.valid_count + 1 }) links

abbrev pub validated : ℕ → User → Referral → Referral
validated now invitee r = record r {
  is_valid = true;
  invalid_reason = none;
  validated_at = some now;
  onboarded_at = invitee.onboarding_completed_at;
}

-- one row of the loop: what becomes of it
unfoldable pub settle : ℕ → User → Referral → Referral
settle now invitee r =
    if r.inviter_id == invitee.id
    then record r { invalid_reason = some "self_referral" }
    else validated now invitee r

-- the loop over the rows that wait, in the order of the table: each row that becomes valid adds one
-- to its link
unfoldable pub settle_all :
    ℕ → User → List Referral → List ReferralLink → List Referral × List ReferralLink
unfolding settle bump
settle_all now invitee [] links = ([], links)
settle_all now invitee (r ∷ rs) links =
    let counts = waits_for_invitee invitee.id r && not (r.inviter_id == invitee.id) in
    let rest = settle_all now invitee rs (if counts then bump r.link_id links else links) in
    ((if waits_for_invitee invitee.id r then settle now invitee r else r) ∷ rest.0, rest.1)

-- The rows that it returns are those that become valid. The age of the account is computed by the
-- code and not used.
unfoldable pub validate_pending_referrals : ℕ → User → Db → List Referral × Db
unfolding settle_all
validate_pending_referrals now invitee db =
    if not (is_some invitee.onboarding_completed_at)
    then ([], db)
    else (let after = settle_all now invitee db.referrals db.referral_links in
        (
          map (validated now invitee) (
              select (λ r. waits_for_invitee invitee.id r && not (r.inviter_id == invitee.id))
                db.referrals),
          record db { referrals = after.0; referral_links = after.1 },
        ))

pub data SyncAnswer : Type 0 where
  valid self duplicate missing : SyncAnswer

-- the variant of the tests, whose caller gives the inviter
unfoldable pub apply_referral_sync : ℕ → ℕ → ℕ → Option ℕ → String → Db → SyncAnswer × Db
unfolding bump
apply_referral_sync now inviter_id invitee_id event_id token db =
    if inviter_id == invitee_id
    then (self, db)
    else elim (find (with_token token) db.referral_links) [
      | none ↦ (missing, db)
      | some l ↦ elim (find (of_invitee event_id invitee_id) db.referrals) [
        | some r ↦ (duplicate, db)
        | none ↦
            let r : Referral = record {
              link_id = l.id;
              event_id = event_id;
              inviter_id = inviter_id;
              invitee_id = invitee_id;
              is_valid = true;
              invalid_reason = none;
              onboarded_at = none;
              validated_at = some now;
            } in
            (
              valid,
              record db {
                referrals = insert r db.referrals;
                referral_links = bump l.id db.referral_links;
              },
            )
      ]
    ]
