-- ===== src/Referrals/Counts.antt =====
-- A link counts its valid invitations.
use free_fire_room.Prelude.{
  ℕ, ◌+◌, ◌≡◌, refl, sym, subst, inl, inr, Bool, true, false, not, ◌&&◌, Option, none, some, List,
  [], ◌∷◌, String, ◌==◌, ==_refl, if◌then◌else◌, is_some, b2n, find-insert-none, find, any, count,
  insert, Reply, ok, Option-cases, Bool-cases, if_both, arith,
}
use free_fire_room.Model.{User, ReferralLink, Referral, Db}
use free_fire_room.Referrals.{
  link_id, bump, settle, settle_all, waits_for_invitee, validate_pending_referrals, with_token,
  add_referral, same_key, of_invitee, pending_referral, apply_start_referral, ReferralError,
}

abbrev pub is_valid_of : ℕ → Referral → Bool
is_valid_of k r = r.is_valid && r.link_id == k

-- each link's `valid_count` is the number of its valid referrals
abbrev pub IsTallied : List ReferralLink → List Referral → Type 0
IsTallied links rs =
    (k : ℕ) (l : ReferralLink)
    → find (link_id k) links ≡ some l
    → l.valid_count ≡ count (is_valid_of k) rs

-- the link that is found now, as it was before
abbrev Earlier : ℕ → ℕ → ReferralLink → List ReferralLink → Type 0
Earlier k more l' links =
    (l : ReferralLink) × (find (link_id k) links ≡ some l) × (l'.valid_count ≡ l.valid_count + more)

find-bump :
    (j k : ℕ) (links : List ReferralLink) (l' : ReferralLink)
    → find (link_id k) (bump j links) ≡ some l'
    → Earlier k (b2n (j == k)) l' links
unfolding bump
find-bump j k [] l' h = absurd (ground arith)
find-bump j k (x ∷ xs) l' h = elim (Bool-cases (x.id == k)) [
  | inl e ↦ (x, rw e refl, ground arith)
  | inr e ↦ let (l, f, c) = find-bump j k xs l' (ground arith) in (l, rw e f, c)
]

find-bump_if :
    (b : Bool) (j k : ℕ) (links : List ReferralLink) (l' : ReferralLink)
    → find (link_id k) (if b then bump j links else links) ≡ some l'
    → Earlier k (b2n (b && j == k)) l' links
find-bump_if true j k links l' h = find-bump j k links l' h
find-bump_if false j k links l' h = (l', h, omega arith)

module _ (now : ℕ) (invitee : User) where
  abbrev becomes_valid : Referral → Bool
  becomes_valid r = waits_for_invitee invitee.id r && not (r.inviter_id == invitee.id)

  -- what one row adds to the count of a link
  row_tally :
      (k : ℕ) (r : Referral)
      → b2n (is_valid_of k r) + b2n (becomes_valid r && r.link_id == k)
        ≡ b2n (is_valid_of k (if waits_for_invitee invitee.id r then settle now invitee r else r))
  unfolding settle
  row_tally k r = ground arith

  settle_all-tally :
      (k : ℕ) (rs : List Referral) (links : List ReferralLink) (l' : ReferralLink)
      → let after = settle_all now invitee rs links in
        find (link_id k) after.1 ≡ some l'
        → (l : ReferralLink) × (find (link_id k) links ≡ some l)
          × (l'.valid_count + count (is_valid_of k) rs
              ≡ l.valid_count + count (is_valid_of k) after.0)
  unfolding settle_all
  settle_all-tally k [] links l' h = (l', h, refl)
  settle_all-tally k (r ∷ rs) links l' h =
      let links1 = if becomes_valid r then bump r.link_id links else links in
      let (m, f, c) = settle_all-tally k rs links1 l' h in
      let (l, g, d) = find-bump_if (becomes_valid r) r.link_id k links m f in
      let row = row_tally k r in (l, g, omega arith)

  settle_all-IsTallied :
      (rs : List Referral) (links : List ReferralLink)
      → IsTallied links rs
      → let after = settle_all now invitee rs links in IsTallied after.1 after.0
  settle_all-IsTallied rs links h k l' f =
      let (l, g, c) = settle_all-tally k rs links l' f in let n = h k l g in omega arith

-- Validating a player's pending invitations, when the player has finished onboarding, keeps every
-- link's count equal to the number of its valid invitations.
pub validate_pending_referrals-IsTallied :
    (now : ℕ) (invitee : User) (db : Db)
    → IsTallied db.referral_links db.referrals
    → let after = (validate_pending_referrals now invitee db).1 in
      IsTallied after.referral_links after.referrals
unfolding validate_pending_referrals
validate_pending_referrals-IsTallied now invitee db h =
    if_both (λ (x : List Referral × Db). IsTallied x.1.referral_links x.1.referrals)
      (not (is_some invitee.onboarding_completed_at)) _ _ h
      (settle_all-IsTallied now invitee db.referrals db.referral_links h)

same_key-of_invitee :
    (k i : ℕ) (rs : List Referral)
    → find (of_invitee (some k) i) rs ≡ none
    → any (same_key (some k) i) rs ≡ false
same_key-of_invitee k i [] h = refl
same_key-of_invitee k i (r ∷ rs) h = elim (Option-cases r.event_id) [
  | inl e ↦ ground (arith, same_key-of_invitee k i rs)
  | inr (j, e) ↦ ground (arith, same_key-of_invitee k i rs)
]

module _ (invitee : User) (token : String) (l : ReferralLink) (db : Db)
    (f : find (with_token token) db.referral_links ≡ some l) where
  own_click :
      (k : ℕ)
      → l.event_id ≡ some k
      → l.user_id ≡ invitee.id
      → find (of_invitee (some k) invitee.id) db.referrals ≡ none
      → apply_start_referral invitee token db ≡ (
        ok (none, invitee),
        record db {
          referrals = insert (pending_referral l invitee.id "self_referral") db.referrals;
        },
      )
  unfolding apply_start_referral add_referral
  own_click k a me z =
      let own : (l.user_id == invitee.id) ≡ true = rw me (==_refl invitee.id) in
      let fresh : any (same_key l.event_id invitee.id) db.referrals ≡ false =
        rw a (same_key-of_invitee k invitee.id db.referrals z) in
      rw (apply_start_referral, f, own, add_referral, fresh) refl

  known_click :
      (r : Referral)
      → (l.user_id == invitee.id) ≡ false
      → find (of_invitee l.event_id invitee.id) db.referrals ≡ some r
      → apply_start_referral invitee token db ≡ (ok (some r, invitee), db)
  unfolding apply_start_referral
  known_click r them z = rw (apply_start_referral, f, them, z) refl

-- A player who follows an own link for an event first is stored as having invited themself; from then on
-- no other player's link for that event, followed by this player, is credited: the answer is the
-- row of the self-invitation, and neither the player nor any table changes. It supposes that nobody
-- had invited the player to the event before, and that both links are found by their tokens.
pub self_click_blocks :
    (invitee : User) (own other : String) (mine theirs : ReferralLink) (event_id : ℕ) (db : Db)
    → find (with_token own) db.referral_links ≡ some mine
    → find (with_token other) db.referral_links ≡ some theirs
    → mine.event_id ≡ some event_id
    → theirs.event_id ≡ some event_id
    → mine.user_id ≡ invitee.id
    → (theirs.user_id == invitee.id) ≡ false
    → find (of_invitee (some event_id) invitee.id) db.referrals ≡ none
    → let after = (apply_start_referral invitee own db).1 in
      apply_start_referral invitee other after
      ≡ (ok (some (pending_referral mine invitee.id "self_referral"), invitee), after)
self_click_blocks invitee own other mine theirs event_id db f g a b me them z =
    let r = pending_referral mine invitee.id "self_referral" in
    let db' = record db { referrals = insert r db.referrals } in
    let new : find (of_invitee theirs.event_id invitee.id) db'.referrals ≡ some r =
      let t = find-insert-none (of_invitee (some event_id) invitee.id) r db.referrals z in
      let hit : of_invitee (some event_id) invitee.id r ≡ true =
        rw (a, ==_refl event_id, ==_refl invitee.id) refl in
      rw b (rw hit at t) in
    subst
      (λ (x : Reply (Option Referral × User) ReferralError × Db).
        apply_start_referral invitee other x.1 ≡ (ok (some r, invitee), x.1))
      (sym (own_click invitee own mine db f event_id a me z))
      (known_click invitee other theirs db' g r them new)
