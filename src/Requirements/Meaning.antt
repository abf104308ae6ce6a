-- ===== src/Requirements/Meaning.antt =====
-- What a complete checklist means.
use free_fire_room.Prelude.{
  ℕ, ◌≡◌, refl, Bool, true, false, not, ◌&&◌, ◌||◌, Option, none, some, List, [], ◌∷◌, inl, inr,
  Bool-cases, ltb, leb, if◌then◌else◌, is_some, all, arith,
}
use free_fire_room.Model.{
  BanScope, RequirementType, is_done, Event, Registration, User, Channel, Ban,
  GlobalRequiredChannel, EventRequiredChannel, Db,
}
use free_fire_room.Bans.{is_banned}
use free_fire_room.Telegram.{Bot, get_membership}
use free_fire_room.Social.{social_required, list_tasks, proofs_for_user, rejected_proof, gate_from}
use free_fire_room.Requirements.{
  CheckItem, Checklist, add, done_if, ban_item, capacity_item, not_yet_in, no_seat, accepted_rules,
  has_region, has_player_id, valid_referrals, membership_item, channel_item, in_force, add_channel,
  add_global_channels, add_event_channels, social_item, add_if, add_option, own_items, event_rules,
  event_channels, evaluate_requirements,
}

-- the player is seen as a member of the channel, by a bot that may look
unfoldable pub is_member : Option Bot → User → Option Channel → Bool
is_member bot user none = true
is_member none user (some c) = false
is_member (some bot) user (some c) =
    c.bot_is_admin && (get_membership (bot c.telegram_chat_id user.telegram_id)).ok

-- what the player fulfils alone
unfoldable pub is_fit : ℕ → Db → User → Event → Option Registration → Bool
is_fit now db user event registration =
    ((((not (is_some (is_banned now db user BanScope.participate))
            && not (no_seat event && not_yet_in registration))
          && (not event.require_rules_accept || accepted_rules registration))
        && (not event.require_profile_complete || has_region user))
      && (not event.require_ff_player_id || has_player_id user))
    && (not (ltb 0 event.required_referrals)
        || leb event.required_referrals (valid_referrals db user.id event.id))

-- the pages to follow are covered by screenshots, none of them rejected
unfoldable pub is_following : Db → User → Event → Bool
is_following db user event =
    not (social_required event)
    || (not (is_some (rejected_proof (proofs_for_user db event.id user.id)))
        && gate_from (list_tasks db event.id) (proofs_for_user db event.id user.id))

unfoldable pub is_eligible : ℕ → Option Bot → Db → User → Event → Option Registration → Bool
is_eligible now bot db user event registration =
    ((is_fit now db user event registration
        && all (λ g. not (in_force now g) || is_member bot user (db.channels g.channel_id))
            (event_rules db))
      && all (λ r. is_member bot user (db.channels r.channel_id)) (event_channels db event.id))
    && is_following db user event

-- one more conjunct, and then the others
and_step :
    (a b r : Bool) {c d : Bool} → c ≡ (a && b) → d ≡ (c && r) → d ≡ (a && (if b then r else false))
and_step a b r p q = ground arith

add-all_ok : (i : CheckItem) (c : Checklist) → (add i c).all_ok ≡ (c.all_ok && is_done i.status)
unfolding add
add-all_ok i c = ground arith

add_if-all_ok :
    (asked : Bool) (i : CheckItem) (c : Checklist)
    → (add_if asked i c).all_ok ≡ (c.all_ok && (not asked || is_done i.status))
unfolding add_if add
add_if-all_ok true i c = ground arith
add_if-all_ok false i c = ground arith

is_done-done_if : (b : Bool) → is_done (done_if b) ≡ b
is_done-done_if true = refl
is_done-done_if false = refl

ban_item-is_done : (b : Option Ban) → is_done (ban_item b).status ≡ not (is_some b)
unfolding ban_item
ban_item-is_done none = refl
ban_item-is_done (some b) = refl

capacity_item-is_done :
    (e : Event) (registration : Option Registration)
    → is_done (capacity_item e registration).status ≡ not (no_seat e && not_yet_in registration)
unfolding capacity_item
capacity_item-is_done e registration = elim (Bool-cases (no_seat e && not_yet_in registration)) [
  | inr seat ↦ rw seat refl
  | inl full ↦ elim (Bool-cases e.waitlist_enabled) [
    | inl w ↦ rw (full, w) refl
    | inr w ↦ rw (full, w) refl
  ]
]

add_channel-all_ok :
    (bot : Option Bot) (user : User) (t : RequirementType) (channel : Option Channel)
    (c : Checklist)
    → (add_channel bot user t channel c).all_ok ≡ (c.all_ok && is_member bot user channel)
unfolding add_channel is_member membership_item channel_item add
add_channel-all_ok bot user t none c = ground arith
add_channel-all_ok none user t (some channel) c = ground arith
add_channel-all_ok (some bot) user t (some channel) c = ground arith

-- a rule counts only if it is in force
one_rule :
    (f : Checklist → Checklist) (c next : Checklist) (m rest b : Bool)
    → next.all_ok ≡ (c.all_ok && m)
    → ((d : Checklist) → (f d).all_ok ≡ (d.all_ok && rest))
    → (f (if b then next else c)).all_ok ≡ (c.all_ok && (if not b || m then rest else false))
one_rule f c next m rest true q k = and_step c.all_ok m rest q (k next)
one_rule f c next m rest false q k = k c

add_global_channels-all_ok :
    (now : ℕ) (bot : Option Bot) (user : User) (db : Db) (gs : List GlobalRequiredChannel)
    (c : Checklist)
    → (add_global_channels now bot user db gs c).all_ok ≡ (
        c.all_ok
        && all (λ g. not (in_force now g) || is_member bot user (db.channels g.channel_id)) gs)
unfolding add_global_channels
add_global_channels-all_ok now bot user db [] c = ground arith
add_global_channels-all_ok now bot user db (g ∷ gs) c =
    let h = db.channels g.channel_id in
    one_rule (add_global_channels now bot user db gs) c _ _ _ (in_force now g)
      (add_channel-all_ok bot user RequirementType.global_channel_membership h c)
      (add_global_channels-all_ok now bot user db gs)

add_event_channels-all_ok :
    (bot : Option Bot) (user : User) (db : Db) (rs : List EventRequiredChannel) (c : Checklist)
    → (add_event_channels bot user db rs c).all_ok
      ≡ (c.all_ok && all (λ r. is_member bot user (db.channels r.channel_id)) rs)
unfolding add_event_channels
add_event_channels-all_ok bot user db [] c = ground arith
add_event_channels-all_ok bot user db (r ∷ rs) c =
    let h = db.channels r.channel_id in
    let t = RequirementType.channel_membership in
    and_step _ (is_member bot user h) _ (add_channel-all_ok bot user t h c)
      (add_event_channels-all_ok bot user db rs (add_channel bot user t h c))

own_items-all_ok :
    (now : ℕ) (db : Db) (user : User) (event : Event) (registration : Option Registration)
    → (own_items now db user event registration).all_ok ≡ is_fit now db user event registration
unfolding own_items is_fit
own_items-all_ok now db user event registration =
    simp (add_if-all_ok, add-all_ok, is_done-done_if, ban_item-is_done, capacity_item-is_done)

add_social-all_ok :
    (db : Db) (user : User) (event : Event) (c : Checklist)
    → (add_option (social_item db user event) c).all_ok ≡ (c.all_ok && is_following db user event)
unfolding social_item is_following add_option add
add_social-all_ok db user event c = elim (Bool-cases (social_required event)) [
  | inr off ↦ rw off (ground arith)
  | inl on ↦ elim (Bool-cases (is_some (rejected_proof (proofs_for_user db event.id user.id)))) [
    | inl rejected ↦ rw (on, rejected) (ground arith)
    | inr kept ↦
        elim (Bool-cases
          (gate_from (list_tasks db event.id) (proofs_for_user db event.id user.id))) [
            | inl g ↦ rw (on, kept, g) (ground arith)
            | inr g ↦ rw (on, kept, g) (ground arith)
          ]
  ]
]

-- The checklist is complete exactly for a player who is not banned, has a seat or finds one free,
-- fulfils each of the event's own conditions that it asks for, is a member of every stored channel
-- of the rules in force and of the event, as seen by a bot that is an administrator there, and
-- covers the pages to follow by screenshots, none of which is rejected.
pub evaluate_requirements-is_eligible :
    (now : ℕ) (bot : Option Bot) (db : Db) (user : User) (event : Event)
    (registration : Option Registration)
    → (evaluate_requirements now bot db user event registration).all_ok
      ≡ is_eligible now bot db user event registration
unfolding evaluate_requirements is_eligible
evaluate_requirements-is_eligible now bot db user event registration =
    simp
      (add_social-all_ok, add_event_channels-all_ok, add_global_channels-all_ok, own_items-all_ok)
