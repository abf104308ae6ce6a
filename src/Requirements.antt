-- ===== src/Requirements.antt =====
-- backend/app/services/requirements.py: the checklist of what a player must have done before a
-- registration counts. A label, a detail, an action or a link is text for the player, and is left out.
pub mod Meaning
use free_fire_room.Prelude.{
  ℕ, Bool, true, false, not, ◌&&◌, ◌||◌, Option, none, some, List, [], ◌∷◌, ltb, leb, ◌==◌,
  same_ref, if◌then◌else◌, is_some, truthy, select, count, insert,
}
use free_fire_room.Model.{
  BanScope, RequirementType, RequirementStatus, is_done, is_confirmed, Event, Registration, User,
  UserProfile, Ban, Channel, GlobalRequiredChannel, EventRequiredChannel, Db,
}
use free_fire_room.Bans.{is_banned, is_banned_sync}
use free_fire_room.Telegram.{Bot, CheckError, MembershipResult, get_membership}
use free_fire_room.Social.{social_required, list_tasks, proofs_for_user, rejected_proof, gate_from}

pub record CheckItem : Type 0 where
  pub requirement_type : RequirementType
  pub status : RequirementStatus
  pub ref_id : Option ℕ

pub record Checklist : Type 0 where
  pub items : List CheckItem
  pub all_ok : Bool

abbrev pub new_checklist : Checklist
new_checklist = record { items = []; all_ok = true }

unfoldable pub add : CheckItem → Checklist → Checklist
add item c = record {
  items = insert item c.items;
  all_ok = if is_done item.status then c.all_ok else false;
}

-- `RequirementStatus.DONE if ok else RequirementStatus.NOT_DONE`
abbrev pub done_if : Bool → RequirementStatus
done_if true = RequirementStatus.done
done_if false = RequirementStatus.not_done

abbrev pub plain : RequirementType → RequirementStatus → CheckItem
plain t status = record { requirement_type = t; status = status; ref_id = none }

unfoldable pub ban_item : Option Ban → CheckItem
ban_item none = plain RequirementType.not_banned RequirementStatus.done
ban_item (some _) = plain RequirementType.not_banned RequirementStatus.rejected

-- `registration is None or registration.status != "confirmed"`
abbrev pub not_yet_in : Option Registration → Bool
not_yet_in none = true
not_yet_in (some r) = not (is_confirmed r.status)

-- `not unlimited and event.confirmed_count >= event.capacity`
abbrev pub no_seat : Event → Bool
no_seat e = not (e.capacity == 0) && leb e.capacity e.confirmed_count

unfoldable pub capacity_item : Event → Option Registration → CheckItem
capacity_item e registration = plain RequirementType.capacity (
    if no_seat e && not_yet_in registration
    then (if e.waitlist_enabled
        then RequirementStatus.pending_review
        else RequirementStatus.not_done)
    else RequirementStatus.done)

abbrev pub accepted_rules : Option Registration → Bool
accepted_rules none = false
accepted_rules (some r) = is_some r.rules_accepted_at

abbrev pub has_region : User → Bool
has_region user = elim user.profile [ none ↦ false | some p ↦ truthy p.region ]

abbrev pub has_player_id : User → Bool
has_player_id user = elim user.profile [ none ↦ false | some p ↦ truthy p.ff_player_id ]

-- the valid invitations that this player made for this event
unfoldable pub valid_referrals : Db → ℕ → ℕ → ℕ
valid_referrals db user_id event_id =
    count (λ r. (r.inviter_id == user_id && same_ref r.event_id event_id) && r.is_valid)
      db.referrals

-- `_membership_item`
unfoldable pub membership_item : Option Bot → User → Channel → RequirementType → CheckItem
membership_item none user channel t = plain t RequirementStatus.pending_review
membership_item (some bot) user channel t = record {
  requirement_type = t;
  status = done_if (get_membership (bot channel.telegram_chat_id user.telegram_id)).ok;
  ref_id = some channel.id;
}

-- a channel of either kind: the bot must be able to look its members up
unfoldable pub channel_item : Option Bot → User → Channel → RequirementType → CheckItem
channel_item bot user channel t =
    if not channel.bot_is_admin
    then record {
      requirement_type = t;
      status = RequirementStatus.not_done;
      ref_id = some channel.id;
    }
    else membership_item bot user channel t

-- a rule for every event, if it is in force at this moment
abbrev pub in_force : ℕ → GlobalRequiredChannel → Bool
in_force now g =
    not (elim g.starts_at [ none ↦ false | some t ↦ ltb now t ])
    && not (elim g.ends_at [ none ↦ false | some t ↦ ltb t now ])

unfoldable pub add_channel :
    Option Bot → User → RequirementType → Option Channel → Checklist → Checklist
add_channel bot user t none c = c
add_channel bot user t (some channel) c = add (channel_item bot user channel t) c

unfoldable pub add_global_channels :
    ℕ → Option Bot → User → Db → List GlobalRequiredChannel → Checklist → Checklist
add_global_channels now bot user db [] c = c
add_global_channels now bot user db (g ∷ gs) c = add_global_channels now bot user db gs (
    if in_force now g
    then add_channel bot user RequirementType.global_channel_membership (db.channels g.channel_id) c
    else c)

unfoldable pub add_event_channels :
    Option Bot → User → Db → List EventRequiredChannel → Checklist → Checklist
add_event_channels bot user db [] c = c
add_event_channels bot user db (r ∷ rs) c =
    add_event_channels bot user db rs
      (add_channel bot user RequirementType.channel_membership (db.channels r.channel_id) c)

-- `_social_item`: a rejected screenshot is looked for first, then the gate.
unfoldable pub social_item : Db → User → Event → Option CheckItem
social_item db user event =
    if not (social_required event)
    then none
    else if is_some (rejected_proof (proofs_for_user db event.id user.id))
    then some (plain RequirementType.social_follow RequirementStatus.not_done)
    else if gate_from (list_tasks db event.id) (proofs_for_user db event.id user.id)
    then some (plain RequirementType.social_follow RequirementStatus.done)
    else some (plain RequirementType.social_follow RequirementStatus.not_done)

unfoldable pub add_if : Bool → CheckItem → Checklist → Checklist
add_if asked item c = if asked then add item c else c

unfoldable pub add_option : Option CheckItem → Checklist → Checklist
add_option none c = c
add_option (some item) c = add item c

-- the items that do not depend on a channel or a page
unfoldable pub own_items : ℕ → Db → User → Event → Option Registration → Checklist
own_items now db user event registration =
    add_if (ltb 0 event.required_referrals)
      (plain RequirementType.referrals
        (done_if (leb event.required_referrals (valid_referrals db user.id event.id))))
      (add_if event.require_ff_player_id
        (plain RequirementType.ff_player_id (done_if (has_player_id user)))
        (add_if event.require_profile_complete
          (plain RequirementType.profile_complete (done_if (has_region user)))
          (add_if event.require_rules_accept
            (plain RequirementType.rules_accept (done_if (accepted_rules registration)))
            (add (capacity_item event registration)
              (add (ban_item (is_banned now db user BanScope.participate)) new_checklist)))))

-- the active rules that apply to events
abbrev pub event_rules : Db → List GlobalRequiredChannel
event_rules db = select (λ g. g.is_active && g.applies_to_events) db.global_channels

-- the channels that this event asks for
abbrev pub event_channels : Db → ℕ → List EventRequiredChannel
event_channels db event_id =
    select (λ r. r.event_id == event_id && r.is_active) db.required_channels

unfoldable pub evaluate_requirements :
    ℕ → Option Bot → Db → User → Event → Option Registration → Checklist
evaluate_requirements now bot db user event registration = add_option (social_item db user event) (
    add_event_channels bot user db (event_channels db event.id) (
      add_global_channels now bot user db (event_rules db)
        (own_items now db user event registration)))

unfoldable pub evaluate_capacity_only : Event → Bool → Bool
evaluate_capacity_only event already_confirmed =
    if already_confirmed
    then true
    else if event.capacity == 0
    then true
    else ltb event.confirmed_count event.capacity

-- the loop of `evaluate_requirements_sync` over what the worker knows of each chat
unfoldable pub add_memberships : List (ℕ × Bool) → Checklist → Checklist
add_memberships [] c = c
add_memberships ((chat, member) ∷ rest) c =
    add_memberships rest (add (plain RequirementType.channel_membership (done_if member)) c)

unfoldable pub evaluate_requirements_sync : ℕ → Db → User → Event → List (ℕ × Bool) → Checklist
evaluate_requirements_sync now db user event memberships =
    add_if (ltb 0 event.required_referrals)
      (plain RequirementType.referrals
        (done_if (leb event.required_referrals (valid_referrals db user.id event.id))))
      (add_memberships memberships
        (add (ban_item (is_banned_sync now db user BanScope.participate)) new_checklist))
