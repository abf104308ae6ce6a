-- ===== src/Funnel.antt =====
-- backend/app/services/funnel.py: how many players reach each stage of an event, and where most of
-- them are lost.
pub mod Drops
use free_fire_room.Prelude.{
  ℕ, ◌-◌, Bool, ◌&&◌, Option, none, some, List, [], ◌∷◌, String, ltb, leb, ◌==◌, if◌then◌else◌, any,
  count, insert,
}
use free_fire_room.Model.{is_confirmed, is_sent, EventView, Db}
use free_fire_room.Reviews.{
  is_pending_registration, is_waiting_registration, is_ineligible, is_from_link,
}

abbrev pub view_of : ℕ → ℕ → EventView → Bool
view_of event_id user_id v = v.event_id == event_id && v.user_id == user_id

-- one row for each event and player, the first; another session's insert between the two queries,
-- which ends in a rollback, is left out
unfoldable pub record_view : ℕ → ℕ → Option String → Db → Db
record_view event_id user_id source db =
    if any (view_of event_id user_id) db.views then db else record db {
      views = insert (record { event_id = event_id; user_id = user_id; source = source }) db.views;
    }

pub record FunnelStats : Type 0 where
  pub viewed : ℕ
  pub started : ℕ
  pub confirmed : ℕ
  pub waitlisted : ℕ
  pub pending : ℕ
  pub ineligible : ℕ
  pub from_link : ℕ
  pub delivered : ℕ

abbrev pub at_least : ℕ → ℕ → ℕ
at_least a b = if leb a b then b else a

unfoldable pub event_funnel : ℕ → Db → FunnelStats
event_funnel k db =
    let all = count (λ r. r.event_id == k) db.registrations in
    record {
      viewed = at_least (count (λ v. v.event_id == k) db.views) all;
      started = all;
      confirmed = count (λ r. r.event_id == k && is_confirmed r.status) db.registrations;
      waitlisted =
          count (λ r. r.event_id == k && is_waiting_registration r.status) db.registrations;
      pending = count (λ r. r.event_id == k && is_pending_registration r.status) db.registrations;
      ineligible = count (λ r. r.event_id == k && is_ineligible r.status) db.registrations;
      from_link = count (λ r. r.event_id == k && is_from_link r.source) db.registrations;
      delivered = count (λ d. d.event_id == k && is_sent d.status) db.deliveries;
    }

-- the three sentences of `biggest_drop`, by the stage that loses the players
pub data Stage : Type 0 where
  card registration delivery : Stage

-- the loop: the worst stage so far, and what it loses
abbrev pub worst_of : List (ℕ × ℕ × Stage) → Option Stage → ℕ → Option Stage × ℕ
worst_of [] worst worst_lost = (worst, worst_lost)
worst_of ((before, after, stage) ∷ rest) worst worst_lost =
    let lost = before - after in
    let changed = worst_of rest (some stage) lost in
    let kept = worst_of rest worst worst_lost in if ltb worst_lost lost then changed else kept

unfoldable pub biggest_drop : FunnelStats → Option Stage
biggest_drop f =
    let found =
      worst_of
        ((f.viewed, f.started, card)
          ∷ (f.started, f.confirmed, registration)
          ∷ (f.confirmed, f.delivered, delivery)
          ∷ [])
        none 0 in
    if ltb found.1 3 then none else found.0
