-- ===== src/Creation.antt =====
-- The making of an event: create_event of backend/app/services/events.py, with the rows that it
-- seeds. Prizes and texts for display are left out.
pub mod Quota
pub mod Copies
use free_fire_room.Prelude.{
  ℕ, ◌+◌, Bool, true, false, not, ◌&&◌, Option, none, some, List, [], ◌∷◌, ◌++◌, map, String,
  str_eq, ltb, leb, ◌==◌, if◌then◌else◌, is_some, truthy, count, insert, take, strip, has_text,
  Reply, ok, raised,
}
use free_fire_room.Model.{
  EventStatus, RequirementType, Event, EventRequirement, EventRequiredChannel, EventSocialTask, Db,
  save_event, write_audit,
}
use free_fire_room.Lifecycle.{Error, validate_times, first_creds}

-- what the code reads of the organizer's `data`, with its defaults; a negative capacity counts as 0
pub record EventData : Type 0 where
  pub channel_id : Option ℕ
  pub starts_at : ℕ
  pub registration_ends_at : ℕ
  pub credentials_send_at : ℕ
  pub capacity : ℕ
  pub waitlist_enabled : Bool
  pub require_rules_accept : Bool
  pub require_ff_player_id : Bool
  pub require_profile_complete : Bool
  pub required_referrals : ℕ
  pub reminder_offsets_minutes : List ℕ
  pub social_url : Option String
  pub social_pages : List String
  pub required_channel_ids : List ℕ
  pub room_id : Option String
  pub room_password : Option String

pub data CreateError : Type 0 where
  event_quota referrals_cap : CreateError
  bad_times : Error → CreateError

-- `status in [DRAFT, PENDING_APPROVAL, PUBLISHED, FULL, STARTED]`
abbrev pub is_running : EventStatus → Bool
is_running EventStatus.draft = true
is_running EventStatus.pending_approval = true
is_running EventStatus.published = true
is_running EventStatus.full = true
is_running EventStatus.started = true
is_running _ = false

abbrev pub counts_for : ℕ → Option Event → Bool
counts_for organizer_id none = false
counts_for organizer_id (some e) =
    e.organizer_id == organizer_id && (not (is_some e.deleted_at) && is_running e.status)

-- `existing`: the organizer's events that count
abbrev pub running_events : ℕ → Db → ℕ
running_events organizer_id db = count (λ k. counts_for organizer_id (db.events k)) db.event_ids

-- `organizer.max_events or` the setting: 0 is false
abbrev pub event_limit : Option ℕ → ℕ → ℕ
event_limit none setting = setting
event_limit (some n) setting = if n == 0 then setting else n

-- `… or [60, 10]`
abbrev offsets_or_default : List ℕ → List ℕ
offsets_or_default [] = 60 ∷ 10 ∷ []
offsets_or_default (m ∷ ms) = m ∷ ms

abbrev url_or_none : Option String → Option String
url_or_none url = if truthy url then url else none

abbrev pub new_event : ℕ → ℕ → EventData → Event
new_event fresh organizer_id form = record {
  id = fresh;
  organizer_id = organizer_id;
  channel_id = form.channel_id;
  starts_at = form.starts_at;
  registration_ends_at = form.registration_ends_at;
  credentials_send_at = form.credentials_send_at;
  capacity = form.capacity;
  confirmed_count = 0;
  waitlist_enabled = form.waitlist_enabled;
  status = EventStatus.draft;
  require_rules_accept = form.require_rules_accept;
  require_ff_player_id = form.require_ff_player_id;
  require_profile_complete = form.require_profile_complete;
  required_referrals = form.required_referrals;
  reminder_offsets_minutes = offsets_or_default form.reminder_offsets_minutes;
  rejection_reason = none;
  cancel_reason = none;
  published_at = none;
  cancelled_at = none;
  finished_at = none;
  reviewed_by = none;
  deep_link_active = true;
  archived_at = none;
  social_url = url_or_none form.social_url;
  deleted_at = none;
}

abbrev pub requirement : ℕ → RequirementType × ℕ → EventRequirement
requirement event_id (t, order) = record {
  event_id = event_id;
  requirement_type = t;
  ref_id = none;
  sort_order = order;
  is_active = true;
}

abbrev pub channel_requirement : ℕ → ℕ → EventRequirement
channel_requirement event_id channel_id = record {
  event_id = event_id;
  requirement_type = RequirementType.channel_membership;
  ref_id = some channel_id;
  sort_order = 0;
  is_active = true;
}

abbrev keep_if : Bool → RequirementType → ℕ → List (RequirementType × ℕ)
keep_if true t order = (t, order) ∷ []
keep_if false t order = []

-- the list `items` of `_seed_requirements`
unfoldable pub seed_items : Event → List (RequirementType × ℕ)
seed_items e =
    (RequirementType.not_banned, 0)
    ∷ (RequirementType.capacity, 1)
    ∷ (keep_if e.require_rules_accept RequirementType.rules_accept 2
        ++ (keep_if e.require_profile_complete RequirementType.profile_complete 3
            ++ (keep_if e.require_ff_player_id RequirementType.ff_player_id 4
                ++ (keep_if (ltb 0 e.required_referrals) RequirementType.referrals 5
                    ++ ((RequirementType.global_channel_membership, 6)
                        ∷ keep_if (has_text e.social_url) RequirementType.social_follow 7)))))

abbrev pub required_channel : ℕ → ℕ → EventRequiredChannel
required_channel event_id channel_id = record {
  event_id = event_id;
  channel_id = channel_id;
  is_active = true;
}

-- The channels are taken to differ: a repeated one violates the key (event_id, channel_id), and the
-- IntegrityError of that is left out.
unfoldable pub seed_requirements : Event → List ℕ → Db → Db
seed_requirements e channel_ids db = record db {
  requirements =
      db.requirements
      ++ (map (requirement e.id) (seed_items e) ++ map (channel_requirement e.id) channel_ids);
  required_channels = db.required_channels ++ map (required_channel e.id) channel_ids;
}

-- `MAX_SOCIAL_TASKS`
abbrev pub max_social_tasks : ℕ
max_social_tasks = 5

-- the loop of `seed_tasks`: `i` the number of the page, `id` the id of the next row
unfoldable pub tasks_of : ℕ → ℕ → ℕ → List String → List EventSocialTask
tasks_of event_id id i [] = []
tasks_of event_id id i (raw ∷ rest) =
    let url = strip raw in
    let blank = tasks_of event_id id (i + 1) rest in
    let full = tasks_of event_id (id + 1) (i + 1) rest in
    if str_eq url ""
    then blank
    else record { id = id; event_id = event_id; url = url; sort_order = i; is_active = true } ∷ full

unfoldable pub seed_tasks : ℕ → ℕ → List String → Db → Db
seed_tasks event_id first pages db = record db {
  tasks = db.tasks ++ tasks_of event_id first 0 (take max_social_tasks pages);
}

-- a room that is given at once; `encrypt` is a library's cipher
unfoldable pub seed_room : (String → String) → ℕ → ℕ → Option String → Option String → Db → Db
seed_room encrypt actor event_id (some room_id) (some password) db =
    if not (str_eq room_id "") && not (str_eq password "")
    then record db {
      credentials =
          insert (first_creds event_id actor (encrypt room_id) (encrypt password)) db.credentials;
    }
    else db
seed_room encrypt actor event_id _ _ db = db

-- the new row of the events table
abbrev pub add_event : Event → Db → Db
add_event e db = save_event e (record db { event_ids = insert e.id db.event_ids })

-- what is written once the checks are passed
unfoldable pub store_event : (String → String) → ℕ → ℕ → Event → EventData → Db → Db
store_event encrypt actor first_task e form db = write_audit "event_created" e.id actor (
    seed_room encrypt actor e.id form.room_id form.room_password (
      seed_tasks e.id first_task form.social_pages
        (seed_requirements e form.required_channel_ids (add_event e db))))

-- after the check of the times, `broken` the first rule that they break
unfoldable pub finish_creation :
    (String → String) → ℕ → ℕ → Event → EventData → Option Error → Db → Reply Event CreateError × Db
finish_creation encrypt actor first_task e form (some error) db = (raised (bad_times error), db)
finish_creation encrypt actor first_task e form none db =
    (ok e, store_event encrypt actor first_task e form db)

-- `limit` and `max_refs` are the settings, `max_events` the organizer's own limit, `fresh` and
-- `first_task` the ids of the new rows
unfoldable pub create_event :
    (String → String)
    → ℕ
    → ℕ
    → ℕ
    → ℕ
    → Option ℕ
    → ℕ
    → ℕ
    → ℕ
    → EventData
    → Db
    → Reply Event CreateError × Db
create_event encrypt limit max_refs now organizer_id max_events actor fresh first_task form db =
    if leb (event_limit max_events limit) (running_events organizer_id db)
    then (raised event_quota, db)
    else if ltb max_refs form.required_referrals
    then (raised referrals_cap, db)
    else finish_creation encrypt actor first_task (new_event fresh organizer_id form) form
        (validate_times now form.starts_at form.registration_ends_at form.credentials_send_at) db
