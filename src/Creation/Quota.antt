-- ===== src/Creation/Quota.antt =====
-- What the making of an event keeps: the quota of the organizer, and the invariant of the seats.
use free_fire_room.Prelude.{
  ℕ, ◌+◌, ◌≤◌, ◌≡◌, ◌⊎◌, refl, sym, ap, ◌∙◌, subst, str_eq, insert, if_both, true, false, not, ◌&&◌,
  Option, none, some, List, [], ◌∷◌, String, inl, inr, Bool-cases, ◌==◌, ltb, leb, if◌then◌else◌,
  if_cases, count, any, count-insert, ==_refl, Reply, ok, raised, arith,
}
use free_fire_room.Model.{Event, Db}
use free_fire_room.Lifecycle.{Error, validate_times, first_creds}
use free_fire_room.Registration.Seats.{IsConsistent, IsConsistent-same, Fits, confirmed_for}
use free_fire_room.Creation.{
  EventData, CreateError, counts_for, running_events, event_limit, new_event, add_event, seed_room,
  seed_tasks, seed_requirements, store_event, create_event, finish_creation, event_quota,
  referrals_cap, bad_times,
}

-- the seeds touch neither the events nor the registrations nor the waitlist
seed_room-keeps :
    (encrypt : String → String) (actor k : ℕ) (a b : Option String) (db : Db)
    → let db' = seed_room encrypt actor k a b db in
      (db'.events ≡ db.events)
      × (db'.event_ids ≡ db.event_ids)
      × (db'.registrations ≡ db.registrations)
      × (db'.waitlist ≡ db.waitlist)
unfolding seed_room
seed_room-keeps encrypt actor k none b db = (refl, refl, refl, refl)
seed_room-keeps encrypt actor k (some a) none db = (refl, refl, refl, refl)
seed_room-keeps encrypt actor k (some a) (some b) db =
    if_both
      (λ x.
        (x.events ≡ db.events)
        × (x.event_ids ≡ db.event_ids)
        × (x.registrations ≡ db.registrations)
        × (x.waitlist ≡ db.waitlist))
      (not (str_eq a "") && not (str_eq b ""))
      (record db {
        credentials = insert (first_creds k actor (encrypt a) (encrypt b)) db.credentials;
      })
      db (refl, refl, refl, refl) (refl, refl, refl, refl)

pub store_event-keeps :
    (encrypt : String → String) (actor first_task : ℕ) (e : Event) (form : EventData) (db : Db)
    → let db' = store_event encrypt actor first_task e form db in
      (db'.events ≡ (add_event e db).events)
      × (db'.event_ids ≡ (add_event e db).event_ids)
      × (db'.registrations ≡ db.registrations)
      × (db'.waitlist ≡ db.waitlist)
unfolding store_event seed_tasks seed_requirements
store_event-keeps encrypt actor first_task e form db =
    seed_room-keeps encrypt actor e.id form.room_id form.room_password (
      seed_tasks e.id first_task form.social_pages
        (seed_requirements e form.required_channel_ids (add_event e db)))

-- an event whose id is new changes no count over the old ids
count-add_event :
    (o : ℕ) (e : Event) (events : ℕ → Option Event) (ids : List ℕ)
    → any (λ k. k == e.id) ids ≡ false
    → count (λ k. counts_for o (if k == e.id then some e else events k)) ids
      ≡ count (λ k. counts_for o (events k)) ids
count-add_event o e events [] h = refl
count-add_event o e events (k ∷ ks) h = elim (Bool-cases (k == e.id)) [
  | inl same ↦ absurd (ground arith)
  | inr other ↦
      let rest = count-add_event o e events ks (ground arith) in rw (count, other) (omega arith)
]

running-same :
    (o : ℕ) (db db' : Db)
    → db'.events ≡ db.events
    → db'.event_ids ≡ db.event_ids
    → running_events o db' ≡ running_events o db
running-same o db db' p q =
    ap (λ f. count (λ k. counts_for o (f k)) db'.event_ids) p
    ∙ ap (λ ids. count (λ k. counts_for o (db.events k)) ids) q

-- the new event counts, the others count as before
add_event-running :
    (e : Event) (db : Db)
    → any (λ k. k == e.id) db.event_ids ≡ false
    → counts_for e.organizer_id (some e) ≡ true
    → running_events e.organizer_id (add_event e db) ≡ running_events e.organizer_id db + 1
add_event-running e db h c =
    let events : ℕ → Option Event = (add_event e db).events in
    let old = count-add_event e.organizer_id e db.events db.event_ids h in
    let new = count-insert (λ k. counts_for e.organizer_id (events k)) e.id db.event_ids in
    ground (arith, ==_refl e.id)

new_event-counts :
    (fresh o : ℕ) (form : EventData) → counts_for o (some (new_event fresh o form)) ≡ true
new_event-counts fresh o form = rw (==_refl o) refl

module _ (encrypt : String → String) (limit max_refs now organizer_id : ℕ) (max_events : Option ℕ)
    (actor fresh first_task : ℕ) (form : EventData) (db : Db) where
  -- What holds of every error and of a stored event holds of the answer.
  pub create_event_rule {ℓ} :
      (P : Reply Event CreateError × Db → Type ℓ)
      → ((x : CreateError) → P (raised x, db))
      → (leb (event_limit max_events limit) (running_events organizer_id db) ≡ false
          → P (
            ok (new_event fresh organizer_id form),
            store_event encrypt actor first_task (new_event fresh organizer_id form) form db,
          ))
      → P (
          create_event encrypt limit max_refs now organizer_id max_events actor fresh first_task
            form db)
  unfolding create_event finish_creation
  create_event_rule P bad good =
      if_cases P (leb (event_limit max_events limit) (running_events organizer_id db))
        (raised event_quota, db)
        (if ltb max_refs form.required_referrals then (raised referrals_cap, db) else finished)
        (λ _. bad event_quota)
        (λ room.
          if_both P (ltb max_refs form.required_referrals) (raised referrals_cap, db) finished
            (bad referrals_cap)
            (timed room (
              validate_times now form.starts_at form.registration_ends_at
                form.credentials_send_at)))
    where
      finished : Reply Event CreateError × Db
      finished =
          finish_creation encrypt actor first_task (new_event fresh organizer_id form) form
            (validate_times now form.starts_at form.registration_ends_at form.credentials_send_at)
            db

      timed :
          leb (event_limit max_events limit) (running_events organizer_id db) ≡ false
          → (broken : Option Error)
          → P (
              finish_creation encrypt actor first_task
                (new_event fresh organizer_id form)
                form
                broken
                db)
      timed room (some error) = bad (bad_times error)
      timed room none = good room

-- what the answer means for the organizer's quota
abbrev pub IsCounted : ℕ → ℕ → Db → Reply Event CreateError × Db → Type 0
IsCounted organizer_id limit db (ok e, db') =
    (running_events organizer_id db' ≡ running_events organizer_id db + 1)
    × (running_events organizer_id db' ≤ limit)
IsCounted organizer_id limit db (raised error, db') = db' ≡ db

-- An event that is made counts as one more running event of its organizer, and the organizer has no
-- more than the limit even so; an error writes nothing. It supposes that the new event's id is not
-- in use.
pub create_event-IsCounted :
    (encrypt : String → String) (limit max_refs now organizer_id : ℕ) (max_events : Option ℕ)
    (actor fresh first_task : ℕ) (form : EventData) (db : Db)
    → any (λ k. k == fresh) db.event_ids ≡ false
    → IsCounted organizer_id (event_limit max_events limit) db (
        create_event encrypt limit max_refs now organizer_id max_events actor fresh first_task form
          db)
create_event-IsCounted encrypt limit max_refs now organizer_id max_events actor fresh first_task
      form db h =
    let e = new_event fresh organizer_id form in
    create_event_rule encrypt limit max_refs now organizer_id max_events actor fresh first_task form
      db (IsCounted organizer_id (event_limit max_events limit) db) (λ x. refl)
      (λ room.
        let (p, q, r, w) = store_event-keeps encrypt actor first_task e form db in
        let n = add_event-running e db h (new_event-counts fresh organizer_id form) in
        let same =
          running-same organizer_id (add_event e db)
            (store_event encrypt actor first_task e form db) p q in
        (same ∙ n, ground (arith, same, n)))

-- the event that is found is the new one, or was there before
found_event :
    (e e' : Event) (k : ℕ) (db : Db)
    → (add_event e db).events k ≡ some e'
    → ((k ≡ e.id) × (e ≡ e')) ⊎ (db.events k ≡ some e')
found_event e e' k db g = elim (Bool-cases (k == e.id)) [
  | inl same ↦ inl (ground arith, ground arith)
  | inr other ↦ inr (ground arith)
]

add_event-IsConsistent :
    (e : Event) (db : Db)
    → IsConsistent db
    → e.confirmed_count ≡ 0
    → count (confirmed_for e.id) db.registrations ≡ 0
    → IsConsistent (add_event e db)
add_event-IsConsistent e db c z none_yet = record {
  keyed = c.keyed;
  ids = λ k e' g. elim (found_event e e' k db g) [
    | inl (same, is) ↦ subst (λ x. x.id ≡ k) is (sym same)
    | inr old ↦ c.ids k e' old
  ];
  counted = λ k e' g. elim (found_event e e' k db g) [
    | inl (same, is) ↦
        subst (λ x. x.confirmed_count ≡ count (confirmed_for k) db.registrations) is
          (subst (λ n. e.confirmed_count ≡ count (confirmed_for n) db.registrations) (sym same)
            (z ∙ sym none_yet))
    | inr old ↦ c.counted k e' old
  ];
  fits = λ k e' g. elim (found_event e e' k db g) [
    | inl (same, is) ↦ subst Fits is (inr (omega arith))
    | inr old ↦ c.fits k e' old
  ];
}

-- Making an event keeps the invariant of the seats, whatever the answer: the new event has no
-- confirmed player yet. It supposes that no confirmed registration is for the new event's id.
pub create_event-IsConsistent :
    (encrypt : String → String) (limit max_refs now organizer_id : ℕ) (max_events : Option ℕ)
    (actor fresh first_task : ℕ) (form : EventData) (db : Db)
    → IsConsistent db
    → count (confirmed_for fresh) db.registrations ≡ 0
    → IsConsistent
        (create_event encrypt limit max_refs now organizer_id max_events actor fresh first_task form
          db).1
create_event-IsConsistent encrypt limit max_refs now organizer_id max_events actor fresh first_task
      form db c none_yet =
    let e = new_event fresh organizer_id form in
    create_event_rule encrypt limit max_refs now organizer_id max_events actor fresh first_task form
      db (λ x. IsConsistent x.1) (λ x. c)
      (λ room.
        let (p, q, r, w) = store_event-keeps encrypt actor first_task e form db in
        IsConsistent-same (add_event e db) (store_event encrypt actor first_task e form db) p r
          (add_event-IsConsistent e db c refl none_yet))
