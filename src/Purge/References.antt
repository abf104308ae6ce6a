-- ===== src/Purge/References.antt =====
-- What one round of the purge does to the references between the tables.
use free_fire_room.Prelude.{
  ℕ, ◌≡◌, refl, ap, Bool, true, false, not, Option, none, some, List, [], ◌∷◌, any, all, select,
  ◌==◌, Bool-cases, inl, inr, arith,
}
use free_fire_room.Model.{Event}
use free_fire_room.Purge.{
  Tables, DeliveryRow, JobRow, among, refers, cleared, clear_all, clear_events, clear_jobs,
  job_ids_of, delete_jobs, delete_events, detach, drop_jobs, purge_events,
}

-- the rows that references name
abbrev pub has_event : List Event → ℕ → Bool
has_event es k = any (λ e. e.id == k) es

abbrev pub has_job : List JobRow → ℕ → Bool
has_job js k = any (λ j. j.id == k) js

-- a reference that may be NULL
abbrev pub names : (ℕ → Bool) → Option ℕ → Bool
names has none = true
names has (some k) = has k

-- every reference names a stored row
pub record IsWhole (t : Tables) : Type 0 where
  pub trust_events : all (names (has_event t.events)) t.trust_events ≡ true
  pub notifications : all (names (has_event t.events)) t.notifications ≡ true
  pub reports : all (names (has_event t.events)) t.reports ≡ true
  pub children : all (has_event t.events) t.children ≡ true
  pub deliveries : all (λ d. names (has_event t.events) d.event_id) t.deliveries ≡ true
  pub job_ids : all (λ d. names (has_job t.jobs) d.job_id) t.deliveries ≡ true

module _ (ids : List ℕ) where
  kept_event :
      (es : List Event) (k : ℕ)
      → among ids k ≡ false
      → has_event es k ≡ true
      → has_event (select (λ e. not (among ids e.id)) es) k ≡ true
  kept_event [] k a h = h
  kept_event (e ∷ es) k a h = elim (Bool-cases (e.id == k)) [
    | inl s ↦
        let q : e.id ≡ k = ground arith in
        let b : among ids e.id ≡ false = rw q a in rw b (ground arith)
    | inr s ↦ let rest = kept_event es k a (ground arith) in ground arith
  ]

  kept_job :
      (js : List JobRow) (k : ℕ)
      → among ids k ≡ false
      → has_job js k ≡ true
      → has_job (select (λ j. not (among ids j.id)) js) k ≡ true
  kept_job [] k a h = h
  kept_job (j ∷ js) k a h = elim (Bool-cases (j.id == k)) [
    | inl s ↦
        let q : j.id ≡ k = ground arith in
        let b : among ids j.id ≡ false = rw q a in rw b (ground arith)
    | inr s ↦ let rest = kept_job js k a (ground arith) in ground arith
  ]

  -- a reference that was cleared where it had to be
  names-cleared :
      (es : List Event) (o : Option ℕ)
      → names (has_event es) o ≡ true
      → names (has_event (select (λ e. not (among ids e.id)) es)) (cleared ids o) ≡ true
  names-cleared es none h = refl
  names-cleared es (some k) h = elim (Bool-cases (among ids k)) [
    | inl a ↦ rw a refl
    | inr a ↦ rw a (kept_event es k a h)
  ]

  all-clear_all :
      (es : List Event) (os : List (Option ℕ))
      → all (names (has_event es)) os ≡ true
      → all (names (has_event (select (λ e. not (among ids e.id)) es))) (clear_all ids os) ≡ true
  all-clear_all es [] h = refl
  all-clear_all es (o ∷ os) h =
      let one = names-cleared es o (ground arith) in
      let rest = all-clear_all es os (ground arith) in ground arith

  none_left : (os : List (Option ℕ)) → any (refers ids) (clear_all ids os) ≡ false
  none_left [] = refl
  none_left (o ∷ os) =
      let rest = none_left os in
      elim (Bool-cases (refers ids o)) [ inl a ↦ rw a rest | inr a ↦ rw (a, a) rest ]

  none_selected :
      (os : List (Option ℕ)) → any (refers ids) (select (λ o. not (refers ids o)) os) ≡ false
  none_selected [] = refl
  none_selected (o ∷ os) =
      let rest = none_selected os in
      elim (Bool-cases (refers ids o)) [ inl a ↦ rw a rest | inr a ↦ rw (a, a) rest ]

  kept_reference :
      (es : List Event) (o : Option ℕ)
      → refers ids o ≡ false
      → names (has_event es) o ≡ true
      → names (has_event (select (λ e. not (among ids e.id)) es)) o ≡ true
  kept_reference es none r h = refl
  kept_reference es (some k) r h = kept_event es k r h

  all-selected :
      (es : List Event) (os : List (Option ℕ))
      → all (names (has_event es)) os ≡ true
      → all
          (names (has_event (select (λ e. not (among ids e.id)) es)))
          (select (λ o. not (refers ids o)) os)
        ≡ true
  all-selected es [] h = refl
  all-selected es (o ∷ os) h =
      let rest = all-selected es os (ground arith) in
      elim (Bool-cases (refers ids o)) [
        | inl a ↦ rw a rest
        | inr a ↦ let one = kept_reference es o a (ground arith) in rw (a, one) rest
      ]

  all-children :
      (es : List Event) (ks : List ℕ)
      → all (has_event es) ks ≡ true
      → all (has_event (select (λ e. not (among ids e.id)) es)) (select (λ k. not (among ids k)) ks)
        ≡ true
  all-children es [] h = refl
  all-children es (k ∷ ks) h =
      let rest = all-children es ks (ground arith) in
      elim (Bool-cases (among ids k)) [
        | inl a ↦ rw a rest
        | inr a ↦ let one = kept_event es k a (ground arith) in rw (a, one) rest
      ]

  -- the deliveries: their events, and their jobs
  all-clear_events :
      (es : List Event) (ds : List DeliveryRow)
      → all (λ d. names (has_event es) d.event_id) ds ≡ true
      → all
          (λ d. names (has_event (select (λ e. not (among ids e.id)) es)) d.event_id)
          (clear_events ids ds)
        ≡ true
  all-clear_events es [] h = refl
  all-clear_events es (d ∷ ds) h =
      let one = names-cleared es d.event_id (ground arith) in
      let rest = all-clear_events es ds (ground arith) in ground arith

  same_events :
      (has : ℕ → Bool) (ds : List DeliveryRow)
      → all (λ d. names has d.event_id) ds ≡ true
      → all (λ d. names has d.event_id) (clear_events ids ds) ≡ true
  same_events has [] h = refl
  same_events has (d ∷ ds) h =
      let rest = same_events has ds (ground arith) in
      elim (Bool-cases (refers ids d.event_id)) [ inl a ↦ rw a rest | inr a ↦ rw a (ground arith) ]

  same_jobs :
      (has : ℕ → Bool) (ds : List DeliveryRow)
      → all (λ d. names has d.job_id) ds ≡ true
      → all (λ d. names has d.job_id) (clear_events ids ds) ≡ true
  same_jobs has [] h = refl
  same_jobs has (d ∷ ds) h = let rest = same_jobs has ds (ground arith) in ground arith

  jobs-same_events :
      (has : ℕ → Bool) (ds : List DeliveryRow)
      → all (λ d. names has d.event_id) ds ≡ true
      → all (λ d. names has d.event_id) (clear_jobs ids ds) ≡ true
  jobs-same_events has [] h = refl
  jobs-same_events has (d ∷ ds) h =
      let rest = jobs-same_events has ds (ground arith) in ground arith

  job_cleared :
      (js : List JobRow) (o : Option ℕ)
      → names (has_job js) o ≡ true
      → names (has_job (select (λ j. not (among ids j.id)) js)) (cleared ids o) ≡ true
  job_cleared js none h = refl
  job_cleared js (some k) h = elim (Bool-cases (among ids k)) [
    | inl a ↦ rw a refl
    | inr a ↦ rw a (kept_job js k a h)
  ]

  all-clear_jobs :
      (js : List JobRow) (ds : List DeliveryRow)
      → all (λ d. names (has_job js) d.job_id) ds ≡ true
      → all
          (λ d. names (has_job (select (λ j. not (among ids j.id)) js)) d.job_id)
          (clear_jobs ids ds)
        ≡ true
  all-clear_jobs js [] h = refl
  all-clear_jobs js (d ∷ ds) h =
      let one = job_cleared js d.job_id (ground arith) in
      let rest = all-clear_jobs js ds (ground arith) in ground arith

  no_job_left : (ds : List DeliveryRow) → any (λ d. refers ids d.job_id) (clear_jobs ids ds) ≡ false
  no_job_left [] = refl
  no_job_left (d ∷ ds) =
      let rest = no_job_left ds in
      elim (Bool-cases (refers ids d.job_id)) [ inl a ↦ rw a rest | inr a ↦ rw (a, a) rest ]

-- what dropping the jobs leaves
record Dropped (t t' : Tables) : Type 0 where
  events : t'.events ≡ t.events
  trust_events : t'.trust_events ≡ t.trust_events
  notifications : t'.notifications ≡ t.notifications
  reports : t'.reports ≡ t.reports
  children : t'.children ≡ t.children
  deliveries :
      (has : ℕ → Bool)
      → all (λ d. names has d.event_id) t.deliveries ≡ true
      → all (λ d. names has d.event_id) t'.deliveries ≡ true
  job_ids :
      all (λ d. names (has_job t.jobs) d.job_id) t.deliveries ≡ true
      → all (λ d. names (has_job t'.jobs) d.job_id) t'.deliveries ≡ true

drop_jobs-Dropped :
    (ids : List ℕ) (t : Tables) → (t' : Tables) × (drop_jobs ids t ≡ some t') × Dropped t t'
unfolding drop_jobs delete_jobs
drop_jobs-Dropped ids t = go (job_ids_of (select (λ j. among ids j.entity_id) t.jobs)) refl
  where
    go :
        (ks : List ℕ)
        → job_ids_of (select (λ j. among ids j.entity_id) t.jobs) ≡ ks
        → (t' : Tables) × (drop_jobs ids t ≡ some t') × Dropped t t'
    go [] e = (
      t,
      ground arith,
      record {
        events = refl;
        trust_events = refl;
        notifications = refl;
        reports = refl;
        children = refl;
        deliveries = λ has h. h;
        job_ids = λ h. h;
      },
    )
    go (k ∷ ks) e =
        let free = no_job_left (k ∷ ks) t.deliveries in
        (
          record t {
            deliveries = clear_jobs (k ∷ ks) t.deliveries;
            jobs = select (λ j. not (among (k ∷ ks) j.id)) t.jobs;
          },
          ground arith,
          record {
            events = refl;
            trust_events = refl;
            notifications = refl;
            reports = refl;
            children = refl;
            deliveries = λ has h. jobs-same_events (k ∷ ks) has t.deliveries h;
            job_ids = λ h. all-clear_jobs (k ∷ ks) t.jobs t.deliveries h;
          },
        )

-- what a round leaves
pub record Purged (ids : List ℕ) (t t' : Tables) : Type 0 where
  pub events : t'.events ≡ select (λ e. not (among ids e.id)) t.events
  pub whole : IsWhole t → IsWhole t'

-- No foreign key stops a round.
pub purge_events-Purged :
    (ids : List ℕ) (t : Tables) → (t' : Tables) × (purge_events ids t ≡ some t') × Purged ids t t'
unfolding purge_events delete_events detach
purge_events-Purged ids t =
    let (b, dropped, d) = drop_jobs-Dropped ids (detach ids t) in
    let events = d.events in
    let trust = d.trust_events in
    let notes = d.notifications in
    let reports = d.reports in
    let children = d.children in
    let free_trust : any (refers ids) b.trust_events ≡ false =
      rw trust (none_left ids t.trust_events) in
    let free_notes : any (refers ids) b.notifications ≡ false =
      rw notes (none_selected ids t.notifications) in
    (
      record b {
        events = select (λ e. not (among ids e.id)) b.events;
        children = select (λ k. not (among ids k)) b.children;
        reports = clear_all ids b.reports;
        deliveries = clear_events ids b.deliveries;
      },
      ground arith,
      record {
        events = ap (select (λ (e : Event). not (among ids e.id))) events;
        whole = λ w. record {
          trust_events =
              rw (events, trust) (all-clear_all ids t.events t.trust_events w.trust_events);
          notifications =
              rw (events, notes) (all-selected ids t.events t.notifications w.notifications);
          reports = rw (events, reports) (all-clear_all ids t.events t.reports w.reports);
          children = rw (events, children) (all-children ids t.events t.children w.children);
          deliveries = rw events (
              all-clear_events ids t.events b.deliveries (
                d.deliveries (has_event t.events)
                  (same_events ids (has_event t.events) t.deliveries w.deliveries)));
          job_ids =
              same_jobs ids (has_job b.jobs) b.deliveries
                (d.job_ids (same_jobs ids (has_job t.jobs) t.deliveries w.job_ids));
        };
      },
    )
