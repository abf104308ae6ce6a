-- ===== src/Trust/Audit.antt =====
-- The score of an organizer can be worked out again from the rows of its changes.
use free_fire_room.Prelude.{
  ℕ, ℤ, pos, ◌+ℤ◌, ◌≤ℤ◌, ◌≡◌, inl, inr, refl, sym, ◌∙◌, subst, Bool, false, Option, none, some,
  List, [], ◌∷◌, String, ◌==◌, ==_refl, if◌then◌else◌, insert, find, find-put_self, find-put_ne,
  Option-cases, Bool-cases, if_both, arith,
}
use free_fire_room.Model.{
  Organizer, OrganizerTrustEvent, TrustEventType, Db, organizer_id, save_organizer,
}
use free_fire_room.Trust.{
  recompute, start_score, min_score, max_score, add_change, record_change, rule_of, is_seen,
  applied_delta, apply_trust, grant_role, has_role, type_text, approve_organizer,
  approved_organizer,
}

-- the changes of one organizer applied one after another, in the order of their rows
abbrev pub replay : ℕ → ℤ → List OrganizerTrustEvent → ℤ
replay k score [] = score
replay k score (t ∷ ts) =
    replay k (if t.organizer_id == k then recompute score t.delta else score) ts

-- every score is what the rows of the organizer's changes make of the first one
pub record IsAudited (db : Db) : Type 0 where
  pub replayed :
      (k : ℕ) (o : Organizer)
      → find (organizer_id k) db.organizers ≡ some o
      → o.trust_score ≡ replay k start_score db.trust_events

recompute-bounds : (v d : ℤ) → (min_score ≤ℤ recompute v d) × (recompute v d ≤ℤ max_score)
unfolding recompute
recompute-bounds v d = let s = v +ℤ d in ground arith

replay-bounds :
    (k : ℕ) (ts : List OrganizerTrustEvent) (score : ℤ)
    → (min_score ≤ℤ score) × (score ≤ℤ max_score)
    → (min_score ≤ℤ replay k score ts) × (replay k score ts ≤ℤ max_score)
replay-bounds k [] score h = h
replay-bounds k (t ∷ ts) score h =
    replay-bounds k ts (if t.organizer_id == k then recompute score t.delta else score) (
      if_both (λ v. (min_score ≤ℤ v) × (v ≤ℤ max_score)) (t.organizer_id == k)
        (recompute score t.delta) score (recompute-bounds score t.delta) h)

replay-insert :
    (k : ℕ) (t : OrganizerTrustEvent) (ts : List OrganizerTrustEvent) (score : ℤ)
    → replay k score (insert t ts)
      ≡ (if t.organizer_id == k then recompute (replay k score ts) t.delta else replay k score ts)
replay-insert k t [] score = refl
replay-insert k t (x ∷ xs) score =
    replay-insert k t xs (if x.organizer_id == k then recompute score x.delta else score)

module _ (o : Organizer) (event_type : String) (d : ℤ) (related actor : Option ℕ) (db : Db)
    (h : IsAudited db) (f : find (organizer_id o.id) db.organizers ≡ some o) where
  abbrev after : Db
  after = add_change o event_type d related actor (recompute o.trust_score d) db

  own_score :
      (p : Organizer)
      → find (organizer_id o.id) after.organizers ≡ some p
      → p.trust_score ≡ replay o.id start_score after.trust_events
  unfolding add_change
  own_score p g =
      let e =
        find-put_self (organizer_id o.id) (record o { trust_score = recompute o.trust_score d }) o
          db.organizers f (==_refl o.id) in
      let r =
        replay-insert o.id
          (record {
            organizer_id = o.id;
            event_type = event_type;
            delta = d;
            related_event_id = related;
            created_by = actor;
          })
          db.trust_events start_score in
      let s = h.replayed o.id o f in let i = ==_refl o.id in cc

  other_score :
      (k : ℕ) (p : Organizer)
      → (o.id == k) ≡ false
      → find (organizer_id k) after.organizers ≡ some p
      → p.trust_score ≡ replay k start_score after.trust_events
  unfolding add_change
  other_score k p ne g =
      let e =
        find-put_ne (organizer_id k) (organizer_id o.id)
          (record o { trust_score = recompute o.trust_score d }) o db.organizers f ne ne in
      let r =
        replay-insert k
          (record {
            organizer_id = o.id;
            event_type = event_type;
            delta = d;
            related_event_id = related;
            created_by = actor;
          })
          db.trust_events start_score in
      let s = h.replayed k p (sym e ∙ g) in cc

  add_change-IsAudited : IsAudited after
  add_change-IsAudited = record {
    replayed = λ k p. elim (Bool-cases (o.id == k)) [
      | inl e ↦
          let at : o.id ≡ k = ground arith in
          subst
            (λ j.
              find (organizer_id j) after.organizers ≡ some p
              → p.trust_score ≡ replay j start_score after.trust_events)
            at (own_score p)
      | inr e ↦ other_score k p e
    ];
  }

-- an organizer is written back with the score as it was
save-IsAudited :
    (o e : Organizer) (db : Db)
    → IsAudited db
    → find (organizer_id o.id) db.organizers ≡ some o
    → e.id ≡ o.id
    → e.trust_score ≡ o.trust_score
    → IsAudited (save_organizer e db)
save-IsAudited o e db h f i s = record {
  replayed = λ k p g. elim (Bool-cases (e.id == k)) [
    | inl q ↦
        let at : e.id ≡ k = ground arith in
        let t =
          subst (λ j. find (organizer_id j) (save_organizer e db).organizers ≡ some e) at
            (find-put_self (organizer_id e.id) e o db.organizers (rw i f) (==_refl e.id)) in
        let r =
          h.replayed k o
            (subst (λ j. find (organizer_id j) db.organizers ≡ some o) (sym i ∙ at) f) in
        cc
    | inr q ↦
        let t =
          find-put_ne (organizer_id k) (organizer_id e.id) e o db.organizers (rw i f) q
            (subst (λ j. (j == k) ≡ false) i q) in
        h.replayed k p (sym t ∙ g)
  ];
}

-- A change of the score by a rule keeps every score equal to what the rows of the changes make of
-- the first score, and therefore between 0 and 100.
pub record_change-IsAudited :
    (o : Organizer) (event_type : String) (related actor : Option ℕ) (delta : Option ℤ) (db : Db)
    → IsAudited db
    → find (organizer_id o.id) db.organizers ≡ some o
    → IsAudited (record_change o event_type related actor delta db).1
unfolding record_change
record_change-IsAudited o event_type related actor delta db h f =
    let P : Option ℤ × Db → Type 0 = λ x. IsAudited x.1 in
    elim (Option-cases (rule_of event_type)) [
      | inl e ↦ rw (record_change, e) h
      | inr (rule, e) ↦
          rw (record_change, e)
            (if_both P (is_seen o.id event_type related rule db) _ _ h
              (add_change-IsAudited o event_type (applied_delta delta rule) related actor db h f))
    ]

-- tables without scores do not matter
pub IsAudited-same :
    (db db' : Db)
    → db'.organizers ≡ db.organizers
    → db'.trust_events ≡ db.trust_events
    → IsAudited db
    → IsAudited db'
IsAudited-same db db' p q h = record {
  replayed = λ k o f.
      subst (λ ts. o.trust_score ≡ replay k start_score ts) (sym q)
        (h.replayed k o (subst (λ os. find (organizer_id k) os ≡ some o) p f));
}

pub apply_trust-IsAudited :
    (o : Organizer) (t : TrustEventType) (delta : ℤ) (actor related : Option ℕ) (db : Db)
    → IsAudited db
    → find (organizer_id o.id) db.organizers ≡ some o
    → IsAudited (apply_trust o t delta actor related db)
unfolding apply_trust
apply_trust-IsAudited o t delta actor related db h f =
    add_change-IsAudited o (type_text t) delta related actor db h f

grant_role-same :
    (user_id actor : ℕ) (db : Db)
    → ((grant_role user_id actor db).organizers ≡ db.organizers)
      × ((grant_role user_id actor db).trust_events ≡ db.trust_events)
unfolding grant_role
grant_role-same user_id actor db = elim (Option-cases db.organizer_role) [
  | inl none_yet ↦ rw (grant_role, none_yet) (refl, refl)
  | inr (r, e) ↦ elim (Option-cases (find (has_role user_id r) db.user_roles)) [
    | inl fresh ↦ rw (grant_role, e, fresh) (refl, refl)
    | inr (u, again) ↦ rw (grant_role, e, again) (refl, refl)
  ]
]

pub approve_organizer-IsAudited :
    (now : ℕ) (o : Organizer) (actor : ℕ) (verified : Bool) (db : Db)
    → IsAudited db
    → find (organizer_id o.id) db.organizers ≡ some o
    → IsAudited (approve_organizer now o actor verified db)
unfolding approve_organizer
approve_organizer-IsAudited now o actor verified db h f =
    let e = approved_organizer now actor verified o in
    let saved = save_organizer e db in
    let granted = grant_role o.user_id actor saved in
    let (same, same_rows) = grant_role-same o.user_id actor saved in
    let stored =
      IsAudited-same saved granted same same_rows (save-IsAudited o e db h f refl refl) in
    let found = find-put_self (organizer_id o.id) e o db.organizers f (==_refl o.id) in
    IsAudited-same
      (apply_trust e TrustEventType.channel_verified (pos 500) (some actor) none granted) _ refl
      refl
      (apply_trust-IsAudited e TrustEventType.channel_verified (pos 500) (some actor) none granted
        stored (subst (λ os. find (organizer_id o.id) os ≡ some e) (sym same) found))

-- Every stored score of an audited database lies between 0 and 100.
pub IsAudited-bounds :
    (db : Db) (k : ℕ) (o : Organizer)
    → IsAudited db
    → find (organizer_id k) db.organizers ≡ some o
    → (min_score ≤ℤ o.trust_score) × (o.trust_score ≤ℤ max_score)
IsAudited-bounds db k o h f =
    subst (λ v. (min_score ≤ℤ v) × (v ≤ℤ max_score)) (sym (h.replayed k o f))
      (replay-bounds k db.trust_events start_score (omega arith, omega arith))
