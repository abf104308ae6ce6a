-- ===== src/Trust/Applying.antt =====
-- Applying as an organizer, and the rules that count once per event.
use free_fire_room.Prelude.{
  ℕ, ℤ, ◌≤◌, ◌≡◌, refl, ap, sym, ◌∙◌, subst, inl, inr, Bool, true, false, ◌&&◌, Option, none, some,
  List, [], ◌∷◌, String, b2n, ◌==◌, ==_refl, eq_iff, ltb, insert, find, count, count-insert,
  find-insert-some, find-insert-none, Option-cases, Bool-cases, if_both, arith,
}
use free_fire_room.Model.{Organizer, OrganizerTrustEvent, User, Db, organizer_id, write_audit_for}
use free_fire_room.Trust.{
  TrustRule, recompute, start_score, add_change, record_change, rule_of, is_seen, same_change,
  applied_delta, of_user, get_or_apply, applicant, is_pending_organizer,
}
use free_fire_room.Trust.Audit.{IsAudited, IsAudited-same, replay, approve_organizer-IsAudited}

-- no row of the changes belongs to the organizer
abbrev pub HasNoChange : ℕ → List OrganizerTrustEvent → Type 0
HasNoChange k ts = count (λ t. t.organizer_id == k) ts ≡ 0

replay-HasNoChange :
    (k : ℕ) (ts : List OrganizerTrustEvent) (score : ℤ)
    → HasNoChange k ts
    → replay k score ts ≡ score
replay-HasNoChange k [] score h = refl
replay-HasNoChange k (t ∷ ts) score h = elim (Bool-cases (t.organizer_id == k)) [
  | inl e ↦ absurd (ground arith)
  | inr e ↦ rw e (replay-HasNoChange k ts score (ground arith))
]

apply-IsAudited :
    (o : Organizer) (db : Db)
    → IsAudited db
    → find (organizer_id o.id) db.organizers ≡ none
    → HasNoChange o.id db.trust_events
    → o.trust_score ≡ start_score
    → IsAudited (record db { organizers = insert o db.organizers })
apply-IsAudited o db h unused z s = record {
  replayed = λ k p g. elim (Option-cases (find (organizer_id k) db.organizers)) [
    | inr (q, e) ↦
        let t = find-insert-some (organizer_id k) o db.organizers q e in
        h.replayed k p (ground arith)
    | inl e ↦
        let t = find-insert-none (organizer_id k) o db.organizers e in
        let at : (o.id ≡ k) × (o ≡ p) = ground arith in
        subst (λ q. q.trust_score ≡ replay k start_score db.trust_events) at.1
          (s
            ∙ sym (
                replay-HasNoChange k db.trust_events start_score
                  (subst (λ j. HasNoChange j db.trust_events) at.0 z)))
  ];
}

-- Applying keeps every score equal to what the rows of its changes make of the first one: the points
-- for the approval come with their row. It supposes that the new row's id is in use nowhere, and
-- that ids of organizers are unique.
pub get_or_apply-IsAudited :
    (now : ℕ) (auto : Bool) (fresh : ℕ) (user : User) (db : Db)
    → IsAudited db
    → find (organizer_id fresh) db.organizers ≡ none
    → HasNoChange fresh db.trust_events
    → ((o : Organizer)
        → find (of_user user.id) db.organizers ≡ some o
        → find (organizer_id o.id) db.organizers ≡ some o)
    → IsAudited (get_or_apply now auto fresh user db)
unfolding get_or_apply
get_or_apply-IsAudited now auto fresh user db h unused z unique =
    elim (Option-cases (find (of_user user.id) db.organizers)) [
      | inr (o, e) ↦
          rw (get_or_apply, e)
            (if_both IsAudited (is_pending_organizer o.status && auto) _ db
              (approve_organizer-IsAudited now o user.id false db h (unique o e)) h)
      | inl e ↦
          let o = applicant fresh user.id in
          let stored = record db { organizers = insert o db.organizers } in
          let logged = write_audit_for "organizer_applied" none user.id stored in
          let sound =
            IsAudited-same stored logged refl refl (apply-IsAudited o db h unused z refl) in
          rw (get_or_apply, e)
            (if_both IsAudited auto _ _
              (approve_organizer-IsAudited now o user.id false logged sound
                (ground (arith, find-insert-none (organizer_id fresh) o db.organizers unused)))
              sound)
    ]

ltb_pos : (n : ℕ) → 1 ≤ n → ltb 0 n ≡ true
ltb_pos n h = ground arith

module _ (o : Organizer) (event_type : String) (rule : TrustRule) (event_id : ℕ) (actor : Option ℕ)
    (delta : Option ℤ) (db : Db) (e : rule_of event_type ≡ some rule) where
  seen_refused :
      is_seen o.id event_type (some event_id) rule db ≡ true
      → record_change o event_type (some event_id) actor delta db ≡ (none, db)
  unfolding record_change
  seen_refused h = rw (record_change, e, h) refl

  first_applied :
      is_seen o.id event_type (some event_id) rule db ≡ false
      → let d = applied_delta delta rule in
        let score = recompute o.trust_score d in
        record_change o event_type (some event_id) actor delta db
        ≡ (some score, add_change o event_type d (some event_id) actor score db)
  unfolding record_change
  first_applied h = rw (record_change, e, h) refl

  -- the row that the change adds is found by the next test
  seen_next :
      (d score : ℤ)
      → rule.once_per_event ≡ true
      → is_seen o.id event_type
          (some event_id)
          rule
          (add_change o event_type d (some event_id) actor score db)
        ≡ true
  unfolding is_seen add_change
  seen_next d score once =
      let row : OrganizerTrustEvent = record {
        organizer_id = o.id;
        event_type = event_type;
        delta = d;
        related_event_id = some event_id;
        created_by = actor;
      } in
      let n = count-insert (same_change o.id event_type event_id) row db.trust_events in
      let i = ==_refl o.id in
      let j = ==_refl event_id in
      let same = (eq_iff event_type event_type).1 refl in
      let at : same_change o.id event_type event_id row ≡ true = rw (i, j, same) refl in
      let more = ap b2n at in rw once (ltb_pos _ (omega arith))

-- A rule that counts once per event moves the score at most once: after it has been applied to an
-- organizer and an event, whether it did anything or not, applying it again, by anyone and with any
-- change asked for, does nothing.
pub record_change-once :
    (o o' : Organizer) (event_type : String) (rule : TrustRule) (event_id : ℕ)
    (actor actor' : Option ℕ) (delta delta' : Option ℤ) (db : Db)
    → rule_of event_type ≡ some rule
    → rule.once_per_event ≡ true
    → o'.id ≡ o.id
    → let after = (record_change o event_type (some event_id) actor delta db).1 in
      record_change o' event_type (some event_id) actor' delta' after ≡ (none, after)
record_change-once o o' event_type rule event_id actor actor' delta delta' db e once i =
    let P : Option ℤ × Db → Type 0 =
      λ x. record_change o' event_type (some event_id) actor' delta' x.1 ≡ (none, x.1) in
    let again = λ (db' : Db) (h : is_seen o.id event_type (some event_id) rule db' ≡ true).
      seen_refused o' event_type rule event_id actor' delta' db' e
        (subst (λ k. is_seen k event_type (some event_id) rule db' ≡ true) (sym i) h) in
    elim (Bool-cases (is_seen o.id event_type (some event_id) rule db)) [
      | inl seen ↦
          subst P (sym (seen_refused o event_type rule event_id actor delta db e seen))
            (again db seen)
      | inr first ↦
          let d = applied_delta delta rule in
          let score = recompute o.trust_score d in
          subst P (sym (first_applied o event_type rule event_id actor delta db e first)) (
            again (add_change o event_type d (some event_id) actor score db)
              (seen_next o event_type rule event_id actor delta db e d score once))
    ]
