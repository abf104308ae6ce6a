-- ===== src/Purge/Sweeps.antt =====
-- The purge of old events ends, and leaves no dangling reference.
use free_fire_room.Prelude.{
  ℕ, zero, suc, ◌+◌, ◌≤◌, ◌<◌, ◌≡◌, refl, sym, subst, ap, ◌∙◌, Bool, true, false, not, none, some,
  List, [], ◌∷◌, select, take, length, count, find, count-le-length, All, All-map, ◌==◌, Bool-cases,
  inl, inr, arith,
}
use free_fire_room.Model.{Event}
use free_fire_room.Purge.{
  Tables, among, ids_of, is_old, next_batch, purge_loop, purge_events_older_than,
}
use free_fire_room.Purge.References.{IsWhole, purge_events-Purged}

-- the primary key: each event is found by its id
abbrev pub event_id : ℕ → Event → Bool
event_id k e = e.id == k

abbrev pub HasUniqueIds : List Event → Type 0
HasUniqueIds es = All (λ e. find (event_id e.id) es ≡ some e) es

module _ (cutoff : ℕ) (old : ℕ → Bool) where
  -- whether an event is old can be told from its id
  abbrev Agrees : List Event → Type 0
  Agrees es = All (λ e. is_old cutoff e ≡ old e.id) es

  select-Agrees : (p : Event → Bool) (es : List Event) → Agrees es → Agrees (select p es)
  select-Agrees p [] a = tt
  select-Agrees p (e ∷ es) a = elim (Bool-cases (p e)) [
    | inl h ↦ rw h (a.0, select-Agrees p es a.1)
    | inr h ↦ rw h (select-Agrees p es a.1)
  ]

  -- a batch holds ids of old events only
  batch-old :
      (n k : ℕ) (es : List Event)
      → Agrees es
      → among (take n (ids_of (select (is_old cutoff) es))) k ≡ true
      → old k ≡ true
  batch-old n k es a h = in_batch n (select (is_old cutoff) es) (old_ones es a) h
    where
      old_ones :
          (es : List Event) → Agrees es → All (λ e. old e.id ≡ true) (select (is_old cutoff) es)
      old_ones [] a = tt
      old_ones (e ∷ es) a = elim (Bool-cases (is_old cutoff e)) [
        | inl h ↦ rw h (sym a.0 ∙ h, old_ones es a.1)
        | inr h ↦ rw h (old_ones es a.1)
      ]

      in_batch :
          (n : ℕ) (es : List Event)
          → All (λ e. old e.id ≡ true) es
          → among (take n (ids_of es)) k ≡ true
          → old k ≡ true
      in_batch zero es a h = absurd (ground arith)
      in_batch (suc n) [] a h = absurd (ground arith)
      in_batch (suc n) (e ∷ es) a h = elim (Bool-cases (e.id == k)) [
        | inl s ↦ let q : e.id ≡ k = ground arith in subst (λ (j : ℕ). old j ≡ true) q a.0
        | inr s ↦ in_batch n es a.1 (ground arith)
      ]

  -- what is not old stays
  young_stay :
      (ids : List ℕ) (es : List Event)
      → Agrees es
      → ((k : ℕ) → among ids k ≡ true → old k ≡ true)
      → select (λ e. not (is_old cutoff e)) (select (λ e. not (among ids e.id)) es)
        ≡ select (λ e. not (is_old cutoff e)) es
  young_stay ids [] a h = refl
  young_stay ids (e ∷ es) a h =
      let rest = young_stay ids es a.1 h in
      let agree = a.0 in
      elim (Bool-cases (among ids e.id)) [
        | inl i ↦ let o = h e.id i in let q : is_old cutoff e ≡ true = agree ∙ o in rw (i, q) rest
        | inr i ↦ elim (Bool-cases (is_old cutoff e)) [
          | inl o ↦ rw (i, o) rest
          | inr o ↦ rw (i, o) (ap (λ (xs : List Event). e ∷ xs) rest)
        ]
      ]

  count-select_le : (p q : Event → Bool) (es : List Event) → count p (select q es) ≤ count p es
  count-select_le p q [] = omega arith
  count-select_le p q (e ∷ es) =
      let rest = count-select_le p q es in
      elim (Bool-cases (q e)) [ inl h ↦ rw h (omega arith) | inr h ↦ rw h (omega arith) ]

  -- the first old event goes
  fewer_old :
      (ids : List ℕ) (k : ℕ) (ks : List ℕ) (es : List Event)
      → among ids k ≡ true
      → ids_of (select (is_old cutoff) es) ≡ k ∷ ks
      → count (is_old cutoff) (select (λ e. not (among ids e.id)) es) < count (is_old cutoff) es
  fewer_old ids k ks [] a h = absurd (ground arith)
  fewer_old ids k ks (e ∷ es) a h = elim (Bool-cases (is_old cutoff e)) [
    | inl o ↦
        let q : e.id ∷ ids_of (select (is_old cutoff) es) ≡ k ∷ ks = rw o at h in
        let s : e.id ≡ k = ground arith in
        let gone : among ids e.id ≡ true = rw s a in
        let rest = count-select_le (is_old cutoff) (λ x. not (among ids x.id)) es in
        rw (gone, o) (omega arith)
    | inr o ↦
        let q : ids_of (select (is_old cutoff) es) ≡ k ∷ ks = rw o at h in
        let rest = fewer_old ids k ks es a q in
        elim (Bool-cases (among ids e.id)) [
          | inl i ↦ rw (i, o) (omega arith)
          | inr i ↦ rw (i, o) (omega arith)
        ]
  ]

  -- what the whole loop leaves
  abbrev pub IsPurged : Tables → Tables → Type 0
  IsPurged t t' =
      (t'.events ≡ select (λ e. not (is_old cutoff e)) t.events) × (IsWhole t → IsWhole t')

  all_young :
      (es : List Event)
      → ids_of (select (is_old cutoff) es) ≡ []
      → select (λ e. not (is_old cutoff e)) es ≡ es
  all_young [] h = refl
  all_young (e ∷ es) h = elim (Bool-cases (is_old cutoff e)) [
    | inl o ↦ absurd (let q : e.id ∷ ids_of (select (is_old cutoff) es) ≡ [] = rw o at h in cc)
    | inr o ↦
        let q : ids_of (select (is_old cutoff) es) ≡ [] = rw o at h in
        rw o (ap (λ (xs : List Event). e ∷ xs) (all_young es q))
  ]

  loop-IsPurged :
      (fuel n removed : ℕ) (t : Tables)
      → Agrees t.events
      → count (is_old cutoff) t.events < fuel
      → (m : ℕ) × (t' : Tables) × (purge_loop fuel (suc n) cutoff removed t ≡ some (m, t'))
        × IsPurged t t'
  unfolding purge_loop
  loop-IsPurged zero n removed t a h = absurd (omega arith)
  loop-IsPurged (suc fuel) n removed t a h =
      round (ids_of (select (is_old cutoff) t.events)) refl (loop-IsPurged fuel n)
    where
      round :
          (ids : List ℕ)
          → ids_of (select (is_old cutoff) t.events) ≡ ids
          → ((removed : ℕ) (t : Tables)
              → Agrees t.events
              → count (is_old cutoff) t.events < fuel
              → (m : ℕ) × (t' : Tables) × (purge_loop fuel (suc n) cutoff removed t ≡ some (m, t'))
                × IsPurged t t')
          → (m : ℕ) × (t' : Tables) × (purge_loop (suc fuel) (suc n) cutoff removed t
              ≡ some (m, t'))
            × IsPurged t t'
      round [] e again = (removed, t, ground arith, (sym (all_young t.events e), λ w. w))
      round (k ∷ ks) e again =
          let ids : List ℕ = k ∷ take n ks in
          let batch : next_batch (suc n) cutoff t ≡ ids = ap (take (suc n)) e in
          let (t1, done, p) = purge_events-Purged ids t in
          let events = p.events in
          let a1 : Agrees t1.events =
            rw events (select-Agrees (λ x. not (among ids x.id)) t.events a) in
          let fewer = fewer_old ids k ks t.events (ground arith) e in
          let less : count (is_old cutoff) t1.events < fuel = rw events (omega arith) in
          let (m, t', go, (young, whole)) = again (removed + length ids) t1 a1 less in
          let old_ids : (j : ℕ) → among ids j ≡ true → old j ≡ true =
            λ j q. batch-old (suc n) j t.events a (rw batch q) in
          (
            m,
            t',
            ground arith,
            (
              young
                  ∙ ap (select (λ (x : Event). not (is_old cutoff x))) events
                  ∙ young_stay ids t.events a old_ids,
              λ w. whole (p.whole w),
            ),
          )

-- whether the event of an id is old
abbrev old_by_id : ℕ → List Event → ℕ → Bool
old_by_id cutoff es k = elim (find (event_id k) es) [ none ↦ false | some e ↦ is_old cutoff e ]

-- The purge of old events always comes to its end, stopped by no foreign key: of the events exactly
-- those that started before the cutoff are gone, in however many batches, and the others stand in
-- their order; every reference to an event or a job names a stored row afterwards too. It supposes
-- that the ids of events are unique and that every reference named a stored row before.
pub purge_events_older_than-IsWhole :
    (cutoff : ℕ) (t : Tables)
    → HasUniqueIds t.events
    → IsWhole t
    → (removed : ℕ) × (t' : Tables) × (purge_events_older_than cutoff t ≡ some (removed, t'))
      × (t'.events ≡ select (λ e. not (is_old cutoff e)) t.events)
      × IsWhole t'
unfolding purge_events_older_than
purge_events_older_than-IsWhole cutoff t unique before =
    let agrees =
      All-map (λ (e : Event). find (event_id e.id) t.events ≡ some e)
        (λ (e : Event). is_old cutoff e ≡ old_by_id cutoff t.events e.id) t.events
        (λ e h. ground arith) unique in
    let enough = count-le-length (is_old cutoff) t.events in
    let (m, t', done, (young, whole)) =
      loop-IsPurged cutoff (old_by_id cutoff t.events) (suc (length t.events)) 199 0 t agrees
        (omega arith) in
    (m, t', done, young, whole before)
