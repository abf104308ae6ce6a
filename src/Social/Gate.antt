-- ===== src/Social/Gate.antt =====
-- The follow gate and the page that a player is asked for next.
use free_fire_room.Prelude.{
  ℕ, suc, ◌+◌, ◌≤◌, ◌≡◌, refl, true, none, some, List, [], ◌∷◌, inl, inr, Bool-cases, Option-cases,
  if_both, if_cases, same_ref, all, length, arith,
}
use free_fire_room.Model.{Event, User, EventSocialTask, SocialProof, Db}
use free_fire_room.Social.{
  social_required, list_tasks, proofs_for_user, covered, gate_from, proof_by_task, is_settled,
  next_task_loop, next_task_for, social_gate_ok,
}

-- a page whose last screenshot counts is covered
settled-covered :
    (proofs : List SocialProof) (t : ℕ)
    → is_settled (proof_by_task proofs t) ≡ true
    → covered proofs t ≡ true
unfolding proof_by_task
settled-covered [] t h = ground arith
settled-covered (p ∷ ps) t h = elim (Option-cases (proof_by_task ps t)) [
  | inl last ↦ elim (Bool-cases (same_ref p.task_id t)) [
    | inl same ↦ rw same (ground arith)
    | inr other ↦ absurd (ground arith)
  ]
  | inr (q, later) ↦
      let rest : covered ps t ≡ true = settled-covered ps t (ground arith) in ground arith
]

-- a page that is owed stays owed
next_task_loop-some :
    (proofs : List SocialProof) (ts : List EventSocialTask) (t : EventSocialTask) (n : ℕ)
    → (next_task_loop proofs ts (some t, n)).0 ≡ some t
unfolding next_task_loop
next_task_loop-some proofs [] t n = refl
next_task_loop-some proofs (u ∷ us) t n =
    if_both (λ acc. (next_task_loop proofs us acc).0 ≡ some t)
      (is_settled (proof_by_task proofs u.id)) (some t, n + 1) (some t, n)
      (next_task_loop-some proofs us t (n + 1)) (next_task_loop-some proofs us t n)

next_task_loop-none :
    (proofs : List SocialProof) (ts : List EventSocialTask) (n : ℕ)
    → (next_task_loop proofs ts (none, n)).0 ≡ none
    → (all (λ t. covered proofs t.id) ts ≡ true)
      × ((next_task_loop proofs ts (none, n)).1 ≡ n + length ts)
unfolding next_task_loop
next_task_loop-none proofs [] n = λ h. (refl, omega arith)
next_task_loop-none proofs (t ∷ ts) n =
    if_cases
      (λ acc.
        (next_task_loop proofs ts acc).0 ≡ none
        → (all (λ u. covered proofs u.id) (t ∷ ts) ≡ true)
          × ((next_task_loop proofs ts acc).1 ≡ n + suc (length ts)))
      (is_settled (proof_by_task proofs t.id)) (none, n + 1) (some t, n)
      (λ s h.
        let (rest, counted) = next_task_loop-none proofs ts (n + 1) h in
        let c = settled-covered proofs t.id s in (rw (all, c) rest, omega arith))
      (λ _ h. let owed = next_task_loop-some proofs ts t n in absurd (ground arith))

gate_from-all :
    (ts : List EventSocialTask) (proofs : List SocialProof)
    → 1 ≤ length ts
    → all (λ t. covered proofs t.id) ts ≡ true
    → gate_from ts proofs ≡ true
unfolding gate_from
gate_from-all [] proofs h c = ground arith
gate_from-all (t ∷ ts) proofs h c = c

-- A player whom the bot asks for no further page, of an event that lists some, has done all of them
-- by its count, and passes the gate.
pub next_task_for-done :
    (db : Db) (event : Event) (user : User)
    → (next_task_for db event user).0 ≡ none
    → 1 ≤ length (list_tasks db event.id)
    → ((next_task_for db event user).1 ≡ (next_task_for db event user).2)
      × (social_gate_ok db event user ≡ true)
unfolding next_task_for social_gate_ok
next_task_for-done db event user h some_page =
    let proofs = proofs_for_user db event.id user.id in
    let (all_covered, counted) = next_task_loop-none proofs (list_tasks db event.id) 0 h in
    let gate = gate_from-all (list_tasks db event.id) proofs some_page all_covered in
    (
      omega arith,
      elim (Bool-cases (social_required event)) [
        | inl on ↦ rw (social_gate_ok, on) gate
        | inr off ↦ rw (social_gate_ok, off) refl
      ],
    )
