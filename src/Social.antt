-- ===== src/Social.antt =====
-- The follow gate of backend/app/services/social.py: the pages that an organizer asks a player to
-- follow, and the screenshots that prove it.
pub mod Gate
use free_fire_room.Prelude.{
  ℕ, ◌+◌, Bool, true, false, not, ◌&&◌, Option, none, some, List, [], ◌∷◌, String, ◌==◌,
  if◌then◌else◌, same_ref, same_option, find, select, any, all, put, insert, length, sort_by,
  has_text, Reply, ok, raised,
}
use free_fire_room.Model.{
  SocialProofStatus, is_rejected_proof, is_approved_proof, Event, User, EventSocialTask,
  SocialProof, Db,
}

unfoldable pub social_required : Event → Bool
social_required event = has_text event.social_url

-- `list_tasks` and `list_tasks_sync`: rows come in order of insertion, which breaks ties
unfoldable pub list_tasks : Db → ℕ → List EventSocialTask
list_tasks db event_id =
    sort_by (λ t. t.sort_order) (select (λ t. t.event_id == event_id && t.is_active) db.tasks)

unfoldable pub proofs_for_user : Db → ℕ → ℕ → List SocialProof
proofs_for_user db event_id user_id =
    select (λ p. p.event_id == event_id && p.user_id == user_id) db.proofs

unfoldable pub get_proof : Db → ℕ → ℕ → Option ℕ → Option SocialProof
get_proof db event_id user_id none =
    find (λ p. p.event_id == event_id && p.user_id == user_id) db.proofs
get_proof db event_id user_id (some t) =
    find (λ p. (p.event_id == event_id && p.user_id == user_id) && same_ref p.task_id t) db.proofs

-- `task.id in ok`, for the set `ok` of the pages whose screenshot is not rejected
abbrev pub covered : List SocialProof → ℕ → Bool
covered proofs task_id =
    any (λ p. not (is_rejected_proof p.status) && same_ref p.task_id task_id) proofs

-- Both session flavours call this.
unfoldable pub gate_from : List EventSocialTask → List SocialProof → Bool
gate_from [] proofs = any (λ p. not (is_rejected_proof p.status)) proofs
gate_from (t ∷ ts) proofs = all (λ t'. covered proofs t'.id) (t ∷ ts)

unfoldable pub rejected_proof : List SocialProof → Option SocialProof
rejected_proof proofs = find (λ p. is_rejected_proof p.status) proofs

-- `social_gate_ok` and `social_gate_ok_sync`
unfoldable pub social_gate_ok : Db → Event → User → Bool
social_gate_ok db event user =
    if not (social_required event)
    then true
    else gate_from (list_tasks db event.id) (proofs_for_user db event.id user.id)

-- `{p.task_id: p for p in proofs}.get(task_id)`: a later row takes the place of an earlier one
unfoldable pub proof_by_task : List SocialProof → ℕ → Option SocialProof
proof_by_task [] t = none
proof_by_task (p ∷ ps) t = elim (proof_by_task ps t) [
  | some q ↦ some q
  | none ↦ if same_ref p.task_id t then some p else none
]

-- `proof and proof.status in {APPROVED, PENDING}`
abbrev pub is_settled : Option SocialProof → Bool
is_settled none = false
is_settled (some p) = not (is_rejected_proof p.status)

-- the loop of `next_task_for`
unfoldable pub next_task_loop :
    List SocialProof
    → List EventSocialTask
    → Option EventSocialTask × ℕ
    → Option EventSocialTask × ℕ
next_task_loop proofs [] acc = acc
next_task_loop proofs (t ∷ ts) (pending, done) = next_task_loop proofs ts (
    if is_settled (proof_by_task proofs t.id)
    then (pending, done + 1)
    else (elim pending [ none ↦ some t | some p ↦ some p ], done))

-- (the page still owed, how many are done, how many there are)
unfoldable pub next_task_for : Db → Event → User → Option EventSocialTask × ℕ × ℕ
next_task_for db event user =
    let tasks = list_tasks db event.id in
    let (pending, done) = next_task_loop (proofs_for_user db event.id user.id) tasks (none, 0) in
    (pending, done, length tasks)

pub data SocialError : Type 0 where
  social_not_required social_already_approved : SocialError

-- the row of a screenshot is written in place: its key is the event, the user and the page
abbrev pub same_proof : SocialProof → SocialProof → Bool
same_proof p q =
    (q.event_id == p.event_id && q.user_id == p.user_id) && same_option q.task_id p.task_id

abbrev pub save_proof : SocialProof → Db → Db
save_proof p db = record db { proofs = put (same_proof p) p db.proofs }

abbrev pub task_ref : Option EventSocialTask → Option ℕ
task_ref none = none
task_ref (some t) = some t.id

-- a screenshot that has just been sent over an earlier one
abbrev resent : String → SocialProof → SocialProof
resent file_id p = record p {
  file_id = file_id;
  status = SocialProofStatus.pending;
  reviewed_by = none;
  reviewed_at = none;
  review_note = none;
}

abbrev first_sent : ℕ → ℕ → Option ℕ → String → SocialProof
first_sent event_id user_id task_id file_id = record {
  event_id = event_id;
  user_id = user_id;
  task_id = task_id;
  file_id = file_id;
  status = SocialProofStatus.pending;
  reviewed_by = none;
  reviewed_at = none;
  review_note = none;
}

unfoldable pub submit_proof :
    Db → Event → User → String → Option EventSocialTask → Reply SocialProof SocialError × Db
submit_proof db event user file_id task =
    if not (social_required event)
    then (raised social_not_required, db)
    else elim (get_proof db event.id user.id (task_ref task)) [
      | some p ↦
          if is_approved_proof p.status
          then (raised social_already_approved, db)
          else (ok (resent file_id p), save_proof (resent file_id p) db)
      | none ↦ (
        ok (first_sent event.id user.id (task_ref task) file_id),
        record db {
          proofs = insert (first_sent event.id user.id (task_ref task) file_id) db.proofs;
        },
      )
    ]

abbrev verdict : Bool → SocialProofStatus
verdict true = SocialProofStatus.approved
verdict false = SocialProofStatus.rejected

unfoldable pub review_proof : ℕ → SocialProof → Bool → ℕ → Option String → Db → Db
review_proof now p approved reviewer note db =
    save_proof
      (record p {
        status = verdict approved;
        reviewed_by = some reviewer;
        reviewed_at = some now;
        review_note = note;
      })
      db
