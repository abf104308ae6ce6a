-- ===== src/Waitlist/Refinement.antt =====
-- The operations of the waitlist are those of a queue.
use mathlib.Core.Option
use free_fire_room.Prelude.{
  ℕ, zero, suc, ◌<◌, ◌≡◌, refl, sym, ◌∙◌, ap, subst, inl, inr, Bool, true, false, not, ◌&&◌, ◌||◌,
  Option, none, some, List, [], ◌∷◌, ==_iff, ==_refl, ◌==◌, ltb, leb, if◌then◌else◌, find,
  find-holds, count, put, Bool-cases, Option-cases, arith,
}
use free_fire_room.Model.{Event, Registration, WaitlistEntry, Db, is_waitlisted}
use free_fire_room.Registration.{waits_for, same_place, with_id, unlimited}
use free_fire_room.Waitlist.{
  first_waiting, save_entry, closed, promoted, still_waiting, promote_to, promote_step,
  promote_loop, promote_waitlist,
}
use free_fire_room.Waitlist.Queue.{HasUniquePlaces, first_waiting-stored, first_waiting-waits}
use free_fire_room.Waitlist.Loop.{promote_step_rule, closed-HasUniquePlaces, count-closed}
use free_fire_room.Waitlist.Fifo.{queue, front, behind, first_waiting-front, queue-put}

front-none {ℓ} : {A : Type ℓ} (q : List A) → front q ≡ none → q ≡ []
front-none [] h = refl
front-none (x ∷ q) h = absurd (ground arith)

-- the front leaves when its row is written as one that waits no longer
closing-behind :
    (k : ℕ) (w c : WaitlistEntry) (db : Db)
    → HasUniquePlaces db.waitlist
    → first_waiting k db.waitlist ≡ some w
    → waits_for k c ≡ false
    → queue k (put (same_place w.event_id w.user_id) c db.waitlist) ≡ behind (queue k db.waitlist)
closing-behind k w c db u h over =
    queue-put k w c over db.waitlist (first_waiting-stored k db.waitlist w u h) h

-- an entry of another event is no part of the queue, whatever is written to it
queue-put_other :
    (k : ℕ) (w c : WaitlistEntry) (p : WaitlistEntry → Bool) (ws : List WaitlistEntry)
    → find p ws ≡ some w
    → waits_for k w ≡ false
    → waits_for k c ≡ false
    → queue k (put p c ws) ≡ queue k ws
queue-put_other k w c p [] f a b = refl
queue-put_other k w c p (x ∷ xs) f a b = elim (Bool-cases (p x)) [
  | inl e ↦
      let same : x ≡ w = ground arith in
      let x_idle : waits_for k x ≡ false = rw same a in rw (e, b, x_idle) refl
  | inr e ↦ rw (e, queue-put_other k w c p xs (ground arith) a b) refl
]

-- one entry of another event is closed
closing-other :
    (k j : ℕ) (w c : WaitlistEntry) (db : Db)
    → HasUniquePlaces db.waitlist
    → first_waiting j db.waitlist ≡ some w
    → (j == k) ≡ false
    → c.is_active ≡ false
    → queue k (put (same_place w.event_id w.user_id) c db.waitlist) ≡ queue k db.waitlist
closing-other k j w c db u h other over =
    let own = first_waiting-waits j db.waitlist w h in
    queue-put_other k w c (same_place w.event_id w.user_id) db.waitlist
      (first_waiting-stored j db.waitlist w u h) (ground arith) (ground arith)

-- a promotion for one event leaves the queues of the others
promote_loop-other :
    (k fuel now j : ℕ) (db : Db)
    → HasUniquePlaces db.waitlist
    → (j == k) ≡ false
    → queue k (promote_loop fuel now j db).1.waitlist ≡ queue k db.waitlist
unfolding promote_loop promote_to
promote_loop-other k zero now j db u other = refl
promote_loop-other k (suc fuel) now j db u other =
    promote_step_rule (λ (x : Option Registration × Db). queue k x.1.waitlist ≡ queue k db.waitlist)
      (promote_loop fuel now j) now j db refl
      (λ w fw.
        promote_loop-other k fuel now j (save_entry (closed w) db)
          (closed-HasUniquePlaces j db w u fw) other
        ∙ closing-other k j w (closed w) db u fw other refl)
      (λ e w r le room fw f wl. closing-other k j w (promoted now w) db u fw other refl)

-- The queue's own promotion: entries whose player waits no longer are dropped from the front, then
-- the first one whose player still waits is served.
abbrev pub serve :
    (WaitlistEntry → Bool) → List WaitlistEntry → Option WaitlistEntry × List WaitlistEntry
serve waits [] = (none, [])
serve waits (w ∷ q) = let rest = serve waits q in if waits w then (some w, q) else rest

-- the player of an entry still waits
abbrev pub has_waiter : Db → WaitlistEntry → Bool
has_waiter db w = still_waiting (find (with_id w.registration_id) db.registrations)

-- a promotion is the queue's own
abbrev pub IsServed : ℕ → Db → Option Registration × Db → Type 0
IsServed k db x =
    (queue k x.1.waitlist ≡ (serve (has_waiter db) (queue k db.waitlist)).1)
    × (Option.map (λ r. r.id) x.0
        ≡ Option.map (λ w. w.registration_id) (serve (has_waiter db) (queue k db.waitlist)).0)

serve-first :
    (waits : WaitlistEntry → Bool) (w : WaitlistEntry) (q : List WaitlistEntry)
    → front q ≡ some w
    → serve waits q ≡ (if waits w then (some w, behind q) else serve waits (behind q))
serve-first waits w [] h = absurd (ground arith)
serve-first waits w (x ∷ q) h = let same : x ≡ w = ground arith in rw same refl

-- an entry whose player waits no longer is passed over
skipped-IsServed :
    (k : ℕ) (w : WaitlistEntry) (db : Db) (x : Option Registration × Db)
    → HasUniquePlaces db.waitlist
    → first_waiting k db.waitlist ≡ some w
    → has_waiter db w ≡ false
    → IsServed k (save_entry (closed w) db) x
    → IsServed k db x
skipped-IsServed k w db x u head idle rest =
    let left = closing-behind k w (closed w) db u head (ground arith) in
    let leads = sym (first_waiting-front k db.waitlist) ∙ head in
    let first = serve-first (has_waiter db) w (queue k db.waitlist) leads in
    let passed : serve (has_waiter db) (queue k db.waitlist)
        ≡ serve (has_waiter db) (behind (queue k db.waitlist)) =
      rw idle at first in
    let rest' = rw left at rest in rw passed rest'

module _ (now k : ℕ) (e : Event) where
  loop-IsServed :
      (n : ℕ) (db : Db)
      → HasUniquePlaces db.waitlist
      → count (waits_for k) db.waitlist < n
      → db.events k ≡ some e
      → (not (unlimited e) && leb e.capacity e.confirmed_count) ≡ false
      → IsServed k db (promote_loop n now k db)
  unfolding promote_loop promote_step promote_to
  loop-IsServed zero db u lt f room = absurd (omega arith)
  loop-IsServed (suc n) db u lt f room = elim (Option-cases (first_waiting k db.waitlist)) [
    | inl nobody ↦
        let empty : queue k db.waitlist ≡ [] =
          front-none (queue k db.waitlist) (sym (first_waiting-front k db.waitlist) ∙ nobody) in
        rw (promote_loop, promote_step, f, room, nobody, empty) (refl, refl)
    | inr (w, head) ↦
        let leads = sym (first_waiting-front k db.waitlist) ∙ head in
        let first = serve-first (has_waiter db) w (queue k db.waitlist) leads in
        let skip = λ (idle : has_waiter db w ≡ false).
          skipped-IsServed k w db (promote_loop n now k (save_entry (closed w) db)) u head idle (
            loop-IsServed n (save_entry (closed w) db) (closed-HasUniquePlaces k db w u head)
              (omega (arith, count-closed k db w u head)) f room) in
        elim (Option-cases (find (with_id w.registration_id) db.registrations)) [
          | inl lost ↦ rw (promote_loop, promote_step, f, room, head, lost) (skip (rw lost refl))
          | inr (r, found) ↦ elim (Bool-cases (is_waitlisted r.status)) [
            | inr left ↦
                rw (promote_loop, promote_step, f, room, head, found, left)
                  (skip (rw (found, left) refl))
            | inl waits ↦
                let served : serve (has_waiter db) (queue k db.waitlist)
                    ≡ (some w, behind (queue k db.waitlist)) =
                  rw (found, waits) at first in
                let id : r.id ≡ w.registration_id =
                  ground (arith, find-holds (with_id w.registration_id) db.registrations r found) in
                rw (promote_loop, promote_step, f, room, head, found, waits, served)
                  (closing-behind k w (promoted now w) db u head (ground arith), ap some id)
          ]
        ]
  ]

-- the event is stored and has a seat to give
abbrev pub can_promote : ℕ → Db → Bool
can_promote j db = elim (db.events j) [
  | none ↦ false
  | some e ↦ unlimited e || ltb e.confirmed_count e.capacity
]

-- the event's own queue, with enough fuel
own_queue :
    (n now j : ℕ) (db : Db)
    → HasUniquePlaces db.waitlist
    → count (waits_for j) db.waitlist < n
    → let x = promote_loop n now j db in
      (Option.map (λ r. r.id) x.0 ≡ (
        if can_promote j db
        then Option.map (λ w. w.registration_id) (serve (has_waiter db) (queue j db.waitlist)).0
        else none))
      × (queue j x.1.waitlist ≡ (
          if can_promote j db
          then (serve (has_waiter db) (queue j db.waitlist)).1
          else queue j db.waitlist))
unfolding promote_loop promote_step
own_queue zero now j db u lt = absurd (omega arith)
own_queue (suc n) now j db u lt = elim (Option-cases (db.events j)) [
  | inl gone ↦
      let cannot : can_promote j db ≡ false = rw (can_promote, gone) refl in
      rw (promote_loop, promote_step, gone, cannot) (refl, refl)
  | inr (e, f) ↦ elim (Bool-cases (not (unlimited e) && leb e.capacity e.confirmed_count)) [
    | inl full ↦
        let shut : unlimited e || ltb e.confirmed_count e.capacity ≡ false = ground arith in
        let cannot : can_promote j db ≡ false = rw (can_promote, f) shut in
        rw (promote_loop, promote_step, f, full, cannot) (refl, refl)
    | inr room ↦
        let free : unlimited e || ltb e.confirmed_count e.capacity ≡ true = ground arith in
        let (queued, answered) = loop-IsServed now j e (suc n) db u lt f room in
        let can : can_promote j db ≡ true = rw (can_promote, f) free in rw can (answered, queued)
  ]
]

-- Seen as the queue of an event's active entries in the order of their positions, the waitlist is
-- served as a queue: if the event is stored and has a free seat, a promotion drops the entries at the
-- front whose players wait no longer, takes the first one whose player still waits away too, and
-- answers with the registration of that entry, or with none if nobody waits; if there is no seat, it
-- answers with none and changes no queue. The queue of every other event stays as it is. It supposes
-- that no player stands twice in one event's waitlist.
pub promote_waitlist-serve :
    (now j k : ℕ) (db : Db)
    → HasUniquePlaces db.waitlist
    → let x = promote_waitlist now j db in
      (Option.map (λ r. r.id) x.0 ≡ (
        if can_promote j db
        then Option.map (λ w. w.registration_id) (serve (has_waiter db) (queue j db.waitlist)).0
        else none))
      × (queue k x.1.waitlist ≡ (
          if j == k && can_promote j db
          then (serve (has_waiter db) (queue k db.waitlist)).1
          else queue k db.waitlist))
unfolding promote_waitlist
promote_waitlist-serve now j k db u =
    let n = suc (count (waits_for j) db.waitlist) in
    let x = promote_loop n now j db in
    let (answer, own) = own_queue n now j db u (omega arith) in
    (
      answer,
      elim (Bool-cases (j == k)) [
        | inr other ↦ rw other (promote_loop-other k n now j db u other)
        | inl same ↦
            subst
              (λ i. queue i x.1.waitlist ≡ (
                if j == i && can_promote j db
                then (serve (has_waiter db) (queue i db.waitlist)).1
                else queue i db.waitlist))
              ((==_iff j k).0 same) (rw (==_refl j) own)
      ],
    )
