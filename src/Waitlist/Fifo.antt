-- ===== src/Waitlist/Fifo.antt =====
-- The waitlist of an event as a queue: what its entries stand for, whatever rows the table keeps.
use free_fire_room.Prelude.{
  ℕ, ◌≤◌, ◌≡◌, refl, sym, ◌∙◌, ap, inl, inr, true, false, Option, none, some, List, [], ◌∷◌, leb,
  if◌then◌else◌, find, put, insert, Option-cases, Bool-cases, arith,
}
use free_fire_room.Model.{WaitlistEntry}
use free_fire_room.Registration.{waits_for, same_place, last_position}
use free_fire_room.Waitlist.{first_waiting}
use free_fire_room.Waitlist.Queue.{first_waiting-waits}

-- behind every entry with a lower position, before every other
abbrev pub place : WaitlistEntry → List WaitlistEntry → List WaitlistEntry
place w [] = w ∷ []
place w (x ∷ xs) =
    let later = x ∷ place w xs in if leb w.position x.position then w ∷ x ∷ xs else later

-- the players who wait for event `k`, in their order
abbrev pub queue : ℕ → List WaitlistEntry → List WaitlistEntry
queue k [] = []
queue k (w ∷ ws) = let rest = queue k ws in if waits_for k w then place w rest else rest

abbrev pub front {ℓ} : {A : Type ℓ} → List A → Option A
front [] = none
front (x ∷ _) = some x

abbrev pub behind {ℓ} : {A : Type ℓ} → List A → List A
behind [] = []
behind (_ ∷ xs) = xs

front-place :
    (w : WaitlistEntry) (q : List WaitlistEntry)
    → front (place w q) ≡ (elim (front q) [
      | none ↦ some w
      | some b ↦ if leb w.position b.position then some w else some b
    ])
front-place w [] = refl
front-place w (x ∷ q) = ground arith

pub first_waiting-front :
    (k : ℕ) (ws : List WaitlistEntry) → first_waiting k ws ≡ front (queue k ws)
unfolding first_waiting
first_waiting-front k [] = refl
first_waiting-front k (w ∷ ws) = elim (Bool-cases (waits_for k w)) [
  | inl e ↦ rw (e, first_waiting-front k ws) (sym (front-place w (queue k ws)))
  | inr e ↦ rw e (first_waiting-front k ws)
]

place-insert :
    (x w : WaitlistEntry) (q : List WaitlistEntry)
    → x.position ≤ w.position
    → place x (insert w q) ≡ insert w (place x q)
place-insert x w [] h = ground arith
place-insert x w (y ∷ q) h = ground (arith, place-insert x w q)

-- no waiting entry has a position above `n`
abbrev pub AtMost : ℕ → ℕ → List WaitlistEntry → Type 0
AtMost k n [] = Unit
AtMost k n (w ∷ ws) = (waits_for k w ≡ true → w.position ≤ n) × AtMost k n ws

pub queue-insert :
    (k : ℕ) (w : WaitlistEntry) (ws : List WaitlistEntry)
    → waits_for k w ≡ true
    → AtMost k w.position ws
    → queue k (insert w ws) ≡ insert w (queue k ws)
queue-insert k w [] e h = rw e refl
queue-insert k w (x ∷ ws) e h = elim (Bool-cases (waits_for k x)) [
  | inl y ↦ rw (y, queue-insert k w ws e h.1) (place-insert x w (queue k ws) (h.0 y))
  | inr n ↦ rw (n, queue-insert k w ws e h.1) refl
]

-- an entry of another event, or one that waits no longer, changes nothing
pub queue-insert_other :
    (k : ℕ) (w : WaitlistEntry) (ws : List WaitlistEntry)
    → waits_for k w ≡ false
    → queue k (insert w ws) ≡ queue k ws
queue-insert_other k w [] e = rw e refl
queue-insert_other k w (x ∷ ws) e = rw (queue-insert_other k w ws e) refl

pub AtMost-mono : (k m n : ℕ) (ws : List WaitlistEntry) → m ≤ n → AtMost k m ws → AtMost k n ws
AtMost-mono k m n [] le h = tt
AtMost-mono k m n (w ∷ ws) le h = ((λ e. let q = h.0 e in omega arith), AtMost-mono k m n ws le h.1)

pub last_position-AtMost : (k : ℕ) (ws : List WaitlistEntry) → AtMost k (last_position k ws) ws
unfolding last_position
last_position-AtMost k [] = tt
last_position-AtMost k (w ∷ ws) =
    let rest = last_position-AtMost k ws in
    (
      (λ e. ground arith),
      AtMost-mono k (last_position k ws) (last_position k (w ∷ ws)) ws (ground arith) rest,
    )

-- who is placed before the whole queue leaves it first
behind-place_first :
    (x : WaitlistEntry) (q : List WaitlistEntry)
    → front (place x q) ≡ some x
    → behind (place x q) ≡ q
behind-place_first x [] h = refl
behind-place_first x (y ∷ q) h = elim (Bool-cases (leb x.position y.position)) [
  | inl e ↦ rw e refl
  | inr e ↦
      let same : y ≡ x = ground arith in
      let level = ap (λ (v : WaitlistEntry). v.position) same in absurd (ground arith)
]

place-behind :
    (x w : WaitlistEntry) (q : List WaitlistEntry)
    → front q ≡ some w
    → leb x.position w.position ≡ false
    → place x (behind q) ≡ behind (place x q)
place-behind x w [] f e = absurd (ground arith)
place-behind x w (y ∷ q) f e =
    let same : y ≡ w = ground arith in
    let e' : leb x.position y.position ≡ false = rw same e in rw e' refl

-- the first of a queue leaves it when its row is closed
module _ (k : ℕ) (w c : WaitlistEntry) (over : waits_for k c ≡ false) where
  own_row : (same_place w.event_id w.user_id w) ≡ true
  own_row = ground arith

  pub queue-put :
      (ws : List WaitlistEntry)
      → find (same_place w.event_id w.user_id) ws ≡ some w
      → first_waiting k ws ≡ some w
      → queue k (put (same_place w.event_id w.user_id) c ws) ≡ behind (queue k ws)
  unfolding first_waiting
  queue-put [] f h = absurd (ground arith)
  queue-put (x ∷ xs) f h = elim (Bool-cases (same_place w.event_id w.user_id x)) [
    | inl here ↦
        let same : x ≡ w = ground arith in
        let waits : waits_for k x ≡ true = rw same (first_waiting-waits k (x ∷ xs) w h) in
        let leads : front (queue k (x ∷ xs)) ≡ some x =
          sym (first_waiting-front k (x ∷ xs))
          ∙ h
          ∙ ap (λ (v : WaitlistEntry). some v) (sym same) in
        rw (here, over, waits) (sym (behind-place_first x (queue k xs) (rw waits at leads)))
    | inr later ↦ elim (Bool-cases (waits_for k x)) [
      | inr idle ↦ let rest = queue-put xs (ground arith) (ground arith) in rw (later, idle) rest
      | inl waits ↦ elim (Option-cases (first_waiting k xs)) [
        | inl e ↦
            let same : x ≡ w = ground arith in
            let hit : same_place w.event_id w.user_id x ≡ true = rw same own_row in
            absurd (ground arith)
        | inr (b, e) ↦ elim (Bool-cases (leb x.position b.position)) [
          | inl sooner ↦
              let same : x ≡ w = ground arith in
              let hit : same_place w.event_id w.user_id x ≡ true = rw same own_row in
              absurd (ground arith)
          | inr behind_b ↦
              let same : b ≡ w = ground arith in
              let leads : first_waiting k xs ≡ some w = rw same at e in
              let rest = queue-put xs (ground arith) leads in
              let not_first : leb x.position w.position ≡ false = rw same at behind_b in
              rw (later, waits, rest)
                (place-behind x w (queue k xs) (sym (first_waiting-front k xs) ∙ leads) not_first)
        ]
      ]
    ]
  ]
