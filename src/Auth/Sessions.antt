-- ===== src/Auth/Sessions.antt =====
-- What a refresh token is worth once it was used or its owner has logged out.
use free_fire_room.Prelude.{
  ℕ, ◌≤◌, ◌==◌, String, str_eq, ◌≡◌, refl, sym, ap, ◌∙◌, Bool, true, false, not, ◌&&◌, Reply, ok,
  raised, Option, none, some, List, [], ◌∷◌, find, find-holds, put, count, is_some, Bool-cases,
  Option-cases, inl, inr, arith,
}
use free_fire_room.Model.{Account, Admin, AdminSession, Accounts, session_jti}
use free_fire_room.Auth.{Login, Claims, token_for, AuthError, session_expired, active_admin}
use free_fire_room.Auth.Tokens.{refresh_tokens, refresh_admin, revoke_refresh, session_of, rotated}

module _ {ℓ} {A : Type ℓ} where
  none_counted :
      (q p : A → Bool) (xs : List A)
      → ((x : A) → q x ≡ true → p x ≡ true)
      → count p xs ≡ 0
      → find q xs ≡ none
  none_counted q p [] sub h = refl
  none_counted q p (x ∷ xs) sub h = let s = sub x in ground (arith, none_counted q p xs sub)

  -- Where a key selects one row at most, a rewritten row is all that a narrower test can find.
  find-put_only :
      (q p : A → Bool) (r x : A) (xs : List A)
      → ((y : A) → q y ≡ true → p y ≡ true)
      → count p xs ≤ 1
      → find q (put p r xs) ≡ some x
      → x ≡ r
  find-put_only q p r x [] sub h f = ground arith
  find-put_only q p r x (y ∷ ys) sub h f = elim (Bool-cases (p y)) [
    | inl e ↦ let gone = none_counted q p ys sub (ground arith) in ground arith
    | inr e ↦ let s = sub y in ground (arith, find-put_only q p r x ys sub)
  ]

  -- the same for a row that nobody wrote
  find_only :
      (q p : A → Bool) (s x : A) (xs : List A)
      → ((y : A) → q y ≡ true → p y ≡ true)
      → count p xs ≤ 1
      → find p xs ≡ some s
      → find q xs ≡ some x
      → x ≡ s
  find_only q p s x [] sub h e f = ground arith
  find_only q p s x (y ∷ ys) sub h e f = elim (Bool-cases (p y)) [
    | inl w ↦ let gone = none_counted q p ys sub (ground arith) in ground arith
    | inr w ↦ let t = sub y in ground (arith, find_only q p s x ys sub)
  ]

  find_sub_none :
      (q p : A → Bool) (xs : List A)
      → ((y : A) → q y ≡ true → p y ≡ true)
      → find p xs ≡ none
      → find q xs ≡ none
  find_sub_none q p [] sub h = refl
  find_sub_none q p (x ∷ xs) sub h = let s = sub x in ground (arith, find_sub_none q p xs sub)

  count_sub :
      (q p : A → Bool) (xs : List A) → ((x : A) → q x ≡ true → p x ≡ true) → count q xs ≤ count p xs
  count_sub q p [] sub = omega arith
  count_sub q p (x ∷ xs) sub = let s = sub x in ground (arith, count_sub q p xs sub)

abbrev pub HasUniqueJtis : List AdminSession → Type 0
HasUniqueJtis sessions = (jti : String) → count (session_jti jti) sessions ≤ 1

session_of-jti :
    (d : ℕ) (j : String) (s : AdminSession)
    → session_of d (some j) s ≡ true
    → session_jti j s ≡ true
session_of-jti d j s h = ground arith

find-no_jti : (d : ℕ) (xs : List AdminSession) → find (session_of d none) xs ≡ none
find-no_jti d [] = refl
find-no_jti d (x ∷ xs) = find-no_jti d xs

-- The stored session is not found under the old id any more.
rotated_away :
    (l : Login) (d : ℕ) (j : String) (s : AdminSession) (sessions : List AdminSession)
    → HasUniqueJtis sessions
    → str_eq l.new_jti j ≡ false
    → find (session_of d (some j)) sessions ≡ some s
    → find (session_of d (some j)) (put (session_of d (some j)) (rotated l s) sessions) ≡ none
rotated_away l d j s sessions unique new f =
    elim (Option-cases
      (find (session_of d (some j)) (put (session_of d (some j)) (rotated l s) sessions))) [
        | inl e ↦ e
        | inr (x, e) ↦
            let one =
              count_sub (session_of d (some j)) (session_jti j) sessions (session_of-jti d j) in
            let same =
              find-put_only (session_of d (some j)) (session_of d (some j)) (rotated l s) x sessions
                (λ y h. h) (let u = unique j in omega arith) e in
            let p = find-holds (session_of d (some j)) _ x e in absurd (ground arith)
      ]

-- a wrong or missing session ends the call
no_session :
    (l : Login) (u : Account) (d : Admin) (jti : Option String) (a : Accounts)
    → find (session_of d.id jti) a.sessions ≡ none
    → refresh_admin l u d jti a ≡ (raised session_expired, a)
unfolding refresh_admin
no_session l u d jti a h = ground arith

-- the user of a token, as the refresh reads it
abbrev pub user_of : ℕ → Accounts → Option Account
user_of k a = find (λ u. u.id == k && not (is_some u.deleted_at)) a.users

reaches :
    (l : Login) (k : ℕ) (j : String) (u : Account) (d : Admin) (a : Accounts)
    → user_of k a ≡ some u
    → active_admin u.id a ≡ some d
    → refresh_tokens l (some (token_for k j)) a ≡ refresh_admin l u d (some j) a
unfolding refresh_tokens
reaches l k j u d a f g = ground arith

same_admin : (k : ℕ) (a b : Accounts) → a.admins ≡ b.admins → active_admin k a ≡ active_admin k b
unfolding active_admin
same_admin k a b h = ap (find (λ (d : Admin). d.user_id == k && d.is_active)) h

-- A refresh that succeeds leaves no session under the old id, and the users and admins as they were.
spent :
    (l : Login) (u : Account) (d : Admin) (j : String) (a : Accounts) (token : Claims)
    → HasUniqueJtis a.sessions
    → str_eq l.new_jti j ≡ false
    → (refresh_admin l u d (some j) a).0 ≡ ok token
    → (find (session_of d.id (some j)) (refresh_admin l u d (some j) a).1.sessions ≡ none)
      × ((refresh_admin l u d (some j) a).1.users ≡ a.users)
      × ((refresh_admin l u d (some j) a).1.admins ≡ a.admins)
unfolding refresh_admin
spent l u d j a token unique new h =
    elim (Option-cases (find (session_of d.id (some j)) a.sessions)) [
      | inl e ↦ absurd (ground arith)
      | inr (s, e) ↦
          let away = rotated_away l d.id j s a.sessions unique new e in
          (ground arith, ground arith, ground arith)
    ]

-- A refresh token of an active admin is spent by its use: the same token asked for again, at any time,
-- raises session_expired and changes nothing. It supposes that the ids of sessions are unique and
-- that the new one differs from the old one.
pub refresh_tokens-once :
    (l again : Login) (k : ℕ) (j : String) (u : Account) (d : Admin) (a : Accounts) (token : Claims)
    → user_of k a ≡ some u
    → active_admin u.id a ≡ some d
    → HasUniqueJtis a.sessions
    → str_eq l.new_jti j ≡ false
    → (refresh_tokens l (some (token_for k j)) a).0 ≡ ok token
    → let a1 = (refresh_tokens l (some (token_for k j)) a).1 in
      refresh_tokens again (some (token_for k j)) a1 ≡ (raised session_expired, a1)
refresh_tokens-once l again k j u d a token f g unique new h =
    let step = reaches l k j u d a f g in
    let a1 = (refresh_admin l u d (some j) a).1 in
    let (gone, users, admins) =
      spent l u d j a token unique new
        (sym (ap (λ (x : Reply Claims AuthError × Accounts). x.0) step) ∙ h) in
    let f1 : user_of k a1 ≡ some u = rw users f in
    let g1 : active_admin u.id a1 ≡ some d = same_admin u.id a1 a admins ∙ g in
    rw step (reaches again k j u d a1 f1 g1 ∙ no_session again u d (some j) a1 gone)

-- what logging out leaves of the session, and of the rest
logged_out :
    (now : ℕ) (k d : ℕ) (j : String) (x : AdminSession) (a : Accounts)
    → HasUniqueJtis a.sessions
    → str_eq j "" ≡ false
    → find (session_of d (some j)) (revoke_refresh now (some (token_for k j)) a).sessions ≡ some x
    → is_some x.revoked_at ≡ true
unfolding revoke_refresh
logged_out now k d j x a unique named h = elim (Option-cases (find (session_jti j) a.sessions)) [
  | inl e ↦
      let gone =
        find_sub_none (session_of d (some j)) (session_jti j) a.sessions (session_of-jti d j) e in
      absurd (ground arith)
  | inr (s, e) ↦ elim (Bool-cases (is_some s.revoked_at)) [
    | inl r ↦
        let stays : find (session_of d (some j)) a.sessions ≡ some x = ground arith in
        let same =
          find_only (session_of d (some j)) (session_jti j) s x a.sessions (session_of-jti d j)
            (unique j) e stays in
        rw same r
    | inr r ↦
        let ended : AdminSession = record s { revoked_at = some now } in
        let stays : find (session_of d (some j)) (put (session_jti j) ended a.sessions) ≡ some x =
          ground arith in
        let same =
          find-put_only (session_of d (some j)) (session_jti j) ended x a.sessions
            (session_of-jti d j) (unique j) stays in
        rw same refl
  ]
]

logout_keeps :
    (now : ℕ) (t : Claims) (a : Accounts)
    → ((revoke_refresh now (some t) a).users ≡ a.users)
      × ((revoke_refresh now (some t) a).admins ≡ a.admins)
unfolding revoke_refresh
logout_keeps now t a = (ground arith, ground arith)

dead_session :
    (l : Login) (u : Account) (d : Admin) (jti : Option String) (s : AdminSession) (a : Accounts)
    → find (session_of d.id jti) a.sessions ≡ some s
    → is_some s.revoked_at ≡ true
    → refresh_admin l u d jti a ≡ (raised session_expired, a)
unfolding refresh_admin
dead_session l u d jti s a h r = ground arith

-- Logging out ends the session of a token whose owner is an active admin: a refresh with it, at any
-- later time, raises session_expired and changes nothing, as long as the tables are as the logout
-- left them. It supposes that the ids of sessions are unique, and that the token's is not the empty
-- text.
pub revoke_refresh-ends :
    (now : ℕ) (again : Login) (k : ℕ) (j : String) (u : Account) (d : Admin) (a : Accounts)
    → user_of k a ≡ some u
    → active_admin u.id a ≡ some d
    → HasUniqueJtis a.sessions
    → str_eq j "" ≡ false
    → let a1 = revoke_refresh now (some (token_for k j)) a in
      refresh_tokens again (some (token_for k j)) a1 ≡ (raised session_expired, a1)
revoke_refresh-ends now again k j u d a f g unique named =
    let a1 = revoke_refresh now (some (token_for k j)) a in
    let (users, admins) = logout_keeps now (token_for k j) a in
    let f1 : user_of k a1 ≡ some u = rw users f in
    let g1 : active_admin u.id a1 ≡ some d = same_admin u.id a1 a admins ∙ g in
    reaches again k j u d a1 f1 g1
    ∙ (elim (Option-cases (find (session_of d.id (some j)) a1.sessions)) [
      | inl e ↦ no_session again u d (some j) a1 e
      | inr (x, e) ↦
          dead_session again u d (some j) x a1 e (logged_out now k d.id j x a unique named e)
    ])
