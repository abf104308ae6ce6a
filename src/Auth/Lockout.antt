-- ===== src/Auth/Lockout.antt =====
-- The lock of an admin's account after wrong passwords, as the route keeps it.
use free_fire_room.Prelude.{
  ℕ, String, str_eq, ◌≡◌, refl, sym, subst, false, Reply, raised, some, List, [], ◌∷◌, All,
  Bool-cases, Option-cases, inl, inr, arith,
}
use free_fire_room.Model.{Account, Admin, Accounts}
use free_fire_room.Auth.{
  Crypto, Login, Claims, AuthError, invalid_credentials, admin_locked, Redis, get_by_telegram,
  active_admin, is_locked, check_admin, sign_in, login_password,
}

-- no stored password is the one that is tried
abbrev pub IsWrongPassword : Crypto → Accounts → Login → Type 0
IsWrongPassword c a l =
    (u : Account) (d : Admin) (hash : String)
    → get_by_telegram l.telegram_id a ≡ some u
    → active_admin u.id a ≡ some d
    → d.password_hash ≡ some hash
    → c.verify_password l.password hash ≡ false

-- what a login with a wrong password answers
abbrev IsRaised : Reply Claims AuthError × Accounts → Type 0
IsRaised p = (e : AuthError) × (p.0 ≡ raised e)

check_admin-IsRaised :
    (c : Crypto) (days : ℕ) (l : Login) (u : Account) (d : Admin) (hash : String) (a : Accounts)
    → c.verify_password l.password hash ≡ false
    → IsRaised (check_admin c days l u d hash a)
unfolding check_admin
check_admin-IsRaised c days l u d hash a h = elim (Bool-cases (str_eq hash "")) [
  | inl e ↦ (invalid_credentials, rw e refl)
  | inr e ↦ elim (Bool-cases (is_locked l.at d.locked_until)) [
    | inl k ↦ (admin_locked, rw (e, k) refl)
    | inr k ↦ (invalid_credentials, rw (e, k, h) refl)
  ]
]

sign_in-IsRaised :
    (c : Crypto) (days : ℕ) (l : Login) (a : Accounts)
    → IsWrongPassword c a l
    → IsRaised (sign_in c days l a)
unfolding sign_in
sign_in-IsRaised c days l a wrong = elim (Option-cases (get_by_telegram l.telegram_id a)) [
  | inl e ↦ (invalid_credentials, ground arith)
  | inr (u, e) ↦ elim (Option-cases (active_admin u.id a)) [
    | inl f ↦ (invalid_credentials, ground arith)
    | inr (d, f) ↦ elim (Option-cases d.password_hash) [
      | inl g ↦ (invalid_credentials, ground arith)
      | inr (hash, g) ↦
          let (x, h) = check_admin-IsRaised c days l u d hash a (wrong u d hash e f g) in
          (x, ground arith)
    ]
  ]
]

module _ (r : Redis) (c : Crypto) (days limit : ℕ) where
  open r use {Store}

  -- tries at the login, one request after the other
  abbrev pub after_logins : List Login → Accounts × Store → Accounts × Store
  after_logins [] s = s
  after_logins (l ∷ ls) s =
      let done = login_password r c days limit l s in after_logins ls (done.1, done.2)

  -- one of them
  wrong_login :
      (l : Login) (a : Accounts) (s : Store)
      → IsWrongPassword c a l
      → (login_password r c days limit l (a, s)).1 ≡ a
  unfolding login_password
  wrong_login l a s wrong = let (e, h) = sign_in-IsRaised c days l a wrong in ground arith

  -- However often a wrong password is sent to the login of the panel, nothing of it is stored: users,
  -- admins and sessions are as before, the count of failed logins and the lock included, since the
  -- route rolls back what a refused login wrote.
  pub guessing_never_locks :
      (ls : List Login) (a : Accounts) (s : Store)
      → All (IsWrongPassword c a) ls
      → (after_logins ls (a, s)).0 ≡ a
  guessing_never_locks [] a s h = refl
  guessing_never_locks (l ∷ ls) a s h =
      let done = login_password r c days limit l (a, s) in
      let e = wrong_login l a s h.0 in
      subst (λ (b : Accounts). (after_logins ls (b, done.2)).0 ≡ a) (sym e)
        (guessing_never_locks ls a done.2 h.1)
