-- ===== src/Auth/Tokens.antt =====
-- Refresh tokens: `_issue_user_tokens`, login_with_otp, refresh_tokens and revoke_refresh of
-- backend/app/services/auth.py.
use free_fire_room.Prelude.{
  ℕ, Bool, false, not, ◌&&◌, Option, none, some, String, str_eq, leb, ◌==◌, if◌then◌else◌, is_some,
  or_else, find, put, insert, Reply, ok, raised,
}
use free_fire_room.Model.{Account, Admin, AdminSession, Accounts, session_jti}
use free_fire_room.Auth.{
  AuthError, user_not_found, invalid_token, session_expired, invalid_otp, Claims, token_for, Login,
  new_session, get_by_telegram, active_admin, Redis, verify_otp,
}

-- an admin's token has a session, any other one has none
unfoldable pub issue_user_tokens : ℕ → Login → Account → Accounts → Claims × Accounts
issue_user_tokens days l u a = (
  token_for u.id l.new_jti,
  elim (active_admin u.id a) [
    | none ↦ a
    | some d ↦ record a { sessions = insert (new_session days d.id l) a.sessions }
  ],
)

-- after the code was compared
unfoldable pub otp_session : ℕ → Login → Bool → Accounts → Reply Claims AuthError × Accounts
unfolding issue_user_tokens
otp_session days l correct a =
    if not correct then (raised invalid_otp, a) else (elim (get_by_telegram l.telegram_id a) [
      | none ↦ (raised user_not_found, a)
      | some u ↦ let (token, a1) = issue_user_tokens days l u a in (ok token, a1)
    ])

module _ (r : Redis) where
  open r use {Store}

  unfoldable pub login_with_otp :
      ℕ → ℕ → Login → Accounts × Store → Reply Claims AuthError × Accounts × Store
  unfolding otp_session
  login_with_otp max_attempts days l (a, s) =
      let (answer, s1) = verify_otp r max_attempts l.telegram_id l.password s in
      elim answer [
        | raised e ↦ (raised e, a, s1)
        | ok correct ↦ let (reply, a1) = otp_session days l correct a in (reply, a1, s1)
      ]

-- `AdminSession.admin_id == … , AdminSession.refresh_jti == jti`
abbrev pub session_of : ℕ → Option String → AdminSession → Bool
session_of admin jti s = elim jti [
  | none ↦ false
  | some j ↦ s.admin_id == admin && str_eq s.refresh_jti j
]

-- `not session or session.revoked_at is not None or session.expires_at <= now`
abbrev pub is_live : ℕ → AdminSession → Bool
is_live now s = not (is_some s.revoked_at) && not (leb s.expires_at now)

-- the session goes on under a new id
abbrev pub rotated : Login → AdminSession → AdminSession
rotated l s = record s {
  refresh_jti = l.new_jti;
  last_seen_at = l.at;
  ip_address = or_else l.ip s.ip_address;
  user_agent = or_else l.user_agent s.user_agent;
}

-- an admin's token is checked against its session
unfoldable pub refresh_admin :
    Login → Account → Admin → Option String → Accounts → Reply Claims AuthError × Accounts
refresh_admin l u d jti a = elim (find (session_of d.id jti) a.sessions) [
  | none ↦ (raised session_expired, a)
  | some s ↦
      if is_live l.at s
      then (
        ok (token_for u.id l.new_jti),
        record a { sessions = put (session_of d.id jti) (rotated l s) a.sessions },
      )
      else (raised session_expired, a)
]

-- `token` is what `decode_token` makes of the text, None where that raises
unfoldable pub refresh_tokens : Login → Option Claims → Accounts → Reply Claims AuthError × Accounts
unfolding refresh_admin
refresh_tokens l none a = (raised invalid_token, a)
refresh_tokens l (some t) a = if not t.is_refresh then (raised invalid_token, a) else (elim t.sub [
  | none ↦ (raised invalid_token, a)
  | some user_id ↦ elim (find (λ u. u.id == user_id && not (is_some u.deleted_at)) a.users) [
    | none ↦ (raised user_not_found, a)
    | some u ↦ elim (active_admin u.id a) [
      | none ↦ (ok (token_for u.id l.new_jti), a)
      | some d ↦ refresh_admin l u d t.jti a
    ]
  ]
])

-- logging out
unfoldable pub revoke_refresh : ℕ → Option Claims → Accounts → Accounts
revoke_refresh now none a = a
revoke_refresh now (some t) a = elim t.jti [
  | none ↦ a
  | some jti ↦ if str_eq jti "" then a else (elim (find (session_jti jti) a.sessions) [
    | none ↦ a
    | some s ↦ if is_some s.revoked_at then a else record a {
      sessions = put (session_jti jti) (record s { revoked_at = some now }) a.sessions;
    }
  ])
]
