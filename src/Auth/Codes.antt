-- ===== src/Auth/Codes.antt =====
-- How often a one-time code can be tried.
use free_fire_room.Prelude.{
  ℕ, ◌+◌, ◌<◌, ◌≤◌, ◌≡◌, refl, ◌∙◌, ap, Bool, true, false, some, String, List, [], ◌∷◌, leb, length,
  Bool-cases, inl, inr, Reply, ok, raised, All, arith,
}
use free_fire_room.Auth.{
  AuthError, otp_locked, Redis, RedisLaws, max_number, otp, otp_tries, or_zero, is_wrong, issue_otp,
  verify_otp, hit_rate_limit, rl_otp,
}

module _ (r : Redis) (laws : RedisLaws r) (max_attempts telegram_id : ℕ)
    (storable : max_attempts ≤ max_number) where
  open r use {Store, get_text, get_number, set_text, incr, delete}

  abbrev pub after_try : String → Store → Store
  after_try code s = (verify_otp r max_attempts telegram_id code s).1

  -- guesses, one after the other
  abbrev pub after_tries : List String → Store → Store
  after_tries [] s = s
  after_tries (code ∷ codes) s = after_tries codes (after_try code s)

  tries : Store → ℕ
  tries s = or_zero (get_number (otp_tries telegram_id) s)

  -- an attempt that is let through with a wrong code
  wrong_try :
      (n : ℕ) (code : String) (s : Store)
      → get_number (otp_tries telegram_id) s ≡ some n
      → n < max_attempts
      → is_wrong (get_text (otp telegram_id) s) code ≡ true
      → (get_number (otp_tries telegram_id) (after_try code s) ≡ some (n + 1))
        × (get_text (otp telegram_id) (after_try code s) ≡ get_text (otp telegram_id) s)
  unfolding verify_otp
  wrong_try n code s g h w =
      let counted = laws.number_incr (otp_tries telegram_id) n s g (omega arith) in
      let kept = laws.text_incr (otp telegram_id) (otp_tries telegram_id) s refl in
      (ground arith, ground arith)

  -- once the attempts are used up, nothing is looked at
  locked_try :
      (code : String) (s : Store)
      → max_attempts ≤ tries s
      → verify_otp r max_attempts telegram_id code s ≡ (raised otp_locked, s)
  unfolding verify_otp tries
  locked_try code s h = ground arith

  tries_grow :
      (n : ℕ) (expected : String) (codes : List String) (s : Store)
      → get_number (otp_tries telegram_id) s ≡ some n
      → get_text (otp telegram_id) s ≡ some expected
      → All (λ code. is_wrong (some expected) code ≡ true) codes
      → max_attempts ≤ n + length codes
      → max_attempts ≤ tries (after_tries codes s)
  unfolding tries
  tries_grow n expected [] s g e w h = rw g (omega arith)
  tries_grow n expected (code ∷ codes) s g e w h = elim (Bool-cases (leb max_attempts n)) [
    | inl locked ↦
        let same = locked_try code s (rw g (ground arith)) in
        rw (ap (λ (x : Reply Bool AuthError × Store). x.1) same)
          (tries_grow n expected codes s g e w.1 (ground arith))
    | inr open_still ↦
        let (more, kept) = wrong_try n code s g (ground arith) (rw e w.0) in
        tries_grow (n + 1) expected codes (after_try code s) more (kept ∙ e) w.1 (omega arith)
  ]

  -- a new code stands in Redis, with no attempt made
  fresh :
      (limit : ℕ) (expected : String) (s : Store)
      → (issue_otp r limit telegram_id expected s).0 ≡ ok expected
      → (get_text (otp telegram_id) (issue_otp r limit telegram_id expected s).1 ≡ some expected)
        × (get_number (otp_tries telegram_id) (issue_otp r limit telegram_id expected s).1 ≡ some 0)
  unfolding issue_otp
  fresh limit expected s h =
      let s1 = (hit_rate_limit r (rl_otp telegram_id) limit s).1 in
      let s2 = set_text (otp telegram_id) expected s1 in
      let a = laws.text_set (otp telegram_id) expected s1 in
      let b = laws.text_set_number (otp telegram_id) (otp_tries telegram_id) 0 s2 refl in
      let c = laws.number_set (otp_tries telegram_id) 0 s2 in (ground arith, ground arith)

  -- After a code was issued, as many wrong codes as there are attempts lock the account: from then
  -- on every code, the right one included, raises otp_locked and leaves Redis as it is. It supposes
  -- the documented laws of Redis, that no key expires meanwhile, and that Redis can store the number of
  -- attempts.
  pub guesses_lock :
      (limit : ℕ) (expected code : String) (codes : List String) (s : Store)
      → (issue_otp r limit telegram_id expected s).0 ≡ ok expected
      → All (λ guess. is_wrong (some expected) guess ≡ true) codes
      → max_attempts ≤ length codes
      → let s' = after_tries codes (issue_otp r limit telegram_id expected s).1 in
        verify_otp r max_attempts telegram_id code s' ≡ (raised otp_locked, s')
  guesses_lock limit expected code codes s issued w h =
      let (text, zero_tries) = fresh limit expected s issued in
      let s' = (issue_otp r limit telegram_id expected s).1 in
      locked_try code (after_tries codes s')
        (tries_grow 0 expected codes s' zero_tries text w (omega arith))

  -- A code opens one session only: once a code was accepted, no code is accepted until a new one is
  -- issued, as long as `get_text` finds what Redis has.
  pub code_opens_once :
      (code again : String) (s : Store)
      → (verify_otp r max_attempts telegram_id code s).0 ≡ ok true
      → (verify_otp r max_attempts telegram_id again (after_try code s)).0 ≡ ok false
  unfolding verify_otp tries is_wrong
  code_opens_once code again s h =
      let gone = laws.text_delete (otp telegram_id) s in
      let kept = laws.number_delete (otp_tries telegram_id) (otp telegram_id) s refl in ground arith
