-- ===== src/Auth/Lockout.antt =====
-- When an account is locked (backend/app/api/auth.py).
use mathlib.Core.List.{reverse-append}
use metasight.Prelude.{
  All, Bool, Bool-cases, List, Option, String, Text, [], ap, arith, false, first, if◌then◌else◌,
  inl, inr, keep, leb, lower, nat_eq, refl, some, string_eq, strip, subst, suc, sym, text_beq_iff,
  text_eq, true, zero, ℕ, ◌++◌, ◌-◌, ◌==◌, ◌∙◌, ◌∷◌, ◌≡◌, ◌≤◌,
}
use metasight.Auth.Login.{LoginForm, login, login_by, user_login}
use metasight.Auth.{
  Account, AuthDb, Config, Crypto, LoginAttempt, by_email, consecutive_failures, count_failures,
  insert_asc, is_locked_out, is_recent, locked_message, minutes, num_or, record_attempt,
  security_of, sort_asc,
}
use metasight.Http.{http}
use metasight.Settings.{SystemSettings}

-- The attempts were made at the time or before.
abbrev pub Before : ℕ → LoginAttempt → Type 0
Before now a = a.attempted_at ≤ now

keep-append {ℓ} :
    {A : Type ℓ} (p : A → Bool) (xs ys : List A) → keep p (xs ++ ys) ≡ keep p xs ++ keep p ys
keep-append p [] ys = refl
keep-append p (x ∷ xs) ys = ground (arith, keep-append p xs ys)

keep-Before :
    (p : LoginAttempt → Bool) (now : ℕ) (xs : List LoginAttempt)
    → All (Before now) xs
    → All (Before now) (keep p xs)
keep-Before p now [] h = tt
keep-Before p now (x ∷ xs) h = elim (Bool-cases (p x)) [
  | inl e ↦ rw e (h.0, keep-Before p now xs h.1)
  | inr e ↦ rw e (keep-Before p now xs h.1)
]

-- The latest attempt comes last in the order of time.
insert_asc-append :
    (a x : LoginAttempt) (xs : List LoginAttempt)
    → a.attempted_at ≤ x.attempted_at
    → insert_asc a (xs ++ x ∷ []) ≡ insert_asc a xs ++ x ∷ []
unfolding insert_asc
insert_asc-append a x [] h = ground arith
insert_asc-append a x (b ∷ xs) h = ground (arith, insert_asc-append a x xs h)

sort_asc-append :
    (x : LoginAttempt) (xs : List LoginAttempt)
    → All (Before x.attempted_at) xs
    → sort_asc (xs ++ x ∷ []) ≡ sort_asc xs ++ x ∷ []
unfolding sort_asc
sort_asc-append x [] h = refl
sort_asc-append x (a ∷ xs) h =
    ap (insert_asc a) (sort_asc-append x xs h.1) ∙ insert_asc-append a x (sort_asc xs) h.0

le→leb : (a b : ℕ) → a ≤ b → leb a b ≡ true
le→leb a b h = ground arith

module _ (db : AuthDb) (email : Text) (ip : Option String) (now since : ℕ) where
  -- An attempt that is recorded ends the series, or makes it longer by one.
  record_attempt-failures :
      (success : Bool)
      → since ≤ now
      → All (Before now) db.attempts
      → consecutive_failures email since (record_attempt db email ip success now).attempts
        ≡ (if success then 0 else suc (consecutive_failures email since db.attempts))
  unfolding consecutive_failures record_attempt count_failures
  record_attempt-failures success h past =
      let x : LoginAttempt = record {
        email = email;
        ip_address = ip;
        success = success;
        attempted_at = now;
      } in
      let old = keep (is_recent email since) db.attempts in
      let recent : is_recent email since x ≡ true = ground (arith, text_beq_iff email email) in
      let kept : keep (is_recent email since) (db.attempts ++ x ∷ []) ≡ old ++ x ∷ [] =
        keep-append (is_recent email since) db.attempts (x ∷ []) ∙ ground arith in
      rw kept (
        rw (sort_asc-append x old (keep-Before (is_recent email since) now db.attempts past))
          (rw (reverse-append (sort_asc old) (x ∷ [])) (ground arith)))

module _ (crypto : Crypto) (config : Config) (u : Account) where
  -- The form names the account, which is not the super administrator's.
  abbrev pub Names : LoginForm → Type 0
  Names form =
      (strip (lower form.username) ≡ u.email)
      × ((u.email == lower config.super_admin_email) ≡ false)

  pub login_ordinary :
      (form : LoginForm) (now : ℕ) (db : AuthDb)
      → Names form
      → first (by_email u.email) db.users ≡ some u
      → login crypto config form now db ≡ user_login crypto config form u.email now db u
  unfolding login login_by
  login_ordinary form now db (named, ordinary) known =
      ap (λ email. login_by crypto config email form now db) named
      ∙ rw (ordinary, login_by) (rw (known, login_by) refl)

  -- A login that is answered with 401 leaves a failure behind, and nothing else.
  login_refused :
      (form : LoginForm) (now : ℕ) (db : AuthDb)
      → (user_login crypto config form u.email now db u).0 ≡ http 401 "Incorrect email or password"
      → (user_login crypto config form u.email now db u).1
        ≡ record_attempt db u.email form.ip false now
  unfolding user_login
  login_refused form now db h = ground arith

  -- Logins to the account, each in its time and answered with 401, and their number.
  pub data Refused (since : ℕ) (db : AuthDb) : ℕ → AuthDb → Type 0 where
    start : Refused since db zero db
    again :
        {n : ℕ} {db' : AuthDb} (form : LoginForm) (now : ℕ)
        → Refused since db n db'
        → Names form
        → since ≤ now
        → All (Before now) db'.attempts
        → (login crypto config form now db').0 ≡ http 401 "Incorrect email or password"
        → Refused since db (suc n) (login crypto config form now db').1

  -- What a series of refused logins leaves: the accounts and the settings as they were, and at least
  -- as many failures in a row.
  Refused-failures :
      {since : ℕ} {db : AuthDb} {n : ℕ} {db' : AuthDb}
      → Refused since db n db'
      → first (by_email u.email) db.users ≡ some u
      → (db'.users ≡ db.users)
        × (db'.system_settings ≡ db.system_settings)
        × (n ≤ consecutive_failures u.email since db'.attempts)
  unfolding record_attempt
  Refused-failures start known = (refl, refl, omega arith)
  Refused-failures {since} {db = db0} (again {n} {db' = db} form now series named recent past h)
        known =
      let (users, rows, count) = Refused-failures series known in
      let found : first (by_email u.email) db.users ≡ some u = rw users known in
      let same = login_ordinary form now db named found in
      let outcome = ap (λ r. r.1) same ∙ login_refused form now db (sym (ap (λ r. r.0) same) ∙ h) in
      let failures = record_attempt-failures db u.email form.ip now since false recent past in
      subst
        (λ d.
          (d.users ≡ db0.users)
          × (d.system_settings ≡ db0.system_settings)
          × (suc n ≤ consecutive_failures u.email since d.attempts))
        (sym outcome) (users, rows, omega (arith, failures, count))

  abbrev max_of : List SystemSettings → ℕ
  max_of rows = num_or "max_login_attempts" (security_of u.tenant_id rows) 5

  abbrev lockout_of : List SystemSettings → ℕ
  lockout_of rows = num_or "lockout_duration_minutes" (security_of u.tenant_id rows) 30

  user_login_locked :
      (form : LoginForm) (now : ℕ) (db : AuthDb)
      → max_of db.system_settings
        ≤ consecutive_failures u.email (now - minutes (lockout_of db.system_settings)) db.attempts
      → user_login crypto config form u.email now db u ≡ (
        http 429 (locked_message (max_of db.system_settings) (lockout_of db.system_settings)),
        db,
      )
  unfolding user_login is_locked_out
  user_login_locked form now db h = rw (le→leb _ _ h) refl

  -- For an account that is not the super admin's of the environment: after as many logins to it that
  -- were answered with 401 as its tenant allows, all in the lockout time before `now` and in the order
  -- of time, a login is refused whatever its password, and nothing changes.
  pub login_locked :
      {since n : ℕ} (db : AuthDb) {db' : AuthDb} (form : LoginForm) (now : ℕ)
      → Refused since db n db'
      → first (by_email u.email) db.users ≡ some u
      → Names form
      → let sec = security_of u.tenant_id db.system_settings in
        let max_attempts = num_or "max_login_attempts" sec 5 in
        let lockout_minutes = num_or "lockout_duration_minutes" sec 30 in
        max_attempts ≤ n
        → since ≡ now - minutes lockout_minutes
        → login crypto config form now db'
          ≡ (http 429 (locked_message max_attempts lockout_minutes), db')
  login_locked {since} {n} db {db'} form now series known named enough window =
      let (users, rows, count) = Refused-failures series known in
      let found : first (by_email u.email) db'.users ≡ some u = rw users known in
      login_ordinary form now db' named found
      ∙ subst
          (λ s.
            user_login crypto config form u.email now db' u
            ≡ (http 429 (locked_message (max_of s) (lockout_of s)), db'))
          rows
          (user_login_locked form now db' (rw rows (rw (← window) (omega (arith, enough, count)))))
