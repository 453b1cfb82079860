-- ===== src/Auth/SecondFactor.antt =====
-- What a login gives with and without a second factor, and what its pending token is good for
-- (backend/app/api/auth.py, get_current_user of backend/app/core/deps.py).
use metasight.Prelude.{
  Bool, Bool-cases, List, Option, String, [], ap, arith, false, first, inl, inr, nat_eq, none, refl,
  some, string_eq, sym, text_beq_iff, text_eq, true, ℕ, ◌+◌, ◌<◌, ◌==◌, ◌∙◌, ◌∷◌, ◌≡◌,
}
use metasight.Http.{ok}
use metasight.Auth.Login.{
  LoginForm, after_password, create_access_token, get_current_user, login, user_login,
}
use metasight.Auth.Totp.{mfa_disable}
use metasight.Auth.{
  Account, AuthDb, Claims, Config, Crypto, LoginResponse, by_email, by_id,
  mfa_pending_expire_minutes, minutes, pending_claims, record_attempt, set_totp,
}
use metasight.Auth.Lockout.{Names, login_ordinary}

-- A write by the number of an account is seen under its address.
first-set_totp :
    (u : Account) (secret : Option String) (enabled : Bool) (users : List Account)
    → first (by_email u.email) users ≡ some u
    → first (by_id (some u.id)) users ≡ some u
    → first (by_email u.email) (set_totp u.id secret enabled users)
      ≡ some (record u { totp_secret = secret; totp_enabled = enabled })
unfolding set_totp
first-set_totp u secret enabled [] h k = absurd (cc)
first-set_totp u secret enabled (v ∷ users) h k = elim (Bool-cases (v.id == u.id)) [
  | inl e ↦
      let same : v ≡ u = ground arith in rw (e, same) (ground (arith, text_beq_iff u.email u.email))
  | inr e ↦ elim (Bool-cases (v.email == u.email)) [
    | inl f ↦ let same : v ≡ u = ground arith in absurd (ground (arith, ap (λ a. a.id) same))
    | inr f ↦ rw e (rw f (first-set_totp u secret enabled users (ground arith) (ground arith)))
  ]
]

module _ (crypto : Crypto) (config : Config) (u : Account) where
  open crypto use {Token}

  -- What the token of an answer is decoded to, before it expires.
  abbrev pub Carries : Token → Claims → ℕ → ℕ → Type 0
  Carries token claims from lifetime =
      (later : ℕ)
      → later < from + minutes lifetime
      → get_current_user crypto config token later ≡ ok claims

  token-Carries :
      (claims : Claims) (lifetime now : ℕ)
      → Carries (create_access_token crypto config claims lifetime now) claims now lifetime
  unfolding create_access_token get_current_user
  token-Carries claims lifetime now later h =
      rw (crypto.decode-encode claims (now + minutes lifetime) later h, get_current_user) refl

  user_login-ok :
      (form : LoginForm) (now : ℕ) (db : AuthDb) {r : LoginResponse Token}
      → (user_login crypto config form u.email now db u).0 ≡ ok r
      → (crypto.verify_password form.password u.hashed_password ≡ true)
        × (r ≡ after_password crypto config u (record_attempt db u.email form.ip true now) now)
        × ((user_login crypto config form u.email now db u).1
            ≡ record_attempt db u.email form.ip true now)
  unfolding user_login
  user_login-ok form now db h = ground arith

  -- A login to an account with a second factor, unless its address is the super admin's of the
  -- environment, asks for the right password, and is answered with no access token, but with a pending
  -- one, which for five minutes stands for the user's address and number, without a role or a tenant.
  pub login_second_factor :
      (form : LoginForm) (now : ℕ) (db : AuthDb) {r : LoginResponse Token}
      → Names crypto config u form
      → first (by_email u.email) db.users ≡ some u
      → u.totp_enabled ≡ true
      → (login crypto config form now db).0 ≡ ok r
      → (crypto.verify_password form.password u.hashed_password ≡ true)
        × (r.access_token ≡ none)
        × (token : Token) × (r.mfa_token ≡ some token)
        × Carries token (pending_claims u) now mfa_pending_expire_minutes
  unfolding after_password
  login_second_factor form now db {r} named known enabled h =
      let same = login_ordinary crypto config u form now db named known in
      let (verified, answer, after) =
        user_login-ok form now db {r = r} (sym (ap (λ o. o.0) same) ∙ h) in
      (
        verified,
        ground arith,
        create_access_token crypto config (pending_claims u) mfa_pending_expire_minutes now,
        ground arith,
        token-Carries (pending_claims u) mfa_pending_expire_minutes now,
      )

  mfa_disable_lem :
      (claims : Claims) (password : String) (db : AuthDb)
      → first (by_id claims.user_id) db.users ≡ some u
      → crypto.verify_password password u.hashed_password ≡ true
      → mfa_disable crypto config claims password db
        ≡ (ok "MFA disabled.", record db { users = set_totp u.id none false db.users })
  unfolding mfa_disable
  mfa_disable_lem claims password db known verified = rw (known, mfa_disable) (rw verified refl)

  -- Whoever knows the password of an account, other than the super admin's of the environment, gets
  -- rid of its second factor: the pending token that a
  -- login answers with is taken by get_current_user, and with it and the password the account is left
  -- without a second factor.
  pub second_factor_removed :
      (form : LoginForm) (now later : ℕ) (db : AuthDb) {r : LoginResponse Token}
      → Names crypto config u form
      → first (by_email u.email) db.users ≡ some u
      → first (by_id (some u.id)) db.users ≡ some u
      → u.totp_enabled ≡ true
      → (login crypto config form now db).0 ≡ ok r
      → later < now + minutes mfa_pending_expire_minutes
      → (token : Token) × (r.mfa_token ≡ some token)
        × (claims : Claims) × (get_current_user crypto config token later ≡ ok claims)
        × ((mfa_disable crypto config claims form.password (login crypto config form now db).1).0
            ≡ ok "MFA disabled.")
        × (first
              (by_email u.email)
              (mfa_disable crypto config claims form.password
                (login crypto config form now db).1).1.users
            ≡ some (record u { totp_secret = none; totp_enabled = false }))
  unfolding record_attempt
  second_factor_removed form now later db {r} named known numbered enabled h soon =
      let same = login_ordinary crypto config u form now db named known in
      let (verified, answer, after) =
        user_login-ok form now db {r = r} (sym (ap (λ o. o.0) same) ∙ h) in
      let (_, _, token, given, carries) =
        login_second_factor form now db {r = r} named known enabled h in
      let left = ap (λ o. o.1) same ∙ after in
      let db' = record_attempt db u.email form.ip true now in
      let disabled = mfa_disable_lem (pending_claims u) form.password db' numbered verified in
      (
        token,
        given,
        pending_claims u,
        carries later soon,
        rw left (ap (λ o. o.0) disabled),
        rw left (
            ap (λ o. first (by_email u.email) o.1.users) disabled
            ∙ first-set_totp u none false db.users known numbered),
      )
