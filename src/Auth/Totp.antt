-- ===== src/Auth/Totp.antt =====
-- The second factor: models the handlers under /auth/mfa of backend/app/api/auth.py.
use metasight.Prelude.{
  Option, String, false, first, if◌then◌else◌, nat_eq, none, not, or_else, some, string_eq, text_eq,
  true, ℕ, ◌==◌,
}
use metasight.Http.{Result, http, ok}
use metasight.Auth.{Account, AuthDb, Claims, Config, Crypto, LoginResponse, bearer, by_id, set_totp}
use metasight.Auth.Login.{issue_token}

module _ (crypto : Crypto) (config : Config) where
  open crypto use {Token}

  -- `user.totp_enabled and user.totp_secret`, and the secret.
  abbrev active_secret : Account → Option String
  active_secret u = if u.totp_enabled then u.totp_secret else none

  unfoldable pub mfa_challenge : Token → String → ℕ → AuthDb → Result (LoginResponse Token)
  unfolding issue_token
  mfa_challenge mfa_token one_time_code now db = elim (crypto.decode mfa_token now) [
    | none ↦ http 401 "Invalid or expired MFA session"
    | some claims ↦
        if not claims.mfa_pending
        then http 401 "Invalid or expired MFA session"
        else elim (first (by_id claims.user_id) db.users) [
          | none ↦ http 401 "Invalid or expired MFA session"
          | some u ↦ elim (active_secret u) [
            | none ↦ http 401 "Invalid or expired MFA session"
            | some secret ↦
                if secret == ""
                then http 401 "Invalid or expired MFA session"
                else if not (crypto.verify_totp secret one_time_code now)
                then http 401 "Invalid code"
                else ok (bearer (issue_token crypto config u db now))
          ]
        ]
  ]

  -- The new secret comes from the random generator; the answer is the secret.
  unfoldable pub mfa_enroll : Claims → String → AuthDb → Result String × AuthDb
  unfolding set_totp
  mfa_enroll claims secret db = elim (first (by_id claims.user_id) db.users) [
    | none ↦ (http 404 "User not found", db)
    | some u ↦
        (ok secret, record db { users = set_totp u.id (some secret) u.totp_enabled db.users })
  ]

  unfoldable pub mfa_enroll_confirm : Claims → String → ℕ → AuthDb → Result String × AuthDb
  unfolding set_totp
  mfa_enroll_confirm claims one_time_code now db = elim (first (by_id claims.user_id) db.users) [
    | none ↦ (http 400 "No pending MFA enrollment — call /auth/mfa/enroll first", db)
    | some u ↦
        if or_else u.totp_secret "" == ""
        then (http 400 "No pending MFA enrollment — call /auth/mfa/enroll first", db)
        else if not (crypto.verify_totp (or_else u.totp_secret "") one_time_code now)
        then (http 401 "Invalid code", db)
        else (ok "MFA enabled.", record db { users = set_totp u.id u.totp_secret true db.users })
  ]

  unfoldable pub mfa_disable : Claims → String → AuthDb → Result String × AuthDb
  unfolding set_totp
  mfa_disable claims password db = elim (first (by_id claims.user_id) db.users) [
    | none ↦ (http 401 "Incorrect password", db)
    | some u ↦
        if crypto.verify_password password u.hashed_password
        then (ok "MFA disabled.", record db { users = set_totp u.id none false db.users })
        else (http 401 "Incorrect password", db)
  ]
