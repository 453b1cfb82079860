-- ===== src/Auth/Login.antt =====
-- Tokens, the login and the first user: models backend/app/api/auth.py (login, setup), create_access_token
-- of backend/app/core/jwt.py and get_current_user of backend/app/core/deps.py.
use metasight.Prelude.{
  Bool, Option, String, Text, [], false, first, if◌then◌else◌, lower, nat_eq, none, not, some,
  string_eq, strip, text_eq, true, ℕ, ◌++◌, ◌+◌, ◌==◌, ◌∷◌,
}
use metasight.Http.{Result, http, ok}
use metasight.Auth.{
  Account, AuthDb, Claims, Config, Crypto, LoginResponse, Tenant, bearer, by_email, claims_of,
  is_locked_out, locked_message, mfa_pending_expire_minutes, minutes, num_or, pending_claims,
  record_attempt, security_of, super_claims,
}

-- The form of POST /auth/login.
pub record LoginForm : Type 0 where
  pub username : Text
  pub password : String
  pub ip : Option String

module _ (crypto : Crypto) (config : Config) where
  open crypto use {Token}

  unfoldable pub create_access_token : Claims → ℕ → ℕ → Token
  create_access_token claims expires now = crypto.encode claims (now + minutes expires)

  unfoldable pub issue_token : Account → AuthDb → ℕ → Token
  unfolding create_access_token
  issue_token u db now =
      create_access_token (claims_of u)
        (num_or "jwt_expire_minutes" (security_of u.tenant_id db.system_settings)
          config.access_token_expire_minutes)
        now

  unfoldable pub get_current_user : Token → ℕ → Result Claims
  get_current_user token now = elim (crypto.decode token now) [
    | none ↦ http 401 "Invalid or expired token"
    | some claims ↦ ok claims
  ]

  -- The branch for the super administrator of the environment.
  unfoldable pub super_login : LoginForm → Text → ℕ → AuthDb → Result (LoginResponse Token) × AuthDb
  unfolding is_locked_out record_attempt create_access_token
  super_login form email now db =
      if is_locked_out db email 5 30 now
      then (
        http 429 "Account temporarily locked after too many failed attempts. Try again later.",
        db,
      )
      else if not (form.password == config.super_admin_password)
      then (http 401 "Incorrect email or password", record_attempt db email form.ip false now)
      else (
        ok (
            bearer
              (create_access_token (super_claims db email) config.access_token_expire_minutes now)),
        record_attempt db email form.ip true now,
      )

  -- What follows once the password was right.
  unfoldable pub after_password : Account → AuthDb → ℕ → LoginResponse Token
  unfolding issue_token create_access_token
  after_password u db now =
      if u.totp_enabled
      then record {
        access_token = none;
        token_type = none;
        mfa_required = true;
        mfa_token = some (create_access_token (pending_claims u) mfa_pending_expire_minutes now);
      }
      else bearer (issue_token u db now)

  unfoldable pub user_login :
      LoginForm → Text → ℕ → AuthDb → Account → Result (LoginResponse Token) × AuthDb
  unfolding is_locked_out record_attempt after_password
  user_login form email now db u =
      let sec = security_of u.tenant_id db.system_settings in
      let max_attempts = num_or "max_login_attempts" sec 5 in
      let lockout_minutes = num_or "lockout_duration_minutes" sec 30 in
      if is_locked_out db email max_attempts lockout_minutes now
      then (http 429 (locked_message max_attempts lockout_minutes), db)
      else if not (crypto.verify_password form.password u.hashed_password)
      then (http 401 "Incorrect email or password", record_attempt db email form.ip false now)
      else let db' = record_attempt db email form.ip true now in
        (ok (after_password u db' now), db')

  -- The handler, once the address is in its normal form.
  unfoldable pub login_by : Text → LoginForm → ℕ → AuthDb → Result (LoginResponse Token) × AuthDb
  unfolding super_login user_login
  login_by email form now db =
      if email == lower config.super_admin_email
      then super_login form email now db
      else elim (first (by_email email) db.users) [
        | none ↦ (http 401 "Incorrect email or password", db)
        | some u ↦ user_login form email now db u
      ]

  unfoldable pub login : LoginForm → ℕ → AuthDb → Result (LoginResponse Token) × AuthDb
  unfolding login_by lower strip
  login form now db = login_by (strip (lower form.username)) form now db

-- Whether the first user is still to be created.
unfoldable pub setup_status : AuthDb → Bool
setup_status db = elim db.users [ [] ↦ true | u ∷ us ↦ false ]

module _ (crypto : Crypto) (config : Config) where
  -- The first tenant and admin, with the numbers that the database gives them.
  unfoldable pub setup :
      (admin_email : Text) (admin_password x_setup_secret : String) (new_tenant new_user : ℕ)
      → AuthDb
      → Result Account × AuthDb
  setup admin_email admin_password x_setup_secret new_tenant new_user db =
      let admin : Account = record {
        id = new_user;
        email = admin_email;
        hashed_password = crypto.hash_password admin_password;
        role = "admin";
        tenant_id = new_tenant;
        department_id = none;
        totp_secret = none;
        totp_enabled = false;
      } in
      let tenant : Tenant = record { id = new_tenant; name = "Default Organization" } in
      if not (x_setup_secret == config.setup_secret)
      then (http 403 "Invalid setup secret", db)
      else elim db.users [
        | u ∷ us ↦ (http 409 "Setup already completed. Use POST /users to add more users.", db)
        | [] ↦ (ok admin, record db { users = admin ∷ []; tenants = db.tenants ++ tenant ∷ [] })
      ]
