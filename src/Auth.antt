-- ===== src/Auth.antt =====
-- Login, account lockout and the second factor: models backend/app/api/auth.py, over the rows of
-- backend/app/models/models.py and the token functions of backend/app/core/jwt.py. The rate limit of a
-- library in front of the handlers is left out, and so is the picture of the enrolment code.
pub mod Login
pub mod Totp
pub mod Lockout
pub mod SecondFactor
mod Tests
use mathlib.Core.List.{reverse}
use metasight.Prelude.{
  Bool, List, Option, String, Text, [], false, first, if◌then◌else◌, keep, leb, nat_eq, none,
  show_nat, some, string_eq, suc, text_eq, true, ℕ, ◌&&◌, ◌*◌, ◌++◌, ◌-◌, ◌<>◌, ◌<◌, ◌==◌, ◌∷◌, ◌≡◌,
}
use metasight.Json.{Fields, lookup_field, num, section}
use metasight.Settings.{SystemSettings, get_settings}

-- A row of `users`; the columns that no handler here reads are left out.
pub record Account : Type 0 where
  pub id : ℕ
  pub email : Text
  pub hashed_password : String
  pub role : String
  pub tenant_id : ℕ
  pub department_id : Option ℕ
  pub totp_secret : Option String
  pub totp_enabled : Bool

pub record LoginAttempt : Type 0 where
  pub email : Text
  pub ip_address : Option String
  pub success : Bool
  pub attempted_at : ℕ

pub record Tenant : Type 0 where
  pub id : ℕ
  pub name : String

pub record AuthDb : Type 0 where
  pub users : List Account
  pub attempts : List LoginAttempt
  pub tenants : List Tenant
  pub system_settings : List SystemSettings

-- The payload of a token. A claim that is absent or None is `none`.
pub record Claims : Type 0 where
  pub sub : Text
  pub role : Option String
  pub tenant_id : Option ℕ
  pub user_id : Option ℕ
  pub department_id : Option ℕ
  pub mfa_pending : Bool

-- `settings` of the environment.
pub record Config : Type 0 where
  pub setup_secret : String
  pub super_admin_email : Text
  pub super_admin_password : String
  pub access_token_expire_minutes : ℕ

-- The libraries for passwords, tokens and one-time codes. A token that has not expired is decoded to
-- the claims that it was made from.
pub record Crypto : Type 1 where
  pub Token : Type 0
  pub verify_password : String → String → Bool
  pub hash_password : String → String
  pub encode : Claims → ℕ → Token
  pub decode : Token → ℕ → Option Claims
  pub verify_totp : String → String → ℕ → Bool
  pub decode-encode :
      (c : Claims) (expire now : ℕ) → now < expire → decode (encode c expire) now ≡ some c

pub record LoginResponse (T : Type 0) : Type 0 where
  pub access_token : Option T
  pub token_type : Option String
  pub mfa_required : Bool
  pub mfa_token : Option T

abbrev pub minutes : ℕ → ℕ
minutes n = n * 60_000_000

abbrev pub mfa_pending_expire_minutes : ℕ
mfa_pending_expire_minutes = 5

-- `.order_by(LoginAttempt.attempted_at.asc())`.
unfoldable pub insert_asc : LoginAttempt → List LoginAttempt → List LoginAttempt
insert_asc a [] = a ∷ []
insert_asc a (b ∷ attempts) =
    let later = insert_asc a attempts in
    if leb a.attempted_at b.attempted_at then a ∷ b ∷ attempts else b ∷ later

unfoldable pub sort_asc : List LoginAttempt → List LoginAttempt
unfolding insert_asc
sort_asc [] = []
sort_asc (a ∷ attempts) = insert_asc a (sort_asc attempts)

-- The loop of `_is_locked_out`, over the attempts from the last one back.
unfoldable pub count_failures : List LoginAttempt → ℕ
count_failures [] = 0
count_failures (a ∷ attempts) =
    let before = count_failures attempts in if a.success then 0 else suc before

abbrev pub is_recent : Text → ℕ → LoginAttempt → Bool
is_recent email window_start a = a.email == email && leb window_start a.attempted_at

unfoldable pub consecutive_failures : Text → ℕ → List LoginAttempt → ℕ
unfolding sort_asc count_failures
consecutive_failures email window_start attempts =
    count_failures (reverse (sort_asc (keep (is_recent email window_start) attempts)))

unfoldable pub is_locked_out : AuthDb → Text → ℕ → ℕ → ℕ → Bool
unfolding consecutive_failures
is_locked_out db email max_attempts lockout_minutes now =
    leb max_attempts (consecutive_failures email (now - minutes lockout_minutes) db.attempts)

unfoldable pub record_attempt : AuthDb → Text → Option String → Bool → ℕ → AuthDb
record_attempt db email ip success now = record db {
  attempts =
      db.attempts
      ++ record { email = email; ip_address = ip; success = success; attempted_at = now } ∷ [];
}

-- `sec.get(key, default)` of a number; a setting that is there is a number.
abbrev pub num_or : String → Fields → ℕ → ℕ
num_or key sec default = elim (lookup_field key sec) [ some (num n) ↦ n | _ ↦ default ]

abbrev pub security_of : ℕ → List SystemSettings → Fields
security_of tenant_id rows = section "security" (get_settings tenant_id rows)

-- `db.query(User).filter(User.email == email).first()`, and by the number.
abbrev pub by_email : Text → Account → Bool
by_email email u = u.email == email

abbrev pub by_id : Option ℕ → Account → Bool
by_id none u = false
by_id (some n) u = u.id == n

-- `user.totp_secret` and `user.totp_enabled` of one row are written.
unfoldable pub set_totp : ℕ → Option String → Bool → List Account → List Account
set_totp id secret enabled [] = []
set_totp id secret enabled (u ∷ users) =
    if u.id == id
    then record u { totp_secret = secret; totp_enabled = enabled } ∷ users
    else u ∷ set_totp id secret enabled users

abbrev pub bearer : {T : Type 0} → T → LoginResponse T
bearer token = record {
  access_token = some token;
  token_type = some "bearer";
  mfa_required = false;
  mfa_token = none;
}

abbrev pub locked_message : ℕ → ℕ → String
locked_message max_attempts lockout_minutes =
    "Account temporarily locked after "
    <> show_nat max_attempts
    <> " failed attempts. Try again in "
    <> show_nat lockout_minutes
    <> " minutes."

abbrev pub claims_of : Account → Claims
claims_of u = record {
  sub = u.email;
  role = some u.role;
  tenant_id = some u.tenant_id;
  user_id = some u.id;
  department_id = u.department_id;
  mfa_pending = false;
}

abbrev pub pending_claims : Account → Claims
pending_claims u = record {
  sub = u.email;
  role = none;
  tenant_id = none;
  user_id = some u.id;
  department_id = none;
  mfa_pending = true;
}

-- `db.query(Tenant).order_by(Tenant.id.asc()).first()`.
abbrev first_tenant : List Tenant → Option Tenant
first_tenant [] = none
first_tenant (t ∷ tenants) = elim (first_tenant tenants) [
  | none ↦ some t
  | some u ↦ if leb t.id u.id then some t else some u
]

abbrev pub super_claims : AuthDb → Text → Claims
super_claims db email = elim (first (by_email email) db.users) [
  | some u ↦ record {
    sub = email;
    role = some "superadmin";
    tenant_id = some u.tenant_id;
    user_id = some u.id;
    department_id = u.department_id;
    mfa_pending = false;
  }
  | none ↦ record {
    sub = email;
    role = some "superadmin";
    tenant_id = elim (first_tenant db.tenants) [ none ↦ some 0 | some t ↦ some t.id ];
    user_id = none;
    department_id = none;
    mfa_pending = false;
  }
]
