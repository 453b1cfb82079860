-- ===== src/Auth/Tests.antt =====
-- Runs of the login handlers (backend/app/api/auth.py).
use metasight.Prelude.{
  All, Option, String, [], arith, codes, false, first, if◌then◌else◌, lower, ltb, nat_eq, none,
  refl, some, string_eq, strip, text_beq, text_eq, true, ℕ, ◌+◌, ◌<◌, ◌==◌, ◌∷◌, ◌≡◌,
}
use metasight.Http.{Result, http, ok}
use metasight.Json.{end, field, insert_field, lookup_field, num, obj, section}
use metasight.Settings.{deep_merge, get_settings}
use metasight.Auth.Login.{LoginForm, get_current_user, login}
use metasight.Auth.Totp.{mfa_disable}
use metasight.Auth.{
  Account, AuthDb, Claims, Config, Crypto, LoginResponse, by_email, locked_message, minutes, num_or,
  pending_claims, security_of,
}
use metasight.Auth.Lockout.{Before, Names, Refused, again, login_locked, start}
use metasight.Auth.SecondFactor.{Carries, login_second_factor, second_factor_removed}

decode_plain : Claims × ℕ → ℕ → Option Claims
decode_plain t now = if ltb now t.1 then some t.0 else none

decode_plain_lem :
    (c : Claims) (expire now : ℕ) → now < expire → decode_plain (c, expire) now ≡ some c
unfolding decode_plain
decode_plain_lem c expire now h = ground arith

-- Tokens that hold their claims, and passwords that are stored as they are.
abbrev plain : Crypto
plain = record {
  Token = Claims × ℕ;
  verify_password = λ p h. p == h;
  hash_password = λ p. p;
  encode = λ c expire. (c, expire);
  decode = decode_plain;
  verify_totp = λ secret c now. secret == c;
  decode-encode = decode_plain_lem;
}

abbrev environment : Config
environment = record {
  setup_secret = "s3";
  super_admin_email = codes "root@x.io";
  super_admin_password = "toor";
  access_token_expire_minutes = 60;
}

abbrev ana : Account
ana = record {
  id = 7;
  email = codes "ana@x.io";
  hashed_password = "pw";
  role = "analyst";
  tenant_id = 1;
  department_id = some 2;
  totp_secret = some "JBSW";
  totp_enabled = true;
}

abbrev db : AuthDb
db = record { users = ana ∷ []; attempts = []; tenants = []; system_settings = [] }

abbrev form : String → LoginForm
form password = record { username = codes " Ana@x.io"; password = password; ip = none }

abbrev pending : LoginResponse (Claims × ℕ)
pending = record {
  access_token = none;
  token_type = none;
  mfa_required = true;
  mfa_token = some (pending_claims ana, 1_000_000 + minutes 5);
}

form-Names : (password : String) → Names plain environment ana (form password)
unfolding strip lower text_beq
form-Names password = (refl, refl)

login_run : (login plain environment (form "pw") 1_000_000 db).0 ≡ ok pending
unfolding login text_beq get_settings lookup_field section
login_run = refl

ana_known : first (by_email ana.email) db.users ≡ some ana
unfolding text_beq
ana_known = refl

login_second_factor_example :
    (plain.verify_password "pw" "pw" ≡ true)
    × (pending.access_token ≡ none)
    × (token : Claims × ℕ) × (pending.mfa_token ≡ some token)
    × Carries plain environment ana token (pending_claims ana) 1_000_000 5
login_second_factor_example =
    login_second_factor plain environment ana (form "pw") 1_000_000 db {r = pending}
      (form-Names "pw") ana_known refl login_run

second_factor_removed_example :
    (token : Claims × ℕ) × (pending.mfa_token ≡ some token)
    × (claims : Claims) × (get_current_user plain environment token 2_000_000 ≡ ok claims)
    × ((mfa_disable plain environment claims "pw"
          (login plain environment (form "pw") 1_000_000 db).1).0
        ≡ ok "MFA disabled.")
    × (first
          (by_email ana.email)
          (mfa_disable plain environment claims "pw"
            (login plain environment (form "pw") 1_000_000 db).1).1.users
        ≡ some (record ana { totp_secret = none; totp_enabled = false }))
second_factor_removed_example =
    second_factor_removed plain environment ana (form "pw") 1_000_000 2_000_000 db {r = pending}
      (form-Names "pw") ana_known refl refl login_run (omega arith)

-- A tenant that allows two attempts.
abbrev strict_db : AuthDb
strict_db = record db {
  system_settings =
      record {
        tenant_id = 1;
        config = some (field "security" (obj (field "max_login_attempts" (num 2) end)) end);
        updated_by = "";
      }
      ∷ [];
}

abbrev once : AuthDb
once = (login plain environment (form "no") 1 strict_db).1

abbrev twice : AuthDb
twice = (login plain environment (form "no") 2 once).1

abbrev wrong : Result (LoginResponse (Claims × ℕ))
wrong = http 401 "Incorrect email or password"

first_run : (login plain environment (form "no") 1 strict_db).0 ≡ wrong
unfolding login text_beq get_settings section lookup_field insert_field deep_merge
first_run = refl

second_run : (login plain environment (form "no") 2 once).0 ≡ wrong
unfolding login text_beq get_settings section lookup_field insert_field deep_merge
second_run = refl

once-Before : All (Before 2) once.attempts
unfolding login text_beq get_settings section lookup_field insert_field deep_merge
once-Before = (omega arith, tt)

settings_run :
    (num_or "max_login_attempts" (security_of 1 strict_db.system_settings) 5 ≡ 2)
    × (num_or "lockout_duration_minutes" (security_of 1 strict_db.system_settings) 30 ≡ 30)
unfolding get_settings section lookup_field insert_field deep_merge
settings_run = (refl, refl)

two-Refused : Refused plain environment ana 0 strict_db 2 twice
two-Refused =
    again (form "no") 2 (again (form "no") 1 start (form-Names "no") (omega arith) tt first_run)
      (form-Names "no") (omega arith) once-Before second_run

login_locked_example : login plain environment (form "pw") 3 twice ≡ (
  http 429 (
      locked_message
        (num_or "max_login_attempts" (security_of 1 strict_db.system_settings) 5)
        (num_or "lockout_duration_minutes" (security_of 1 strict_db.system_settings) 30)),
  twice,
)
login_locked_example =
    login_locked plain environment ana {since = 0} {n = 2} strict_db {db' = twice} (form "pw") 3
      two-Refused ana_known (form-Names "pw") (omega (arith, settings_run.0))
      (omega (arith, settings_run.1))
