-- ===== src/Identity.antt =====
-- The decoded access token of a request, and the dependencies that check its role.
-- Models backend/app/core/deps.py.
use metasight.Prelude.{
  Bool, List, Option, String, [], elem, false, if◌then◌else◌, nat_eq, none, or_else, some,
  string_eq, text_eq, ℕ, ◌∷◌,
}
use metasight.Prelude.Dict.{Dict, lookup}
use metasight.Http.{Result, http, ok}

-- The payload: the numbers by name, every other claim by its text.

pub record User : Type 0 where
  pub tenant_id : ℕ
  pub department_id : Option ℕ
  pub claims : Dict String

-- `user.get(key, default)` of a text claim.
abbrev pub claim : User → String → String → String
claim user key default = or_else (lookup key user.claims) default

abbrev pub sub : User → String
sub user = claim user "sub" ""

abbrev pub role : User → String
role user = claim user "role" ""

-- `user.get("role")` is one of the roles.
abbrev pub has_role : User → List String → Bool
has_role user roles = elim (lookup "role" user.claims) [ none ↦ false | some r ↦ elem r roles ]

unfoldable pub require_admin : User → Result User
require_admin user =
    if has_role user ("admin" ∷ "superadmin" ∷ [])
    then ok user
    else http 403 "Admin access required"

unfoldable pub require_superadmin : User → Result User
require_superadmin user =
    if has_role user ("superadmin" ∷ []) then ok user else http 403 "Super Admin access required"
