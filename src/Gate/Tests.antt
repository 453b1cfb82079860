-- ===== src/Gate/Tests.antt =====
-- Runs of the approval gate of backend/app/api/query.py, and the theorems at concrete inputs.
use metasight.Prelude.{
  Bool, List, String, [], arith, codes, eq_iff, false, first, inl, map, none, refl, some, strip,
  text_beq, ℕ, ◌++◌, ◌+◌, ◌<◌, ◌∷◌, ◌≡◌, ◌≤◌, ◌⊎◌,
}
use metasight.Prelude.Dict.{lookup}
use metasight.Identity.{User}
use metasight.Risk.{RewriteMeta, RiskScore, score_query}
use metasight.Approval.{
  Db, QueryApproval, answers_token, create_approval_request, has_expired, save,
  validate_approval_token,
}
use metasight.Approval.Workflow.{IsValid, granted}
use metasight.Gate.{
  approval_gate, approval_required, given_token, goes_on, http_error, stopped, use_token,
}
use metasight.Risk.{RewriteMeta, RiskScore, score_query}
use metasight.Prelude.Dict.{lookup}
use metasight.Gate.Safety.{
  IsRequest, Pays, approval_gate_safe, approval_gate_stops, use_token_burns,
}

program : Unit {0}
unfolding approval_gate use_token create_approval_request validate_approval_token answers_token
    has_expired save lookup text_beq strip
program = tt

abbrev user_of : String → User
user_of email = record {
  tenant_id = 1;
  department_id = none;
  claims = ("sub", email) ∷ ("role", "analyst") ∷ [];
}

abbrev eve_approved : QueryApproval
eve_approved = record {
  id = 4;
  tenant_id = 1;
  requester_email = "ana@x.io";
  requester_role = "analyst";
  source_id = 2;
  sql = codes "SELECT 2";
  risk_score = 90;
  risk_level = "CRITICAL";
  status = "approved";
  approval_token = some "tok";
  approver_email = some "eve@x.io";
  approver_note = none;
  created_at = 10;
  updated_at = 20;
  expires_at = some 500;
}

abbrev db : Db
db = record { approvals = eve_approved ∷ []; data_changes = []; activities = [] }

abbrev db_after : Db
db_after = record db { approvals = record eve_approved { status = "used"; updated_at = 101 } ∷ [] }

abbrev clock : ℕ → ℕ
clock n = 100 + n

abbrev critical : RiskScore
critical = record { score = 905; level = "CRITICAL"; factors = []; recommendations = [] }

passes :
    approval_gate clock 5 (user_of "ana@x.io") 2 (codes "SELECT 2 ") critical (some "tok") db
    ≡ (goes_on ("Query executed under admin-approved token." ∷ []), db_after)
unfolding program
passes = refl

asks :
    (approval_gate clock 5 (user_of "ana@x.io") 2 (codes "SELECT 2") critical (some "") db).0
    ≡ stopped (approval_required critical 5)
unfolding program
asks = refl

db-IsValid : IsValid db
db-IsValid = record {
  distinct = (tt, tt);
  guarded = (
    granted (inl refl) ("eve@x.io", refl, ground (arith, eq_iff "eve@x.io" "ana@x.io"))
        ("tok", 500, refl, refl),
    tt,
  );
}

approval_gate_safe_example :
    (token : String) × (a : QueryApproval) × (row : QueryApproval) × (given_token (some "tok")
      ≡ some token)
    × (first (answers_token 1 token) db.approvals ≡ some a)
    × Pays 100 (user_of "ana@x.io") (codes "SELECT 2 ") a
    × (row.status ≡ "used")
    × (db_after.approvals ≡ save row db.approvals)
approval_gate_safe_example =
    approval_gate_safe clock 5 (user_of "ana@x.io") 2 (codes "SELECT 2 ") critical (some "tok") db
      ("Query executed under admin-approved token." ∷ []) db_after db-IsValid refl passes

abbrev no_tie : ℕ → Bool
no_tie n = false

abbrev names : List String
names = "a" ∷ "b" ∷ "c" ∷ "d" ∷ "e" ∷ "f" ∷ []

-- Everything that a rewriting reports, and no row filter.
abbrev broad : RewriteMeta
broad = record {
  masked_columns = map (λ n. (n, none)) names;
  tokenized_columns = map (λ n. (n, n)) names;
  denied_columns = names;
  row_filter_applied = false;
  tables_affected = [];
  warnings = names;
}

abbrev broad_risk : RiskScore
broad_risk = score_query no_tie broad [] 0

approval_gate_stops_example :
    let risk = score_query no_tie broad [] 0 in
    let (passage, db') =
      approval_gate clock 5 (user_of "ana@x.io") 2 (codes "SELECT 2") risk (some "") db in
    ((risk.score < 800) × (passage ≡ goes_on []) × (db' ≡ db))
    ⊎ ((800 ≤ risk.score)
        × (passage ≡ stopped (approval_required risk 5))
        × (a : QueryApproval) × (db' ≡ record db { approvals = db.approvals ++ a ∷ [] })
        × IsRequest 5 2 (user_of "ana@x.io") (codes "SELECT 2") risk a)
approval_gate_stops_example =
    approval_gate_stops clock 5 (user_of "ana@x.io") 2 (codes "SELECT 2") no_tie broad [] (some "")
      db refl

use_token_burns_example :
    (use_token clock (user_of "mal@x.io") (codes "SELECT 2") "tok" db ≡ (
      stopped (
          http_error (record {
            status_code = 403;
            detail = "Only the original requester may execute this approved query.";
          })),
      db_after,
    ))
    × (use_token clock (user_of "ana@x.io") (codes "SELECT 2") "tok" db_after ≡ (
      stopped (
          http_error
            (record { status_code = 403; detail = "Invalid or already-used approval token." })),
      db_after,
    ))
unfolding program
use_token_burns_example =
    use_token_burns clock clock (user_of "mal@x.io") (user_of "ana@x.io") (codes "SELECT 2")
      (codes "SELECT 2") "tok" db db_after
      (record eve_approved { status = "used"; updated_at = 101 }) (tt, tt) (tt, tt) refl refl
      (ground (arith, eq_iff "ana@x.io" "mal@x.io"))
