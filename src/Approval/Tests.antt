-- ===== src/Approval/Tests.antt =====
-- Runs of the handlers of backend/app/api/approvals.py, and the theorems at concrete inputs.
use metasight.Prelude.{
  All, Text, [], ap, arith, codes, eq_iff, length, none, refl, show_nat, some, strip, text_beq, ℕ,
  ◌+◌, ◌∷◌, ◌≡◌, ◌≤◌,
}
use metasight.Prelude.Dict.{lookup}
use metasight.Http.{http, ok}
use metasight.Identity.{User, require_admin, sub}
use metasight.Approval.{
  Db, QueryApproval, answers_token, approve_request, audit_decision, create_approval_request,
  decidable, get_approval, has_expired, insert_desc, list_approvals, list_my_approvals,
  newest_first, reject_request, save, to_response, validate_approval_token,
}
use metasight.Approval.Evolution.{EvolvesAll}
use metasight.Approval.Workflow.{
  IsValid, Reach, Reach-EvolvesAll, Reach-IsValid, created, here, next,
}
use metasight.Approval.Token.{validate_once}
use metasight.Approval.Listing.{IsNewestFirst, IsOwn, list_my_approvals_lem}
use metasight.Approval.Liveness.{request_approve_execute, request_approve_execute_total}

program : Unit {0}
unfolding approve_request reject_request create_approval_request validate_approval_token
    list_my_approvals list_approvals newest_first insert_desc to_response save get_approval
    decidable audit_decision require_admin lookup answers_token has_expired text_beq strip show_nat
program = tt

abbrev ana : User
ana = record {
  tenant_id = 1;
  department_id = none;
  claims = ("sub", "ana@x.io") ∷ ("role", "analyst") ∷ [];
}

abbrev root : User
root = record {
  tenant_id = 1;
  department_id = none;
  claims = ("sub", "root@x.io") ∷ ("role", "admin") ∷ [];
}

abbrev empty : Db
empty = record { approvals = []; data_changes = []; activities = [] }

abbrev tick : ℕ → ℕ → ℕ
tick start n = start + n

abbrev query : Text
query = codes "SELECT 1"

abbrev asked : QueryApproval
asked = record {
  id = 7;
  tenant_id = 1;
  requester_email = "ana@x.io";
  requester_role = "analyst";
  source_id = 3;
  sql = query;
  risk_score = 85;
  risk_level = "CRITICAL";
  status = "pending";
  approval_token = none;
  approver_email = none;
  approver_note = none;
  created_at = 100;
  updated_at = 101;
  expires_at = none;
}

abbrev one_request : Db
one_request = record empty { approvals = asked ∷ [] }

creates :
    create_approval_request (tick 100) 7 1 ana 3 query 850 "CRITICAL" empty ≡ (asked, one_request)
unfolding program
creates = refl

-- An admin cannot decide a request of their own, and nobody but an admin can decide.
refuses_self :
    approve_request
      (tick 200)
      "tok"
      7
      none
      (record root { claims = ("sub", "ana@x.io") ∷ ("role", "admin") ∷ [] })
      one_request
    ≡ http 403 "You cannot approve your own request."
unfolding program
refuses_self = refl

refuses_analyst :
    approve_request (tick 200) "tok" 7 none ana one_request ≡ http 403 "Admin access required"
unfolding program
refuses_analyst = refl

abbrev granted_row : QueryApproval
granted_row = record asked {
  status = "approved";
  approver_email = some "root@x.io";
  approval_token = some "tok";
  expires_at = some 86_400_000_200;
  updated_at = 201;
}

abbrev granted_db : Db
granted_db = record empty { approvals = granted_row ∷ [] }

abbrev used_row : QueryApproval
used_row = record granted_row { status = "used"; updated_at = 301 }

validates :
    validate_approval_token (tick 300) 1 (codes " SELECT 1 ") "tok" granted_db
    ≡ ok (used_row, record empty { approvals = used_row ∷ [] })
unfolding program
validates = refl

expires :
    validate_approval_token (tick 90_000_000_000) 1 query "tok" granted_db
    ≡ http 403 "Approval token has expired."
unfolding program
expires = refl

empty-IsValid : IsValid empty
empty-IsValid = record { distinct = tt; guarded = tt }

made : Reach empty one_request
made = next here (created (tick 100) 7 1 ana 3 query 850 "CRITICAL" tt (ap (λ p. p.1) creates))

Reach-IsValid_example : IsValid one_request
Reach-IsValid_example = Reach-IsValid made empty-IsValid

Reach-EvolvesAll_example : EvolvesAll empty.approvals one_request.approvals
Reach-EvolvesAll_example = Reach-EvolvesAll made empty-IsValid

validate_once_example :
    validate_approval_token (tick 400) 1 query "tok" (record empty { approvals = used_row ∷ [] })
    ≡ http 403 "Invalid or already-used approval token."
validate_once_example =
    validate_once (tick 300) (tick 400) 1 (codes " SELECT 1 ") query "tok" granted_db
      (record empty { approvals = used_row ∷ [] }) used_row (tt, tt) (tt, tt) validates

list_my_approvals_example :
    All (IsOwn ana) (list_my_approvals ana granted_db)
    × (length (list_my_approvals ana granted_db) ≤ 100)
    × IsNewestFirst (list_my_approvals ana granted_db)
list_my_approvals_example = list_my_approvals_lem ana granted_db

request_approve_execute_example :
    (row : QueryApproval) × (db' : Db) × (request_approve_execute
        (tick 100)
        (tick 200)
        (tick 300)
        7
        3
        query
        850
        "CRITICAL"
        "tok"
        none
        ana
        root
        (codes " SELECT 1 ")
        empty
      ≡ ok (row, db'))
    × (row.status ≡ "used")
    × (row.requester_email ≡ sub ana)
    × (row.approver_email ≡ some (sub root))
unfolding program
request_approve_execute_example =
    request_approve_execute_total (tick 100) (tick 200) (tick 300) 7 3 query 850 "CRITICAL" "tok"
      none ana root (codes " SELECT 1 ") empty tt tt refl refl
      (ground (arith, eq_iff "ana@x.io" "root@x.io")) (omega arith) refl
