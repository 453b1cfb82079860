-- ===== src/Gate.antt =====
-- The approval gate of a query. Models step 5 of execute_query_endpoint in
-- backend/app/api/query.py; what the query writes and the risk come from the steps before.
pub mod Safety
mod Tests
use metasight.Prelude.{
  List, Option, String, Text, [], if◌then◌else◌, nat_eq, none, some, string_eq, text_eq, ℕ, ◌==◌,
  ◌∷◌,
}
use metasight.Http.{HttpError, ok, raise}
use metasight.Identity.{User, sub}
use metasight.Risk.{RiskScore}
use metasight.Approval.{Db, create_approval_request, validate_approval_token}

-- Why a query is stopped: an HTTPException, or that of status 403 whose detail holds the risk and
-- the key of the request that was created.

pub data Refusal : Type 0 where
  http_error : HttpError → Refusal
  approval_required : (risk : RiskScore) (approval_request_id : ℕ) → Refusal

-- The warnings that the step adds to a query that goes on.
pub data Passage : Type 0 where
  goes_on : (warnings : List String) → Passage
  stopped : Refusal → Passage

-- `if req.approval_token:`.
abbrev pub given_token : Option String → Option String
given_token none = none
given_token (some token) = if token == "" then none else some token

-- The branch with a token: it is consumed first, and then the requester is compared.
unfoldable pub use_token : (ℕ → ℕ) → User → Text → String → Db → Passage × Db
use_token clock user sql token db =
    elim (validate_approval_token clock user.tenant_id sql token db) [
      | raise e ↦ (stopped (http_error e), db)
      | ok (approval, db') ↦
          if approval.requester_email == sub user
          then (goes_on ("Query executed under admin-approved token." ∷ []), db')
          else (
            stopped (
                http_error (record {
                  status_code = 403;
                  detail = "Only the original requester may execute this approved query.";
                })),
            db',
          )
    ]

-- `id` is the key that the database gives a new row.
unfoldable pub approval_gate :
    (ℕ → ℕ) → ℕ → User → ℕ → Text → RiskScore → Option String → Db → Passage × Db
approval_gate clock id user source_id sql risk approval_token db =
    if risk.level == "CRITICAL"
    then elim (given_token approval_token) [
      | some token ↦ use_token clock user sql token db
      | none ↦
          (let (approval, db') =
              create_approval_request clock id user.tenant_id user source_id sql risk.score
                risk.level db in
            (stopped (approval_required risk approval.id), db'))
    ]
    else (goes_on [], db)
