-- ===== src/Execute/Safe.antt =====
-- What an answered SQL query has passed.
-- About execute_query_endpoint of backend/app/api/query.py.
mod Tests
use metasight.Prelude.{
  Bool, List, String, Text, first, nat_eq, some, string_eq, text_eq, ℕ, ◌≡◌, ◌≢◌, ◌⊎◌,
}
use metasight.Prelude.Dict.{Dict}
use metasight.Http.{Result, ok}
use metasight.Identity.{User, claim}
use metasight.Approval.{Db, QueryApproval, answers_token}
use metasight.Masking.{Cell}
use metasight.Policy.{PolicyDecision, ok}
use metasight.Policy.Cache.{Redis}
use metasight.Policy.Decide.{PolicyDb}
use metasight.Risk.{RewriteMeta, RiskScore}
use metasight.Gate.{given_token}
use metasight.Gate.Safety.{Pays}
use metasight.Tokenization.{Cipher, TokenizationService, value_error}
use metasight.Sql.{columns}
use metasight.Hardening.Cleaning.{Sqlglot, value_error}
use metasight.Execute.{result_rows}
use metasight.Execute.Sql.{ExecuteRequest, ExecuteResponse, level_for}

module _ (redis : Redis) (ilike : String → String → Bool) (sqlglot : Sqlglot) (cipher : Cipher)
    (fresh : ℕ → String) (string_of : Text → String) (tie : ℕ → Bool)
    (driver : Text → Result (List String × List (List Cell))) (clock : ℕ → ℕ) (id : ℕ)
    (pdb : PolicyDb) (user : User) (req : ExecuteRequest) where
  open redis use {Store}

  -- The risk was not critical, or it was paid for with an approved request of the user's own.
  abbrev pub Passed : RiskScore → Db → Type 0
  Passed risk approvals =
      (risk.level ≢ "CRITICAL")
      ⊎ ((token : String) × (a : QueryApproval) × (given_token req.approval_token ≡ some token)
          × (first (answers_token user.tenant_id token) approvals.approvals ≡ some a)
          × Pays (clock 0) user req.sql a)

  -- The driver ran the text of the answer, and the rows of the answer are made of those that it gave.
  abbrev pub Ran :
      Dict PolicyDecision → RewriteMeta → TokenizationService → ExecuteResponse → Type 0
  Ran found meta tokens r =
      (raw : List (List Cell)) × (driver r.rewritten_sql ≡ ok (r.columns, raw))
      × (r.rows
          ≡ (result_rows cipher fresh string_of meta found req.bypass_masking
              (claim user "role" "analyst") (level_for pdb user) r.columns raw tokens).0)
