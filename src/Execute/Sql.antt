-- ===== src/Execute/Sql.antt =====
-- The whole course of an SQL query: models execute_query_endpoint of backend/app/api/query.py for the
-- sources that take SQL, and _resolve_table_policies. The driver is a parameter, with the status that its
-- errors are answered with, and its row count is that of its rows; the rows written about a blocked query and the audit row are left out.
use metasight.Prelude.{
  Bool, List, Option, String, Text, [], if◌then◌else◌, length, nat_eq, some, string_eq, text_eq, ℕ,
  ◌&&◌, ◌++◌, ◌<>◌, ◌==◌, ◌∷◌,
}
use metasight.Prelude.Dict.{Dict, insert}
use metasight.Http.{Result, http, ok, raise}
use metasight.Identity.{User, claim}
use metasight.Approval.{Db}
use metasight.Json.{section}
use metasight.Settings.{get_settings}
use metasight.Masking.{Cell, masking_level_for_role}
use metasight.Policy.{PolicyDecision, ok, permission_error}
use metasight.Policy.Schedule.{Now}
use metasight.Policy.Cache.{Redis}
use metasight.Policy.Decide.{PolicyDb, decide}
use metasight.Risk.{RewriteMeta, RiskScore, score_query}
use metasight.Gate.{Refusal, approval_gate, goes_on, http_error, stopped}
use metasight.Tokenization.{Cipher, TokenizationService, permission_error, value_error}
use metasight.Hardening.Cleaning.{Sqlglot, done, value_error}
use metasight.Rewriter.{get_tables, guard_sql, rewrite_with_meta}
use metasight.Prepare.{role_levels_of}
use metasight.Prepare.Dialect.{get_dialect}
use metasight.Execute.{result_rows}

pub record ExecuteRequest : Type 0 where
  pub source_id : ℕ
  pub sql : Text
  pub approval_token : Option String
  pub bypass_masking : Bool

pub record ExecuteResponse : Type 0 where
  pub columns : List String
  pub rows : List (List Cell)
  pub rewritten_sql : Text
  pub warnings : List String
  pub risk : RiskScore
  pub masking_level : String

pub data Execution : Type 0 where
  answered : ExecuteResponse → Execution
  refused : Refusal → Execution

-- The cache of decisions, the rows of the approval workflow, and the service for tokens.
pub record ExecState (S : Type 0) : Type 0 where
  pub cache : S
  pub approvals : Db
  pub tokens : TokenizationService

abbrev pub unexplained : String → PolicyDecision → List String
unexplained table_name d =
    if d.auto_policy && length d.masked_columns == 0 && length d.denied_columns == 0
    then ("No explicit policy for '" <> table_name <> "'. Allowing through with audit.") ∷ []
    else []

-- `masking_level_for_role(user_role, role_levels)`.
abbrev pub level_for : PolicyDb → User → String
level_for pdb user =
    masking_level_for_role (claim user "role" "analyst")
      (role_levels_of (section "masking" (get_settings user.tenant_id pdb.system_settings)))

module _ (redis : Redis) (ilike : String → String → Bool) (sqlglot : Sqlglot) (cipher : Cipher)
    (fresh : ℕ → String) (string_of : Text → String) (tie : ℕ → Bool)
    (driver : Text → Result (List String × List (List Cell))) where
  open redis use {Store}

  -- The loop of `_resolve_table_policies`.
  unfoldable pub resolve_loop :
      Now
      → PolicyDb
      → User
      → String
      → ℕ
      → List String
      → Dict PolicyDecision
      → List String
      → Store
      → Result (Dict PolicyDecision × List String) × Store
  resolve_loop now pdb user source_type source_id [] found warnings s = (ok (found, warnings), s)
  resolve_loop now pdb user source_type source_id (table_name ∷ tables) found warnings s =
      let (outcome, s') =
        decide redis ilike now pdb user.tenant_id table_name user source_type (some source_id) s in
      elim outcome [
        | permission_error message ↦ (http 403 message, s')
        | ok d ↦
            (let rest =
                resolve_loop now pdb user source_type source_id tables (insert table_name d found)
                  (warnings ++ unexplained table_name d) s' in
              if d.allowed
              then rest
              else (http 403 ("Access denied to resource '" <> table_name <> "'."), s'))
      ]

  unfoldable pub resolve_table_policies :
      Now
      → PolicyDb
      → User
      → String
      → ExecuteRequest
      → Store
      → Result (Dict PolicyDecision × List String) × Store
  unfolding resolve_loop
  resolve_table_policies now pdb user source_type req s = elim (get_tables sqlglot req.sql) [
    | [] ↦ (http 422 "Could not extract table name from SQL.", s)
    | t ∷ ts ↦ resolve_loop now pdb user source_type req.source_id (t ∷ ts) [] [] s
  ]

  -- Steps 6 and 7.
  unfoldable pub run_query :
      PolicyDb
      → User
      → ExecuteRequest
      → Dict PolicyDecision
      → Text
      → RewriteMeta
      → List String
      → ExecState Store
      → Execution × ExecState Store
  unfolding result_rows
  run_query pdb user req found statement meta warnings st =
      let mask_level = level_for pdb user in
      elim (driver statement) [
        | raise e ↦ (refused (http_error e), st)
        | ok (columns, rows) ↦
            (let (processed, tokens) =
                result_rows cipher fresh string_of meta found req.bypass_masking
                  (claim user "role" "analyst") mask_level columns rows st.tokens in
              (
                answered (record {
                  columns = columns;
                  rows = processed;
                  rewritten_sql = statement;
                  warnings = warnings;
                  risk = score_query tie meta found (length rows);
                  masking_level = mask_level;
                }),
                record st { tokens = tokens },
              ))
      ]

  -- Step 5, and what follows when the query goes on.
  unfoldable pub gate_and_run :
      (ℕ → ℕ)
      → ℕ
      → PolicyDb
      → User
      → ExecuteRequest
      → Dict PolicyDecision
      → Text
      → RewriteMeta
      → List String
      → ExecState Store
      → Execution × ExecState Store
  unfolding run_query approval_gate
  gate_and_run clock id pdb user req found statement meta warnings st =
      let (passage, approvals) =
        approval_gate clock id user req.source_id req.sql (score_query tie meta found 0)
          req.approval_token st.approvals in
      let st' = record st { approvals = approvals } in
      elim passage [
        | stopped refusal ↦ (refused refusal, st')
        | goes_on more ↦ run_query pdb user req found statement meta (warnings ++ more) st'
      ]

  unfoldable pub execute_sql :
      (ℕ → ℕ)
      → ℕ
      → Now
      → PolicyDb
      → User
      → String
      → ExecuteRequest
      → ExecState Store
      → Execution × ExecState Store
  unfolding guard_sql resolve_table_policies rewrite_with_meta gate_and_run
  execute_sql clock id now pdb user source_type req st = elim (guard_sql sqlglot req.sql) [
    | value_error message ↦
        (refused (http_error (record { status_code = 422; detail = message })), st)
    | done _ ↦
        (let (resolved, cache) = resolve_table_policies now pdb user source_type req st.cache in
          let st' = record st { cache = cache } in
          elim resolved [
            | raise e ↦ (refused (http_error e), st')
            | ok (found, warnings) ↦
                elim (rewrite_with_meta sqlglot req.sql found (get_dialect source_type)) [
                  | value_error message ↦
                      (refused (http_error (record { status_code = 422; detail = message })), st')
                  | done (statement, meta) ↦
                      gate_and_run clock id pdb user req found statement meta
                        (warnings ++ meta.warnings) st'
                ]
          ])
  ]
