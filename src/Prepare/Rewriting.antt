-- ===== src/Prepare/Rewriting.antt =====
-- The gateway's decision with the rewriter of backend/app/rewriters/sql_rewriter.py in it, as
-- backend/app/services/gateway_prepare.py makes it.
mod Tests
use metasight.Prelude.{
  Bool, Bool-cases, Option, String, arith, eq_iff, inl, inr, nat_eq, none, some, string_eq, text_eq,
  ℕ, ◌==◌, ◌≡◌,
}
use metasight.Prelude.Dict.{Dict, insert, lookup, lookup-insert}
use metasight.Http.{ok}
use metasight.Identity.{User}
use metasight.Policy.{Outcome, PolicyDecision, ok, permission_error}
use metasight.Policy.Schedule.{Now}
use metasight.Policy.Cache.{Redis}
use metasight.Policy.Decide.{PolicyDb}
use metasight.Rewriter.{get_tables, guard_sql, rewrite_with_meta}
use metasight.Hardening.Cleaning.{Checked, Sqlglot, done, value_error}
use metasight.Prepare.{SqlRewriter}
use metasight.Prepare.Allowed.{Cleared}

-- `str(exc)` of a ValueError, if there is one.
unfoldable pub error_text {ℓ} : {A : Type ℓ} → Checked A → Option String
error_text (done a) = none
error_text (value_error message) = some message

unfoldable pub outcome_of {ℓ} : {A : Type ℓ} → Checked A → Outcome A
outcome_of (done a) = ok a
outcome_of (value_error message) = permission_error message

-- `_sql_rewriter` and `_guard_sql`.
abbrev pub sql_rewriter : Sqlglot → SqlRewriter
sql_rewriter sqlglot = record {
  guard_sql = λ statement. error_text (guard_sql sqlglot statement);
  get_tables = λ statement. get_tables sqlglot statement;
  rewrite_with_meta =
      λ statement found dialect. outcome_of (rewrite_with_meta sqlglot statement found dialect);
}

module _ (redis : Redis) (ilike : String → String → Bool) (now : Now) (db : PolicyDb)
    (tenant_id : ℕ) (user : User) (source_type : String) (source_id : ℕ) where
  open redis use {Store}

  -- The decision on a table that the rewriter is handed is the engine's, and allows the table.
  abbrev pub Handed : Dict PolicyDecision → String → Type 0
  Handed found table =
      (d : PolicyDecision) × (lookup table found ≡ some d)
      × Cleared redis ilike now db tenant_id user source_type source_id table d

  pub insert-Handed :
      (found : Dict PolicyDecision) (table other : String) (d : PolicyDecision)
      → Cleared redis ilike now db tenant_id user source_type source_id table d
      → Handed found other
      → Handed (insert table d found) other
  insert-Handed found table other d cleared (e, known, decided) =
      elim (Bool-cases (table == other)) [
        | inl same ↦
            let name : table ≡ other = ground (arith, eq_iff table other) in
            (d, ground (arith, lookup-insert table other d found), rw (← name) cleared)
        | inr apart ↦ (e, ground (arith, lookup-insert table other d found), decided)
      ]
