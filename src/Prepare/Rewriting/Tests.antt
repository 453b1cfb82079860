-- ===== src/Prepare/Rewriting/Tests.antt =====
-- A run of the gateway's decision with the rewriter (backend/app/services/gateway_prepare.py,
-- backend/app/rewriters/sql_rewriter.py).
use metasight.Prelude.{List, [], codes, nat_eq, none, some, string_eq, text_eq, true, ◌∷◌}
use metasight.Prelude.Dict.{Dict}
use metasight.Http.{Result, ok}
use metasight.Policy.{PolicyDecision, ok}
use metasight.Policy.Samples.{analyst, memory, monday, no_match}
use metasight.Prepare.Samples.{one_statement, with_secret}
use metasight.Prepare.{DataSource, PrepareResponse, prepare, rewritten_sql, sql}
use metasight.Prepare.Rewriting.{sql_rewriter}

abbrev sources : List DataSource
sources = record { id = 4; source_type = "postgres" } ∷ []

abbrev run : Result (PrepareResponse × Dict PolicyDecision)
run =
    prepare memory no_match (sql_rewriter one_statement) monday with_secret sources 1 analyst 4
      (sql (codes "SELECT")) []

abbrev answer : PrepareResponse
answer = record {
  allowed = true;
  reason = none;
  rewritten_query = some (rewritten_sql (codes "1"));
  tables = "orders" ∷ [];
  denied_columns = "ssn" ∷ [];
  masked_columns = "email" ∷ [];
  column_pii_map = ("ssn", some "EMAIL") ∷ ("email", some "EMAIL") ∷ [];
  masking_level = "full";
  policy_classification = some "PII";
}
