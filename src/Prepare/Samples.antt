-- ===== src/Prepare/Samples.antt =====
-- A query of one table with a denied and a masked column, for runs of the gateway
-- (backend/app/services/gateway_prepare.py, backend/app/api/query.py).
use metasight.Prelude.{Option, String, [], codes, length, none, show_nat, some, true, ◌∷◌}
use metasight.Policy.{ColumnEntity, PolicyDecision}
use metasight.Policy.Decide.{PolicyDb}
use metasight.Policy.Samples.{by_rule_decision, database, shared}
use metasight.Sql.{Expr, child, columns, end, item, node, other, select, table}
use metasight.Rewrite.{column_expr}
use metasight.Hardening.Cleaning.{Sqlglot}

abbrev pub orders_column : String → Option String → ColumnEntity
orders_column name action = record {
  name = name;
  pii_type = some "EMAIL";
  classification = some "PII";
  action = action;
  table_id = 6;
  tenant_id = 1;
}

abbrev pub with_secret : PolicyDb
with_secret = record (database [] (shared ∷ [])) {
  columns = orders_column "ssn" (some "deny") ∷ orders_column "email" none ∷ [];
}

-- SELECT ssn, email FROM orders
abbrev pub statement_tree : Expr
statement_tree = node select (
    item (column_expr "" "ssn") (
      item (column_expr "" "email") (
        child "from_" (node (other "From") (child "this" (node (table "orders" "") end) end)) end)))

abbrev pub one_statement : Sqlglot
one_statement = record {
  nfkc = λ t. t;
  parse = λ t. some (some statement_tree ∷ []);
  parse_one = λ t. some statement_tree;
  to_sql = λ e d. codes (show_nat (length (columns e)));
}

abbrev pub decided : PolicyDecision
decided = record by_rule_decision {
  policy_id = none;
  source_type = "postgres";
  auto_policy = true;
  column_pii_map = ("ssn", some "EMAIL") ∷ ("email", some "EMAIL") ∷ [];
  known_columns = "ssn" ∷ "email" ∷ [];
  active_tag_policies = [];
}
