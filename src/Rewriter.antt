-- ===== src/Rewriter.antt =====
-- The public methods of SQLRewriter and the guard before them: models
-- backend/app/rewriters/sql_rewriter.py, and verify_no_column_leak of hardening.py, over sqlglot.
pub mod Stripped
pub mod Safe
pub mod Guard
mod Tests
use metasight.Prelude.{
  Bool, List, Option, String, Text, [], elem, false, if◌then◌else◌, is_some, keep, leb, length,
  lower_string, map, nat_eq, none, not, some, string_eq, text_eq, true, ℕ, ◌&&◌, ◌++◌, ◌+◌, ◌<>◌,
  ◌==◌, ◌∷◌,
}
use metasight.Prelude.Dict.{Dict, keys}
use metasight.Policy.{PolicyDecision}
use metasight.Risk.{RewriteMeta}
use metasight.Sql.{
  Children, ColumnRef, Expr, Kind, alias_, child, children, columns, cte, depth_in, end, find_all,
  get, into, is_select, items, kind, node, null, other, select, set_op, table, this_of,
}
use metasight.Rewrite.{Policy}
use metasight.Rewrite.Nested.{note_node, rewrite_node}
use metasight.Hardening.{
  all_denied, block_scalar_subquery_leakage, check_lateral_joins, inference_warnings, is_with,
  note_union_tree, rewrite_union_tree, strip_inference_bypass,
}
use metasight.Hardening.Patterns.{blocked_pattern, found}
use metasight.Hardening.Cleaning.{
  Checked, Sqlglot, done, harden_sql, value_error, value_error_if, ◌>>=◌, ◌>>◌,
}

-- `_BLOCKED_TYPES`, by the names of the classes.
abbrev pub blocked_types : List String
blocked_types =
    "Insert" ∷ "Update" ∷ "Delete" ∷ "Create" ∷ "Drop" ∷ "Alter" ∷ "Grant" ∷ "Revoke" ∷ "Use"
    ∷ "TruncateTable" ∷ []

unfoldable pub is_blocked : Kind → Bool
is_blocked (other cls) = elem cls blocked_types
is_blocked _ = false

abbrev pub is_into : Kind → Bool
is_into into = true
is_into _ = false

abbrev pub is_table : Kind → Bool
is_table (table n a) = true
is_table _ = false

-- The loop of `_guard_sql` over the statements.
unfoldable pub guard_statements : List (Option Expr) → Checked (Unit {0})
unfolding is_blocked
guard_statements [] = done tt
guard_statements (none ∷ stmts) = guard_statements stmts
guard_statements (some stmt ∷ stmts) =
    let rest = guard_statements stmts in
    if is_blocked (kind stmt)
    then value_error "Query blocked: statements of this kind are not allowed."
    else if leb 1 (length (find_all is_into stmt))
    then value_error "Query blocked: 'SELECT ... INTO' (table-creating SELECT) is not allowed."
    else rest

unfoldable pub names_of_tables : List Expr → List String
names_of_tables [] = []
names_of_tables (node (table name a) cs ∷ es) =
    if name == "" then names_of_tables es else name ∷ names_of_tables es
names_of_tables (e ∷ es) = names_of_tables es

-- `list(dict.fromkeys(names))`, where `seen` are the names before.
unfoldable pub deduplicated : List String → List String → List String
deduplicated seen [] = []
deduplicated seen (n ∷ names) =
    let again = deduplicated seen names in
    let fresh_name = n ∷ deduplicated (n ∷ seen) names in if elem n seen then again else fresh_name

-- The names of the common table expressions, in lower case.
unfoldable pub cte_names : List Expr → List String
cte_names [] = []
cte_names (node (cte a) cs ∷ es) = if a == "" then cte_names es else lower_string a ∷ cte_names es
cte_names (e ∷ es) = cte_names es

unfoldable pub all_cte_names : List Expr → List String
unfolding cte_names
all_cte_names [] = []
all_cte_names (w ∷ withs) = cte_names (items (children w)) ++ all_cte_names withs

abbrev is_null_item : Expr → Bool
is_null_item (node null cs) = true
is_null_item (node (alias_ a) (child key (node null cs) end)) = true
is_null_item _ = false

-- `getattr(parent_from.this, "name", "")`.
abbrev from_name : Children → String
from_name cs = elim (get "from_" cs) [
  | none ↦ ""
  | some from_ ↦ elim (this_of from_) [
    | none ↦ ""
    | some e ↦ elim (kind e) [ table name a ↦ lower_string name | _ ↦ "" ]
  ]
]

-- Whether the body of the innermost loop warns of a column.
unfoldable pub is_leak : List String → List String → Children → ColumnRef → Bool
is_leak denied ctes cs ref =
    elem ref.name denied
    && not (not (ref.table == "") && elem (lower_string ref.table) ctes)
    && not (ref.table == "" && is_some (get "from_" cs) && elem (from_name cs) ctes)

unfoldable pub leaks_of : List String → List String → Children → List Expr → List String
unfolding is_leak
leaks_of denied ctes cs [] = []
leaks_of denied ctes cs (proj ∷ projs) =
    let rest = leaks_of denied ctes cs projs in
    if is_null_item proj
    then rest
    else map (λ ref. ref.name) (keep (is_leak denied ctes cs) (columns proj)) ++ rest

unfoldable pub leaks_of_selects : List String → List String → List Expr → List String
unfolding leaks_of
leaks_of_selects denied ctes [] = []
leaks_of_selects denied ctes (s ∷ selects) =
    leaks_of denied ctes (children s) (items (children s)) ++ leaks_of_selects denied ctes selects

unfoldable pub leak_warnings : List String → List String
leak_warnings [] = []
leak_warnings (name ∷ names) =
    ("POST-REWRITE LEAK DETECTED: denied column '" <> name <> "' appears in rewritten projection")
    ∷ leak_warnings names

-- The decisions with an identity for each, as the objects have.
unfoldable pub identified : ℕ → Dict PolicyDecision → Dict Policy
identified n [] = []
identified n ((name, decision) ∷ policies) =
    (name, record { ident = n; decision = decision }) ∷ identified (n + 1) policies

abbrev pub extend_warnings : List String → RewriteMeta → RewriteMeta
extend_warnings found_ meta = record meta { warnings = meta.warnings ++ found_ }

abbrev pub blank_meta : List String → RewriteMeta
blank_meta tables = record {
  masked_columns = [];
  tokenized_columns = [];
  denied_columns = [];
  row_filter_applied = false;
  tables_affected = tables;
  warnings = [];
}

-- The tree of a query that is a set operation or a Select, rewritten, with its report.
unfoldable pub rewrite_tree :
    Expr → Dict Policy → RewriteMeta → String → Checked (Expr × RewriteMeta)
unfolding rewrite_union_tree note_union_tree rewrite_node note_node strip_inference_bypass
    inference_warnings check_lateral_joins block_scalar_subquery_leakage
rewrite_tree (node (set_op op) cs) policies meta dialect =
    let f = depth_in cs in
    done (
      rewrite_union_tree (rewrite_node dialect policies f) (node (set_op op) cs),
      note_union_tree (note_node dialect policies f) (node (set_op op) cs) meta,
    )
rewrite_tree (node select cs) policies meta dialect =
    let f = depth_in cs in
    let audited =
      extend_warnings (block_scalar_subquery_leakage cs policies)
        (extend_warnings (check_lateral_joins cs) meta) in
    let rewritten_cs = rewrite_node dialect policies f cs in
    let noted = note_node dialect policies f cs audited in
    done (
      node select (strip_inference_bypass policies rewritten_cs),
      extend_warnings (inference_warnings policies rewritten_cs) noted,
    )
rewrite_tree tree policies meta dialect = value_error "Only SELECT statements are allowed."

module _ (sqlglot : Sqlglot) where
  -- `_guard_sql`.
  unfoldable pub guard_sql : Text → Checked (Unit {0})
  unfolding guard_statements found
  guard_sql sql = do
    value_error_if (found blocked_pattern sql)
        "Query blocked: DDL/DML/dangerous statements are not allowed."
    elim (sqlglot.parse sql) [ none ↦ done tt | some stmts ↦ guard_statements stmts ]

  unfoldable pub get_tables : Text → List String
  unfolding names_of_tables deduplicated
  get_tables sql = elim (sqlglot.parse_one sql) [
    | none ↦ []
    | some tree ↦ deduplicated [] (names_of_tables (find_all is_table tree))
  ]

  unfoldable pub verify_no_column_leak : Text → Dict Policy → List String
  unfolding all_denied leak_warnings leaks_of_selects all_cte_names
  verify_no_column_leak sql table_policies = elim (sqlglot.parse_one sql) [
    | none ↦ []
    | some tree ↦ leak_warnings (
        leaks_of_selects (all_denied table_policies) (all_cte_names (find_all is_with tree))
          (find_all is_select tree))
  ]

  -- The steps after the guards, once the text was parsed.
  unfoldable pub rewrite_parsed : Option Expr → Dict Policy → String → Checked (Text × RewriteMeta)
  unfolding rewrite_tree verify_no_column_leak
  rewrite_parsed none policies dialect = value_error "Cannot parse SQL"
  rewrite_parsed (some tree) policies dialect = do
    result ← rewrite_tree tree policies (blank_meta (keys policies)) dialect
    let rewritten_sql = sqlglot.to_sql result.0 dialect
    done (rewritten_sql, extend_warnings (verify_no_column_leak rewritten_sql policies) result.1)

  unfoldable pub rewrite_identified : Text → Dict Policy → String → Checked (Text × RewriteMeta)
  unfolding harden_sql guard_sql rewrite_parsed
  rewrite_identified sql policies dialect = do
    hardened ← harden_sql sqlglot sql
    guard_sql hardened
    rewrite_parsed (sqlglot.parse_one hardened) policies dialect

  unfoldable pub rewrite_with_meta :
      Text → Dict PolicyDecision → String → Checked (Text × RewriteMeta)
  unfolding rewrite_identified identified
  rewrite_with_meta sql table_policies dialect =
      rewrite_identified sql (identified 0 table_policies) dialect
