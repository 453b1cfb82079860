-- ===== src/Rewriter/Tests.antt =====
-- Runs of the rewriter on one query (backend/app/rewriters/sql_rewriter.py).
use metasight.Prelude.{
  All, Bool, List, Option, String, Text, [], arith, codes, elem, false, length, lower_string, map,
  nat_eq, refl, show_nat, some, string_eq, text_beq, text_eq, true, ◌&&◌, ◌+◌, ◌||◌, ◌∷◌, ◌≡◌, ◌⊎◌,
}
use metasight.Prelude.Dict.{Dict, insert, lookup}
use metasight.Policy.{PolicyDecision}
use metasight.Risk.{RewriteMeta}
use metasight.Sql.{
  Children, Expr, child, children, columns, depth, depth_in, end, find_all, get, item, items,
  literal, node, other, remove_child, select, set_child, set_op, subquery, table,
}
use metasight.Rewrite.{Policy, all_known, allow, build_alias_map, column_expr, deny, resolve_action}
use metasight.Hardening.Cleaning.{Checked, Sqlglot, done, harden_sql, strip_sql_comments}
use metasight.Rewriter.{blank_meta, rewrite_with_meta}
use metasight.Rewrite.Everywhere.{SafeTree, rewrite_node_safe}
use metasight.Rewrite.Filters.{
  all_filters, binary, build_condition, condition_of, fresh, inject_row_filters_multi, where_expr,
}
use metasight.Rewrite.Fuel.{rewrite_node_stable}
use metasight.Rewrite.Nested.{rewrite_node}
use metasight.Rewrite.Projections.{note_projections, rewrite_projections}
use metasight.Rewrite.Reported.{Reported, rewrite_projections-Reported}
use metasight.Rewrite.SelfJoin.{self_join_lem, under_aliases}
use metasight.Rewrite.Kept.{Covered}
use metasight.Rewrite.Where.{earlier, final, inject_row_filters_lem, passes}
use metasight.Rewrite.Printed.{all_hold, alternatives}
use metasight.Rewrite.Conditions.{Says, literals}
use metasight.Hardening.{
  all_denied, collect_select_branches, rewrite_union_tree, strip_inference_bypass,
}
use metasight.Hardening.Branches.{frame, rewrite_union_tree_lem}
use metasight.Hardening.Inference.{FreeHaving, FreeOrder, strip_inference_bypass-Free}
use metasight.Hardening.Patterns.{blocked_pattern, exfil_patterns, found}
use metasight.Rewriter.Guard.{ReadsOnly, rewrite_with_meta-ReadsOnly}

abbrev profiles_decision : PolicyDecision
profiles_decision = record {
  resource = "profiles";
  allowed = true;
  denied_columns = "ssn" ∷ [];
  masked_columns = "email" ∷ [];
  tokenized_columns = [];
  row_filter_conditions = record { column = "region"; operator = "="; value = codes "EU" } ∷ [];
  policy_id = some 1;
  classification = "PII";
  is_admin_exempt = false;
  source_type = "postgres";
  auto_policy = false;
  column_pii_map = ("email", some "email") ∷ [];
  known_columns = "id" ∷ "ssn" ∷ "email" ∷ [];
  column_masking_type_map = [];
  active_tag_policies = [];
  active_field_policies = [];
}

abbrev decisions : Dict PolicyDecision
decisions = ("profiles", profiles_decision) ∷ []

abbrev from_profiles : String → Expr
from_profiles a = node (other "From") (child "this" (node (table "profiles" a) end) end)

-- SELECT p.SSN, p.email, UPPER(p.email), p.id FROM profiles p ORDER BY p.ssn
abbrev query : Children
query = item (column_expr "p" "SSN") (
    item (column_expr "p" "email") (
      item (node (other "Upper") (child "this" (column_expr "p" "email") end)) (
        item (column_expr "p" "id") (
          child "from_" (from_profiles "p") (
            child "order"
              (node (other "Order")
                (item (node (other "Ordered") (child "this" (column_expr "p" "ssn") end)) end))
              end)))))

abbrev reading : Children → Sqlglot
reading cs = record {
  nfkc = λ t. t;
  parse = λ t. some (some (node select cs) ∷ []);
  parse_one = λ t. some (node select cs);
  to_sql = λ e d. codes (show_nat (length (columns e)));
}

abbrev answer : Checked (Text × RewriteMeta)
answer = rewrite_with_meta (reading query) (codes "SELECT 1--x") decisions "postgres"

abbrev report : RewriteMeta
report = record {
  masked_columns = ("email", some "email") ∷ [];
  tokenized_columns = [];
  denied_columns = "SSN" ∷ "email" ∷ [];
  row_filter_applied = true;
  tables_affected = "profiles" ∷ [];
  warnings =
      "Expression containing masked column 'email' was suppressed to prevent function leakage"
      ∷ "ORDER BY: removed references to denied column(s): ['ssn']" ∷ [];
}

-- The names of other columns, and the function of a masked one, are gone; the row filter has come.
answer_run : answer ≡ done (codes "3", report)
unfolding rewrite_with_meta find_all show_nat columns lookup insert lower_string set_child
    remove_child resolve_action text_beq all_known
answer_run = refl

rewrite_with_meta-ReadsOnly_example :
    (hardened : Text) × (harden_sql (reading query) (codes "SELECT 1--x") ≡ done hardened)
    × (found exfil_patterns hardened ≡ false)
    × (found blocked_pattern hardened ≡ false)
    × ((stmts : List (Option Expr))
        → some (some (node select query) ∷ []) ≡ some stmts
        → All ReadsOnly stmts)
rewrite_with_meta-ReadsOnly_example =
    rewrite_with_meta-ReadsOnly (reading query) (codes "SELECT 1--x") decisions "postgres"
      {answer = (codes "3", report)} answer_run

abbrev profiles : Policy
profiles = record { ident = 0; decision = profiles_decision }

abbrev table_policies : Dict Policy
table_policies = ("profiles", profiles) ∷ []

abbrev profiles_p : Dict Policy
profiles_p = ("p", profiles) ∷ ("profiles", profiles) ∷ []

build_alias_map_run : build_alias_map query table_policies ≡ profiles_p
unfolding build_alias_map lookup insert
build_alias_map_run = refl

depth_query : depth_in query ≡ 0
unfolding depth
depth_query = refl

-- A query with a subquery in its WHERE clause.
abbrev nested_query : Children
nested_query = item (column_expr "" "id") (
    child "from_" (from_profiles "") (
      child "where"
        (node (other "Where")
          (child "this" (node (other "Exists") (child "this" (node select query) end)) end))
        end))

depth_nested : depth_in nested_query ≡ 1
unfolding depth
depth_nested = refl

rewrite_node_safe_example :
    SafeTree table_policies (node select (rewrite_node "postgres" table_policies 1 nested_query))
rewrite_node_safe_example =
    rewrite_node_safe "postgres" table_policies 1 nested_query (rw depth_nested (omega arith))

rewrite_node_stable_example :
    rewrite_node "postgres" table_policies 1 nested_query
    ≡ rewrite_node "postgres" table_policies (1 + 3) nested_query
rewrite_node_stable_example =
    rewrite_node_stable "postgres" table_policies 1 3 nested_query (rw depth_nested (omega arith))

rewrite_projections-Reported_example :
    All
      (Reported profiles_p (note_projections profiles_p query (blank_meta [])))
      (items (rewrite_projections profiles_p query))
rewrite_projections-Reported_example = rewrite_projections-Reported profiles_p query (blank_meta [])

-- ... WHERE id = '1' OR id = '2'
abbrev guarded : Children
guarded =
    set_child "where"
      (where_expr (
        binary (other "Or")
          (binary (other "EQ") (column_expr "p" "id") (node (literal (codes "1")) end))
          (binary (other "EQ") (column_expr "p" "id") (node (literal (codes "2")) end))))
      query

-- The rows with id 1, of no region.
abbrev of_id_1 : Expr → Bool
of_id_1 e = elem (codes "1") (literals (children e))

-- They get past the filter.
guarded_run :
    (passes of_id_1 (inject_row_filters_multi profiles_p guarded) ≡ true)
    × (all_hold of_id_1 (map condition_of (fresh [] (all_filters profiles_p))) ≡ false)
unfolding inject_row_filters_multi alternatives set_child build_condition lookup text_beq
guarded_run = (refl, refl)

inject_row_filters_example :
    let kept = fresh [] (all_filters profiles_p) in
    (passes of_id_1 (inject_row_filters_multi profiles_p guarded) ≡ (
      earlier of_id_1 guarded || final of_id_1 guarded && all_hold of_id_1 (map condition_of kept)))
    × (passes of_id_1 guarded ≡ (earlier of_id_1 guarded || final of_id_1 guarded))
    × All (λ f. (f.condition.column ≡ "") ⊎ Covered f kept) (all_filters profiles_p)
    × All (λ f. Says f (condition_of f)) kept
inject_row_filters_example = inject_row_filters_lem of_id_1 profiles_p guarded

self_join_example :
    map condition_of (fresh [] (all_filters (under_aliases profiles ("a" ∷ "profiles" ∷ "b" ∷ []))))
    ≡ map condition_of (fresh [] (all_filters (under_aliases profiles ("a" ∷ []))))
self_join_example = self_join_lem profiles "a" ("profiles" ∷ "b" ∷ [])

strip_inference_bypass_example :
    FreeOrder
      (all_denied table_policies)
      (get "order" (strip_inference_bypass table_policies query))
    × FreeHaving
        (all_denied table_policies)
        (get "having" (strip_inference_bypass table_policies query))
strip_inference_bypass_example = strip_inference_bypass-Free table_policies query

-- SELECT … UNION (SELECT …)
abbrev one_in_parentheses : Expr
one_in_parentheses = node (set_op "Union") (
    child "this" (node select query)
      (child "expression" (node subquery (child "this" (node select query) end)) end))

-- The second SELECT is not among those that are rewritten.
parentheses_run :
    frame (rewrite_union_tree (rewrite_node "postgres" table_policies 0) one_in_parentheses)
    ≡ node (set_op "Union") (
        child "this"
          (node select end)
          (child "expression" (node subquery (child "this" (node select query) end)) end))
unfolding frame rewrite_union_tree
parentheses_run = refl

rewrite_union_tree_example :
    (collect_select_branches
        (rewrite_union_tree (rewrite_node "postgres" table_policies 0) one_in_parentheses)
      ≡ map (rewrite_node "postgres" table_policies 0) (collect_select_branches one_in_parentheses))
    × (frame (rewrite_union_tree (rewrite_node "postgres" table_policies 0) one_in_parentheses)
        ≡ frame one_in_parentheses)
rewrite_union_tree_example =
    rewrite_union_tree_lem (rewrite_node "postgres" table_policies 0) one_in_parentheses

-- The blocked words as they are found, or not: `\b` after `\w` asks for a name of one character.
found_run :
    (found blocked_pattern (codes "drop  table t") ≡ true)
    × (found blocked_pattern (codes "UPDATE u SET a = 1") ≡ true)
    × (found blocked_pattern (codes "UPDATE users SET a = 1") ≡ false)
    × (found blocked_pattern (codes "DO $$ BEGIN END $$") ≡ false)
    × (found exfil_patterns (codes "SELECT pg_ls_dir('x')") ≡ true)
unfolding found
found_run = (refl, refl, refl, refl, refl)

strip_sql_comments_run : strip_sql_comments (codes "a--b /* c") ≡ codes "a "
unfolding strip_sql_comments
strip_sql_comments_run = refl

-- A qualifier in another case than the alias is not found, and the column is let through.
resolve_action_run :
    ((resolve_action "p" "SSN" profiles_p).0 ≡ deny)
    × ((resolve_action "P" "ssn" profiles_p).0 ≡ allow)
unfolding resolve_action lookup lower_string
resolve_action_run = (refl, refl)
