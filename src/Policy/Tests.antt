-- ===== src/Policy/Tests.antt =====
-- Runs of backend/app/services/policy_engine.py and policy_cache.py without a choice of rule, and the
-- theorems at concrete inputs.
use metasight.Prelude.{
  Bool, [], any, codes, elem, lower_code, nat_eq, none, not, refl, show_nat, some, string_eq,
  text_beq, text_eq, true, ◌&&◌, ◌==◌, ◌↔◌, ◌∷◌, ◌≡◌,
}
use metasight.Prelude.Dict.{Dict, insert, lookup, update}
use metasight.Identity.{role}
use metasight.Json.{insert_field, lookup_field, section, truthy}
use metasight.Mask.Scan.{starts_with}
use metasight.Settings.{deep_merge, get_settings, masking_enabled, merge_value}
use metasight.Policy.{PolicyDecision, ok, permission_error}
use metasight.Policy.Glob.{Matches, glob, glob_iff, has_star}
use metasight.Policy.Attributes.{
  attribute, find_claim, placeholder_name, replace, replace_from, resolve_row_filters, sub_rest,
  substitute_user_attrs, word_run,
}
use metasight.Policy.Schedule.{
  check_hours, check_schedule, check_time_restrictions, join_names, wrong_day, wrong_hour,
}
use metasight.Policy.Rule.{
  active_tags, from_rule, is_empty, is_field_rule, merge_tags, merged_policies, sort_column,
  sort_columns, sorted_policies, tag_policy,
}
use metasight.Policy.Rule.Columns.{asks, effective, from_rule_columns}
use metasight.Policy.Auto.{auto_column, auto_columns, auto_policy, escalate}
use metasight.Policy.Auto.Columns.{auto_policy_columns, is_sensitive, marked}
use metasight.Policy.Cache.{
  cache_key, delete_all, get_cached_policy, invalidate_policy_cache, set_cached_policy,
}
use metasight.Policy.Decide.{
  barred, best_rule, columns_of, decide, decide_by_rule, decide_by_scan, find_rule, find_table,
  in_source, insert_rule, longest_first, matches_wildcard, pii_map_from, same_department,
}
use metasight.Policy.Samples.{
  analyst, by_rule_decision, by_scan_decision, column, memory, monday, pii_map, remove, rule,
  sunday,
}

program : Unit {0}
unfolding glob has_star lookup insert update replace_from replace word_run placeholder_name sub_rest
    substitute_user_attrs resolve_row_filters find_claim attribute join_names wrong_day wrong_hour
    check_hours check_time_restrictions check_schedule active_tags tag_policy merge_tags
    merged_policies is_field_rule sort_column sort_columns sorted_policies from_rule escalate
    auto_column auto_columns auto_policy cache_key get_cached_policy set_cached_policy delete_all
    invalidate_policy_cache insert_rule longest_first matches_wildcard find_rule best_rule in_source
    find_table same_department barred columns_of pii_map_from decide_by_rule decide_by_scan decide
    lookup_field section truthy get_settings deep_merge merge_value insert_field masking_enabled
    starts_with show_nat text_beq lower_code
program = tt

rule_run :
    from_rule monday (rule 1 "orders") analyst ("email" ∷ "ssn" ∷ []) pii_map "table"
    ≡ ok by_rule_decision
unfolding program
rule_run = refl

scan_run :
    (by_scan_decision.masked_columns ≡ "email" ∷ "ssn" ∷ [])
    × (by_scan_decision.classification ≡ "PII")
unfolding program
scan_run = (refl, refl)

refused :
    from_rule sunday (rule 1 "orders") analyst [] [] "table"
    ≡ permission_error "Access denied: today (Sun) is not in the allowed schedule (Mon)."
unfolding program
refused = refl

substitutes :
    substitute_user_attrs (codes "a {user.email} {user.team}{user.}") analyst
    ≡ codes "a ana@x.io {user.}"
unfolding program
substitutes = refl

glob_iff_example :
    (glob (codes "Ord*") (codes "orders") ≡ true) ↔ Matches (codes "Ord*") (codes "orders")
glob_iff_example = glob_iff (codes "Ord*") (codes "orders")

from_rule_columns_example :
    (elem "ssn" by_rule_decision.denied_columns
      ≡ asks "deny"
          (role analyst)
          (effective (rule 1 "orders").column_policies ("email" ∷ "ssn" ∷ []) pii_map "ssn"))
    × (elem "ssn" by_rule_decision.masked_columns
        ≡ asks "mask"
            (role analyst)
            (effective (rule 1 "orders").column_policies ("email" ∷ "ssn" ∷ []) pii_map "ssn"))
    × (elem "ssn" by_rule_decision.tokenized_columns
        ≡ asks "tokenize"
            (role analyst)
            (effective (rule 1 "orders").column_policies ("email" ∷ "ssn" ∷ []) pii_map "ssn"))
    × (by_rule_decision.is_admin_exempt ≡ (
        is_empty by_rule_decision.denied_columns
        && is_empty by_rule_decision.masked_columns
        && is_empty by_rule_decision.tokenized_columns))
    × (check_schedule monday (rule 1 "orders").column_policies.schedule (role analyst) ≡ ok tt)
unfolding lookup
from_rule_columns_example =
    from_rule_columns monday (rule 1 "orders") analyst ("email" ∷ "ssn" ∷ []) pii_map "table"
      by_rule_decision "ssn" (refl, tt) rule_run

abbrev is_admin : Bool
is_admin = role analyst == "admin"

auto_policy_columns_example :
    (elem "ssn" by_scan_decision.denied_columns ≡ (
      not is_admin
      && any (marked "deny" "ssn") (column "email" 6 (some "EMAIL") ∷ column "ssn" 6 none ∷ [])))
    × (elem "ssn" by_scan_decision.masked_columns ≡ (
        not is_admin
        && any (marked "mask" "ssn") (column "email" 6 (some "EMAIL") ∷ column "ssn" 6 none ∷ [])))
    × (elem "ssn" by_scan_decision.tokenized_columns ≡ (
        not is_admin
        && any
            (marked "tokenize" "ssn")
            (column "email" 6 (some "EMAIL") ∷ column "ssn" 6 none ∷ [])))
    × ((by_scan_decision.classification == "PUBLIC")
        ≡ not (any is_sensitive (column "email" 6 (some "EMAIL") ∷ column "ssn" 6 none ∷ [])))
auto_policy_columns_example =
    auto_policy_columns (column "email" 6 (some "EMAIL") ∷ column "ssn" 6 none ∷ []) (role analyst)
      ("email" ∷ "ssn" ∷ []) pii_map "table" "orders" "ssn"

abbrev cache : Dict PolicyDecision
cache =
    ("dg:policy:1:orders:analyst", by_rule_decision)
    ∷ ("dg:policy:2:orders:analyst", by_rule_decision)
    ∷ []

invalidates :
    invalidate_policy_cache memory 1 (some "orders") cache
    ≡ (1, ("dg:policy:2:orders:analyst", by_rule_decision) ∷ [])
unfolding program remove
invalidates = refl
