-- ===== src/Policy/Decide/Tests.antt =====
-- Runs of PolicyEngine.decide of backend/app/services/policy_engine.py over a cache in memory, and the
-- theorems at concrete inputs.
use metasight.Prelude.{
  [], arith, eq_iff, false, lower_code, none, refl, show_nat, some, text_beq, ◌∷◌, ◌≡◌,
}
use metasight.Prelude.Dict.{insert, lookup, update}
use metasight.Json.{insert_field, lookup_field, section, truthy}
use metasight.Mask.Scan.{starts_with}
use metasight.Settings.{deep_merge, get_settings, masking_enabled, merge_value}
use metasight.Policy.{PolicyDecision, Table, ok}
use metasight.Policy.Glob.{glob, has_star}
use metasight.Policy.Attributes.{
  attribute, find_claim, placeholder_name, replace, replace_from, resolve_row_filters, sub_rest,
  substitute_user_attrs, word_run,
}
use metasight.Policy.Schedule.{
  check_hours, check_schedule, check_time_restrictions, join_names, wrong_day, wrong_hour,
}
use metasight.Policy.Rule.{
  active_tags, from_rule, is_field_rule, merge_tags, merged_policies, sort_column, sort_columns,
  sorted_policies, tag_policy,
}
use metasight.Policy.Auto.{auto_column, auto_columns, auto_policy, escalate}
use metasight.Policy.Cache.{
  cache_key, delete_all, get_cached_policy, invalidate_policy_cache, set_cached_policy,
}
use metasight.Policy.Decide.{
  PolicyDb, barred, best_rule, columns_of, decide, decide_by_rule, decide_by_scan, find_rule,
  find_table, in_source, insert_rule, longest_first, matches_wildcard, pii_map_from,
  same_department,
}
use metasight.Policy.Decide.Guard.{Basis, decide_allowed, decide_barred}
use metasight.Policy.Decide.Choice.{Chosen, best_rule-Chosen}
use metasight.Policy.Decide.Caching.{decide_any_time}
use metasight.Policy.Samples.{
  analyst, by_rule_decision, by_scan_decision, column, database, memory, monday, no_match, rule,
  sales, shared, sunday,
}

program : Unit {0}
unfolding glob has_star lookup insert update replace_from replace word_run placeholder_name sub_rest
    substitute_user_attrs resolve_row_filters find_claim attribute join_names wrong_day wrong_hour
    check_hours check_time_restrictions check_schedule active_tags tag_policy merge_tags
    merged_policies is_field_rule sort_column sort_columns sorted_policies from_rule escalate
    auto_column auto_columns auto_policy cache_key get_cached_policy set_cached_policy delete_all
    invalidate_policy_cache insert_rule longest_first matches_wildcard find_rule best_rule in_source
    find_table same_department barred columns_of pii_map_from decide_by_rule decide_by_scan decide
    lookup_field section truthy get_settings deep_merge merge_value insert_field masking_enabled
    starts_with show_nat text_beq lower_code
program = tt

two_queries :
    (let (first_answer, s) =
        decide memory no_match monday
          (database [] (shared ∷ []))
          1
          "orders"
          analyst
          "table"
          (some 4)
          [] in
      (first_answer ≡ ok by_scan_decision)
      × (s ≡ ("dg:policy:1:orders:analyst", by_scan_decision) ∷ []))
unfolding program
two_queries = (refl, refl)

decide_barred_example :
    (decision : PolicyDecision) × (decide memory no_match monday
        (database [] (sales ∷ []))
        1
        "orders"
        analyst
        "table"
        (some 3)
        []
      ≡ (ok decision, []))
    × (decision.allowed ≡ false)
    × (decision.known_columns ≡ [])
unfolding program
decide_barred_example =
    decide_barred memory no_match monday (database [] (sales ∷ [])) 1 "orders" analyst "table"
      (some 3) [] sales 9 refl refl (omega arith) (λ h. absurd (ground arith))
      (ground (arith, eq_iff "analyst" "superadmin"))

decide_allowed_example :
    (barred analyst (find_table (database [] (shared ∷ [])) 1 "orders" (some 4)) ≡ false)
    × Basis no_match (database [] (shared ∷ [])) 1 "orders" analyst (some 4)
unfolding program
decide_allowed_example =
    decide_allowed memory no_match monday (database [] (shared ∷ [])) 1 "orders" analyst "table"
      (some 4) [] by_scan_decision (("dg:policy:1:orders:analyst", by_scan_decision) ∷ []) refl refl

best_rule-Chosen_example : Chosen no_match 1 "orders" (rule 1 "orders")
unfolding program
best_rule-Chosen_example =
    best_rule-Chosen no_match 1 "orders" (database (rule 1 "orders" ∷ []) []) (rule 1 "orders") refl

abbrev second : Table
second = record shared { id = 7; data_source_id = some 8 }

abbrev two_sources : PolicyDb
two_sources = record (database [] (shared ∷ second ∷ [])) {
  columns = column "email" 6 (some "EMAIL") ∷ column "ssn" 6 none ∷ column "salary" 7 none ∷ [];
}

decide_any_time_example :
    (decide memory no_match monday
        (database (rule 1 "orders" ∷ []) (shared ∷ []))
        1
        "orders"
        analyst
        "table"
        (some 4)
        []).0
      ≡ ok by_rule_decision
    × (decide memory no_match sunday
          (database (rule 1 "orders" ∷ []) (shared ∷ []))
          1
          "orders"
          analyst
          "table"
          (some 4)
          (decide memory no_match monday
            (database (rule 1 "orders" ∷ []) (shared ∷ []))
            1
            "orders"
            analyst
            "table"
            (some 4)
            []).1
        ≡ (
          ok by_rule_decision,
          (decide memory no_match monday
              (database (rule 1 "orders" ∷ []) (shared ∷ []))
              1
              "orders"
              analyst
              "table"
              (some 4)
              []).1,
        ))
unfolding program
decide_any_time_example =
    decide_any_time memory no_match monday sunday (database (rule 1 "orders" ∷ []) (shared ∷ [])) 1
      "orders" analyst "table" by_rule_decision [] refl (some 4) (rule 1 "orders") refl refl refl
      refl refl
