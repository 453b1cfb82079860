-- ===== src/Rules/Tests.antt =====
-- Runs of the endpoints for rules (backend/app/api/policies.py) over a cache in memory.
use mathlib.Core.List.{reverse}
use metasight.Audit.{DataChangeAudit}
use metasight.Prelude.{
  All, List, String, [], arith, elem, false, first, lower_code, map, nat_eq, none, refl, show_nat,
  some, string_eq, text_eq, true, ◌++◌, ◌<>◌, ◌==◌, ◌∷◌, ◌≡◌,
}
use metasight.Prelude.Dict.{Dict, lookup}
use metasight.Http.{http, ok}
use metasight.Identity.{User, require_admin, role}
use metasight.Policy.{PolicyDecision, PolicyRule, ok}
use metasight.Policy.Glob.{glob, has_star}
use metasight.Policy.Cache.{
  cache_key, delete_all, get_cached_policy, invalidate_policy_cache, table_pattern,
}
use metasight.Policy.Samples.{
  analyst, by_rule_decision, database, memory, monday, no_match, remove, rule, shared,
}
use metasight.Rules.Handlers.{create_policy, delete_policy, list_policies, update_policy}
use metasight.Rules.{
  RuleCreate, RuleDb, RuleJson, RuleUpdate, changed_columns, delete_rule, get_or_404, updated_rule,
}
use metasight.Rules.Unique.{Unique}
use metasight.Rules.Reach.{Reach-Unique, created, deleted, here, next}
use metasight.Json.{lookup_field, section, truthy}
use metasight.Settings.{get_settings, masking_enabled}
use metasight.Policy.Decide.{
  PolicyDb, barred, best_rule, decide, find_rule, find_table, in_source, insert_rule, longest_first,
  matches_wildcard,
}
use metasight.Rules.Changes.{has_id, to_write, update_policy_lem, written}
use metasight.Rules.Stale.{deleted_policy_served}

abbrev plain_json : RuleJson
plain_json = record {
  same_policies = λ a b. true;
  same_filters = λ a b. true;
  dump_policies = λ p. "policies";
  dump_filters = λ f. "filters";
  dump_rule = λ r. r.resource;
}

abbrev admin : User
admin = record {
  tenant_id = 1;
  department_id = none;
  claims = ("sub", "adam@x.io") ∷ ("role", "admin") ∷ [];
}

abbrev empty : RuleDb (Dict PolicyDecision)
empty = record {
  rules = [];
  tables = [];
  data_changes = [];
  activities = [];
  audit_log = [];
  cache = [];
}

-- Everybody's rule, and one for the orders, from which a decision is cached.
abbrev two_rules : RuleDb (Dict PolicyDecision)
two_rules = record empty {
  rules = rule 2 "orders" ∷ rule 3 "*" ∷ [];
  cache = ("dg:policy:1:orders::no_rf:analyst", by_rule_decision) ∷ [];
}

two_rules-Unique : Unique two_rules.rules
two_rules-Unique = (((refl, refl), tt), (tt, tt))

abbrev orders_rule : RuleCreate
orders_rule = record {
  resource = "orders";
  database_name = "shop";
  classification = "PII";
  source_type = "table";
  column_policies = (rule 0 "").column_policies;
  row_filters = [];
}

abbrev to_secret : RuleUpdate
to_secret = record {
  classification = some "SECRET";
  source_type = none;
  column_policies = none;
  row_filters = none;
}

create_run :
    ((create_policy memory plain_json (λ n. n) 9 orders_rule admin empty).1.rules
      ≡ record (rule 9 "orders") { database_name = "shop"; source_type = "table" } ∷ [])
    × ((create_policy memory plain_json (λ n. n) 9 orders_rule admin two_rules).0
        ≡ http 409 "Policy for 'orders' already exists. Use PATCH to update.")
    × ((create_policy memory plain_json (λ n. n) 9 orders_rule analyst empty).0
        ≡ http 403 "Admin access required")
unfolding create_policy lookup
create_run = (refl, refl, refl)

list_run : list_policies memory plain_json analyst two_rules ≡ rule 3 "*" ∷ []
unfolding list_policies lookup
list_run = refl

update_run :
    (update_policy memory plain_json (λ n. n) 2 to_secret admin two_rules).0
    ≡ ok (record (rule 2 "orders") { classification = "SECRET" })
unfolding update_policy lookup
update_run = refl

update_cache_run :
    (update_policy memory plain_json (λ n. n) 2 to_secret admin two_rules).1.cache ≡ []
unfolding update_policy lookup invalidate_policy_cache delete_all glob remove show_nat lower_code
update_cache_run = refl

delete_run : (delete_policy memory plain_json (λ n. n) 2 admin two_rules).0 ≡ ok tt
unfolding delete_policy lookup
delete_run = refl

abbrev after_delete : RuleDb (Dict PolicyDecision)
after_delete = (delete_policy memory plain_json (λ n. n) 2 admin two_rules).1

left_rules : All (λ q. (q.id == 9) ≡ false) after_delete.rules
unfolding delete_policy lookup delete_rule
left_rules = (refl, tt)

Reach-Unique_example :
    Unique
      (create_policy memory plain_json
        (λ n. n)
        9
        orders_rule
        admin
        (delete_policy memory plain_json (λ n. n) 2 admin two_rules).1).1.rules
Reach-Unique_example = Reach-Unique memory plain_json two_rules _ two_rules-Unique (
    next (next here (deleted (λ n. n) 2 admin refl))
      (created (λ n. n) 9 orders_rule admin left_rules refl))

abbrev after_update : RuleDb (Dict PolicyDecision)
after_update = (update_policy memory plain_json (λ n. n) 2 to_secret admin two_rules).1

abbrev secret_rule : PolicyRule
secret_rule = record (rule 2 "orders") { classification = "SECRET" }

update_policy_lem_example :
    (require_admin admin ≡ ok admin)
    × (old : PolicyRule) × (get_or_404 2 1 two_rules.rules ≡ ok old)
    × (old.tenant_id ≡ 1)
    × (secret_rule ≡ updated_rule to_secret old)
    × (first (has_id 3) after_update.rules ≡ first (has_id 3) two_rules.rules)
    × (first (has_id 2) after_update.rules ≡ some secret_rule)
    × (rows : List DataChangeAudit) × (after_update.data_changes ≡ rows ++ [])
    × (map written rows
        ≡ reverse (map (to_write admin secret_rule) (changed_columns plain_json old secret_rule)))
    × ((key : String) (d : PolicyDecision)
        → lookup key after_update.cache ≡ some d
        → (elem key (
              memory.scan two_rules.cache
                ("dg:policy:" <> show_nat 1 <> ":" <> table_pattern memory (some "orders") <> ":*"))
            ≡ false)
          × (lookup key two_rules.cache ≡ some d))
update_policy_lem_example =
    update_policy_lem memory plain_json (λ n. n) 2 to_secret admin two_rules 3 (omega arith)
      update_run

abbrev left_db : PolicyDb
left_db = record (database [] (shared ∷ [])) { rules = after_delete.rules }

chosen_run :
    (best_rule no_match left_db 1 "orders" ≡ some (rule 3 "*"))
    × (barred analyst (find_table (database [] (shared ∷ [])) 1 "orders" (some 4)) ≡ false)
unfolding delete_policy lookup delete_rule best_rule find_rule matches_wildcard has_star glob
    longest_first insert_rule barred find_table in_source
chosen_run = (refl, refl)

cached_run :
    (masking_enabled (get_settings 1 left_db.system_settings) ≡ true)
    × (get_cached_policy memory 1 ("orders" <> "::no_rf") (role analyst) two_rules.cache
        ≡ some by_rule_decision)
unfolding masking_enabled get_settings section lookup_field truthy get_cached_policy cache_key
    lookup show_nat
cached_run = (refl, refl)

deleted_policy_served_example :
    (get_or_404 2 1 after_delete.rules ≡ http 404 "Policy not found")
    × (decide memory no_match monday left_db 1 "orders" analyst "table" (some 4) after_delete.cache
        ≡ (ok by_rule_decision, after_delete.cache))
deleted_policy_served_example =
    deleted_policy_served memory no_match plain_json (λ n. n) 2 admin monday
      (database [] (shared ∷ [])) two_rules analyst "orders" "table" (some 4) (rule 3 "*")
      by_rule_decision two_rules-Unique delete_run cached_run.0 chosen_run.0 refl chosen_run.1
      cached_run.1
