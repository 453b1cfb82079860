-- ===== src/Policy/Decide.antt =====
-- The access decision for a resource. Models PolicyEngine.decide of
-- backend/app/services/policy_engine.py. SQL's ILIKE is the database's and is a parameter.
pub mod Guard
pub mod Choice
pub mod Caching
mod Tests
use metasight.Prelude.{
  Bool, List, Option, String, [], codes, false, first, if◌then◌else◌, is_some, keep, length, ltb,
  map, nat_eq, none, not, some, string_eq, text_eq, true, ℕ, ◌&&◌, ◌<>◌, ◌==◌, ◌∷◌,
}
use metasight.Prelude.Dict.{Dict, insert}
use metasight.Identity.{User, role}
use metasight.Settings.{SystemSettings, get_settings, masking_enabled}
use metasight.Policy.{
  ColumnEntity, Outcome, PolicyDecision, PolicyRule, Table, ok, permission_error,
}
use metasight.Policy.Glob.{glob, has_star}
use metasight.Policy.Schedule.{Now}
use metasight.Policy.Rule.{from_rule, is_empty}
use metasight.Policy.Auto.{auto_policy}
use metasight.Policy.Cache.{Redis, get_cached_policy, set_cached_policy}

-- The rows that the engine reads, and DEFAULT_UNCLASSIFIED_POLICY of the configuration.

pub record PolicyDb : Type 0 where
  pub rules : List PolicyRule
  pub tables : List Table
  pub columns : List ColumnEntity
  pub system_settings : List SystemSettings
  pub default_unclassified_policy : String

-- `all_rules.sort(key=lambda r: len(r.resource), reverse=True)`, which is stable.
unfoldable pub insert_rule : PolicyRule → List PolicyRule → List PolicyRule
insert_rule r [] = r ∷ []
insert_rule r (q ∷ rules) =
    if ltb (length (codes r.resource)) (length (codes q.resource))
    then q ∷ insert_rule r rules
    else r ∷ q ∷ rules

unfoldable pub longest_first : List PolicyRule → List PolicyRule
unfolding insert_rule
longest_first [] = []
longest_first (r ∷ rules) = insert_rule r (longest_first rules)

-- `"*" in r.resource` and the full match.
unfoldable pub matches_wildcard : String → PolicyRule → Bool
matches_wildcard resource r =
    has_star (codes r.resource) && glob (codes r.resource) (codes resource)

-- The loop; `rule` is the global rule kept as a fallback.
unfoldable pub find_rule : String → Option PolicyRule → List PolicyRule → Option PolicyRule
find_rule resource rule [] = rule
find_rule resource rule (r ∷ rules) =
    let next =
      find_rule resource (if r.resource == "*" && not (is_some rule) then some r else rule) rules in
    if r.resource == resource then some r else if matches_wildcard resource r then some r else next

module _ (ilike : String → String → Bool) where
  unfoldable pub best_rule : PolicyDb → ℕ → String → Option PolicyRule
  best_rule db tenant_id resource =
      let own = keep (λ r. r.tenant_id == tenant_id) db.rules in
      elim (find_rule resource none (longest_first own)) [
        | some r ↦ some r
        | none ↦ first (λ r. ilike r.resource resource && r.tenant_id == tenant_id) db.rules
      ]

-- `if source_id:` and the join with the databases of the source; 0 is no source.
unfoldable pub in_source : Option ℕ → Table → Bool
in_source none t = true
in_source (some source_id) t =
    if source_id == 0
    then true
    else elim t.data_source_id [ none ↦ false | some s ↦ s == source_id ]

unfoldable pub find_table : PolicyDb → ℕ → String → Option ℕ → Option Table
find_table db tenant_id resource source_id =
    first (λ t. t.name == resource && t.tenant_id == tenant_id && in_source source_id t) db.tables

unfoldable pub same_department : Option ℕ → ℕ → Bool
same_department none d = false
same_department (some u) d = u == d

-- The table belongs to a department, and the user to another or to none.
unfoldable pub barred : User → Option Table → Bool
unfolding same_department
barred user none = false
barred user (some t) = not (role user == "superadmin") && elim t.department_id [
  | none ↦ false
  | some d ↦ not (d == 0) && not (same_department user.department_id d)
]

unfoldable pub columns_of : PolicyDb → ℕ → Option Table → List ColumnEntity
columns_of db tenant_id none = []
columns_of db tenant_id (some t) =
    keep (λ c. c.table_id == t.id && c.tenant_id == tenant_id) db.columns

-- `[c.name for c in scan_columns]` and `{c.name: c.pii_type for c in scan_columns}`.
abbrev pub names_of : List ColumnEntity → List String
names_of = map (λ c. c.name)

unfoldable pub pii_map_from : Dict (Option String) → List ColumnEntity → Dict (Option String)
pii_map_from m [] = m
pii_map_from m (c ∷ cols) = pii_map_from (insert c.name c.pii_type m) cols

-- The decisions that are not built from a rule or a scan.
abbrev pub fixed_decision :
    String
    → Bool
    → String
    → Bool
    → String
    → Bool
    → Dict (Option String)
    → List String
    → PolicyDecision
fixed_decision resource allowed classification exempt source_type auto pii_map known = record {
  resource = resource;
  allowed = allowed;
  denied_columns = [];
  masked_columns = [];
  tokenized_columns = [];
  row_filter_conditions = [];
  policy_id = none;
  classification = classification;
  is_admin_exempt = exempt;
  source_type = source_type;
  auto_policy = auto;
  column_pii_map = pii_map;
  known_columns = known;
  column_masking_type_map = [];
  active_tag_policies = [];
  active_field_policies = [];
}

module _ (redis : Redis) where
  open redis use {Store}

  -- Step 3: from the rule, by way of the cache unless the rule filters rows.
  unfoldable pub decide_by_rule :
      Now
      → ℕ
      → PolicyRule
      → User
      → String
      → String
      → List String
      → Dict (Option String)
      → Store
      → Outcome PolicyDecision × Store
  decide_by_rule now tenant_id rule user resource source_type known pii_map s =
      let key = resource <> "::no_rf" in
      let fresh = from_rule now rule user known pii_map source_type in
      if is_empty rule.row_filters
      then elim (get_cached_policy redis tenant_id key (role user) s) [
        | some cached ↦ (ok cached, s)
        | none ↦ elim fresh [
          | permission_error message ↦ (permission_error message, s)
          | ok decision ↦
              (ok decision, set_cached_policy redis tenant_id key (role user) decision s)
        ]
      ]
      else (fresh, s)

  -- Step 4: from the scanned columns, by way of the cache.
  unfoldable pub decide_by_scan :
      ℕ
      → List ColumnEntity
      → User
      → String
      → String
      → List String
      → Dict (Option String)
      → Store
      → PolicyDecision × Store
  decide_by_scan tenant_id scan_columns user resource source_type known pii_map s =
      let decision = auto_policy scan_columns (role user) known pii_map source_type resource in
      elim (get_cached_policy redis tenant_id resource (role user) s) [
        | some cached ↦ (cached, s)
        | none ↦ (decision, set_cached_policy redis tenant_id resource (role user) decision s)
      ]

  module _ (ilike : String → String → Bool) where
    unfoldable pub decide :
        Now
        → PolicyDb
        → ℕ
        → String
        → User
        → String
        → Option ℕ
        → Store
        → Outcome PolicyDecision × Store
    decide now db tenant_id resource user source_type source_id s =
        let table = find_table db tenant_id resource source_id in
        let cols = columns_of db tenant_id table in
        let known = names_of cols in
        let pii_map = pii_map_from [] cols in
        if barred user table
        then (ok (fixed_decision resource false "INTERNAL" false source_type false [] []), s)
        else if not (masking_enabled (get_settings tenant_id db.system_settings))
            && role user == "admin"
        then (ok (fixed_decision resource true "PUBLIC" true source_type false pii_map known), s)
        else elim (best_rule ilike db tenant_id resource) [
          | some rule ↦ decide_by_rule now tenant_id rule user resource source_type known pii_map s
          | none ↦
              if is_empty cols
              then (
                ok (
                    fixed_decision resource (db.default_unclassified_policy == "allow")
                      "UNCLASSIFIED" false source_type true [] known),
                s,
              )
              else (let (decision, s') =
                    decide_by_scan tenant_id cols user resource source_type known pii_map s in
                  (ok decision, s'))
        ]
