-- ===== src/Policy/Rule.antt =====
-- A decision from an explicit rule. Models _from_rule of backend/app/services/policy_engine.py.
pub mod Columns
use metasight.Prelude.{
  Bool, List, Option, String, [], codes, elem, false, if◌then◌else◌, nat_eq, none, or_else, some,
  string_eq, text_eq, true, upper_string, ◌&&◌, ◌++◌, ◌==◌, ◌||◌, ◌∷◌,
}
use metasight.Prelude.Dict.{Dict, insert, lookup, update}
use metasight.Identity.{User, role}
use metasight.Mask.Scan.{starts_with}
use metasight.Policy.{
  ColumnPolicies, ColumnPolicy, Outcome, PolicyDecision, PolicyRule, blank, ok, permission_error,
}
use metasight.Policy.Attributes.{resolve_row_filters}
use metasight.Policy.Schedule.{Now, check_schedule}

-- `pol.get("action", "allow")`.

abbrev pub action_of : ColumnPolicy → String
action_of pol = or_else pol.action "allow"

-- The loop that collects the tags with an action other than `allow`.
unfoldable pub active_tags : Dict String → Dict ColumnPolicy → Dict String
active_tags active [] = active
active_tags active ((tag_name, tag_pol) ∷ tags) =
    active_tags
      (if action_of tag_pol == "allow" then active else insert tag_name (action_of tag_pol) active)
      tags

-- The policy of a column's tag, where the column has a kind of data and the kind is a tag.
unfoldable pub tag_policy : Dict (Option String) → Dict ColumnPolicy → String → Option ColumnPolicy
tag_policy column_pii_map tags col = elim (lookup col column_pii_map) [
  | none ↦ none
  | some pii ↦ elim pii [ none ↦ none | some tag ↦ if tag == "" then none else lookup tag tags ]
]

unfoldable pub merge_tags :
    Dict (Option String) → Dict ColumnPolicy → Dict ColumnPolicy → List String → Dict ColumnPolicy
merge_tags column_pii_map tags merged [] = merged
merge_tags column_pii_map tags merged (col ∷ known) =
    merge_tags column_pii_map tags
      (elim (tag_policy column_pii_map tags col) [
        | none ↦ merged
        | some pol ↦ insert col pol merged
      ])
      known

-- Physical policies override those of tags.
unfoldable pub merged_policies :
    ColumnPolicies → List String → Dict (Option String) → Dict ColumnPolicy
merged_policies policies known column_pii_map =
    update (merge_tags column_pii_map policies.tags [] known) policies.columns

-- What the loop over the merged policies collects.
pub record Sorted : Type 0 where
  pub denied : List String
  pub masked : List String
  pub tokenized : List String
  pub masking_types : Dict (Option String)
  pub field_policies : Dict String

-- `rule.resource == "*" or rule.resource.startswith("FIELD:")`.
unfoldable pub is_field_rule : String → Bool
unfolding starts_with
is_field_rule resource = resource == "*" || starts_with (codes "FIELD:") (codes resource)

-- One round of the loop.
unfoldable pub sort_column : Bool → String → String → ColumnPolicy → Sorted → Sorted
sort_column field_rule user_role col pol s =
    if elem user_role pol.roles_exempt
    then s
    else (let action = action_of pol in
        let fields = if field_rule then insert col action s.field_policies else s.field_policies in
        if action == "deny"
        then record s { denied = s.denied ++ col ∷ []; field_policies = fields }
        else if action == "mask"
        then record s {
          masked = s.masked ++ col ∷ [];
          masking_types =
              if blank pol.masking_type
              then s.masking_types
              else insert col (some (upper_string (or_else pol.masking_type ""))) s.masking_types;
          field_policies = fields;
        }
        else if action == "tokenize"
        then record s { tokenized = s.tokenized ++ col ∷ []; field_policies = fields }
        else record s { field_policies = fields })

unfoldable pub sort_columns : Bool → String → Dict ColumnPolicy → Sorted → Sorted
sort_columns field_rule user_role [] s = s
sort_columns field_rule user_role ((col, pol) ∷ merged) s =
    sort_columns field_rule user_role merged (sort_column field_rule user_role col pol s)

abbrev pub nothing_sorted : Sorted
nothing_sorted = record {
  denied = [];
  masked = [];
  tokenized = [];
  masking_types = [];
  field_policies = [];
}

abbrev pub is_empty {ℓ} : {A : Type ℓ} → List A → Bool
is_empty [] = true
is_empty (x ∷ xs) = false

unfoldable pub sorted_policies : PolicyRule → String → List String → Dict (Option String) → Sorted
sorted_policies rule user_role known_columns column_pii_map =
    sort_columns (is_field_rule rule.resource) user_role
      (merged_policies rule.column_policies known_columns column_pii_map) nothing_sorted

-- `rule.source_type or source_type`.
abbrev pub source_or : String → String → String
source_or own default = if own == "" then default else own

unfoldable pub from_rule :
    Now → PolicyRule → User → List String → Dict (Option String) → String → Outcome PolicyDecision
from_rule now rule user known_columns column_pii_map source_type =
    let s = sorted_policies rule (role user) known_columns column_pii_map in
    elim (check_schedule now rule.column_policies.schedule (role user)) [
      | permission_error message ↦ permission_error message
      | ok _ ↦ ok (record {
        resource = rule.resource;
        allowed = true;
        denied_columns = s.denied;
        masked_columns = s.masked;
        tokenized_columns = s.tokenized;
        row_filter_conditions = resolve_row_filters rule.row_filters user;
        policy_id = some rule.id;
        classification = rule.classification;
        is_admin_exempt = is_empty s.denied && is_empty s.masked && is_empty s.tokenized;
        source_type = source_or rule.source_type source_type;
        auto_policy = false;
        column_pii_map = column_pii_map;
        known_columns = known_columns;
        column_masking_type_map = s.masking_types;
        active_tag_policies = active_tags [] rule.column_policies.tags;
        active_field_policies = s.field_policies;
      })
    ]
