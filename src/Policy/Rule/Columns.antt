-- ===== src/Policy/Rule/Columns.antt =====
-- Which columns a rule denies, masks and tokenizes.
-- About _from_rule of backend/app/services/policy_engine.py.
use metasight.Prelude.{
  Bool, Bool-cases, List, Option, Option-cases, String, [], ap, arith, elem, elem-concat, eq_iff,
  false, if◌then◌else◌, inl, inr, nat_eq, none, not, refl, some, string_eq, text_eq, ◌&&◌, ◌==◌,
  ◌||◌, ◌∙◌, ◌∷◌, ◌≡◌,
}
use metasight.Prelude.Dict.{
  Dict, DistinctKeys, either_of, insert, insert-DistinctKeys, lookup, lookup-insert, lookup-update,
  update-DistinctKeys,
}
use metasight.Policy.{ColumnPolicies, ColumnPolicy, Outcome-cases, PolicyDecision, PolicyRule, ok}
use metasight.Policy.Rule.{
  Sorted, action_of, from_rule, is_empty, is_field_rule, merge_tags, merged_policies,
  nothing_sorted, sort_column, sort_columns, sorted_policies, tag_policy,
}
-- The policy in force for a column: its own, and if it has none that of its tag, where the column
-- is known from a scan.
use metasight.Identity.{User, role}
use metasight.Policy.Schedule.{Now, check_schedule}

abbrev pub effective :
    ColumnPolicies → List String → Dict (Option String) → String → Option ColumnPolicy
effective p known pii_map col =
    either_of (lookup col p.columns)
      (if elem col known then tag_policy pii_map p.tags col else none)

-- The policy asks for the action, and the role is not exempt from it.
abbrev pub asks : String → String → Option ColumnPolicy → Bool
asks action user_role none = false
asks action user_role (some pol) = not (elem user_role pol.roles_exempt) && action_of pol == action

lookup-merge_tags :
    (pii_map : Dict (Option String)) (tags merged : Dict ColumnPolicy) (known : List String)
    (j : String)
    → lookup j (merge_tags pii_map tags merged known) ≡ (
        if elem j known
        then either_of (tag_policy pii_map tags j) (lookup j merged)
        else lookup j merged)
unfolding merge_tags
lookup-merge_tags pii_map tags merged [] j = refl
lookup-merge_tags pii_map tags merged (col ∷ known) j =
    elim (Option-cases (tag_policy pii_map tags col)) [
      | inl untagged ↦
          rw (untagged, merge_tags)
            (ground (arith, lookup-merge_tags pii_map tags merged known j, eq_iff j col))
      | inr (pol, tagged) ↦
          rw (tagged, merge_tags)
            (ground (
              arith,
              lookup-merge_tags pii_map tags (insert col pol merged) known j,
              lookup-insert col j pol merged,
              eq_iff j col,
              eq_iff col j,
            ))
    ]

merge_tags-DistinctKeys :
    (pii_map : Dict (Option String)) (tags merged : Dict ColumnPolicy) (known : List String)
    → DistinctKeys merged
    → DistinctKeys (merge_tags pii_map tags merged known)
unfolding merge_tags
merge_tags-DistinctKeys pii_map tags merged [] h = h
merge_tags-DistinctKeys pii_map tags merged (col ∷ known) h =
    elim (Option-cases (tag_policy pii_map tags col)) [
      | inl untagged ↦
          rw (untagged, merge_tags) (merge_tags-DistinctKeys pii_map tags merged known h)
      | inr (pol, tagged) ↦
          rw (tagged, merge_tags)
            (merge_tags-DistinctKeys pii_map tags (insert col pol merged) known
              (insert-DistinctKeys col pol merged h))
    ]

lookup-merged_policies :
    (p : ColumnPolicies) (known : List String) (pii_map : Dict (Option String)) (j : String)
    → DistinctKeys p.columns
    → lookup j (merged_policies p known pii_map) ≡ effective p known pii_map j
unfolding merged_policies lookup
lookup-merged_policies p known pii_map j h =
    lookup-update j (merge_tags pii_map p.tags [] known) p.columns h
    ∙ ap (either_of (lookup j p.columns))
        (lookup-merge_tags pii_map p.tags [] known j ∙ ground arith)

merged_policies-DistinctKeys :
    (p : ColumnPolicies) (known : List String) (pii_map : Dict (Option String))
    → DistinctKeys (merged_policies p known pii_map)
unfolding merged_policies
merged_policies-DistinctKeys p known pii_map =
    update-DistinctKeys (merge_tags pii_map p.tags [] known) p.columns
      (merge_tags-DistinctKeys pii_map p.tags [] known tt)

-- The answer for a column, from the answer for the rest of the dictionary.
asks_cons :
    (action user_role col j : String) (pol : ColumnPolicy) (merged : Dict ColumnPolicy)
    (e₀ e₁ e₂ : Bool)
    → e₂ ≡ (e₁ || asks action user_role (lookup j merged))
    → e₁ ≡ (e₀ || j == col && asks action user_role (some pol))
    → lookup col merged ≡ none
    → e₂ ≡ (e₀ || asks action user_role (lookup j ((col, pol) ∷ merged)))
unfolding lookup
asks_cons action user_role col j pol merged e₀ e₁ e₂ h k fresh = elim (Bool-cases (col == j)) [
  | inl same ↦
      let e : col ≡ j = ground (arith, eq_iff col j) in
      let gone : lookup j merged ≡ none = rw e at fresh in
      rw (h, k, gone, same) (ground (arith, eq_iff j col))
  | inr another ↦ rw (h, k, another) (ground (arith, eq_iff j col, eq_iff col j))
]

-- The columns sorted so far, after one more round and after the loop.
module _ (field_rule : Bool) (user_role : String) where
  sort_column-elem :
      (col : String) (pol : ColumnPolicy) (s : Sorted) (j : String)
      → (elem j (sort_column field_rule user_role col pol s).denied
          ≡ (elem j s.denied || j == col && asks "deny" user_role (some pol)))
        × (elem j (sort_column field_rule user_role col pol s).masked
            ≡ (elem j s.masked || j == col && asks "mask" user_role (some pol)))
        × (elem j (sort_column field_rule user_role col pol s).tokenized
            ≡ (elem j s.tokenized || j == col && asks "tokenize" user_role (some pol)))
  unfolding sort_column
  sort_column-elem col pol s j = ground (
    arith,
    elem-concat j col s.denied,
    elem-concat j col s.masked,
    elem-concat j col s.tokenized,
    eq_iff (action_of pol) "deny",
    eq_iff (action_of pol) "mask",
    eq_iff (action_of pol) "tokenize",
    eq_iff "deny" "mask",
    eq_iff "deny" "tokenize",
    eq_iff "mask" "tokenize",
  )

  sort_columns-elem :
      (merged : Dict ColumnPolicy) (s : Sorted) (j : String)
      → DistinctKeys merged
      → (elem j (sort_columns field_rule user_role merged s).denied
          ≡ (elem j s.denied || asks "deny" user_role (lookup j merged)))
        × (elem j (sort_columns field_rule user_role merged s).masked
            ≡ (elem j s.masked || asks "mask" user_role (lookup j merged)))
        × (elem j (sort_columns field_rule user_role merged s).tokenized
            ≡ (elem j s.tokenized || asks "tokenize" user_role (lookup j merged)))
  unfolding sort_columns lookup
  sort_columns-elem [] s j d = ground arith
  sort_columns-elem ((col, pol) ∷ merged) s j d =
      let s' = sort_column field_rule user_role col pol s in
      let (d₁, m₁, t₁) = sort_column-elem col pol s j in
      let (d₂, m₂, t₂) = sort_columns-elem merged s' j d.1 in
      (
        asks_cons "deny" user_role col j pol merged (elem j s.denied) (elem j s'.denied)
            (elem j (sort_columns field_rule user_role merged s').denied) d₂ d₁ d.0,
        asks_cons "mask" user_role col j pol merged (elem j s.masked) (elem j s'.masked)
            (elem j (sort_columns field_rule user_role merged s').masked) m₂ m₁ d.0,
        asks_cons "tokenize" user_role col j pol merged (elem j s.tokenized) (elem j s'.tokenized)
            (elem j (sort_columns field_rule user_role merged s').tokenized) t₂ t₁ d.0,
      )

-- The parts of a decision that a rule makes.
from_rule_ok :
    (now : Now) (rule : PolicyRule) (user : User) (known : List String)
    (pii_map : Dict (Option String)) (source_type : String) (d : PolicyDecision)
    → from_rule now rule user known pii_map source_type ≡ ok d
    → (d.denied_columns ≡ (sorted_policies rule (role user) known pii_map).denied)
      × (d.masked_columns ≡ (sorted_policies rule (role user) known pii_map).masked)
      × (d.tokenized_columns ≡ (sorted_policies rule (role user) known pii_map).tokenized)
      × (d.is_admin_exempt ≡ (
          is_empty d.denied_columns && is_empty d.masked_columns && is_empty d.tokenized_columns))
      × (check_schedule now rule.column_policies.schedule (role user) ≡ ok tt)
unfolding from_rule
from_rule_ok now rule user known pii_map source_type d h =
    elim (Outcome-cases (check_schedule now rule.column_policies.schedule (role user))) [
      | inl (_, passed) ↦ ground arith
      | inr (m, refused) ↦ absurd (ground arith)
    ]

-- A rule's decision denies, masks and tokenizes exactly the columns whose policy in force asks for
-- it and does not exempt the user's role: the column's own policy, or else that of its tag. The
-- user counts as exempt exactly if no column is restricted, and no schedule stands in the way.
pub from_rule_columns :
    (now : Now) (rule : PolicyRule) (user : User) (known : List String)
    (pii_map : Dict (Option String)) (source_type : String) (d : PolicyDecision) (j : String)
    → DistinctKeys rule.column_policies.columns
    → from_rule now rule user known pii_map source_type ≡ ok d
    → (elem j d.denied_columns
        ≡ asks "deny" (role user) (effective rule.column_policies known pii_map j))
      × (elem j d.masked_columns
          ≡ asks "mask" (role user) (effective rule.column_policies known pii_map j))
      × (elem j d.tokenized_columns
          ≡ asks "tokenize" (role user) (effective rule.column_policies known pii_map j))
      × (d.is_admin_exempt ≡ (
          is_empty d.denied_columns && is_empty d.masked_columns && is_empty d.tokenized_columns))
      × (check_schedule now rule.column_policies.schedule (role user) ≡ ok tt)
unfolding sorted_policies
from_rule_columns now rule user known pii_map source_type d j distinct h =
    let p = rule.column_policies in
    let (denied, masked, tokenized, exempt, passed) =
      from_rule_ok now rule user known pii_map source_type d h in
    let once : DistinctKeys (merged_policies p known pii_map) =
      merged_policies-DistinctKeys p known pii_map in
    let (e₁, e₂, e₃) =
      sort_columns-elem (is_field_rule rule.resource) (role user) (merged_policies p known pii_map)
        nothing_sorted j once in
    let policy = lookup-merged_policies p known pii_map j distinct in
    (
      ap (elem j) denied ∙ e₁ ∙ ap (asks "deny" (role user)) policy,
      ap (elem j) masked ∙ e₂ ∙ ap (asks "mask" (role user)) policy,
      ap (elem j) tokenized ∙ e₃ ∙ ap (asks "tokenize" (role user)) policy,
      exempt,
      passed,
    )
