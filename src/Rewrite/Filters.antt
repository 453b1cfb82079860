-- ===== src/Rewrite/Filters.antt =====
-- The row filters of one SELECT: models _inject_row_filters_multi and _build_condition of
-- backend/app/rewriters/sql_rewriter.py.
use metasight.Prelude.{
  Bool, List, String, Text, [], any, false, if◌then◌else◌, map, nat_eq, none, some, string_eq,
  strip, text_eq, true, upper_string, ℕ, ◌&&◌, ◌++◌, ◌==◌, ◌||◌, ◌∷◌,
}
use metasight.Prelude.Dict.{Dict, lookup}
use metasight.Policy.{RowCondition}
use metasight.Sql.{
  Children, Expr, Kind, and_, child, end, get, literal, node, other, set_child, this_of,
}
use metasight.Rewrite.{Policy, column_expr, items_before}

-- A filter as the two loops meet it: with the alias and the identity of its policy.
pub record AliasFilter : Type 0 where
  pub alias : String
  pub ident : ℕ
  pub condition : RowCondition

unfoldable pub filters_under : String → ℕ → List RowCondition → List AliasFilter
filters_under alias ident [] = []
filters_under alias ident (rf ∷ rfs) =
    record { alias = alias; ident = ident; condition = rf } ∷ filters_under alias ident rfs

unfoldable pub all_filters : Dict Policy → List AliasFilter
unfolding filters_under
all_filters [] = []
all_filters ((alias, policy) ∷ alias_map) =
    filters_under alias policy.ident policy.decision.row_filter_conditions ++ all_filters alias_map

-- Equality of the keys `(policy_id, col, operator, value)`.
abbrev pub same_key : AliasFilter → AliasFilter → Bool
same_key f g =
    f.ident == g.ident
    && f.condition.column == g.condition.column
    && f.condition.operator == g.condition.operator
    && f.condition.value == g.condition.value

-- The filters that pass the two `continue`s, where `seen` holds those met before.
unfoldable pub fresh : List AliasFilter → List AliasFilter → List AliasFilter
fresh seen [] = []
fresh seen (f ∷ filters) = elim (f.condition.column == "" || any (same_key f) seen) [
  | true ↦ fresh seen filters
  | false ↦ f ∷ fresh (f ∷ seen) filters
]

-- `op_map`.
abbrev pub op_map : Dict String
op_map =
    ("=", "EQ")
    ∷ ("!=", "NEQ")
    ∷ ("<>", "NEQ")
    ∷ (">", "GT")
    ∷ (">=", "GTE")
    ∷ ("<", "LT")
    ∷ ("<=", "LTE")
    ∷ []

abbrev pub binary : Kind → Expr → Expr → Expr
binary k l r = node k (child "this" l (child "expression" r end))

abbrev string_literal : Text → Expr
string_literal value = node (literal value) end

-- `value.split(",")`.
unfoldable pub split_commas : Text → List Text
split_commas [] = [] ∷ []
split_commas (c ∷ s) =
    let rest = split_commas s in
    if c == b',' then [] ∷ rest else elim rest [ [] ↦ (c ∷ []) ∷ [] | t ∷ ts ↦ (c ∷ t) ∷ ts ]

unfoldable pub build_condition : Expr → String → Text → Expr
unfolding split_commas
build_condition col_expr operator value = elim (lookup operator op_map) [
  | some cls ↦ binary (other cls) col_expr (string_literal value)
  | none ↦
      if upper_string operator == "IN"
      then node (other "In") (
          child "this" col_expr
            (items_before (map (λ v. string_literal (strip v)) (split_commas value)) end))
      else if upper_string operator == "LIKE"
      then binary (other "Like") col_expr (string_literal value)
      else binary (other "EQ") col_expr (string_literal value)
]

abbrev pub condition_of : AliasFilter → Expr
condition_of f =
    build_condition (column_expr f.alias f.condition.column) f.condition.operator f.condition.value

unfoldable pub conjoin : Expr → List Expr → Expr
conjoin combined [] = combined
conjoin combined (c ∷ conditions) = conjoin (binary and_ combined c) conditions

abbrev pub where_expr : Expr → Expr
where_expr e = node (other "Where") (child "this" e end)

-- The rest of the function, once the conditions are known; a WHERE always has its condition.
unfoldable pub add_where : Children → List Expr → Children
unfolding conjoin
add_where cs [] = cs
add_where cs (c ∷ conditions) =
    let combined = conjoin c conditions in
    elim (get "where" cs) [
      | none ↦ set_child "where" (where_expr combined) cs
      | some clause ↦ elim (this_of clause) [
        | none ↦ set_child "where" (where_expr combined) cs
        | some old ↦ set_child "where" (where_expr (binary and_ old combined)) cs
      ]
    ]

abbrev pub conditions_of : Dict Policy → List Expr
conditions_of alias_map = map condition_of (fresh [] (all_filters alias_map))

unfoldable pub inject_row_filters_multi : Dict Policy → Children → Children
unfolding fresh all_filters build_condition add_where
inject_row_filters_multi alias_map cs = add_where cs (conditions_of alias_map)

-- `meta.row_filter_applied`.
unfoldable pub filters_applied : Dict Policy → Bool → Bool
unfolding fresh all_filters
filters_applied alias_map before = elim (fresh [] (all_filters alias_map)) [
  | [] ↦ before
  | f ∷ fs ↦ true
]
