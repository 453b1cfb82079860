-- ===== src/Rewrite.antt =====
-- The rewriting of one SELECT: models the private methods of SQLRewriter and the helpers before it in
-- backend/app/rewriters/sql_rewriter.py. The order in which sqlglot lists the columns below a node is
-- here that of the text.
pub mod Projections
pub mod Filters
pub mod Nested
pub mod Denied
pub mod Clauses
pub mod Closed
pub mod Depth
pub mod Inner
pub mod Everywhere
pub mod Fuel
pub mod Printed
pub mod Conditions
pub mod Kept
pub mod Where
pub mod SelfJoin
pub mod Reported
use metasight.Prelude.{
  Bool, List, Option, String, [], any, elem, first, if◌then◌else◌, leb, lower_string, map, nat_eq,
  none, or_else, some, string_eq, text_eq, upper_string, ℕ, ◌++◌, ◌==◌, ◌∷◌,
}
use metasight.Prelude.Dict.{Dict, either_of, insert, keys, lookup}
use metasight.Policy.{PolicyDecision}
use metasight.Sql.{
  Children, Expr, Kind, child, column, end, get, get_all, item, kind, node, star, table, table_star,
  this_of,
}

-- A decision with its identity, `id(policy)`.
pub record Policy : Type 0 where
  pub ident : ℕ
  pub decision : PolicyDecision

pub data Action : Type 0 where
  deny mask tokenize allow : Action

-- `_ACTION_RANK`.
abbrev pub action_rank : Action → ℕ
action_rank deny = 3
action_rank mask = 2
action_rank tokenize = 1
action_rank allow = 0

unfoldable pub most_restrictive : Action → Action → Action
most_restrictive a b = if leb (action_rank b) (action_rank a) then a else b

-- `name.lower() in {c.lower() for c in names}`.
unfoldable pub holds_name : String → List String → Bool
holds_name low names = any (λ c. lower_string c == low) names

-- `policy.column_pii_map.get(orig_key)`, with the first key that is the name up to case.
unfoldable pub pii_type_of : String → Dict (Option String) → Option String
pii_type_of name pii_map =
    or_else
      (lookup (or_else (first (λ k. lower_string k == lower_string name) (keys pii_map)) name)
        pii_map)
      none

-- What one decision says of a column: the body of the loop of `_resolve_action`.
unfoldable pub action_under : String → PolicyDecision → Action
unfolding holds_name
action_under name policy =
    let low = lower_string name in
    if policy.is_admin_exempt
    then allow
    else if holds_name low policy.denied_columns
    then deny
    else if holds_name low policy.masked_columns
    then mask
    else if holds_name low policy.tokenized_columns
    then tokenize
    else allow

-- The loop ends at the first decision that restricts the column.
unfoldable pub first_action : String → List Policy → Action × Option String
unfolding action_under pii_type_of
first_action name [] = (allow, none)
first_action name (p ∷ policies) =
    let rest = first_action name policies in
    elim (action_under name p.decision) [
      | allow ↦ rest
      | action ↦ (action, pii_type_of name p.decision.column_pii_map)
    ]

-- `policies_to_check`.
unfoldable pub policies_to_check : String → Dict Policy → List Policy
policies_to_check qualifier alias_map =
    if qualifier == ""
    then map (λ e. e.1) alias_map
    else elim (lookup qualifier alias_map) [ none ↦ [] | some p ↦ p ∷ [] ]

unfoldable pub resolve_action : String → String → Dict Policy → Action × Option String
unfolding first_action policies_to_check
resolve_action qualifier name alias_map = first_action name (policies_to_check qualifier alias_map)

-- `table_policies.get(name) or .get(name.lower()) or .get(name.upper())`.
unfoldable pub find_policy : String → Dict Policy → Option Policy
find_policy name table_policies = either_of (lookup name table_policies) (
    either_of (lookup (lower_string name) table_policies)
      (lookup (upper_string name) table_policies))

unfoldable pub add_source : Dict Policy → Expr → Dict Policy → Dict Policy
unfolding find_policy
add_source table_policies (node (table name alias_name) cs) alias_map =
    let alias = if alias_name == "" then name else alias_name in
    elim (find_policy name table_policies) [
      | none ↦ alias_map
      | some policy ↦
          if alias == name
          then insert alias policy alias_map
          else insert name policy (insert alias policy alias_map)
    ]
add_source table_policies other_source alias_map = alias_map

unfoldable pub add_sources : Dict Policy → List (Option Expr) → Dict Policy → Dict Policy
unfolding add_source
add_sources table_policies [] alias_map = alias_map
add_sources table_policies (none ∷ sources) alias_map = add_sources table_policies sources alias_map
add_sources table_policies (some e ∷ sources) alias_map =
    add_sources table_policies sources (add_source table_policies e alias_map)

-- The FROM clause and the joins, by what they are of.
unfoldable pub from_and_joins : Option Expr → List Expr → List (Option Expr)
from_and_joins none joins = map this_of joins
from_and_joins (some from_) joins = this_of from_ ∷ map this_of joins

abbrev pub sources_of : Children → List (Option Expr)
sources_of cs = from_and_joins (get "from_" cs) (get_all "joins" cs)

unfoldable pub build_alias_map : Children → Dict Policy → Dict Policy
unfolding add_sources from_and_joins
build_alias_map cs table_policies = add_sources table_policies (sources_of cs) []

-- `exp.column(exp.Identifier(this=col, quoted=True), table=qualifier)`.
abbrev pub column_expr : String → String → Expr
column_expr qualifier name = node (column qualifier name) end

abbrev pub items_before : List Expr → Children → Children
items_before [] cs = cs
items_before (e ∷ es) cs = item e (items_before es cs)

unfoldable pub all_known : List Policy → List Expr
all_known [] = []
all_known (p ∷ policies) = map (column_expr "") p.decision.known_columns ++ all_known policies

-- The columns that a star stands for, none where it is kept.
unfoldable pub star_columns : Dict Policy → Kind → List Expr
unfolding all_known
star_columns alias_map star = all_known (map (λ e. e.1) alias_map)
star_columns alias_map (table_star qualifier) = elim (lookup qualifier alias_map) [
  | none ↦ []
  | some p ↦ map (column_expr qualifier) p.decision.known_columns
]
star_columns alias_map _ = []

unfoldable pub expand_items : Dict Policy → Children → Children
unfolding star_columns
expand_items alias_map end = end
expand_items alias_map (item e cs) =
    let rest = expand_items alias_map cs in
    elim (star_columns alias_map (kind e)) [
      | [] ↦ item e rest
      | c ∷ known ↦ items_before (c ∷ known) rest
    ]
expand_items alias_map (child key e cs) = child key e (expand_items alias_map cs)

unfoldable pub expand_stars : Dict Policy → String → Children → Children
unfolding expand_items
expand_stars alias_map dialect cs =
    if elem (lower_string dialect) ("oracle" ∷ "oracledb" ∷ [])
    then cs
    else expand_items alias_map cs
