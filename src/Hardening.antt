-- ===== src/Hardening.antt =====
-- The checks around the rewriting of a query: models backend/app/rewriters/hardening.py. This file has
-- those on the tree, Hardening/Cleaning those on the text.
pub mod Patterns
pub mod Cleaning
pub mod Branches
pub mod Inference
use metasight.Prelude.{
  Bool, List, Option, String, [], elem, false, if◌then◌else◌, leb, length, nat_eq, none, not, some,
  string_eq, text_eq, true, ◌++◌, ◌<>◌, ◌==◌, ◌||◌, ◌∷◌,
}
use metasight.Prelude.Dict.{Dict}
use metasight.Risk.{RewriteMeta}
use metasight.Sql.{
  Children, ColumnRef, Expr, Kind, child, children, columns, end, find_all, get, get_all, item,
  items, join, kind, lateral, node, other, remove_child, select, set_child, set_op, subquery, with_,
}
use metasight.Rewrite.{Policy}

-- `all_denied`; it is only asked for members.
unfoldable pub all_denied : Dict Policy → List String
all_denied [] = []
all_denied ((name, p) ∷ table_policies) = p.decision.denied_columns ++ all_denied table_policies

-- The columns below a node that are denied, by their names.
unfoldable pub denied_names : List String → List ColumnRef → List String
denied_names denied [] = []
denied_names denied (ref ∷ refs) =
    if elem ref.name denied then ref.name ∷ denied_names denied refs else denied_names denied refs

-- A list of names as Python prints it.
unfoldable pub show_more : List String → String
show_more [] = "]"
show_more (name ∷ names) = ", '" <> name <> "'" <> show_more names

unfoldable pub show_names : List String → String
unfolding show_more
show_names [] = "[]"
show_names (name ∷ names) = "['" <> name <> "'" <> show_more names

-- `collect_select_branches`: the Selects of a tree of set operations, by their children.
unfoldable mutual
  pub collect_select_branches : Expr → List Children
  collect_select_branches (node select cs) = cs ∷ []
  collect_select_branches (node (set_op op) cs) = branches_in cs
  collect_select_branches _ = []

  pub branches_in : Children → List Children
  branches_in end = []
  branches_in (item e cs) = branches_in cs
  branches_in (child key e cs) =
      let branches = collect_select_branches e in
      let rest = branches_in cs in
      if key == "this" || key == "expression" then branches ++ rest else rest

-- `rewrite_union_tree`, for a function that rewrites a Select, and what it reports.
unfoldable mutual
  pub rewrite_union_tree : (Children → Children) → Expr → Expr
  rewrite_union_tree g (node select cs) = node select (g cs)
  rewrite_union_tree g (node (set_op op) cs) = node (set_op op) (rewrite_branches g cs)
  rewrite_union_tree g e = e

  pub rewrite_branches : (Children → Children) → Children → Children
  rewrite_branches g end = end
  rewrite_branches g (item e cs) = item e (rewrite_branches g cs)
  rewrite_branches g (child key e cs) =
      let branch = rewrite_union_tree g e in
      let rest = rewrite_branches g cs in
      if key == "this" || key == "expression" then child key branch rest else child key e rest

unfoldable mutual
  pub note_union_tree : (Children → RewriteMeta → RewriteMeta) → Expr → RewriteMeta → RewriteMeta
  note_union_tree g (node select cs) meta = g cs meta
  note_union_tree g (node (set_op op) cs) meta = note_branches g cs meta
  note_union_tree g e meta = meta

  pub note_branches : (Children → RewriteMeta → RewriteMeta) → Children → RewriteMeta → RewriteMeta
  note_branches g end meta = meta
  note_branches g (item e cs) meta = note_branches g cs meta
  note_branches g (child key e cs) meta =
      let noted = note_union_tree g e meta in
      note_branches g cs (if key == "this" || key == "expression" then noted else meta)

abbrev pub is_subquery : Kind → Bool
is_subquery subquery = true
is_subquery _ = false

abbrev pub is_lateral : Kind → Bool
is_lateral lateral = true
is_lateral _ = false

abbrev pub is_with : Kind → Bool
is_with with_ = true
is_with _ = false

unfoldable pub scalar_warnings : List String → List String
scalar_warnings [] = []
scalar_warnings (name ∷ names) =
    ("Scalar subquery references denied column '" <> name
      <> "' — expression suppressed by recursive policy rewriting")
    ∷ scalar_warnings names

unfoldable pub subquery_columns : List Expr → List ColumnRef
subquery_columns [] = []
subquery_columns (e ∷ es) = columns e ++ subquery_columns es

unfoldable pub scalar_columns : List Expr → List ColumnRef
unfolding subquery_columns
scalar_columns [] = []
scalar_columns (proj ∷ projs) = subquery_columns (find_all is_subquery proj) ++ scalar_columns projs

unfoldable pub block_scalar_subquery_leakage : Children → Dict Policy → List String
unfolding scalar_columns scalar_warnings denied_names all_denied
block_scalar_subquery_leakage cs table_policies =
    scalar_warnings (denied_names (all_denied table_policies) (scalar_columns (items cs)))

-- `join.args.get("side") == "CROSS" or join.find(exp.Lateral)`.
unfoldable pub is_lateral_join : Expr → Bool
is_lateral_join e =
    elim (kind e) [ join side ↦ side == "CROSS" | _ ↦ false ]
    || not (leb (length (find_all is_lateral e)) 0)

unfoldable pub lateral_warnings : List Expr → List String
unfolding is_lateral_join
lateral_warnings [] = []
lateral_warnings (e ∷ joins) =
    if is_lateral_join e
    then "LATERAL join detected — policy applied recursively to subquery body"
      ∷ lateral_warnings joins
    else lateral_warnings joins

unfoldable pub check_lateral_joins : Children → List String
unfolding lateral_warnings
check_lateral_joins cs = lateral_warnings (get_all "joins" cs)

-- The names in `removed`, and the elements of ORDER BY that stay.
unfoldable pub removed_names : List String → Children → List String
unfolding denied_names
removed_names denied end = []
removed_names denied (item e cs) = denied_names denied (columns e) ++ removed_names denied cs
removed_names denied (child key e cs) = removed_names denied cs

unfoldable pub keep_ordered : List String → Children → Children
unfolding denied_names
keep_ordered denied end = end
keep_ordered denied (item e cs) =
    let rest = keep_ordered denied cs in
    elim (denied_names denied (columns e)) [ [] ↦ item e rest | name ∷ names ↦ rest ]
keep_ordered denied (child key e cs) = child key e (keep_ordered denied cs)

-- The elements of ORDER BY that are left, where some were removed; an empty ORDER BY is dropped.
unfoldable pub set_order : List String → Children → Children → Children
set_order [] kept cs = cs
set_order (name ∷ names) kept cs = elim (items kept) [
  | [] ↦ remove_child "order" cs
  | e ∷ es ↦ set_child "order" (node (other "Order") kept) cs
]

unfoldable pub strip_order : List String → Option Expr → Children → Children
unfolding removed_names keep_ordered set_order
strip_order denied none cs = cs
strip_order denied (some order) cs =
    set_order (removed_names denied (children order)) (keep_ordered denied (children order)) cs

-- A HAVING clause goes as a whole.
unfoldable pub drop_having : List String → Children → Children
drop_having [] cs = cs
drop_having (name ∷ names) cs = remove_child "having" cs

unfoldable pub strip_having : List String → Option Expr → Children → Children
unfolding denied_names drop_having
strip_having denied none cs = cs
strip_having denied (some having) cs = drop_having (denied_names denied (columns having)) cs

unfoldable pub strip_inference_bypass : Dict Policy → Children → Children
unfolding all_denied strip_order strip_having
strip_inference_bypass table_policies cs =
    let denied = all_denied table_policies in
    strip_having denied (get "having" cs) (strip_order denied (get "order" cs) cs)

unfoldable pub inference_warnings : Dict Policy → Children → List String
unfolding all_denied removed_names denied_names show_names strip_order
inference_warnings table_policies cs =
    let denied = all_denied table_policies in
    let ordered : List String = elim (get "order" cs) [
      | none ↦ []
      | some order ↦ removed_names denied (children order)
    ] in
    let grouped : List String = elim (get "having" cs) [
      | none ↦ []
      | some having ↦ denied_names denied (columns having)
    ] in
    let of_order : List String = elim ordered [
      | [] ↦ []
      | n ∷ ns ↦ ("ORDER BY: removed references to denied column(s): " <> show_names (n ∷ ns)) ∷ []
    ] in
    let of_having : List String = elim grouped [
      | [] ↦ []
      | n ∷ ns ↦
          ("HAVING: removed clause referencing denied column(s): " <> show_names (n ∷ ns)) ∷ []
    ] in
    of_order ++ of_having
