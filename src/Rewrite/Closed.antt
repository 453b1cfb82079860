-- ===== src/Rewrite/Closed.antt =====
-- Predicates on trees that the rewriting of one SELECT keeps: it brings in columns, NULLs and
-- comparisons only (backend/app/rewriters/sql_rewriter.py).
use metasight.Prelude.{
  All, All-append, Bool, Bool-cases, List, Option-cases, String, [], arith, elem, false,
  if◌then◌else◌, inl, inr, lower_string, map, nat_eq, some, string_eq, text_eq, true, ◌==◌, ◌∷◌,
  ◌≡◌,
}
use metasight.Sql.{
  Children, Expr, Kind, and_, child, columns, end, get, item, kind, set_child, star, table_star,
  this_of,
}
use metasight.Rewrite.{
  Policy, all_known, allow, column_expr, deny, expand_items, expand_stars, items_before, mask,
  star_columns, tokenize,
}
use metasight.Rewrite.Projections.{
  inner, is_column, judge, no_verdict, null_expr, out_alias, rewrite_projection,
  rewrite_projections,
}
use metasight.Rewrite.Filters.{
  AliasFilter, add_where, all_filters, binary, condition_of, conditions_of, conjoin, fresh,
  inject_row_filters_multi, where_expr,
}
use metasight.Prelude.Dict.{Dict, lookup}
use metasight.Rewrite.Clauses.{rewritten}

-- Every child satisfies the predicate.
abbrev pub AllIn : (Expr → Type 0) → Children → Type 0
AllIn P end = Unit
AllIn P (item e cs) = P e × AllIn P cs
AllIn P (child key e cs) = P e × AllIn P cs

pub record IsClosed (P : Expr → Type 0) : Type 0 where
  pub of_column : (qualifier name : String) → P (column_expr qualifier name)
  pub of_null : (out : String) → P (null_expr out)
  pub of_condition : (f : AliasFilter) → P (condition_of f)
  pub of_both : (a b : Expr) → P a → P b → P (binary and_ a b)
  pub of_where : (e : Expr) → P e → P (where_expr e)
  pub of_inside : (clause e : Expr) → P clause → this_of clause ≡ some e → P e

module _ (P : Expr → Type 0) (closed : IsClosed P) where
  open closed use {of_column, of_null, of_condition, of_both, of_where, of_inside}

  get-AllIn : (key : String) (cs : Children) {e : Expr} → AllIn P cs → get key cs ≡ some e → P e
  get-AllIn key end h g = absurd (cc)
  get-AllIn key (item e' cs) {e} h g = get-AllIn key cs {e = e} h.1 g
  get-AllIn key (child j e' cs) {e} h g = elim (Bool-cases (j == key)) [
    | inl same ↦ let found : e' ≡ e = ground arith in rw (← found) h.0
    | inr another ↦ get-AllIn key cs {e = e} h.1 (ground arith)
  ]

  set_child-AllIn :
      (key : String) (v : Expr) (cs : Children) → P v → AllIn P cs → AllIn P (set_child key v cs)
  unfolding set_child
  set_child-AllIn key v end p h = (p, tt)
  set_child-AllIn key v (item e cs) p h = (h.0, set_child-AllIn key v cs p h.1)
  set_child-AllIn key v (child j e cs) p h = elim (Bool-cases (j == key)) [
    | inl same ↦ rw same (p, h.1)
    | inr another ↦ rw another (h.0, set_child-AllIn key v cs p h.1)
  ]

  conjoin-closed :
      (c : Expr) (conditions : List Expr) → P c → All P conditions → P (conjoin c conditions)
  unfolding conjoin
  conjoin-closed c [] p h = p
  conjoin-closed c (d ∷ conditions) p h =
      conjoin-closed (binary and_ c d) conditions (of_both c d p h.0) h.1

  add_where-AllIn :
      (cs : Children) (conditions : List Expr)
      → All P conditions
      → AllIn P cs
      → AllIn P (add_where cs conditions)
  unfolding add_where
  add_where-AllIn cs [] p h = h
  add_where-AllIn cs (c ∷ conditions) p h =
      let combined = conjoin c conditions in
      let good = conjoin-closed c conditions p.0 p.1 in
      elim (Option-cases (get "where" cs)) [
        | inl e ↦
            rw (e, add_where)
              (set_child-AllIn "where" (where_expr combined) cs (of_where combined good) h)
        | inr (clause, e) ↦ elim (Option-cases (this_of clause)) [
          | inl f ↦
              rw (e, f, add_where)
                (set_child-AllIn "where" (where_expr combined) cs (of_where combined good) h)
          | inr (old, f) ↦
              let both = binary and_ old combined in
              rw (e, f, add_where)
                (set_child-AllIn "where" (where_expr both) cs
                  (of_where both
                    (of_both old combined (of_inside clause old (get-AllIn "where" cs h e) f) good))
                  h)
        ]
      ]

  conditions-closed : (filters : List AliasFilter) → All P (map condition_of filters)
  conditions-closed [] = tt
  conditions-closed (f ∷ filters) = (of_condition f, conditions-closed filters)

  items_before-AllIn :
      (es : List Expr) (cs : Children) → All P es → AllIn P cs → AllIn P (items_before es cs)
  items_before-AllIn [] cs p h = h
  items_before-AllIn (e ∷ es) cs p h = (p.0, items_before-AllIn es cs p.1 h)

  columns-closed :
      (qualifier : String) (names : List String) → All P (map (column_expr qualifier) names)
  columns-closed qualifier [] = tt
  columns-closed qualifier (n ∷ names) = (of_column qualifier n, columns-closed qualifier names)

  all_known-closed : (policies : List Policy) → All P (all_known policies)
  unfolding all_known
  all_known-closed [] = tt
  all_known-closed (p ∷ policies) =
      All-append P (map (column_expr "") p.decision.known_columns) (all_known policies)
        (columns-closed "" p.decision.known_columns) (all_known-closed policies)

  star_columns-closed : (alias_map : Dict Policy) (k : Kind) → All P (star_columns alias_map k)
  unfolding star_columns
  star_columns-closed alias_map star = all_known-closed (map (λ e. e.1) alias_map)
  star_columns-closed alias_map (table_star q) = elim (Option-cases (lookup q alias_map)) [
    | inl e ↦ rw (e, star_columns) tt
    | inr (p, e) ↦ rw (e, star_columns) (columns-closed q p.decision.known_columns)
  ]
  star_columns-closed alias_map _ = tt

  expand_items-AllIn :
      (alias_map : Dict Policy) (cs : Children) → AllIn P cs → AllIn P (expand_items alias_map cs)
  unfolding expand_items
  expand_items-AllIn alias_map end h = tt
  expand_items-AllIn alias_map (item e cs) h =
      let rest = expand_items-AllIn alias_map cs h.1 in
      let known = star_columns alias_map (kind e) in
      elim known
          as (λ es.
            All P es
            → AllIn P (elim es [
              | [] ↦ item e (expand_items alias_map cs)
              | c ∷ cols ↦ items_before (c ∷ cols) (expand_items alias_map cs)
            ])) [
              | [] ↦ λ p. (h.0, rest)
              | c ∷ cols ↦ λ p. items_before-AllIn (c ∷ cols) (expand_items alias_map cs) p rest
            ]
        (star_columns-closed alias_map (kind e))
  expand_items-AllIn alias_map (child key e cs) h = (h.0, expand_items-AllIn alias_map cs h.1)

  if-closed : (b : Bool) (p q : Expr) → P p → P q → P (if b then p else q)
  if-closed true p q hp hq = hp
  if-closed false p q hp hq = hq

  rewrite_projection-closed :
      (alias_map : Dict Policy) (proj : Expr) → P proj → P (rewrite_projection alias_map proj)
  unfolding rewrite_projection
  rewrite_projection-closed alias_map proj h =
      let refs = columns (inner proj) in
      let out = out_alias proj refs in
      elim (judge alias_map refs no_verdict).action
        as (λ a. P (elim a [
          | deny ↦ null_expr out
          | mask ↦ if is_column (inner proj) then proj else null_expr out
          | tokenize ↦ proj
          | allow ↦ proj
        ])) [
          | deny ↦ of_null out
          | mask ↦ if-closed (is_column (inner proj)) proj (null_expr out) h (of_null out)
          | tokenize ↦ h
          | allow ↦ h
        ]

  rewrite_projections-AllIn :
      (alias_map : Dict Policy) (cs : Children)
      → AllIn P cs
      → AllIn P (rewrite_projections alias_map cs)
  unfolding rewrite_projections
  rewrite_projections-AllIn alias_map end h = tt
  rewrite_projections-AllIn alias_map (item e cs) h =
      (rewrite_projection-closed alias_map e h.0, rewrite_projections-AllIn alias_map cs h.1)
  rewrite_projections-AllIn alias_map (child key e cs) h =
      (h.0, rewrite_projections-AllIn alias_map cs h.1)

  pub rewritten-AllIn :
      (alias_map : Dict Policy) (dialect : String) (cs : Children)
      → AllIn P cs
      → AllIn P (rewritten alias_map dialect cs)
  unfolding inject_row_filters_multi expand_stars
  rewritten-AllIn alias_map dialect cs h =
      add_where-AllIn (rewrite_projections alias_map (expand_stars alias_map dialect cs))
        (conditions_of alias_map) (conditions-closed (fresh [] (all_filters alias_map)))
        (rewrite_projections-AllIn alias_map (expand_stars alias_map dialect cs)
          (elim (Bool-cases (elem (lower_string dialect) ("oracle" ∷ "oracledb" ∷ []))) [
            | inl e ↦ rw e h
            | inr e ↦ rw e (expand_items-AllIn alias_map cs h)
          ]))
