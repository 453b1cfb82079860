-- ===== src/Rewrite/Where.antt =====
-- Which rows the WHERE clause of a rewritten SELECT lets through
-- (backend/app/rewriters/sql_rewriter.py).
use mathlib.Core.List.{append-nil, append_assoc}
use metasight.Rewrite.Printed.{
  all_hold, alternatives, alternatives-cons, before_last, glue, last, one_holds, one_holds-glue,
  one_holds-last,
}
use metasight.Rewrite.Conditions.{Says, alternatives-condition_of, condition_of-Says}
use metasight.Prelude.{
  All, Bool, List, Option, Option-cases, String, [], ap, arith, eq_iff, inl, inr, map, nat_eq, none,
  refl, some, string_eq, sym, text_eq, ◌&&◌, ◌++◌, ◌||◌, ◌∙◌, ◌∷◌, ◌≡◌, ◌⊎◌,
}
use metasight.Sql.{Children, Expr, and_, child, end, get, item, set_child, this_of}
use metasight.Rewrite.Filters.{
  AliasFilter, add_where, all_filters, binary, condition_of, conjoin, fresh,
  inject_row_filters_multi, where_expr,
}
use metasight.Prelude.Dict.{Dict}
use metasight.Rewrite.{Policy}
use metasight.Rewrite.Kept.{Covered, fresh-Accounted, unseen}

-- The alternatives of the WHERE clause; without one, there is a single alternative that always holds.
abbrev pub alternatives_of : Option Expr → List (List Expr)
alternatives_of none = [] ∷ []
alternatives_of (some e) = alternatives e

abbrev pub where_condition : Children → Option Expr
where_condition cs = elim (get "where" cs) [ none ↦ none | some clause ↦ this_of clause ]

-- Whether a row passes the text of the WHERE clause, if there is one.
abbrev pub passes : (Expr → Bool) → Children → Bool
passes v cs = one_holds v (alternatives_of (where_condition cs))

get-set_child : (key : String) (v : Expr) (cs : Children) → get key (set_child key v cs) ≡ some v
unfolding set_child
get-set_child key v end = ground (arith, eq_iff key key)
get-set_child key v (item e cs) = get-set_child key v cs
get-set_child key v (child j e cs) = ground (arith, get-set_child key v cs)

-- The conditions have no OR in them, so that they make one alternative.
conjoin-alternatives :
    (c : Expr) (done : List Expr) (filters : List AliasFilter)
    → alternatives c ≡ done ∷ []
    → alternatives (conjoin c (map condition_of filters)) ≡ (done ++ map condition_of filters) ∷ []
unfolding conjoin alternatives glue
conjoin-alternatives c done [] h = h ∙ ap (λ l. l ∷ []) (sym (append-nil done))
conjoin-alternatives c done (f ∷ filters) h =
    let more : alternatives (binary and_ c (condition_of f)) ≡ (done ++ condition_of f ∷ []) ∷ [] =
      ap (λ x. glue x (alternatives (condition_of f))) h
      ∙ ap (glue (done ∷ [])) (alternatives-condition_of f) in
    conjoin-alternatives (binary and_ c (condition_of f)) (done ++ condition_of f ∷ []) filters more
    ∙ ap (λ l. l ∷ []) (append_assoc done (condition_of f ∷ []) (map condition_of filters))

where_condition-set :
    (e : Expr) (cs : Children) → where_condition (set_child "where" (where_expr e) cs) ≡ some e
where_condition-set e cs =
    ap (λ o. elim o [ none ↦ none | some clause ↦ this_of clause ])
      (get-set_child "where" (where_expr e) cs)

module _ (v : Expr → Bool) (cs : Children) where
  -- The alternatives of the old condition before the last, and the last.
  abbrev pub earlier : Bool
  earlier = one_holds v (before_last (alternatives_of (where_condition cs)))

  abbrev pub final : Bool
  final = all_hold v (last (alternatives_of (where_condition cs)))

  passes-set :
      (e : Expr) → passes v (set_child "where" (where_expr e) cs) ≡ one_holds v (alternatives e)
  passes-set e = ap (λ o. one_holds v (alternatives_of o)) (where_condition-set e cs)

  passes-old : passes v cs ≡ (earlier || final)
  passes-old = elim (Option-cases (where_condition cs)) [
    | inl e ↦ rw e refl
    | inr (old, e) ↦
        let (g, groups, cons) = alternatives-cons old in rw (e, cons) (one_holds-last v g groups)
  ]

  no_condition :
      where_condition cs ≡ none
      → (conditions : List Expr)
      → one_holds v (conditions ∷ []) ≡ (earlier || final && all_hold v conditions)
  no_condition h conditions = rw h (ground arith)

  old_condition :
      (old : Expr) (g : List Expr) (groups : List (List Expr)) (conditions : List Expr)
      → where_condition cs ≡ some old
      → alternatives old ≡ g ∷ groups
      → (earlier || final && all_hold v conditions) ≡ (
          one_holds v (before_last (g ∷ groups))
          || all_hold v (last (g ∷ groups)) && all_hold v conditions)
  old_condition old g groups conditions h cons = rw (h, cons) refl

  passes-add_where :
      (filters : List AliasFilter)
      → passes v (add_where cs (map condition_of filters))
        ≡ (earlier || final && all_hold v (map condition_of filters))
  unfolding add_where alternatives
  passes-add_where [] = passes-old ∙ ground arith
  passes-add_where (f ∷ filters) =
      let conditions = map condition_of (f ∷ filters) in
      let combined = conjoin (condition_of f) (map condition_of filters) in
      let one : alternatives combined ≡ conditions ∷ [] =
        conjoin-alternatives (condition_of f) (condition_of f ∷ []) filters
          (alternatives-condition_of f) in
      let alone : where_condition cs ≡ none
          → passes v (set_child "where" (where_expr combined) cs)
            ≡ (earlier || final && all_hold v conditions) =
        λ h. passes-set combined ∙ ap (one_holds v) one ∙ no_condition h conditions in
      elim (Option-cases (get "where" cs)) [
        | inl e ↦ rw (e, add_where) (alone (rw (e, where_condition) refl))
        | inr (clause, e) ↦ elim (Option-cases (this_of clause)) [
          | inl f ↦ rw (e, f, add_where) (alone (rw (e, f, where_condition) refl))
          | inr (old, f) ↦
              let (g, groups, cons) = alternatives-cons old in
              rw (e, f, add_where)
                (passes-set (binary and_ old combined)
                  ∙ ap (one_holds v)
                      (ap (λ x. glue x (alternatives combined)) cons ∙ ap (glue (g ∷ groups)) one)
                  ∙ one_holds-glue v g groups conditions
                  ∙ sym (
                      old_condition old g groups conditions (rw (e, f, where_condition) refl) cons))
        ]
      ]

All-Says : (filters : List AliasFilter) → All (λ f. Says f (condition_of f)) filters
All-Says [] = tt
All-Says (f ∷ filters) = (condition_of-Says f, All-Says filters)

-- The conditions of the row filters are added by AND to the text of the old condition, without
-- parentheses around it: a row passes the rewritten clause exactly if it satisfies an alternative of
-- the old condition before its last OR, or else the last alternative and all the conditions. Each row
-- filter of each table has a condition among these, unless it names no column: its own or that of
-- another alias under the same decision; and a condition compares the column by the operator that the
-- filter asks for with the values that it gives.
pub inject_row_filters_lem :
    (v : Expr → Bool) (m : Dict Policy) (cs : Children)
    → let kept = fresh [] (all_filters m) in
      (passes v (inject_row_filters_multi m cs)
        ≡ (earlier v cs || final v cs && all_hold v (map condition_of kept)))
      × (passes v cs ≡ (earlier v cs || final v cs))
      × All (λ f. (f.condition.column ≡ "") ⊎ Covered f kept) (all_filters m)
      × All (λ f. Says f (condition_of f)) kept
unfolding inject_row_filters_multi
inject_row_filters_lem v m cs =
    let kept = fresh [] (all_filters m) in
    (
      passes-add_where v cs kept,
      passes-old v cs,
      unseen kept (all_filters m) (fresh-Accounted [] (all_filters m)),
      All-Says kept,
    )
