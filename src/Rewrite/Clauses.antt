-- ===== src/Rewrite/Clauses.antt =====
-- What the rewriting of one SELECT leaves alone: its FROM clause and its joins, and so the tables
-- whose decisions apply (backend/app/rewriters/sql_rewriter.py).
use metasight.Prelude.{
  List, Option-cases, String, [], arith, eq_iff, false, inl, inr, nat_eq, refl, string_eq, text_eq,
  ◌==◌, ◌∙◌, ◌∷◌, ◌≡◌, ◌⊎◌,
}
use metasight.Prelude.Dict.{Dict}
use metasight.Sql.{Children, Expr, and_, child, end, get, get_all, item, kind, set_child, this_of}
use metasight.Rewrite.{Policy, expand_items, expand_stars, items_before, sources_of, star_columns}
use metasight.Rewrite.Projections.{rewrite_projections}
use metasight.Rewrite.Denied.{SafeItems, rewrite_projections-SafeItems, set_child-SafeItems}
use metasight.Rewrite.Filters.{
  add_where, binary, conditions_of, conjoin, inject_row_filters_multi, where_expr,
}

-- The WHERE clause is all that the row filters touch.
pub add_where-cases :
    (cs : Children) (conditions : List Expr)
    → (add_where cs conditions ≡ cs)
      ⊎ ((v : Expr) × (add_where cs conditions ≡ set_child "where" v cs))
unfolding add_where
add_where-cases cs [] = inl refl
add_where-cases cs (c ∷ conditions) = elim (Option-cases (get "where" cs)) [
  | inl e ↦ inr (where_expr (conjoin c conditions), ground arith)
  | inr (clause, e) ↦ elim (Option-cases (this_of clause)) [
    | inl f ↦ inr (where_expr (conjoin c conditions), ground arith)
    | inr (old, f) ↦ inr (where_expr (binary and_ old (conjoin c conditions)), ground arith)
  ]
]

-- Two lists of children agree in an arg.
abbrev SameArg : String → Children → Children → Type 0
SameArg key cs ds = (get key cs ≡ get key ds) × (get_all key cs ≡ get_all key ds)

module _ (key : String) where
  set_child-SameArg :
      (j : String) (v : Expr) (cs : Children)
      → (j == key) ≡ false
      → SameArg key (set_child j v cs) cs
  unfolding set_child
  set_child-SameArg j v end h = rw h (refl, refl)
  set_child-SameArg j v (item e cs) h = set_child-SameArg j v cs h
  set_child-SameArg j v (child i e cs) h = ground (arith, eq_iff i j, set_child-SameArg j v cs h)

  rewrite_projections-SameArg :
      (alias_map : Dict Policy) (cs : Children) → SameArg key (rewrite_projections alias_map cs) cs
  unfolding rewrite_projections
  rewrite_projections-SameArg alias_map end = (refl, refl)
  rewrite_projections-SameArg alias_map (item e cs) = rewrite_projections-SameArg alias_map cs
  rewrite_projections-SameArg alias_map (child j e cs) =
      ground (arith, rewrite_projections-SameArg alias_map cs)

  items_before-SameArg : (es : List Expr) (cs : Children) → SameArg key (items_before es cs) cs
  items_before-SameArg [] cs = (refl, refl)
  items_before-SameArg (e ∷ es) cs = items_before-SameArg es cs

  expand_items-SameArg :
      (alias_map : Dict Policy) (cs : Children) → SameArg key (expand_items alias_map cs) cs
  unfolding expand_items
  expand_items-SameArg alias_map end = (refl, refl)
  expand_items-SameArg alias_map (item e cs) = ground (
    arith,
    expand_items-SameArg alias_map cs,
    items_before-SameArg (star_columns alias_map (kind e)) (expand_items alias_map cs),
  )
  expand_items-SameArg alias_map (child j e cs) = ground (arith, expand_items-SameArg alias_map cs)

  expand_stars-SameArg :
      (alias_map : Dict Policy) (dialect : String) (cs : Children)
      → SameArg key (expand_stars alias_map dialect cs) cs
  unfolding expand_stars
  expand_stars-SameArg alias_map dialect cs = ground (arith, expand_items-SameArg alias_map cs)

  inject-SameArg :
      (alias_map : Dict Policy) (cs : Children)
      → ("where" == key) ≡ false
      → SameArg key (inject_row_filters_multi alias_map cs) cs
  unfolding inject_row_filters_multi
  inject-SameArg alias_map cs h = elim (add_where-cases cs (conditions_of alias_map)) [
    | inl e ↦ rw e (refl, refl)
    | inr (v, e) ↦ rw e (set_child-SameArg "where" v cs h)
  ]

-- The sources are those of two args.
sources-SameArg :
    (cs ds : Children)
    → SameArg "from_" cs ds
    → SameArg "joins" cs ds
    → sources_of cs ≡ sources_of ds
sources-SameArg cs ds f j = ground arith

module _ (alias_map : Dict Policy) (dialect : String) (cs : Children) where
  -- The three steps of the rewriting of one SELECT.
  abbrev pub rewritten : Children
  rewritten =
      inject_row_filters_multi alias_map
        (rewrite_projections alias_map (expand_stars alias_map dialect cs))

  rewritten-SameArg : (key : String) → ("where" == key) ≡ false → SameArg key rewritten cs
  rewritten-SameArg key h =
      let expanded = expand_stars alias_map dialect cs in
      let projected = rewrite_projections alias_map expanded in
      let a = inject-SameArg key alias_map projected h in
      let b = rewrite_projections-SameArg key alias_map expanded in
      let c = expand_stars-SameArg key alias_map dialect cs in (a.0 ∙ b.0 ∙ c.0, a.1 ∙ b.1 ∙ c.1)

  pub rewritten-sources : sources_of rewritten ≡ sources_of cs
  rewritten-sources =
      sources-SameArg rewritten cs (rewritten-SameArg "from_" refl) (rewritten-SameArg "joins" refl)

  pub rewritten-SafeItems : SafeItems alias_map rewritten
  unfolding inject_row_filters_multi
  rewritten-SafeItems =
      let expanded = expand_stars alias_map dialect cs in
      let projected = rewrite_projections alias_map expanded in
      let safe = rewrite_projections-SafeItems alias_map expanded in
      elim (add_where-cases projected (conditions_of alias_map)) [
        | inl e ↦ rw e safe
        | inr (v, e) ↦ rw e (set_child-SafeItems alias_map "where" v projected safe)
      ]
