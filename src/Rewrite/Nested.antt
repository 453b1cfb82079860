-- ===== src/Rewrite/Nested.antt =====
-- The recursion over nested SELECTs: models _rewrite_node of backend/app/rewriters/sql_rewriter.py.
-- Its loop over `select.walk()` meets every Select below and rewrites it with all that it contains
-- before it looks inside, so that an inner Select is rewritten again on the way down. The walk is
-- given fuel, the depth of nested Selects. A Select is met before those inside it, as by sqlglot;
-- those that do not contain one another are met here in the order of the text, which has no effect
-- on the tree.
use metasight.Prelude.{String, [], suc, zero, ℕ, ◌∷◌}
use metasight.Prelude.Dict.{Dict}
use metasight.Risk.{RewriteMeta}
use metasight.Sql.{Children, Expr, child, end, item, node, select}
use metasight.Rewrite.{Policy, build_alias_map, expand_stars}
use metasight.Rewrite.Projections.{note_projections, rewrite_projections}
use metasight.Rewrite.Filters.{filters_applied, inject_row_filters_multi}

-- A change of the outermost Selects of a tree, and what they write into the report.
unfoldable mutual
  pub over : (Children → Children) → Expr → Expr
  over g (node select cs) = node select (g cs)
  over g (node k cs) = node k (over_in g cs)

  pub over_in : (Children → Children) → Children → Children
  over_in g end = end
  over_in g (item e cs) = item (over g e) (over_in g cs)
  over_in g (child key e cs) = child key (over g e) (over_in g cs)

unfoldable mutual
  pub note_over : (Children → RewriteMeta → RewriteMeta) → Expr → RewriteMeta → RewriteMeta
  note_over g (node select cs) meta = g cs meta
  note_over g (node k cs) meta = note_over_in g cs meta

  pub note_over_in : (Children → RewriteMeta → RewriteMeta) → Children → RewriteMeta → RewriteMeta
  note_over_in g end meta = meta
  note_over_in g (item e cs) meta = note_over_in g cs (note_over g e meta)
  note_over_in g (child key e cs) meta = note_over_in g cs (note_over g e meta)

module _ (dialect : String) (table_policies : Dict Policy) where
  -- The part of `_rewrite_node` after its loop.
  unfoldable pub rewrite_select : Children → Children
  unfolding build_alias_map expand_stars rewrite_projections inject_row_filters_multi
  rewrite_select cs =
      let alias_map = build_alias_map cs table_policies in
      elim alias_map [
        | [] ↦ cs
        | e ∷ rest ↦
            let m = build_alias_map cs table_policies in
            inject_row_filters_multi m (rewrite_projections m (expand_stars m dialect cs))
      ]

  -- What becomes of a Select that the walk meets: it is rewritten, those inside it first, and then
  -- the walk goes on inside it.
  unfoldable pub visit : ℕ → Children → Children
  unfolding over rewrite_select
  visit zero cs = cs
  visit (suc f) cs = over_in (visit f) (rewrite_select (over_in (visit f) cs))

  -- `_rewrite_node`.
  unfoldable pub rewrite_node : ℕ → Children → Children
  unfolding visit over rewrite_select
  rewrite_node f cs = rewrite_select (over_in (visit f) cs)

  -- What `_rewrite_node` writes into the report.
  unfoldable pub note_select : Children → RewriteMeta → RewriteMeta
  unfolding build_alias_map note_projections expand_stars filters_applied
  note_select cs meta =
      let alias_map = build_alias_map cs table_policies in
      elim alias_map [
        | [] ↦ meta
        | e ∷ rest ↦
            let m = build_alias_map cs table_policies in
            let noted = note_projections m (expand_stars m dialect cs) meta in
            record noted { row_filter_applied = filters_applied m noted.row_filter_applied }
      ]

  unfoldable pub note_visit : ℕ → Children → RewriteMeta → RewriteMeta
  unfolding visit over note_over note_select
  note_visit zero cs meta = meta
  note_visit (suc f) cs meta =
      let inside = over_in (visit f) cs in
      note_over_in (note_visit f) (rewrite_select inside)
        (note_select inside (note_over_in (note_visit f) cs meta))

  unfoldable pub note_node : ℕ → Children → RewriteMeta → RewriteMeta
  unfolding note_visit note_over note_select
  note_node f cs meta = note_select (over_in (visit f) cs) (note_over_in (note_visit f) cs meta)
