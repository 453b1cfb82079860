-- ===== src/Rewrite/Depth.antt =====
-- The rewriting of a SELECT nests no SELECT deeper, so that the depth is fuel enough for the walk of
-- _rewrite_node (backend/app/rewriters/sql_rewriter.py).
use metasight.Prelude.{
  Bool-cases, List, String, Text, [], arith, inl, inr, map, nat_eq, refl, some, string_eq, strip,
  suc, text_eq, zero, ℕ, ◌==◌, ◌∷◌, ◌≡◌, ◌≤◌,
}
use metasight.Prelude.Dict.{Dict}
use metasight.Sql.{
  Children, Expr, child, depth, depth_in, end, get, item, literal, node, select, this_of,
}
use metasight.Rewrite.{Policy, build_alias_map, items_before}
use metasight.Rewrite.Projections.{null_expr}
use metasight.Rewrite.Filters.{AliasFilter, build_condition, condition_of, split_commas}
use metasight.Rewrite.Clauses.{rewritten}
use metasight.Rewrite.Closed.{AllIn, IsClosed, rewritten-AllIn}
use metasight.Rewrite.Nested.{over, over_in, rewrite_select, visit}

abbrev pub Within : ℕ → Expr → Type 0
Within n e = depth e ≤ n

pub depth_in-AllIn : (n : ℕ) (cs : Children) → depth_in cs ≤ n → AllIn (Within n) cs
unfolding depth
depth_in-AllIn n end h = tt
depth_in-AllIn n (item e cs) h = (omega arith, depth_in-AllIn n cs (omega arith))
depth_in-AllIn n (child key e cs) h = (omega arith, depth_in-AllIn n cs (omega arith))

pub AllIn-depth_in : (n : ℕ) (cs : Children) → AllIn (Within n) cs → depth_in cs ≤ n
unfolding depth
AllIn-depth_in n end h = omega arith
AllIn-depth_in n (item e cs) h = omega (arith, AllIn-depth_in n cs)
AllIn-depth_in n (child key e cs) h = omega (arith, AllIn-depth_in n cs)

depth_in-literals :
    (values : List Text)
    → depth_in (items_before (map (λ v. node (literal (strip v)) end) values) end) ≡ 0
unfolding depth
depth_in-literals [] = refl
depth_in-literals (v ∷ values) = omega (arith, depth_in-literals values)

depth-condition_of : (f : AliasFilter) → depth (condition_of f) ≡ 0
unfolding build_condition depth
depth-condition_of f = ground (arith, depth_in-literals (split_commas f.condition.value))

depth-null_expr : (out : String) → depth (null_expr out) ≡ 0
unfolding depth
depth-null_expr out = elim (Bool-cases (out == "")) [ inl e ↦ rw e refl | inr e ↦ rw e refl ]

depth-get : (key : String) (cs : Children) {e : Expr} → get key cs ≡ some e → depth e ≤ depth_in cs
unfolding depth
depth-get key end g = absurd (cc)
depth-get key (item e' cs) {e} g = omega (arith, depth-get key cs {e = e} g)
depth-get key (child j e' cs) {e} g = elim (Bool-cases (j == key)) [
  | inl same ↦ let found : e' ≡ e = ground arith in rw (← found) (omega arith)
  | inr another ↦ omega (arith, depth-get key cs {e = e} (ground arith))
]

depth-this_of : (clause e : Expr) → this_of clause ≡ some e → depth e ≤ depth clause
unfolding depth
depth-this_of (node select cs) e h = absurd (cc)
depth-this_of (node k cs) e h = omega (arith, depth-get "this" cs {e = e} h)

Within-IsClosed : (n : ℕ) → IsClosed (Within n)
unfolding depth
Within-IsClosed n = record {
  of_column = λ q name. omega arith;
  of_null = λ out. omega (arith, depth-null_expr out);
  of_condition = λ f. omega (arith, depth-condition_of f);
  of_both = λ a b p q. omega arith;
  of_where = λ e p. omega arith;
  of_inside = λ clause e p q. omega (arith, depth-this_of clause e q);
}

module _ (dialect : String) (table_policies : Dict Policy) where
  pub rewrite_select-AllIn :
      (P : Expr → Type 0)
      → IsClosed P
      → (cs : Children) → AllIn P cs
      → AllIn P (rewrite_select dialect table_policies cs)
  unfolding rewrite_select
  rewrite_select-AllIn P closed cs h =
      let m = build_alias_map cs table_policies in
      elim m as (λ d. AllIn P (elim d [ [] ↦ cs | e ∷ rest ↦ rewritten m dialect cs ])) [
        | [] ↦ h
        | e ∷ rest ↦ rewritten-AllIn P closed m dialect cs h
      ]

  pub depth_in-rewrite_select :
      (cs : Children) → depth_in (rewrite_select dialect table_policies cs) ≤ depth_in cs
  depth_in-rewrite_select cs =
      let n = depth_in cs in
      AllIn-depth_in n (rewrite_select dialect table_policies cs)
        (rewrite_select-AllIn (Within n) (Within-IsClosed n) cs (depth_in-AllIn n cs (omega arith)))

  mutual
    unfolding depth over

    depth-over :
        (g : Children → Children)
        → ((cs : Children) → depth_in (g cs) ≤ depth_in cs)
        → (e : Expr) → depth (over g e) ≤ depth e
    depth-over g small (node select cs) = omega (arith, small cs)
    depth-over g small (node k cs) = depth_in-over_in g small cs

    depth_in-over_in :
        (g : Children → Children)
        → ((cs : Children) → depth_in (g cs) ≤ depth_in cs)
        → (cs : Children) → depth_in (over_in g cs) ≤ depth_in cs
    depth_in-over_in g small end = omega arith
    depth_in-over_in g small (item e cs) =
        omega (arith, depth-over g small e, depth_in-over_in g small cs)
    depth_in-over_in g small (child key e cs) =
        omega (arith, depth-over g small e, depth_in-over_in g small cs)

  depth_in-visit :
      (f : ℕ) (cs : Children) → depth_in (visit dialect table_policies f cs) ≤ depth_in cs
  unfolding visit
  depth_in-visit zero cs = omega arith
  depth_in-visit (suc f) cs =
      let g = visit dialect table_policies f in
      let inside = over_in g cs in
      let r = rewrite_select dialect table_policies inside in
      omega (
        arith,
        depth_in-over_in g (depth_in-visit f) cs,
        depth_in-rewrite_select inside,
        depth_in-over_in g (depth_in-visit f) r,
      )

  -- A Select whose inner ones were visited is nested no deeper, nor is it once it is rewritten.
  pub depth_in-inside :
      (f : ℕ) (cs : Children)
      → depth_in
          (rewrite_select dialect table_policies (over_in (visit dialect table_policies f) cs))
        ≤ depth_in cs
  depth_in-inside f cs =
      let g = visit dialect table_policies f in
      omega
        (arith, depth_in-over_in g (depth_in-visit f) cs, depth_in-rewrite_select (over_in g cs))
