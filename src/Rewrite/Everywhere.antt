-- ===== src/Rewrite/Everywhere.antt =====
-- What every SELECT of a rewritten tree shows, at any depth
-- (backend/app/rewriters/sql_rewriter.py).
use metasight.Prelude.{
  Bool-cases, List, Option-cases, String, Text, [], ap, arith, inl, inr, map, nat_eq, refl, some,
  string_eq, strip, suc, text_eq, upper_string, zero, ℕ, ◌==◌, ◌∷◌, ◌≡◌, ◌≤◌,
}
use metasight.Prelude.Dict.{Dict, lookup}
use metasight.Sql.{
  Children, Expr, child, depth, depth_in, end, get, item, literal, node, select, this_of,
}
use metasight.Rewrite.{Policy, add_sources, build_alias_map, items_before}
use metasight.Rewrite.Projections.{null_expr}
use metasight.Rewrite.Filters.{AliasFilter, build_condition, condition_of, op_map, split_commas}
use metasight.Rewrite.Closed.{AllIn, IsClosed}
use metasight.Rewrite.Inner.{SafeSelect, SafeSelect-over}
use metasight.Rewrite.Nested.{over, over_in, rewrite_node, rewrite_select, visit}
use metasight.Rewrite.Clauses.{rewritten, rewritten-SafeItems, rewritten-sources}
use metasight.Rewrite.Denied.{no_policy-SafeItems}
use metasight.Rewrite.Depth.{depth_in-inside, rewrite_select-AllIn}

-- No projection of a Select in the tree has an own column that a decision on its tables denies.
unfoldable mutual
  pub SafeTree : Dict Policy → Expr → Type 0
  SafeTree tp (node select cs) = SafeSelect tp cs × SafeIn tp cs
  SafeTree tp (node k cs) = SafeIn tp cs

  pub SafeIn : Dict Policy → Children → Type 0
  SafeIn tp end = Unit
  SafeIn tp (item e cs) = SafeTree tp e × SafeIn tp cs
  SafeIn tp (child key e cs) = SafeTree tp e × SafeIn tp cs

module _ (tp : Dict Policy) where
  SafeIn-AllIn : (cs : Children) → SafeIn tp cs → AllIn (SafeTree tp) cs
  unfolding SafeTree
  SafeIn-AllIn end h = tt
  SafeIn-AllIn (item e cs) h = (h.0, SafeIn-AllIn cs h.1)
  SafeIn-AllIn (child key e cs) h = (h.0, SafeIn-AllIn cs h.1)

  AllIn-SafeIn : (cs : Children) → AllIn (SafeTree tp) cs → SafeIn tp cs
  unfolding SafeTree
  AllIn-SafeIn end h = tt
  AllIn-SafeIn (item e cs) h = (h.0, AllIn-SafeIn cs h.1)
  AllIn-SafeIn (child key e cs) h = (h.0, AllIn-SafeIn cs h.1)

  literals_safe :
      (values : List Text)
      → SafeIn tp (items_before (map (λ v. node (literal (strip v)) end) values) end)
  unfolding SafeTree
  literals_safe [] = tt
  literals_safe (v ∷ values) = (tt, literals_safe values)

  condition_safe : (f : AliasFilter) → SafeTree tp (condition_of f)
  unfolding build_condition SafeTree
  condition_safe f = elim (Option-cases (lookup f.condition.operator op_map)) [
    | inl e ↦
        rw (e, build_condition)
          (elim (Bool-cases (upper_string f.condition.operator == "IN")) [
            | inl i ↦ rw i (tt, literals_safe (split_commas f.condition.value))
            | inr i ↦ rw i (elim (Bool-cases (upper_string f.condition.operator == "LIKE")) [
              | inl l ↦ rw l (tt, (tt, tt))
              | inr l ↦ rw l (tt, (tt, tt))
            ])
          ])
    | inr (c, e) ↦ rw (e, build_condition) (tt, (tt, tt))
  ]

  null_safe : (out : String) → SafeTree tp (null_expr out)
  unfolding SafeTree
  null_safe out = elim (Bool-cases (out == "")) [ inl e ↦ rw e tt | inr e ↦ rw e (tt, tt) ]

  pub get_safe :
      (key : String) (cs : Children) {e : Expr} → SafeIn tp cs → get key cs ≡ some e → SafeTree tp e
  unfolding SafeTree
  get_safe key end h g = absurd (cc)
  get_safe key (item e' cs) {e} h g = get_safe key cs {e = e} h.1 g
  get_safe key (child j e' cs) {e} h g = elim (Bool-cases (j == key)) [
    | inl same ↦ let found : e' ≡ e = ground arith in rw (← found) h.0
    | inr another ↦ get_safe key cs {e = e} h.1 (ground arith)
  ]

  this_safe : (clause e : Expr) → SafeTree tp clause → this_of clause ≡ some e → SafeTree tp e
  unfolding SafeTree
  this_safe (node select cs) e h q = absurd (cc)
  this_safe (node k cs) e h q = get_safe "this" cs {e = e} h q

  SafeTree-IsClosed : IsClosed (SafeTree tp)
  unfolding SafeTree
  SafeTree-IsClosed = record {
    of_column = λ q name. tt;
    of_null = null_safe;
    of_condition = condition_safe;
    of_both = λ a b p q. (p, (q, tt));
    of_where = λ e p. (p, tt);
    of_inside = this_safe;
  }

  mutual
    unfolding SafeTree over depth

    -- A change that makes each Select safe makes the tree safe.
    over_safe :
        (g : Children → Children) (n : ℕ)
        → ((cs : Children) → suc (depth_in cs) ≤ n → SafeSelect tp (g cs) × SafeIn tp (g cs))
        → (e : Expr) → depth e ≤ n
        → SafeTree tp (over g e)
    over_safe g n good (node select cs) h = good cs h
    over_safe g n good (node k cs) h = over_in_safe g n good cs h

    over_in_safe :
        (g : Children → Children) (n : ℕ)
        → ((cs : Children) → suc (depth_in cs) ≤ n → SafeSelect tp (g cs) × SafeIn tp (g cs))
        → (cs : Children) → depth_in cs ≤ n
        → SafeIn tp (over_in g cs)
    over_in_safe g n good end h = tt
    over_in_safe g n good (item e cs) h =
        (over_safe g n good e (omega arith), over_in_safe g n good cs (omega arith))
    over_in_safe g n good (child key e cs) h =
        (over_safe g n good e (omega arith), over_in_safe g n good cs (omega arith))

module _ (dialect : String) (tp : Dict Policy) where
  rewrite_select-SafeSelect : (cs : Children) → SafeSelect tp (rewrite_select dialect tp cs)
  unfolding rewrite_select build_alias_map
  rewrite_select-SafeSelect cs =
      let m = build_alias_map cs tp in
      elim m
          as (λ d. m ≡ d → SafeSelect tp (elim d [ [] ↦ cs | e ∷ rest ↦ rewritten m dialect cs ])) [
            | [] ↦ λ e. rw e (no_policy-SafeItems cs)
            | e ∷ rest ↦ λ q.
                rw (ap (λ s. add_sources tp s []) (rewritten-sources m dialect cs))
                  (rewritten-SafeItems m dialect cs)
          ]
        refl

  rewrite_select-SafeIn : (cs : Children) → SafeIn tp cs → SafeIn tp (rewrite_select dialect tp cs)
  rewrite_select-SafeIn cs h = AllIn-SafeIn tp (rewrite_select dialect tp cs) (
      rewrite_select-AllIn dialect tp (SafeTree tp) (SafeTree-IsClosed tp) cs
        (SafeIn-AllIn tp cs h))

  visit_safe :
      (f : ℕ) (cs : Children)
      → suc (depth_in cs) ≤ f
      → SafeSelect tp (visit dialect tp f cs) × SafeIn tp (visit dialect tp f cs)
  unfolding visit
  visit_safe zero cs h = absurd (omega arith)
  visit_safe (suc f) cs h =
      let g = visit dialect tp f in
      let inside = over_in g cs in
      let r = rewrite_select dialect tp inside in
      (
        SafeSelect-over g tp r (rewrite_select-SafeSelect inside),
        over_in_safe tp g f (visit_safe f) r (omega (arith, depth_in-inside dialect tp f cs)),
      )

  -- With fuel for the depth of the query, no SELECT of the rewritten query, however deep it is nested,
  -- has a projection with a column of its own that is denied: under the decisions on its own FROM
  -- clause and joins, in which a qualifier is looked up as it is spelled and a star is the column
  -- `*`, every such column resolves to another action than `deny`.
  pub rewrite_node_safe :
      (f : ℕ) (cs : Children)
      → depth_in cs ≤ f
      → SafeTree tp (node select (rewrite_node dialect tp f cs))
  unfolding rewrite_node SafeTree
  rewrite_node_safe f cs h =
      let g = visit dialect tp f in
      let inside = over_in g cs in
      (
        rewrite_select-SafeSelect inside,
        rewrite_select-SafeIn inside (over_in_safe tp g f (visit_safe f) cs h),
      )
