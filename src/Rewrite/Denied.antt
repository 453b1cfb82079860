-- ===== src/Rewrite/Denied.antt =====
-- What one SELECT still shows after its projections were rewritten
-- (backend/app/rewriters/sql_rewriter.py).
use metasight.Prelude.{
  All, All-append, Bool, Bool-cases, List, String, [], arith, false, if◌then◌else◌, inl, inr, ltb,
  nat_eq, refl, string_eq, text_eq, true, ℕ, ◌++◌, ◌==◌, ◌∷◌, ◌≡◌, ◌≢◌, ◌≤◌,
}
use metasight.Prelude.Dict.{Dict, lookup}
use metasight.Sql.{
  Children, ColumnRef, Expr, alias_, child, column_of, columns, columns_in, end, item, node,
  own_columns, own_columns_in, select, set_child,
}
use metasight.Rewrite.{Action, Policy, action_rank, allow, deny, mask, resolve_action, tokenize}
use metasight.Rewrite.Projections.{
  Verdict, inner, is_column, judge, no_verdict, null_expr, out_alias, rewrite_projection,
  rewrite_projections,
}

-- No decision in force for the reference denies the column.
abbrev pub NotDenied : Dict Policy → ColumnRef → Type 0
NotDenied alias_map ref = (resolve_action ref.table ref.name alias_map).0 ≢ deny

module _ (alias_map : Dict Policy) where
  abbrev rank_of : ColumnRef → ℕ
  rank_of ref = action_rank (resolve_action ref.table ref.name alias_map).0

  judge_mono :
      (refs : List ColumnRef) (v : Verdict)
      → action_rank v.action ≤ action_rank (judge alias_map refs v).action
  unfolding judge
  judge_mono [] v = omega arith
  judge_mono (ref ∷ refs) v =
      let (action, pii) = resolve_action ref.table ref.name alias_map in
      let w : Verdict =
        if ltb (action_rank v.action) (action_rank action)
        then record { action = action; name = ref.name; pii = pii }
        else v in
      ground (arith, judge_mono refs w)

  -- The verdict is at least as strict as the action for every column.
  judge-All :
      (refs : List ColumnRef) (v : Verdict)
      → All (λ ref. rank_of ref ≤ action_rank (judge alias_map refs v).action) refs
  unfolding judge
  judge-All [] v = tt
  judge-All (ref ∷ refs) v =
      let (action, pii) = resolve_action ref.table ref.name alias_map in
      let w : Verdict =
        if ltb (action_rank v.action) (action_rank action)
        then record { action = action; name = ref.name; pii = pii }
        else v in
      (ground (arith, judge_mono refs w), judge-All refs w)

  below_deny :
      (refs : List ColumnRef) (a : Action)
      → All (λ ref. rank_of ref ≤ action_rank a) refs
      → a ≢ deny
      → All (NotDenied alias_map) refs
  below_deny [] a h n = tt
  below_deny (ref ∷ refs) a h n = (ground arith, below_deny refs a h.1 n)

  inner_shown :
      (proj : Expr)
      → All (NotDenied alias_map) (columns (inner proj))
      → All (NotDenied alias_map) (columns proj)
  unfolding columns
  inner_shown (node (alias_ a) (child key e end)) h = All-append _ (columns e) [] h tt
  inner_shown (node (alias_ a) end) h = h
  inner_shown (node (alias_ a) (item e cs)) h = h
  inner_shown (node (alias_ a) (child key e (item e' cs))) h = h
  inner_shown (node (alias_ a) (child key e (child j e' cs))) h = h
  inner_shown (node _ cs) h = h

  null_shown : (out : String) → All (NotDenied alias_map) (columns (null_expr out))
  unfolding columns
  null_shown out = elim (Bool-cases (out == "")) [ inl e ↦ rw e tt | inr e ↦ rw e tt ]

  if_shown :
      (b : Bool) (p q : Expr)
      → All (NotDenied alias_map) (columns p)
      → All (NotDenied alias_map) (columns q)
      → All (NotDenied alias_map) (columns (if b then p else q))
  if_shown true p q hp hq = hp
  if_shown false p q hp hq = hq

  -- No column of a rewritten projection is denied.
  rewrite_projection-NotDenied :
      (proj : Expr) → All (NotDenied alias_map) (columns (rewrite_projection alias_map proj))
  unfolding rewrite_projection
  rewrite_projection-NotDenied proj =
      let refs = columns (inner proj) in
      let v = judge alias_map refs no_verdict in
      let out = out_alias proj refs in
      elim v.action
          as (λ a.
            v.action ≡ a
            → All (NotDenied alias_map) (
                columns (elim a [
                  | deny ↦ null_expr out
                  | mask ↦ if is_column (inner proj) then proj else null_expr out
                  | tokenize ↦ proj
                  | allow ↦ proj
                ]))) [
                  | deny ↦ λ e. null_shown out
                  | mask ↦ λ e.
                      if_shown (is_column (inner proj)) proj (null_expr out)
                        (inner_shown proj
                          (below_deny refs v.action (judge-All refs no_verdict) (cc)))
                        (null_shown out)
                  | tokenize ↦ λ e.
                      inner_shown proj (below_deny refs v.action (judge-All refs no_verdict) (cc))
                  | allow ↦ λ e.
                      inner_shown proj (below_deny refs v.action (judge-All refs no_verdict) (cc))
                ]
        refl

module _ (P : ColumnRef → Type 0) where
  All-prefix : (xs ys : List ColumnRef) → All P (xs ++ ys) → All P xs
  All-prefix [] ys h = tt
  All-prefix (x ∷ xs) ys h = (h.0, All-prefix xs ys h.1)

  All-suffix : (xs ys : List ColumnRef) → All P (xs ++ ys) → All P ys
  All-suffix [] ys h = h
  All-suffix (x ∷ xs) ys h = All-suffix xs ys h.1

  mutual
    unfolding columns own_columns

    own_columns-All : (e : Expr) → All P (columns e) → All P (own_columns e)
    own_columns-All (node select cs) h = tt
    own_columns-All (node k cs) h =
        All-append P (column_of k) (own_columns_in cs) (All-prefix (column_of k) (columns_in cs) h)
          (own_columns_in-All cs (All-suffix (column_of k) (columns_in cs) h))

    own_columns_in-All : (cs : Children) → All P (columns_in cs) → All P (own_columns_in cs)
    own_columns_in-All end h = tt
    own_columns_in-All (item e cs) h =
        All-append P (own_columns e) (own_columns_in cs)
          (own_columns-All e (All-prefix (columns e) (columns_in cs) h))
          (own_columns_in-All cs (All-suffix (columns e) (columns_in cs) h))
    own_columns_in-All (child key e cs) h =
        All-append P (own_columns e) (own_columns_in cs)
          (own_columns-All e (All-prefix (columns e) (columns_in cs) h))
          (own_columns_in-All cs (All-suffix (columns e) (columns_in cs) h))

-- No own column of a projection is denied.
abbrev pub SafeItems : Dict Policy → Children → Type 0
SafeItems alias_map end = Unit
SafeItems alias_map (item e cs) = All (NotDenied alias_map) (own_columns e) × SafeItems alias_map cs
SafeItems alias_map (child key e cs) = SafeItems alias_map cs

pub rewrite_projections-SafeItems :
    (alias_map : Dict Policy) (cs : Children)
    → SafeItems alias_map (rewrite_projections alias_map cs)
unfolding rewrite_projections
rewrite_projections-SafeItems alias_map end = tt
rewrite_projections-SafeItems alias_map (item e cs) = (
  own_columns-All (NotDenied alias_map) (rewrite_projection alias_map e)
      (rewrite_projection-NotDenied alias_map e),
  rewrite_projections-SafeItems alias_map cs,
)
rewrite_projections-SafeItems alias_map (child key e cs) =
    rewrite_projections-SafeItems alias_map cs

pub set_child-SafeItems :
    (alias_map : Dict Policy) (key : String) (v : Expr) (cs : Children)
    → SafeItems alias_map cs
    → SafeItems alias_map (set_child key v cs)
unfolding set_child
set_child-SafeItems alias_map key v end h = tt
set_child-SafeItems alias_map key v (item e cs) h =
    (h.0, set_child-SafeItems alias_map key v cs h.1)
set_child-SafeItems alias_map key v (child j e cs) h = elim (Bool-cases (j == key)) [
  | inl same ↦ rw same h
  | inr another ↦ rw another (set_child-SafeItems alias_map key v cs h)
]

-- Without a decision nothing is denied.
no_policy-NotDenied : (ref : ColumnRef) → NotDenied [] ref
unfolding resolve_action lookup
no_policy-NotDenied ref = ground arith

All-NotDenied : (refs : List ColumnRef) → All (NotDenied []) refs
All-NotDenied [] = tt
All-NotDenied (ref ∷ refs) = (no_policy-NotDenied ref, All-NotDenied refs)

pub no_policy-SafeItems : (cs : Children) → SafeItems [] cs
no_policy-SafeItems end = tt
no_policy-SafeItems (item e cs) = (All-NotDenied (own_columns e), no_policy-SafeItems cs)
no_policy-SafeItems (child key e cs) = no_policy-SafeItems cs
