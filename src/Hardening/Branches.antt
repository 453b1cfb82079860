-- ===== src/Hardening/Branches.antt =====
-- The SELECTs of a set operation (rewrite_union_tree of backend/app/rewriters/hardening.py).
use metasight.Prelude.{
  Bool-cases, List, [], ap, if◌then◌else◌, inl, inr, map, nat_eq, refl, string_eq, sym, text_eq,
  ◌++◌, ◌==◌, ◌||◌, ◌∷◌, ◌≡◌,
}
use metasight.Sql.{Children, Expr, child, end, item, node, select, set_op}
use metasight.Hardening.{branches_in, collect_select_branches, rewrite_branches, rewrite_union_tree}

map-append_lem :
    (g : Children → Children) (xs ys : List Children) → map g (xs ++ ys) ≡ map g xs ++ map g ys
map-append_lem g [] ys = refl
map-append_lem g (x ∷ xs) ys = ap (λ l. g x ∷ l) (map-append_lem g xs ys)

mutual
  unfolding collect_select_branches rewrite_union_tree

  collect_map :
      (g : Children → Children) (e : Expr)
      → collect_select_branches (rewrite_union_tree g e) ≡ map g (collect_select_branches e)
  collect_map g (node select cs) = refl
  collect_map g (node (set_op op) cs) = branches_map g cs
  collect_map g (node _ cs) = refl

  branches_map :
      (g : Children → Children) (cs : Children)
      → branches_in (rewrite_branches g cs) ≡ map g (branches_in cs)
  branches_map g end = refl
  branches_map g (item e cs) = branches_map g cs
  branches_map g (child key e cs) = elim (Bool-cases (key == "this" || key == "expression")) [
    | inl h ↦ rw h (
        rw h (
          rw (collect_map g e, branches_map g cs)
            (sym (map-append_lem g (collect_select_branches e) (branches_in cs)))))
    | inr h ↦ rw h (rw h (branches_map g cs))
  ]

-- The SELECTs of a rewritten set operation are those of the operation, in their order, each rewritten.
pub collect-rewrite_union_tree :
    (g : Children → Children) (e : Expr)
    → collect_select_branches (rewrite_union_tree g e) ≡ map g (collect_select_branches e)
collect-rewrite_union_tree g e = collect_map g e

-- A tree of set operations without the contents of its SELECT branches. All else is in it: branches of
-- other classes, as the Subquery of a SELECT in parentheses, and the other args of the operations, as
-- a WITH clause.
unfoldable mutual
  pub frame : Expr → Expr
  frame (node select cs) = node select end
  frame (node (set_op op) cs) = node (set_op op) (frame_in cs)
  frame e = e

  pub frame_in : Children → Children
  frame_in end = end
  frame_in (item e cs) = item e (frame_in cs)
  frame_in (child key e cs) =
      let inner = frame e in
      let rest = frame_in cs in
      child key (if key == "this" || key == "expression" then inner else e) rest

mutual
  unfolding frame rewrite_union_tree

  frame_kept : (g : Children → Children) (e : Expr) → frame (rewrite_union_tree g e) ≡ frame e
  frame_kept g (node select cs) = refl
  frame_kept g (node (set_op op) cs) = ap (λ l. node (set_op op) l) (frame_in_kept g cs)
  frame_kept g (node _ cs) = refl

  frame_in_kept :
      (g : Children → Children) (cs : Children) → frame_in (rewrite_branches g cs) ≡ frame_in cs
  frame_in_kept g end = refl
  frame_in_kept g (item e cs) = ap (λ l. item e l) (frame_in_kept g cs)
  frame_in_kept g (child key e cs) = elim (Bool-cases (key == "this" || key == "expression")) [
    | inl h ↦ rw h (rw h (rw (frame_kept g e, frame_in_kept g cs) refl))
    | inr h ↦ rw h (rw h (ap (λ l. child key e l) (frame_in_kept g cs)))
  ]

-- Of a tree of set operations, however deep and mixed, exactly the SELECTs that are branches without
-- parentheses are rewritten, in their order; the rest of the tree is left as it is: the operations,
-- branches in parentheses, whatever they select, and WITH clauses.
pub rewrite_union_tree_lem :
    (g : Children → Children) (tree : Expr)
    → (collect_select_branches (rewrite_union_tree g tree) ≡ map g (collect_select_branches tree))
      × (frame (rewrite_union_tree g tree) ≡ frame tree)
rewrite_union_tree_lem g tree = (collect_map g tree, frame_kept g tree)
