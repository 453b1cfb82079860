-- ===== src/Rewrite/Fuel.antt =====
-- The fuel of the walk over nested SELECTs (backend/app/rewriters/sql_rewriter.py).
use native.Mathlib.Nat.{suc-add}
use metasight.Prelude.{String, ap, arith, refl, suc, zero, ℕ, ◌+◌, ◌≡◌, ◌≤◌}
use metasight.Prelude.Dict.{Dict}
use metasight.Sql.{Children, Expr, child, depth, depth_in, end, item, node, select}
use metasight.Rewrite.{Policy}
use metasight.Rewrite.Depth.{depth_in-inside}
use metasight.Rewrite.Nested.{over, over_in, rewrite_node, rewrite_select, visit}

mutual
  unfolding over depth

  -- Changes that agree on the Selects of a tree agree on the tree.
  over_ext :
      (g h : Children → Children) (n : ℕ)
      → ((cs : Children) → suc (depth_in cs) ≤ n → g cs ≡ h cs)
      → (e : Expr) → depth e ≤ n
      → over g e ≡ over h e
  over_ext g h n same (node select cs) p = ap (λ d. node select d) (same cs p)
  over_ext g h n same (node k cs) p = ap (λ d. node k d) (over_in_ext g h n same cs p)

  over_in_ext :
      (g h : Children → Children) (n : ℕ)
      → ((cs : Children) → suc (depth_in cs) ≤ n → g cs ≡ h cs)
      → (cs : Children) → depth_in cs ≤ n
      → over_in g cs ≡ over_in h cs
  over_in_ext g h n same end p = refl
  over_in_ext g h n same (item e cs) p =
      rw (over_ext g h n same e (omega arith), over_in_ext g h n same cs (omega arith))
  over_in_ext g h n same (child key e cs) p =
      rw (over_ext g h n same e (omega arith), over_in_ext g h n same cs (omega arith))

module _ (dialect : String) (tp : Dict Policy) where
  visit_stable :
      (f k : ℕ) (cs : Children)
      → suc (depth_in cs) ≤ f
      → visit dialect tp f cs ≡ visit dialect tp (f + k) cs
  unfolding visit
  visit_stable zero k cs p = absurd (omega arith)
  visit_stable (suc f) k cs p =
      let g = visit dialect tp f in
      let h = visit dialect tp (f + k) in
      let same = over_in_ext g h f (visit_stable f k) cs (omega arith) in
      rw suc-add (
        rw (← same) (
          over_in_ext g h f (visit_stable f k) (rewrite_select dialect tp (over_in g cs))
            (omega (arith, depth_in-inside dialect tp f cs))))

  -- The walk ends: with fuel for the depth of nested SELECTs, more fuel gives the same query.
  pub rewrite_node_stable :
      (f k : ℕ) (cs : Children)
      → depth_in cs ≤ f
      → rewrite_node dialect tp f cs ≡ rewrite_node dialect tp (f + k) cs
  unfolding rewrite_node
  rewrite_node_stable f k cs p =
      ap (rewrite_select dialect tp)
        (over_in_ext (visit dialect tp f) (visit dialect tp (f + k)) f (visit_stable f k) cs p)
