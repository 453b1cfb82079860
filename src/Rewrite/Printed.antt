-- ===== src/Rewrite/Printed.antt =====
-- How the text of a condition is read: sqlglot prints a connector as its two sides with the word
-- between them, and adds no parentheses that are not nodes of the tree; in SQL, AND binds tighter than
-- OR. Used for the WHERE clause that _inject_row_filters_multi of
-- backend/app/rewriters/sql_rewriter.py builds.
use metasight.Prelude.{
  Bool, Bool-cases, List, [], ap, arith, false, if◌then◌else◌, inl, inr, nat_eq, refl, string_eq,
  text_eq, true, ◌&&◌, ◌++◌, ◌==◌, ◌||◌, ◌∷◌, ◌≡◌,
}
use metasight.Sql.{Expr, and_, child, end, node, other}

-- The text of an AND: the last alternative of the one side goes on with the first of the other.
unfoldable pub glue : List (List Expr) → List (List Expr) → List (List Expr)
glue [] more = more
glue (g ∷ []) [] = g ∷ []
glue (g ∷ []) (h ∷ more) = (g ++ h) ∷ more
glue (g ∷ g' ∷ groups) more = g ∷ glue (g' ∷ groups) more

-- The alternatives of a condition, joined by OR outside parentheses, each by its conjuncts.
unfoldable pub alternatives : Expr → List (List Expr)
unfolding glue
alternatives (node and_ (child j a (child k b end))) = glue (alternatives a) (alternatives b)
alternatives (node (other name) (child j a (child k b end))) =
    let either = alternatives a ++ alternatives b in
    if name == "Or" then either else (node (other name) (child j a (child k b end)) ∷ []) ∷ []
alternatives e = (e ∷ []) ∷ []

-- Whether all of a list hold, and one of the alternatives, where the comparisons have the values given.
abbrev pub all_hold : (Expr → Bool) → List Expr → Bool
all_hold v [] = true
all_hold v (c ∷ conditions) = v c && all_hold v conditions

abbrev pub one_holds : (Expr → Bool) → List (List Expr) → Bool
one_holds v [] = false
one_holds v (g ∷ groups) = all_hold v g || one_holds v groups

abbrev pub before_last : List (List Expr) → List (List Expr)
before_last [] = []
before_last (g ∷ []) = []
before_last (g ∷ g' ∷ groups) = g ∷ before_last (g' ∷ groups)

abbrev pub last : List (List Expr) → List Expr
last [] = []
last (g ∷ []) = g
last (g ∷ g' ∷ groups) = last (g' ∷ groups)

module _ (v : Expr → Bool) where
  all_hold-append : (xs ys : List Expr) → all_hold v (xs ++ ys) ≡ (all_hold v xs && all_hold v ys)
  all_hold-append [] ys = ground arith
  all_hold-append (x ∷ xs) ys = ground (arith, all_hold-append xs ys)

  -- What is added by AND goes to the last alternative only.
  pub one_holds-glue :
      (g : List Expr) (groups : List (List Expr)) (conditions : List Expr)
      → one_holds v (glue (g ∷ groups) (conditions ∷ [])) ≡ (
          one_holds v (before_last (g ∷ groups))
          || all_hold v (last (g ∷ groups)) && all_hold v conditions)
  unfolding glue
  one_holds-glue g [] conditions = ground (arith, all_hold-append g conditions)
  one_holds-glue g (g' ∷ groups) conditions = ground (arith, one_holds-glue g' groups conditions)

  pub one_holds-last :
      (g : List Expr) (groups : List (List Expr))
      → one_holds v (g ∷ groups)
        ≡ (one_holds v (before_last (g ∷ groups)) || all_hold v (last (g ∷ groups)))
  one_holds-last g [] = ground arith
  one_holds-last g (g' ∷ groups) = ground (arith, one_holds-last g' groups)

-- Every condition has an alternative.
glue-cons :
    (g : List Expr) (groups more : List (List Expr))
    → (h : List Expr) × (rest : List (List Expr)) × (glue (g ∷ groups) more ≡ h ∷ rest)
unfolding glue
glue-cons g [] [] = (g, [], refl)
glue-cons g [] (h ∷ more) = (g ++ h, more, refl)
glue-cons g (g' ∷ groups) more = (g, glue (g' ∷ groups) more, refl)

pub alternatives-cons :
    (e : Expr) → (g : List Expr) × (groups : List (List Expr)) × (alternatives e ≡ g ∷ groups)
unfolding alternatives
alternatives-cons (node and_ (child j a (child k b end))) =
    let (g, groups, e) = alternatives-cons a in
    let (h, rest, f) = glue-cons g groups (alternatives b) in (h, rest, rw (e, alternatives) f)
alternatives-cons (node (other name) (child j a (child k b end))) =
    elim (Bool-cases (name == "Or")) [
      | inl is_or ↦
          let (g, groups, e) = alternatives-cons a in
          (g, groups ++ alternatives b, rw is_or (ap (λ l. l ++ alternatives b) e))
      | inr leaf ↦ (node (other name) (child j a (child k b end)) ∷ [], [], rw leaf refl)
    ]
alternatives-cons e = (e ∷ [], [], refl)
