-- ===== src/Hardening/Inference.antt =====
-- What ORDER BY and HAVING refer to after the stripping
-- (strip_inference_bypass of backend/app/rewriters/hardening.py).
use metasight.Prelude.{
  All, Bool-cases, List, Option, String, [], arith, elem, eq_iff, false, inl, inr, nat_eq, none,
  refl, some, string_eq, text_eq, ◌++◌, ◌==◌, ◌∷◌, ◌≡◌,
}
use metasight.Sql.{
  Children, ColumnRef, Expr, child, children, columns, end, get, item, items, node, other,
  remove_child, set_child,
}
use metasight.Hardening.{
  all_denied, denied_names, drop_having, keep_ordered, removed_names, set_order, strip_having,
  strip_inference_bypass, strip_order,
}
use metasight.Prelude.Dict.{Dict}
use metasight.Rewrite.{Policy}

-- No column below the node has a denied name.
abbrev pub Free : List String → Expr → Type 0
Free denied e = All (λ ref. elem ref.name denied ≡ false) (columns e)

abbrev pub FreeOrder : List String → Option Expr → Type 0
FreeOrder denied none = Unit
FreeOrder denied (some order) = All (Free denied) (items (children order))

abbrev pub FreeHaving : List String → Option Expr → Type 0
FreeHaving denied none = Unit
FreeHaving denied (some having) = Free denied having

get-remove_child : (key : String) (cs : Children) → get key (remove_child key cs) ≡ none
unfolding remove_child
get-remove_child key end = refl
get-remove_child key (item e cs) = get-remove_child key cs
get-remove_child key (child j e cs) = ground (arith, get-remove_child key cs)

get-set_self : (key : String) (v : Expr) (cs : Children) → get key (set_child key v cs) ≡ some v
unfolding set_child
get-set_self key v end = ground (arith, eq_iff key key)
get-set_self key v (item e cs) = get-set_self key v cs
get-set_self key v (child j e cs) = ground (arith, get-set_self key v cs)

module _ (denied : List String) where
  none_denied :
      (refs : List ColumnRef)
      → denied_names denied refs ≡ []
      → All (λ ref. elem ref.name denied ≡ false) refs
  unfolding denied_names
  none_denied [] h = tt
  none_denied (ref ∷ refs) h = elim (Bool-cases (elem ref.name denied)) [
    | inl d ↦ absurd (ground arith)
    | inr d ↦ (d, none_denied refs (ground arith))
  ]

  append_nil : (xs ys : List String) → xs ++ ys ≡ [] → (xs ≡ []) × (ys ≡ [])
  append_nil [] ys h = (refl, h)
  append_nil (x ∷ xs) ys h = absurd (cc)

  none_removed : (cs : Children) → removed_names denied cs ≡ [] → All (Free denied) (items cs)
  unfolding removed_names
  none_removed end h = tt
  none_removed (item e cs) h =
      let (a, b) = append_nil (denied_names denied (columns e)) (removed_names denied cs) h in
      (none_denied (columns e) a, none_removed cs b)
  none_removed (child key e cs) h = none_removed cs h

  keep_ordered-Free : (cs : Children) → All (Free denied) (items (keep_ordered denied cs))
  unfolding keep_ordered
  keep_ordered-Free end = tt
  keep_ordered-Free (item e cs) =
      let rest = keep_ordered denied cs in
      elim (denied_names denied (columns e))
          as (λ names.
            denied_names denied (columns e) ≡ names
            → All (Free denied) (items (elim names [ [] ↦ item e rest | n ∷ ns ↦ rest ]))) [
              | [] ↦ λ h. (none_denied (columns e) h, keep_ordered-Free cs)
              | n ∷ ns ↦ λ h. keep_ordered-Free cs
            ]
        refl
  keep_ordered-Free (child key e cs) = keep_ordered-Free cs

  set_order-Free :
      (names : List String) (order : Expr) (cs : Children)
      → get "order" cs ≡ some order
      → removed_names denied (children order) ≡ names
      → FreeOrder denied (get "order" (set_order names (keep_ordered denied (children order)) cs))
  unfolding set_order
  set_order-Free [] order cs q h = rw q (none_removed (children order) h)
  set_order-Free (n ∷ ns) order cs q h =
      let kept = keep_ordered denied (children order) in
      elim (items kept)
        as (λ es. FreeOrder denied (
          get "order" (elim es [
            | [] ↦ remove_child "order" cs
            | e ∷ es' ↦ set_child "order" (node (other "Order") kept) cs
          ]))) [
            | [] ↦ rw (get-remove_child "order" cs) tt
            | e ∷ es' ↦
                rw (get-set_self "order" (node (other "Order") kept) cs)
                  (keep_ordered-Free (children order))
          ]

  pub strip_order-Free :
      (o : Option Expr) (cs : Children)
      → get "order" cs ≡ o
      → FreeOrder denied (get "order" (strip_order denied o cs))
  unfolding strip_order
  strip_order-Free none cs q = rw q tt
  strip_order-Free (some order) cs q =
      set_order-Free (removed_names denied (children order)) order cs q refl

  drop_having-Free :
      (names : List String) (having : Expr) (cs : Children)
      → get "having" cs ≡ some having
      → denied_names denied (columns having) ≡ names
      → FreeHaving denied (get "having" (drop_having names cs))
  unfolding drop_having
  drop_having-Free [] having cs q h = rw q (none_denied (columns having) h)
  drop_having-Free (n ∷ ns) having cs q h = rw (get-remove_child "having" cs) tt

  pub strip_having-Free :
      (o : Option Expr) (cs : Children)
      → get "having" cs ≡ o
      → FreeHaving denied (get "having" (strip_having denied o cs))
  unfolding strip_having
  strip_having-Free none cs q = rw q tt
  strip_having-Free (some having) cs q =
      drop_having-Free (denied_names denied (columns having)) having cs q refl

-- Neither step touches the arg of the other.
pub get-remove_other :
    (key j : String) (cs : Children) → (j == key) ≡ false → get key (remove_child j cs) ≡ get key cs
unfolding remove_child
get-remove_other key j end h = refl
get-remove_other key j (item e cs) h = get-remove_other key j cs h
get-remove_other key j (child i e cs) h = ground (arith, eq_iff i j, get-remove_other key j cs h)

pub get-set_other :
    (key j : String) (v : Expr) (cs : Children)
    → (j == key) ≡ false
    → get key (set_child j v cs) ≡ get key cs
unfolding set_child
get-set_other key j v end h = rw h refl
get-set_other key j v (item e cs) h = get-set_other key j v cs h
get-set_other key j v (child i e cs) h = ground (arith, eq_iff i j, get-set_other key j v cs h)

having-set_order :
    (names : List String) (kept cs : Children)
    → get "having" (set_order names kept cs) ≡ get "having" cs
unfolding set_order
having-set_order [] kept cs = refl
having-set_order (n ∷ ns) kept cs =
    elim (items kept)
      as (λ es.
        get "having" (elim es [
          | [] ↦ remove_child "order" cs
          | e ∷ es' ↦ set_child "order" (node (other "Order") kept) cs
        ])
        ≡ get "having" cs) [
          | [] ↦ get-remove_other "having" "order" cs refl
          | e ∷ es' ↦ get-set_other "having" "order" (node (other "Order") kept) cs refl
        ]

having-strip_order :
    (denied : List String) (o : Option Expr) (cs : Children)
    → get "having" (strip_order denied o cs) ≡ get "having" cs
unfolding strip_order
having-strip_order denied none cs = refl
having-strip_order denied (some order) cs =
    having-set_order (removed_names denied (children order)) (keep_ordered denied (children order))
      cs

order-strip_having :
    (denied : List String) (o : Option Expr) (cs : Children)
    → get "order" (strip_having denied o cs) ≡ get "order" cs
unfolding strip_having drop_having
order-strip_having denied none cs = refl
order-strip_having denied (some having) cs =
    elim (denied_names denied (columns having))
      as (λ names. get "order" (drop_having names cs) ≡ get "order" cs) [
        | [] ↦ refl
        | n ∷ ns ↦ get-remove_other "order" "having" cs refl
      ]

-- After the stripping, no element of ORDER BY and no HAVING clause has a column, at any depth, that a
-- decision on a table of the query denies by that very name.
pub strip_inference_bypass-Free :
    (table_policies : Dict Policy) (cs : Children)
    → FreeOrder (all_denied table_policies) (get "order" (strip_inference_bypass table_policies cs))
      × FreeHaving
          (all_denied table_policies)
          (get "having" (strip_inference_bypass table_policies cs))
unfolding strip_inference_bypass
strip_inference_bypass-Free table_policies cs =
    let denied = all_denied table_policies in
    let ordered = strip_order denied (get "order" cs) cs in
    (
      rw (order-strip_having denied (get "having" cs) ordered)
          (strip_order-Free denied (get "order" cs) cs refl),
      strip_having-Free denied (get "having" cs) ordered
          (having-strip_order denied (get "order" cs) cs),
    )
