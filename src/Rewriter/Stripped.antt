-- ===== src/Rewriter/Stripped.antt =====
-- The stripping of ORDER BY and HAVING leaves a safe SELECT safe
-- (strip_inference_bypass of backend/app/rewriters/hardening.py).
use metasight.Prelude.{
  Bool-cases, List, Option, String, [], ap, arith, eq_iff, false, inl, inr, nat_eq, none, refl,
  some, string_eq, text_eq, ◌==◌, ◌∷◌, ◌≡◌,
}
use metasight.Prelude.Dict.{Dict}
use metasight.Sql.{
  Children, Expr, child, children, columns, end, get, get_all, item, items, node, other,
  remove_child, select, set_child,
}
use metasight.Rewrite.{Policy, add_sources, build_alias_map, sources_of}
use metasight.Rewrite.Denied.{SafeItems, set_child-SafeItems}
use metasight.Rewrite.Everywhere.{SafeIn, SafeTree, get_safe}
use metasight.Rewrite.Inner.{SafeSelect}
use metasight.Hardening.{
  all_denied, denied_names, drop_having, keep_ordered, removed_names, set_order, strip_having,
  strip_inference_bypass, strip_order,
}
use metasight.Hardening.Inference.{get-remove_other, get-set_other}

get_all-remove_other :
    (key j : String) (cs : Children)
    → (j == key) ≡ false
    → get_all key (remove_child j cs) ≡ get_all key cs
unfolding remove_child
get_all-remove_other key j end h = refl
get_all-remove_other key j (item e cs) h = get_all-remove_other key j cs h
get_all-remove_other key j (child i e cs) h =
    ground (arith, eq_iff i j, get_all-remove_other key j cs h)

get_all-set_other :
    (key j : String) (v : Expr) (cs : Children)
    → (j == key) ≡ false
    → get_all key (set_child j v cs) ≡ get_all key cs
unfolding set_child
get_all-set_other key j v end h = rw h refl
get_all-set_other key j v (item e cs) h = get_all-set_other key j v cs h
get_all-set_other key j v (child i e cs) h =
    ground (arith, eq_iff i j, get_all-set_other key j v cs h)

remove_child-SafeItems :
    (m : Dict Policy) (key : String) (cs : Children)
    → SafeItems m cs
    → SafeItems m (remove_child key cs)
unfolding remove_child
remove_child-SafeItems m key end h = tt
remove_child-SafeItems m key (item e cs) h = (h.0, remove_child-SafeItems m key cs h.1)
remove_child-SafeItems m key (child j e cs) h = elim (Bool-cases (j == key)) [
  | inl same ↦ rw same (remove_child-SafeItems m key cs h)
  | inr another ↦ rw another (remove_child-SafeItems m key cs h)
]

module _ (tp : Dict Policy) where
  remove_child-SafeIn :
      (key : String) (cs : Children) → SafeIn tp cs → SafeIn tp (remove_child key cs)
  unfolding remove_child SafeTree
  remove_child-SafeIn key end h = tt
  remove_child-SafeIn key (item e cs) h = (h.0, remove_child-SafeIn key cs h.1)
  remove_child-SafeIn key (child j e cs) h = elim (Bool-cases (j == key)) [
    | inl same ↦ rw same (remove_child-SafeIn key cs h.1)
    | inr another ↦ rw another (h.0, remove_child-SafeIn key cs h.1)
  ]

  set_child-SafeIn :
      (key : String) (v : Expr) (cs : Children)
      → SafeTree tp v
      → SafeIn tp cs
      → SafeIn tp (set_child key v cs)
  unfolding set_child SafeTree
  set_child-SafeIn key v end p h = (p, tt)
  set_child-SafeIn key v (item e cs) p h = (h.0, set_child-SafeIn key v cs p h.1)
  set_child-SafeIn key v (child j e cs) p h = elim (Bool-cases (j == key)) [
    | inl same ↦ rw same (p, h.1)
    | inr another ↦ rw another (h.0, set_child-SafeIn key v cs p h.1)
  ]

  keep_ordered-SafeIn :
      (denied : List String) (cs : Children) → SafeIn tp cs → SafeIn tp (keep_ordered denied cs)
  unfolding keep_ordered SafeTree
  keep_ordered-SafeIn denied end h = tt
  keep_ordered-SafeIn denied (item e cs) h =
      let rest = keep_ordered-SafeIn denied cs h.1 in
      elim (denied_names denied (columns e))
        as (λ names.
          SafeIn tp (elim names [
            | [] ↦ item e (keep_ordered denied cs)
            | n ∷ ns ↦ keep_ordered denied cs
          ])) [ [] ↦ (h.0, rest) | n ∷ ns ↦ rest ]
  keep_ordered-SafeIn denied (child key e cs) h = (h.0, keep_ordered-SafeIn denied cs h.1)

  children-SafeIn : (e : Expr) → SafeTree tp e → SafeIn tp (children e)
  unfolding SafeTree
  children-SafeIn (node select cs) h = h.1
  children-SafeIn (node _ cs) h = h

  -- A change of a Select that keeps its tables and what is safe in it.
  abbrev Keeps : Children → Children → Type 0
  Keeps cs ds = SafeSelect tp cs × SafeIn tp cs → SafeSelect tp ds × SafeIn tp ds

  same_sources :
      (cs ds : Children)
      → get "from_" ds ≡ get "from_" cs
      → get_all "joins" ds ≡ get_all "joins" cs
      → build_alias_map ds tp ≡ build_alias_map cs tp
  unfolding build_alias_map
  same_sources cs ds f j =
      let sources : sources_of ds ≡ sources_of cs = rw f (rw j refl) in
      ap (λ s. add_sources tp s []) sources

  remove_child-Keeps :
      (key : String) (cs : Children)
      → (key == "from_") ≡ false
      → (key == "joins") ≡ false
      → Keeps cs (remove_child key cs)
  remove_child-Keeps key cs f j h = (
    rw
        (same_sources cs (remove_child key cs) (get-remove_other "from_" key cs f)
          (get_all-remove_other "joins" key cs j))
        (remove_child-SafeItems (build_alias_map cs tp) key cs h.0),
    remove_child-SafeIn key cs h.1,
  )

  set_child-Keeps :
      (key : String) (v : Expr) (cs : Children)
      → (key == "from_") ≡ false
      → (key == "joins") ≡ false
      → SafeTree tp v
      → Keeps cs (set_child key v cs)
  set_child-Keeps key v cs f j p h = (
    rw
        (same_sources cs (set_child key v cs) (get-set_other "from_" key v cs f)
          (get_all-set_other "joins" key v cs j))
        (set_child-SafeItems (build_alias_map cs tp) key v cs h.0),
    set_child-SafeIn key v cs p h.1,
  )

  set_order-Keeps :
      (names : List String) (kept cs : Children)
      → SafeIn tp kept
      → Keeps cs (set_order names kept cs)
  unfolding set_order SafeTree
  set_order-Keeps [] kept cs p h = h
  set_order-Keeps (n ∷ ns) kept cs p h =
      elim (items kept)
        as (λ es.
          SafeSelect tp (elim es [
            | [] ↦ remove_child "order" cs
            | e ∷ es' ↦ set_child "order" (node (other "Order") kept) cs
          ])
          × SafeIn tp (elim es [
            | [] ↦ remove_child "order" cs
            | e ∷ es' ↦ set_child "order" (node (other "Order") kept) cs
          ])) [
            | [] ↦ remove_child-Keeps "order" cs refl refl h
            | e ∷ es' ↦ set_child-Keeps "order" (node (other "Order") kept) cs refl refl p h
          ]

  strip_order-Keeps :
      (denied : List String) (o : Option Expr) (cs : Children)
      → get "order" cs ≡ o
      → Keeps cs (strip_order denied o cs)
  unfolding strip_order
  strip_order-Keeps denied none cs q h = h
  strip_order-Keeps denied (some order) cs q h =
      set_order-Keeps (removed_names denied (children order)) (keep_ordered denied (children order))
        cs
        (keep_ordered-SafeIn denied (children order)
          (children-SafeIn order (get_safe tp "order" cs {e = order} h.1 q)))
        h

  strip_having-Keeps :
      (denied : List String) (o : Option Expr) (cs : Children) → Keeps cs (strip_having denied o cs)
  unfolding strip_having drop_having
  strip_having-Keeps denied none cs h = h
  strip_having-Keeps denied (some having) cs h =
      elim (denied_names denied (columns having))
        as (λ names. SafeSelect tp (drop_having names cs) × SafeIn tp (drop_having names cs)) [
          | [] ↦ h
          | n ∷ ns ↦ remove_child-Keeps "having" cs refl refl h
        ]

  pub strip_inference_bypass-Safe :
      (cs : Children)
      → SafeSelect tp cs × SafeIn tp cs
      → SafeSelect tp (strip_inference_bypass tp cs) × SafeIn tp (strip_inference_bypass tp cs)
  unfolding strip_inference_bypass
  strip_inference_bypass-Safe cs h =
      let denied = all_denied tp in
      strip_having-Keeps denied (get "having" cs) (strip_order denied (get "order" cs) cs)
        (strip_order-Keeps denied (get "order" cs) cs refl h)
