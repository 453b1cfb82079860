-- ===== src/Rewrite/Inner.antt =====
-- A change inside the nested SELECTs leaves the SELECT around them its tables and its own columns
-- (backend/app/rewriters/sql_rewriter.py).
use metasight.Prelude.{
  List, Option, Option-cases, String, [], ap, arith, inl, inr, map, none, refl, some, ◌++◌, ◌∷◌,
  ◌≡◌,
}
use metasight.Prelude.Dict.{Dict}
use metasight.Sql.{
  Children, Expr, child, column_of, end, get, get_all, item, node, own_columns, own_columns_in,
  select, this_of,
}
use metasight.Rewrite.{Policy, add_source, add_sources, build_alias_map, from_and_joins}
use metasight.Rewrite.Denied.{SafeItems}
use metasight.Rewrite.Nested.{over, over_in}

-- The tables of a SELECT show no column that they deny.
abbrev pub SafeSelect : Dict Policy → Children → Type 0
SafeSelect table_policies cs = SafeItems (build_alias_map cs table_policies) cs

module _ (g : Children → Children) where
  abbrev over_option : Option Expr → Option Expr
  over_option none = none
  over_option (some e) = some (over g e)

  get-over : (key : String) (cs : Children) → get key (over_in g cs) ≡ over_option (get key cs)
  unfolding over
  get-over key end = refl
  get-over key (item e cs) = get-over key cs
  get-over key (child j e cs) = ground (arith, get-over key cs)

  get_all-over :
      (key : String) (cs : Children) → get_all key (over_in g cs) ≡ map (over g) (get_all key cs)
  unfolding over
  get_all-over key end = refl
  get_all-over key (item e cs) = get_all-over key cs
  get_all-over key (child j e cs) = ground (arith, get_all-over key cs)

  this-over : (e : Expr) → this_of (over g e) ≡ over_option (this_of e)
  unfolding over
  this-over (node select cs) = refl
  this-over (node _ cs) = get-over "this" cs

  add_source-over :
      (table_policies : Dict Policy) (e : Expr) (m : Dict Policy)
      → add_source table_policies (over g e) m ≡ add_source table_policies e m
  unfolding add_source over
  add_source-over table_policies (node select cs) m = refl
  add_source-over table_policies (node _ cs) m = refl

  add_sources-over :
      (table_policies : Dict Policy) (es : List Expr) (m : Dict Policy)
      → add_sources table_policies (map this_of (map (over g) es)) m
        ≡ add_sources table_policies (map this_of es) m
  unfolding add_sources
  add_sources-over table_policies [] m = refl
  add_sources-over table_policies (e ∷ es) m = rw (this-over e) (elim (Option-cases (this_of e)) [
    | inl h ↦ rw h (add_sources-over table_policies es m)
    | inr (s, h) ↦ rw h (
        rw (add_source-over table_policies s m)
          (add_sources-over table_policies es (add_source table_policies s m)))
  ])

  from-over :
      (table_policies : Dict Policy) (o : Option Expr) (joins : List Expr)
      → add_sources table_policies (from_and_joins (over_option o) (map (over g) joins)) []
        ≡ add_sources table_policies (from_and_joins o joins) []
  unfolding from_and_joins add_sources
  from-over table_policies none joins = add_sources-over table_policies joins []
  from-over table_policies (some clause) joins = add_sources-over table_policies (clause ∷ joins) []

  pub build_alias_map-over :
      (table_policies : Dict Policy) (cs : Children)
      → build_alias_map (over_in g cs) table_policies ≡ build_alias_map cs table_policies
  unfolding build_alias_map
  build_alias_map-over table_policies cs =
      rw (get-over "from_" cs, get_all-over "joins" cs)
        (from-over table_policies (get "from_" cs) (get_all "joins" cs))

  mutual
    unfolding own_columns over

    own_columns-over : (e : Expr) → own_columns (over g e) ≡ own_columns e
    own_columns-over (node select cs) = refl
    own_columns-over (node k cs) = ap (λ l. column_of k ++ l) (own_columns_in-over cs)

    own_columns_in-over : (cs : Children) → own_columns_in (over_in g cs) ≡ own_columns_in cs
    own_columns_in-over end = refl
    own_columns_in-over (item e cs) = rw (own_columns-over e, own_columns_in-over cs)
    own_columns_in-over (child key e cs) = rw (own_columns-over e, own_columns_in-over cs)

  SafeItems-over : (m : Dict Policy) (cs : Children) → SafeItems m cs → SafeItems m (over_in g cs)
  unfolding over
  SafeItems-over m end h = h
  SafeItems-over m (item e cs) h = (rw (own_columns-over e) h.0, SafeItems-over m cs h.1)
  SafeItems-over m (child key e cs) h = SafeItems-over m cs h

  pub SafeSelect-over :
      (table_policies : Dict Policy) (cs : Children)
      → SafeSelect table_policies cs
      → SafeSelect table_policies (over_in g cs)
  SafeSelect-over table_policies cs h =
      rw (build_alias_map-over table_policies cs)
        (SafeItems-over (build_alias_map cs table_policies) cs h)
