-- ===== src/Mongo/Columns.antt =====
-- What the projection of a rewritten query asks for.
-- About _apply_projection of backend/app/rewriters/mongo_rewriter.py.
use metasight.Prelude.{
  Bool-cases, Option, String, [], arith, eq_iff, if◌then◌else◌, inl, inr, nat_eq, none, refl, some,
  string_eq, text_eq, ◌==◌, ◌∙◌, ◌∷◌, ◌≡◌,
}
use metasight.Prelude.Dict.{Dict, DistinctKeys, either_of, insert, lookup, lookup-insert}
use metasight.Identity.{User}
use metasight.Json.{Json}
use metasight.Tokenization.{ColumnAction}
use metasight.Mongo.{apply_projection, projected}

-- The answer for one field of the projection.

abbrev pub shown : User → Option Json → Option ColumnAction → Option Json
shown user none pol = none
shown user (some include) none = some include
shown user (some include) (some pol) = projected user pol

-- One round of the loop, for a field and its policy.
abbrev round : User → String → Json → Option ColumnAction → Dict Json → Dict Json
round user name include pol result = elim pol [
  | none ↦ insert name include result
  | some pol ↦ elim (projected user pol) [ none ↦ result | some v ↦ insert name v result ]
]

lookup-put :
    (name : String) (o : Option Json) (result : Dict Json) (j : String)
    → lookup j (elim o [ none ↦ result | some v ↦ insert name v result ])
      ≡ (if name == j then either_of o (lookup j result) else lookup j result)
lookup-put name none result j = ground arith
lookup-put name (some v) result j = lookup-insert name j v result

lookup-round :
    (user : User) (name : String) (include : Json) (pol : Option ColumnAction) (result : Dict Json)
    (j : String)
    → lookup j (round user name include pol result) ≡ (
        if name == j
        then either_of (shown user (some include) pol) (lookup j result)
        else lookup j result)
lookup-round user name include none result j = lookup-put name (some include) result j
lookup-round user name include (some pol) result j = lookup-put name (projected user pol) result j

-- A rewritten projection holds for each field what its policy makes of it: fields without a policy
-- as they were, denied ones excluded unless the role is exempt, and no field that was not named.
pub apply_projection_lem :
    (projection : Dict Json) (col_policies : Dict ColumnAction) (user : User) (result : Dict Json)
    (j : String)
    → DistinctKeys projection
    → lookup j (apply_projection projection col_policies user result)
      ≡ either_of (shown user (lookup j projection) (lookup j col_policies)) (lookup j result)
unfolding apply_projection lookup
apply_projection_lem [] col_policies user result j d = refl
apply_projection_lem ((name, include) ∷ projection) col_policies user result j d =
    let result' = round user name include (lookup name col_policies) result in
    let before = lookup-round user name include (lookup name col_policies) result j in
    let rest = apply_projection_lem projection col_policies user result' j d.1 in
    elim (Bool-cases (name == j)) [
      | inl same ↦
          let e : name ≡ j = ground (arith, eq_iff name j) in
          let gone : lookup j projection ≡ none = rw e at d.0 in
          let here : lookup j result'
              ≡ either_of (shown user (some include) (lookup j col_policies)) (lookup j result) =
            before ∙ rw (same, e) refl in
          rest ∙ rw (gone, same) here
      | inr another ↦ rest ∙ rw (another, before) (rw another refl)
    ]
