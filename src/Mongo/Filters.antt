-- ===== src/Mongo/Filters.antt =====
-- How row filters enter the filter of a query.
-- About _apply_row_filter of backend/app/rewriters/mongo_rewriter.py.
use metasight.Prelude.{
  All, List, String, Text, [], arith, codes, eq_iff, eq_of_ne, map, nat_eq, refl, some, string_eq,
  text_eq, true, ◌==◌, ◌∙◌, ◌∷◌, ◌≡◌, ◌≢◌,
}
use metasight.Prelude.Dict.{Dict, insert, lookup, lookup-insert}
use metasight.Identity.{User}
use metasight.Json.{Fields, end, field}
use metasight.Policy.{RowCondition}
use metasight.Policy.Attributes.{replace}
use metasight.Mongo.{
  Filter, and_both, apply_row_filter, conditions, existing, region, row_conditions,
}

-- Row filters of different columns.

abbrev pub DistinctColumns : List RowCondition → Type 0
DistinctColumns [] = Unit
DistinctColumns (rf ∷ rfs) = All (λ r. r.column ≢ rf.column) rfs × DistinctColumns rfs

-- The condition that a row filter becomes.
abbrev pub Asked : User → Dict Text → RowCondition → Type 0
Asked user found rf =
    lookup rf.column found ≡ some (replace (codes "{user.region}") (region user) rf.value)

row_conditions-other :
    (user : User) (rfs : List RowCondition) (found : Dict Text) (j : String)
    → All (λ r. r.column ≢ j) rfs
    → lookup j (row_conditions user rfs found) ≡ lookup j found
unfolding row_conditions
row_conditions-other user [] found j h = refl
row_conditions-other user (rf ∷ rfs) found j h =
    let value = replace (codes "{user.region}") (region user) rf.value in
    row_conditions-other user rfs (insert rf.column value found) j h.1
    ∙ lookup-insert rf.column j value found
    ∙ rw (eq_of_ne rf.column j h.0) refl

row_conditions-Asked :
    (user : User) (rfs : List RowCondition) (found : Dict Text)
    → DistinctColumns rfs
    → All (Asked user (row_conditions user rfs found)) rfs
unfolding row_conditions
row_conditions-Asked user [] found d = tt
row_conditions-Asked user (rf ∷ rfs) found d =
    let value = replace (codes "{user.region}") (region user) rf.value in
    let itself : (rf.column == rf.column) ≡ true = ground (arith, eq_iff rf.column rf.column) in
    (
      row_conditions-other user rfs (insert rf.column value found) rf.column d.0
          ∙ lookup-insert rf.column rf.column value found
          ∙ rw itself refl,
      row_conditions-Asked user rfs (insert rf.column value found) d.1,
    )

abbrev pub with_operator : String → RowCondition → RowCondition
with_operator operator rf = record rf { operator = operator }

row_conditions-operator :
    (user : User) (operator : String) (rfs : List RowCondition) (found : Dict Text)
    → row_conditions user (map (with_operator operator) rfs) found ≡ row_conditions user rfs found
unfolding row_conditions
row_conditions-operator user operator [] found = refl
row_conditions-operator user operator (rf ∷ rfs) found =
    row_conditions-operator user operator rfs
      (insert rf.column (replace (codes "{user.region}") (region user) rf.value) found)

-- What a filter holds apart from the conditions of the policy.
pub data Guards (filter : Fields) (found : Dict Text) : Filter → Type 0 where
  unguarded : found ≡ [] → Guards filter found (existing filter)
  alone : filter ≡ end → Guards filter found (conditions found)
  together : Guards filter found (and_both filter found)

Guards-of :
    (filter : Fields) (found : Dict Text)
    → Guards filter found (elim found [
      | [] ↦ existing filter
      | c ∷ cs ↦ elim filter [
        | end ↦ conditions (c ∷ cs)
        | field k v rest ↦ and_both (field k v rest) (c ∷ cs)
      ]
    ])
Guards-of filter [] = unguarded refl
Guards-of end (c ∷ cs) = alone refl
Guards-of (field k v rest) (c ∷ cs) = together

-- A rewritten filter keeps the one of the query beside the conditions, and with row filters of
-- different columns each of them is a condition on its column with the user's region in place.
-- Operators do not matter: every row filter is read as an equation.
pub apply_row_filter_lem :
    (filter : Fields) (rfs : List RowCondition) (user : User) (operator : String)
    → Guards filter (row_conditions user rfs []) (apply_row_filter filter rfs user)
      × (DistinctColumns rfs → All (Asked user (row_conditions user rfs [])) rfs)
      × (apply_row_filter filter (map (with_operator operator) rfs) user
          ≡ apply_row_filter filter rfs user)
unfolding apply_row_filter
apply_row_filter_lem filter rfs user operator = (
  Guards-of filter (row_conditions user rfs []),
  row_conditions-Asked user rfs [],
  rw (apply_row_filter, row_conditions-operator user operator rfs []) refl,
)
