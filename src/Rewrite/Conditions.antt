-- ===== src/Rewrite/Conditions.antt =====
-- What the condition of a row filter says (_build_condition of
-- backend/app/rewriters/sql_rewriter.py).
use metasight.Prelude.{
  Bool-cases, List, Option, String, Text, [], ap, arith, elem, eq_iff, false, if◌then◌else◌, inl,
  inr, map, nat_eq, none, refl, some, string_eq, strip, text_eq, upper_string, ◌++◌, ◌==◌, ◌∷◌, ◌≡◌,
}
use metasight.Prelude.Dict.{Dict, lookup}
use metasight.Sql.{
  Children, Expr, Kind, child, children, end, get, item, kind, literal, node, other,
}
use metasight.Rewrite.{column_expr, items_before}
use metasight.Rewrite.Filters.{
  AliasFilter, binary, build_condition, condition_of, op_map, split_commas,
}
use metasight.Rewrite.Printed.{alternatives}

-- The operators of SQL by the class of the node.
abbrev pub symbols : Dict String
symbols =
    ("EQ", "=")
    ∷ ("NEQ", "<>")
    ∷ ("GT", ">")
    ∷ ("GTE", ">=")
    ∷ ("LT", "<")
    ∷ ("LTE", "<=")
    ∷ ("In", "IN")
    ∷ ("Like", "LIKE")
    ∷ []

abbrev pub symbol_of : Kind → Option String
symbol_of (other cls) = lookup cls symbols
symbol_of _ = none

-- The operator that a filter asks for: `!=` is `<>`, and one that is unknown is `=`.
abbrev pub asked_operator : String → String
asked_operator op =
    if op == "!="
    then "<>"
    else if elem op ("=" ∷ "<>" ∷ ">" ∷ ">=" ∷ "<" ∷ "<=" ∷ [])
    then op
    else if upper_string op == "IN"
    then "IN"
    else if upper_string op == "LIKE"
    then "LIKE"
    else "="

abbrev pub asked_values : String → Text → List Text
asked_values op value =
    if asked_operator op == "IN" then map strip (split_commas value) else value ∷ []

abbrev pub literal_of : Kind → List Text
literal_of (literal t) = t ∷ []
literal_of _ = []

-- The literals among the children.
abbrev pub literals : Children → List Text
literals end = []
literals (item (node k below) cs) = literal_of k ++ literals cs
literals (child key (node k below) cs) = literal_of k ++ literals cs

-- The condition compares the column that the filter names, under its alias, by the operator that it
-- asks for with the values that it gives.
pub record Says (f : AliasFilter) (e : Expr) : Type 0 where
  pub compared : get "this" (children e) ≡ some (column_expr f.alias f.condition.column)
  pub by_operator : symbol_of (kind e) ≡ some (asked_operator f.condition.operator)
  pub with_values : literals (children e) ≡ asked_values f.condition.operator f.condition.value

literals-items :
    (values : List Text)
    → literals (items_before (map (λ v. node (literal (strip v)) end) values) end)
      ≡ map strip values
literals-items [] = refl
literals-items (v ∷ values) = ap (λ l. strip v ∷ l) (literals-items values)

-- The six operators of the table are asked for as they stand.
data Operator (op : String) : Type 0 where
  tabled :
      (cls : String)
      → lookup op op_map ≡ some cls
      → lookup cls symbols ≡ some (asked_operator op)
      → (asked_operator op == "IN") ≡ false
      → (cls == "Or") ≡ false
      → Operator op
  untabled :
      lookup op op_map ≡ none
      → (op == "!=") ≡ false
      → elem op ("=" ∷ "<>" ∷ ">" ∷ ">=" ∷ "<" ∷ "<=" ∷ []) ≡ false
      → Operator op

Operator-cases : (op : String) → Operator op
unfolding lookup
Operator-cases op = elim (Bool-cases (op == "=")) [
  | inl e ↦
      let k : op ≡ "=" = ground (arith, eq_iff op "=") in rw k (tabled "EQ" refl refl refl refl)
  | inr a ↦ elim (Bool-cases (op == "!=")) [
    | inl e ↦
        let k : op ≡ "!=" = ground (arith, eq_iff op "!=") in
        rw k (tabled "NEQ" refl refl refl refl)
    | inr b ↦ elim (Bool-cases (op == "<>")) [
      | inl e ↦
          let k : op ≡ "<>" = ground (arith, eq_iff op "<>") in
          rw k (tabled "NEQ" refl refl refl refl)
      | inr c ↦ elim (Bool-cases (op == ">")) [
        | inl e ↦
            let k : op ≡ ">" = ground (arith, eq_iff op ">") in
            rw k (tabled "GT" refl refl refl refl)
        | inr d ↦ elim (Bool-cases (op == ">=")) [
          | inl e ↦
              let k : op ≡ ">=" = ground (arith, eq_iff op ">=") in
              rw k (tabled "GTE" refl refl refl refl)
          | inr f ↦ elim (Bool-cases (op == "<")) [
            | inl e ↦
                let k : op ≡ "<" = ground (arith, eq_iff op "<") in
                rw k (tabled "LT" refl refl refl refl)
            | inr g ↦ elim (Bool-cases (op == "<=")) [
              | inl e ↦
                  let k : op ≡ "<=" = ground (arith, eq_iff op "<=") in
                  rw k (tabled "LTE" refl refl refl refl)
              | inr h ↦
                  untabled
                    (ground (
                      arith,
                      eq_iff op "=",
                      eq_iff "=" op,
                      eq_iff "!=" op,
                      eq_iff "<>" op,
                      eq_iff ">" op,
                      eq_iff ">=" op,
                      eq_iff "<" op,
                      eq_iff "<=" op,
                      eq_iff op "!=",
                      eq_iff op "<>",
                      eq_iff op ">",
                      eq_iff op ">=",
                      eq_iff op "<",
                      eq_iff op "<=",
                    ))
                    b (ground arith)
            ]
          ]
        ]
      ]
    ]
  ]
]

-- A condition says what its filter does, and has no OR in it.
abbrev Stands : AliasFilter → Expr → Type 0
Stands f e = Says f e × (alternatives e ≡ (e ∷ []) ∷ [])

binary-Stands :
    (f : AliasFilter) (cls : String)
    → lookup cls symbols ≡ some (asked_operator f.condition.operator)
    → (asked_operator f.condition.operator == "IN") ≡ false
    → (cls == "Or") ≡ false
    → Stands f (
        binary
          (other cls)
          (column_expr f.alias f.condition.column)
          (node (literal f.condition.value) end))
unfolding alternatives
binary-Stands f cls symbol one leaf =
    (record { compared = refl; by_operator = symbol; with_values = rw one refl }, rw leaf refl)

build_condition-Stands : (f : AliasFilter) → Stands f (condition_of f)
unfolding build_condition lookup alternatives
build_condition-Stands f =
    let op = f.condition.operator in
    elim (Operator-cases op) [
      | tabled cls tab symbol one leaf ↦
          rw (tab, build_condition) (binary-Stands f cls symbol one leaf)
      | untabled free not_ne unknown ↦ elim (Bool-cases (upper_string op == "IN")) [
        | inl within ↦
            let asked : asked_operator op ≡ "IN" = rw (not_ne, unknown, within) refl in
            rw (free, within, build_condition)
              (
                record {
                  compared = refl;
                  by_operator = rw asked refl;
                  with_values = rw asked (literals-items (split_commas f.condition.value));
                },
                items_alternatives (column_expr f.alias f.condition.column)
                    (split_commas f.condition.value),
              )
        | inr no_in ↦ elim (Bool-cases (upper_string op == "LIKE")) [
          | inl like ↦
              let asked : asked_operator op ≡ "LIKE" = rw (not_ne, unknown, no_in, like) refl in
              rw (free, no_in, like, build_condition)
                (binary-Stands f "Like" (rw asked refl) (rw asked refl) refl)
          | inr no_like ↦
              let asked : asked_operator op ≡ "=" = rw (not_ne, unknown, no_in, no_like) refl in
              rw (free, no_in, no_like, build_condition)
                (binary-Stands f "EQ" (rw asked refl) (rw asked refl) refl)
        ]
      ]
    ]
  where
    items_alternatives :
        (col : Expr) (values : List Text)
        → let e = node (other "In") (
            child "this" col (items_before (map (λ v. node (literal (strip v)) end) values) end)) in
          alternatives e ≡ (e ∷ []) ∷ []
    items_alternatives col [] = refl
    items_alternatives col (x ∷ xs) = refl

pub condition_of-Says : (f : AliasFilter) → Says f (condition_of f)
condition_of-Says f = (build_condition-Stands f).0

pub alternatives-condition_of :
    (f : AliasFilter) → alternatives (condition_of f) ≡ (condition_of f ∷ []) ∷ []
alternatives-condition_of f = (build_condition-Stands f).1
