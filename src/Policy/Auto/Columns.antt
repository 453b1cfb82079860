-- ===== src/Policy/Auto/Columns.antt =====
-- Which columns a decision from a scan denies, masks and tokenizes, and its class.
-- About _auto_policy of backend/app/services/policy_engine.py.
use metasight.Prelude.{
  Bool, Bool-cases, List, Option, String, [], any, ap, arith, elem, elem-concat, eq_iff, false,
  if◌then◌else◌, inl, inr, nat_eq, none, not, or_else, refl, some, string_eq, text_eq, true, ◌&&◌,
  ◌==◌, ◌||◌, ◌∙◌, ◌∷◌, ◌≡◌,
}
use metasight.Prelude.Dict.{Dict}
use metasight.Policy.{ColumnEntity, blank}
use metasight.Policy.Auto.{
  Found, auto_action, auto_column, auto_columns, auto_policy, escalate, is_unmarked, nothing_found,
}

-- A marked column of this name that asks for the action; one without an action asks for `mask`.

abbrev pub marked : String → String → ColumnEntity → Bool
marked action j col = j == col.name && not (is_unmarked col) && auto_action col == action

abbrev pub is_sensitive : ColumnEntity → Bool
is_sensitive col =
    or_else col.classification "" == "PII" || or_else col.classification "" == "FINANCIAL"

auto_column-elem :
    (bypass : Bool) (col : ColumnEntity) (f : Found) (j : String)
    → (elem j (auto_column bypass col f).denied
        ≡ (elem j f.denied || not bypass && marked "deny" j col))
      × (elem j (auto_column bypass col f).masked
          ≡ (elem j f.masked || not bypass && marked "mask" j col))
      × (elem j (auto_column bypass col f).tokenized
          ≡ (elem j f.tokenized || not bypass && marked "tokenize" j col))
unfolding auto_column
auto_column-elem bypass col f j = ground (
  arith,
  elem-concat j col.name f.denied,
  elem-concat j col.name f.masked,
  elem-concat j col.name f.tokenized,
  eq_iff (auto_action col) "deny",
  eq_iff (auto_action col) "mask",
  eq_iff (auto_action col) "tokenize",
  eq_iff "deny" "mask",
  eq_iff "deny" "tokenize",
  eq_iff "mask" "tokenize",
)

auto_columns-elem :
    (bypass : Bool) (cols : List ColumnEntity) (f : Found) (j : String)
    → (elem j (auto_columns bypass cols f).denied
        ≡ (elem j f.denied || not bypass && any (marked "deny" j) cols))
      × (elem j (auto_columns bypass cols f).masked
          ≡ (elem j f.masked || not bypass && any (marked "mask" j) cols))
      × (elem j (auto_columns bypass cols f).tokenized
          ≡ (elem j f.tokenized || not bypass && any (marked "tokenize" j) cols))
unfolding auto_columns
auto_columns-elem bypass [] f j = (ground arith, ground arith, ground arith)
auto_columns-elem bypass (col ∷ cols) f j =
    let f' = auto_column bypass col f in
    let (d₁, m₁, t₁) = auto_column-elem bypass col f j in
    let (d₂, m₂, t₂) = auto_columns-elem bypass cols f' j in
    (
      d₂
          ∙ join (elem j f.denied) (elem j f'.denied) (marked "deny" j col)
              (any (marked "deny" j) cols) d₁,
      m₂
          ∙ join (elem j f.masked) (elem j f'.masked) (marked "mask" j col)
              (any (marked "mask" j) cols) m₁,
      t₂
          ∙ join (elem j f.tokenized) (elem j f'.tokenized) (marked "tokenize" j col)
              (any (marked "tokenize" j) cols) t₁,
    )
  where
    join :
        (e e' a b : Bool)
        → e' ≡ (e || not bypass && a)
        → (e' || not bypass && b) ≡ (e || not bypass && (a || b))
    join e e' a b h = ground arith

escalate-public :
    (classification : String) (col_class : Option String)
    → (escalate classification col_class == "PUBLIC") ≡ (
        classification == "PUBLIC"
        && not (or_else col_class "" == "PII" || or_else col_class "" == "FINANCIAL"))
unfolding escalate
escalate-public classification none = ground (arith, eq_iff "" "PII", eq_iff "" "FINANCIAL")
escalate-public classification (some c) = ground (
  arith,
  eq_iff c "PUBLIC",
  eq_iff c "PII",
  eq_iff c "FINANCIAL",
  eq_iff "PII" "PUBLIC",
  eq_iff "FINANCIAL" "PUBLIC",
)

blank-insensitive :
    (col_class : Option String)
    → blank col_class ≡ true
    → (or_else col_class "" == "PII" || or_else col_class "" == "FINANCIAL") ≡ false
blank-insensitive none h = refl
blank-insensitive (some c) h = let e : c ≡ "" = ground (arith, eq_iff c "") in rw e refl

auto_column-classification :
    (bypass : Bool) (col : ColumnEntity) (f : Found)
    → (auto_column bypass col f).classification
      ≡ (if is_unmarked col then f.classification else escalate f.classification col.classification)
unfolding auto_column
auto_column-classification bypass col f = ground arith

auto_column-public :
    (bypass : Bool) (col : ColumnEntity) (f : Found)
    → ((auto_column bypass col f).classification == "PUBLIC")
      ≡ (f.classification == "PUBLIC" && not (is_sensitive col))
auto_column-public bypass col f = elim (Bool-cases (is_unmarked col)) [
  | inl unmarked ↦
      rw
        (
          auto_column-classification bypass col f,
          unmarked,
          blank-insensitive col.classification (ground arith),
        )
        (ground arith)
  | inr is_marked ↦
      rw (auto_column-classification bypass col f, is_marked)
        (escalate-public f.classification col.classification)
]

auto_columns-public :
    (bypass : Bool) (cols : List ColumnEntity) (f : Found)
    → ((auto_columns bypass cols f).classification == "PUBLIC")
      ≡ (f.classification == "PUBLIC" && not (any is_sensitive cols))
unfolding auto_columns
auto_columns-public bypass [] f = ground arith
auto_columns-public bypass (col ∷ cols) f =
    auto_columns-public bypass cols (auto_column bypass col f)
    ∙ ap (λ b. b && not (any is_sensitive cols)) (auto_column-public bypass col f)
    ∙ and_assoc (f.classification == "PUBLIC") (is_sensitive col) (any is_sensitive cols)
  where
    and_assoc : (a b c : Bool) → ((a && not b) && not c) ≡ (a && not (b || c))
    and_assoc a b c = ground arith

-- Without a rule, an admin is restricted in no column; for any other role the denied, masked and
-- tokenized columns are exactly those that the scan marked and that ask for it, where a marked
-- column without an action is masked. The class is PUBLIC exactly if no column is PII or FINANCIAL.
pub auto_policy_columns :
    (cols : List ColumnEntity) (user_role : String) (known : List String)
    (pii_map : Dict (Option String)) (source_type resource j : String)
    → let d = auto_policy cols user_role known pii_map source_type resource in
      (elem j d.denied_columns ≡ (not (user_role == "admin") && any (marked "deny" j) cols))
      × (elem j d.masked_columns ≡ (not (user_role == "admin") && any (marked "mask" j) cols))
      × (elem j d.tokenized_columns
          ≡ (not (user_role == "admin") && any (marked "tokenize" j) cols))
      × ((d.classification == "PUBLIC") ≡ not (any is_sensitive cols))
unfolding auto_policy
auto_policy_columns cols user_role known pii_map source_type resource j =
    let (d, m, t) = auto_columns-elem (user_role == "admin") cols nothing_found j in
    (d, m, t, auto_columns-public (user_role == "admin") cols nothing_found)
