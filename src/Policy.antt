-- ===== src/Policy.antt =====
-- The data of access decisions: rules, scanned tables and columns, and the decision itself.
-- Models the dataclass of backend/app/services/policy_engine.py and the rows of
-- backend/app/models/models.py that it reads.
pub mod Glob
pub mod Attributes
pub mod Schedule
pub mod Rule
pub mod Auto
pub mod Cache
pub mod Decide
pub mod Samples
mod Tests
use metasight.Prelude.{
  Bool, List, Option, String, Text, inl, inr, nat_eq, none, refl, some, string_eq, text_eq, true, ℕ,
  ◌==◌, ◌≡◌, ◌⊎◌,
}
use metasight.Prelude.Dict.{Dict}

-- One entry of column_policies: `{"action": …, "roles_exempt": […], "masking_type": …}`.

pub record ColumnPolicy : Type 0 where
  pub action : Option String
  pub roles_exempt : List String
  pub masking_type : Option String

-- The entry under `__schedule__`; a list that is absent is empty.
pub record TimeWindow : Type 0 where
  pub allowed_days : List String
  pub allowed_hours : List ℕ
  pub exempt_roles : Option (List String)

-- The JSON object column_policies, its reserved keys `__schedule__` and `__tags__` apart.
pub record ColumnPolicies : Type 0 where
  pub schedule : Option TimeWindow
  pub tags : Dict ColumnPolicy
  pub columns : Dict ColumnPolicy

-- An entry of row_filters, the value by its `str`.
pub record RowFilter : Type 0 where
  pub column : Option String
  pub operator : Option String
  pub value : Option Text

pub record PolicyRule : Type 0 where
  pub id : ℕ
  pub resource : String
  pub database_name : String
  pub classification : String
  pub source_type : String
  pub column_policies : ColumnPolicies
  pub row_filters : List RowFilter
  pub tenant_id : ℕ

-- A scanned table; data_source_id is that of its schema's database.
pub record Table : Type 0 where
  pub id : ℕ
  pub name : String
  pub tenant_id : ℕ
  pub department_id : Option ℕ
  pub data_source_id : Option ℕ

pub record ColumnEntity : Type 0 where
  pub name : String
  pub pii_type : Option String
  pub classification : Option String
  pub action : Option String
  pub table_id : ℕ
  pub tenant_id : ℕ

-- A row filter with the user's attributes in place.
pub record RowCondition : Type 0 where
  pub column : String
  pub operator : String
  pub value : Text

pub record PolicyDecision : Type 0 where
  pub resource : String
  pub allowed : Bool
  pub denied_columns : List String
  pub masked_columns : List String
  pub tokenized_columns : List String
  pub row_filter_conditions : List RowCondition
  pub policy_id : Option ℕ
  pub classification : String
  pub is_admin_exempt : Bool
  pub source_type : String
  pub auto_policy : Bool
  pub column_pii_map : Dict (Option String)
  pub known_columns : List String
  pub column_masking_type_map : Dict (Option String)
  pub active_tag_policies : Dict String
  pub active_field_policies : Dict String

-- A decision, or the PermissionError that the engine raises.
pub data Outcome {ℓ} (A : Type ℓ) : Type ℓ where
  ok : A → Outcome A
  permission_error : String → Outcome A

pub Outcome-cases {ℓ} :
    {A : Type ℓ} (o : Outcome A)
    → ((a : A) × (o ≡ ok a)) ⊎ ((m : String) × (o ≡ permission_error m))
Outcome-cases (ok a) = inl (a, refl)
Outcome-cases (permission_error m) = inr (m, refl)

-- `not s` of a text that may be null.
abbrev pub blank : Option String → Bool
blank none = true
blank (some s) = s == ""
