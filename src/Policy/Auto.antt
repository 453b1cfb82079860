-- ===== src/Policy/Auto.antt =====
-- A decision from scanned columns, where no rule applies.
-- Models _auto_policy of backend/app/services/policy_engine.py.
pub mod Columns
use metasight.Prelude.{
  Bool, List, Option, String, [], if◌then◌else◌, nat_eq, none, or_else, string_eq, text_eq, true,
  ◌&&◌, ◌++◌, ◌==◌, ◌||◌, ◌∷◌,
}
use metasight.Prelude.Dict.{Dict}
use metasight.Policy.{ColumnEntity, PolicyDecision, blank}

-- What the loop over the columns collects.

pub record Found : Type 0 where
  pub denied : List String
  pub masked : List String
  pub tokenized : List String
  pub classification : String

-- `col.action or "mask"`.
abbrev pub auto_action : ColumnEntity → String
auto_action col = if blank col.action then "mask" else or_else col.action ""

-- A column without a kind, a class and an action is passed over.
abbrev pub is_unmarked : ColumnEntity → Bool
is_unmarked col = blank col.pii_type && blank col.classification && blank col.action

-- The class of the resource so far, raised by a sensitive column.
unfoldable pub escalate : String → Option String → String
escalate classification col_class =
    if (or_else col_class "" == "PII" || or_else col_class "" == "FINANCIAL")
      && classification == "PUBLIC"
    then or_else col_class ""
    else classification

unfoldable pub auto_column : Bool → ColumnEntity → Found → Found
auto_column bypass col f =
    if is_unmarked col
    then f
    else (let f' = record f { classification = escalate f.classification col.classification } in
        if bypass
        then f'
        else if auto_action col == "deny"
        then record f' { denied = f.denied ++ col.name ∷ [] }
        else if auto_action col == "mask"
        then record f' { masked = f.masked ++ col.name ∷ [] }
        else if auto_action col == "tokenize"
        then record f' { tokenized = f.tokenized ++ col.name ∷ [] }
        else f')

unfoldable pub auto_columns : Bool → List ColumnEntity → Found → Found
auto_columns bypass [] f = f
auto_columns bypass (col ∷ cols) f = auto_columns bypass cols (auto_column bypass col f)

abbrev pub nothing_found : Found
nothing_found = record { denied = []; masked = []; tokenized = []; classification = "PUBLIC" }

unfoldable pub auto_policy :
    List ColumnEntity
    → String
    → List String
    → Dict (Option String)
    → String
    → String
    → PolicyDecision
auto_policy scan_columns user_role known_columns column_pii_map source_type resource =
    let bypass = user_role == "admin" in
    let f = auto_columns bypass scan_columns nothing_found in
    record {
      resource = resource;
      allowed = true;
      denied_columns = f.denied;
      masked_columns = f.masked;
      tokenized_columns = f.tokenized;
      row_filter_conditions = [];
      policy_id = none;
      classification = f.classification;
      is_admin_exempt = bypass;
      source_type = source_type;
      auto_policy = true;
      column_pii_map = column_pii_map;
      known_columns = known_columns;
      column_masking_type_map = [];
      active_tag_policies = [];
      active_field_policies = [];
    }
