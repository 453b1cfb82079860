-- ===== src/Prepare/Combine.antt =====
-- How the decisions on several tables are put together.
-- Models the last steps of prepare in backend/app/services/gateway_prepare.py.
use metasight.Prelude.{
  List, Option, String, [], elem, if◌then◌else◌, nat_eq, string_eq, text_eq, ◌++◌, ◌∷◌,
}
use metasight.Prelude.Dict.{Dict, insert, update}
use metasight.Policy.{PolicyDecision, blank}
use metasight.Tokenization.{ColumnAction}

-- `if col not in masked_col_keys: masked_col_keys.append(col)` for each column.

unfoldable pub append_new : List String → List String → List String
append_new cols [] = cols
append_new cols (col ∷ more) = append_new (if elem col cols then cols else cols ++ col ∷ []) more

-- `list(keys) or [c for dec in table_policies.values() for c in …]`.
unfoldable pub gather : (PolicyDecision → List String) → Dict PolicyDecision → List String
gather columns [] = []
gather columns ((name, d) ∷ policies) = columns d ++ gather columns policies

abbrev pub or_gather :
    List String → (PolicyDecision → List String) → Dict PolicyDecision → List String
or_gather [] columns policies = gather columns policies
or_gather (c ∷ cs) columns policies = c ∷ cs

-- The two loops over the maps of kinds: all scanned kinds, then the explicit ones.
unfoldable pub scanned_kinds : Dict PolicyDecision → Dict (Option String) → Dict (Option String)
scanned_kinds [] kinds = kinds
scanned_kinds ((name, d) ∷ policies) kinds = scanned_kinds policies (update kinds d.column_pii_map)

unfoldable pub insert_kinds : Dict (Option String) → Dict (Option String) → Dict (Option String)
insert_kinds [] kinds = kinds
insert_kinds ((col, mtype) ∷ more) kinds =
    insert_kinds more (if blank mtype then kinds else insert col mtype kinds)

unfoldable pub explicit_kinds : Dict PolicyDecision → Dict (Option String) → Dict (Option String)
explicit_kinds [] kinds = kinds
explicit_kinds ((name, d) ∷ policies) kinds =
    explicit_kinds policies (insert_kinds d.column_masking_type_map kinds)

-- The policies handed to the document rewriter: denied, masked, and tokenized columns as masked.
unfoldable pub with_action : String → List String → Dict ColumnAction → Dict ColumnAction
with_action action [] policies = policies
with_action action (col ∷ cols) policies =
    with_action action cols (insert col (record { action = action; roles_exempt = [] }) policies)

abbrev pub column_actions : PolicyDecision → Dict ColumnAction
column_actions d =
    with_action "mask" d.tokenized_columns
      (with_action "mask" d.masked_columns (with_action "deny" d.denied_columns []))
