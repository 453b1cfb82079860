-- ===== src/Rules.antt =====
-- Access rules: the rows, the bodies of requests and the helpers of backend/app/api/policies.py, with the
-- rows of backend/app/models/models.py.
pub mod Handlers
pub mod Unique
pub mod Reach
pub mod Changes
pub mod Stale
mod Tests
use metasight.Prelude.{
  Bool, List, Option, String, Text, [], codes, first, if◌then◌else◌, nat_eq, none, or_else,
  show_nat, some, string_eq, text_eq, ℕ, ◌&&◌, ◌++◌, ◌+◌, ◌<>◌, ◌==◌, ◌∷◌,
}
use metasight.Http.{Result, http, ok}
use metasight.Identity.{User, claim, sub}
use metasight.Prelude.Dict.{Dict}
use metasight.Audit.{Activity, DataChange, DataChangeAudit, PrivilegedActivity, record_data_change}
use metasight.Policy.{ColumnPolicies, PolicyRule, RowFilter, Table, ok}

-- A row of `audit_logs`, as `_audit` writes it.
pub record AuditLog : Type 0 where
  pub user_email : String
  pub role : String
  pub resource : String
  pub action : String
  pub original_query : String
  pub tenant_id : ℕ

pub record RuleDb (S : Type 0) : Type 0 where
  pub rules : List PolicyRule
  pub tables : List Table
  pub data_changes : List DataChangeAudit
  pub activities : List PrivilegedActivity
  pub audit_log : List AuditLog
  pub cache : S

-- PolicyRuleCreate and PolicyRuleUpdate.
pub record RuleCreate : Type 0 where
  pub resource : String
  pub database_name : String
  pub classification : String
  pub source_type : String
  pub column_policies : ColumnPolicies
  pub row_filters : List RowFilter

pub record RuleUpdate : Type 0 where
  pub classification : Option String
  pub source_type : Option String
  pub column_policies : Option ColumnPolicies
  pub row_filters : Option (List RowFilter)

-- Python's equality and `json.dumps` of the JSON values of a rule.
pub record RuleJson : Type 0 where
  pub same_policies : ColumnPolicies → ColumnPolicies → Bool
  pub same_filters : List RowFilter → List RowFilter → Bool
  pub dump_policies : ColumnPolicies → String
  pub dump_filters : List RowFilter → String
  pub dump_rule : PolicyRule → String

abbrev pub is_rule : ℕ → ℕ → PolicyRule → Bool
is_rule policy_id tenant_id r = r.id == policy_id && r.tenant_id == tenant_id

abbrev pub is_for : String → ℕ → PolicyRule → Bool
is_for resource tenant_id r = r.resource == resource && r.tenant_id == tenant_id

-- `_get_or_404`.
unfoldable pub get_or_404 : ℕ → ℕ → List PolicyRule → Result PolicyRule
get_or_404 policy_id tenant_id rules = elim (first (is_rule policy_id tenant_id) rules) [
  | none ↦ http 404 "Policy not found"
  | some r ↦ ok r
]

-- The session writes back the row with the key of the rule, and `db.delete`.
unfoldable pub save_rule : PolicyRule → List PolicyRule → List PolicyRule
save_rule new [] = []
save_rule new (r ∷ rules) = if r.id == new.id then new ∷ rules else r ∷ save_rule new rules

unfoldable pub delete_rule : ℕ → List PolicyRule → List PolicyRule
delete_rule id [] = []
delete_rule id (r ∷ rules) = if r.id == id then rules else r ∷ delete_rule id rules

-- The columns of an update that differ, with the old and the new value.
pub record Changed : Type 0 where
  pub column : String
  pub old_value : String
  pub new_value : String

abbrev pub change_if : Bool → String → String → String → List Changed
change_if same column old new =
    if same then [] else record { column = column; old_value = old; new_value = new } ∷ []

-- The assignments of `update_policy`.
unfoldable pub updated_rule : RuleUpdate → PolicyRule → PolicyRule
updated_rule payload r = record r {
  classification = or_else payload.classification r.classification;
  source_type = or_else payload.source_type r.source_type;
  column_policies = or_else payload.column_policies r.column_policies;
  row_filters = or_else payload.row_filters r.row_filters;
}

abbrev pub activity_of : User → String → PolicyRule → String → Activity
activity_of user action r verb = record {
  user = some user;
  action = action;
  target_type = some "PolicyRule";
  target_id = some (show_nat r.id);
  description = some (verb <> " policy for '" <> r.resource <> "'");
  risk_level = codes "HIGH";
}

abbrev pub change_of :
    User
    → PolicyRule
    → String
    → Option String
    → Option String
    → Text
    → Dict (Option String)
    → DataChange
change_of user r column old new operation details = record {
  user = some user;
  entity = "PolicyRule";
  entity_id = some (show_nat r.id);
  table_name = some "policy_rules";
  record_pk = some (show_nat r.id);
  column_name = column;
  old_value = old;
  new_value = new;
  operation_type = operation;
  approval_status = some "not_required";
  approval_id = none;
  details = details;
}

abbrev pub audit_entry : User → String → String → AuditLog
audit_entry user resource note = record {
  user_email = sub user;
  role = claim user "role" "";
  resource = resource;
  action = "policy_change";
  original_query = note;
  tenant_id = user.tenant_id;
}

-- The loop over `changed_columns`; the clock is read for each row.
unfoldable pub changes_logged :
    (ℕ → ℕ) → User → PolicyRule → ℕ → List Changed → List DataChangeAudit → List DataChangeAudit
changes_logged clock user r n [] log = log
changes_logged clock user r n (c ∷ changed) log = changes_logged clock user r (n + 1) changed (
    record_data_change (clock n) user.tenant_id (
      change_of user r c.column (some c.old_value) (some c.new_value) (codes "UPDATE")
        (("resource", some r.resource) ∷ ("database_name", some r.database_name) ∷ []))
    ∷ log)

module _ (json : RuleJson) where
  unfoldable pub changed_columns : PolicyRule → PolicyRule → List Changed
  changed_columns old new =
      change_if (old.classification == new.classification) "classification" old.classification
        new.classification
      ++ change_if (old.source_type == new.source_type) "source_type" old.source_type
          new.source_type
      ++ change_if (json.same_policies old.column_policies new.column_policies) "column_policies"
          (json.dump_policies old.column_policies) (json.dump_policies new.column_policies)
      ++ change_if (json.same_filters old.row_filters new.row_filters) "row_filters"
          (json.dump_filters old.row_filters) (json.dump_filters new.row_filters)
