-- ===== src/Audit.antt =====
-- The rows that the governance audit trail adds to the session.
-- Models backend/app/services/governance_audit.py (record_data_change, record_privileged_activity).
use metasight.Prelude.{
  Option, String, Text, if◌then◌else◌, nat_eq, none, some, string_eq, text_eq, upper, ℕ, ◌==◌,
}
use metasight.Prelude.Dict.{Dict, lookup}
use metasight.Identity.{User}

pub record DataChangeAudit : Type 0 where
  pub entity : String
  pub entity_id : Option String
  pub table_name : Option String
  pub record_pk : Option String
  pub column_name : String
  pub old_value : Option String
  pub new_value : Option String
  pub changed_by : String
  pub changed_role : Option String
  pub changed_at : ℕ
  pub operation_type : Text
  pub approval_status : Option String
  pub approval_id : Option ℕ
  pub details : Dict (Option String)
  pub tenant_id : ℕ

pub record PrivilegedActivity : Type 0 where
  pub actor_email : String
  pub actor_role : String
  pub action : String
  pub target_type : Option String
  pub target_id : Option String
  pub description : Option String
  pub risk_level : Text
  pub occurred_at : ℕ
  pub tenant_id : ℕ

-- `x or default` for a text that may be missing: an empty text counts as missing.
abbrev pub or_text : Option String → String → String
or_text none default = default
or_text (some s) default = if s == "" then default else s

-- `(user or {}).get(key)`, where the user may be missing.
abbrev pub user_claim : Option User → String → Option String
user_claim none key = none
user_claim (some user) key = lookup key user.claims

-- What a caller of `record_data_change` passes. The arguments that no caller modelled here passes
-- (the source, the session, the request and the actor given by name) keep their default, null.
pub record DataChange : Type 0 where
  pub user : Option User
  pub entity : String
  pub entity_id : Option String
  pub table_name : Option String
  pub record_pk : Option String
  pub column_name : String
  pub old_value : Option String
  pub new_value : Option String
  pub operation_type : Text
  pub approval_status : Option String
  pub approval_id : Option ℕ
  pub details : Dict (Option String)

unfoldable pub record_data_change : ℕ → ℕ → DataChange → DataChangeAudit
unfolding upper
record_data_change now tenant_id c = record {
  entity = c.entity;
  entity_id = c.entity_id;
  table_name = c.table_name;
  record_pk = c.record_pk;
  column_name = c.column_name;
  old_value = c.old_value;
  new_value = c.new_value;
  changed_by = or_text (user_claim c.user "sub") "system";
  changed_role = user_claim c.user "role";
  changed_at = now;
  operation_type = upper c.operation_type;
  approval_status = c.approval_status;
  approval_id = c.approval_id;
  details = c.details;
  tenant_id = tenant_id;
}

-- What a caller of `record_privileged_activity` passes, with the same proviso.
pub record Activity : Type 0 where
  pub user : Option User
  pub action : String
  pub target_type : Option String
  pub target_id : Option String
  pub description : Option String
  pub risk_level : Text

unfoldable pub record_privileged_activity : ℕ → ℕ → Activity → PrivilegedActivity
unfolding upper
record_privileged_activity now tenant_id a = record {
  actor_email = or_text (user_claim a.user "sub") "system";
  actor_role = or_text (user_claim a.user "role") "system";
  action = a.action;
  target_type = a.target_type;
  target_id = a.target_id;
  description = a.description;
  risk_level = upper a.risk_level;
  occurred_at = now;
  tenant_id = tenant_id;
}
