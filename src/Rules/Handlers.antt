-- ===== src/Rules/Handlers.antt =====
-- The endpoints for access rules: list_policies, create_policy, update_policy and delete_policy of
-- backend/app/api/policies.py. The copy of a rule into a PostgreSQL source, which is attempted
-- afterwards and changes none of these, is left out.
use metasight.Prelude.{
  List, String, [], any, codes, elem, false, first, if◌then◌else◌, keep, length, nat_eq, none, not,
  show_nat, some, string_eq, text_eq, ℕ, ◌&&◌, ◌++◌, ◌<>◌, ◌==◌, ◌||◌, ◌∷◌,
}
use metasight.Http.{Result, http, ok, raise}
use metasight.Identity.{User, claim, require_admin}
use metasight.Audit.{record_data_change, record_privileged_activity}
use metasight.Policy.{PolicyRule, ok}
use metasight.Policy.Cache.{Redis, invalidate_policy_cache}
use metasight.Rules.{
  RuleCreate, RuleDb, RuleJson, RuleUpdate, activity_of, audit_entry, change_of, changed_columns,
  changes_logged, delete_rule, get_or_404, is_for, save_rule, updated_rule,
}

module _ (redis : Redis) (json : RuleJson) where
  open redis use {Store}

  abbrev pub invalidated : ℕ → String → Store → Store
  invalidated tenant_id resource s = (invalidate_policy_cache redis tenant_id (some resource) s).1

  unfoldable pub list_policies : User → RuleDb Store → List PolicyRule
  list_policies user db =
      let own = keep (λ r. r.tenant_id == user.tenant_id) db.rules in
      if elem (claim user "role" "analyst") ("admin" ∷ "superadmin" ∷ [])
      then own
      else keep
          (λ r. r.resource == "*" || elim user.department_id [
            | none ↦ false
            | some d ↦
                not (d == 0)
                && any
                    (λ t.
                      t.name == r.resource
                      && elim t.department_id [ none ↦ false | some e ↦ e == d ])
                    db.tables
          ])
          own

  unfoldable pub create_policy :
      (ℕ → ℕ) → ℕ → RuleCreate → User → RuleDb Store → Result PolicyRule × RuleDb Store
  unfolding require_admin
  create_policy clock new_id payload user db =
      let r : PolicyRule = record {
        id = new_id;
        resource = payload.resource;
        database_name = payload.database_name;
        classification = payload.classification;
        source_type = payload.source_type;
        column_policies = payload.column_policies;
        row_filters = payload.row_filters;
        tenant_id = user.tenant_id;
      } in
      elim (require_admin user) [
        | raise e ↦ (raise e, db)
        | ok admin ↦ elim (first (is_for payload.resource user.tenant_id) db.rules) [
          | some existing ↦ (
            http 409
                ("Policy for '" <> payload.resource <> "' already exists. Use PATCH to update."),
            db,
          )
          | none ↦ (
            ok r,
            record db {
              rules = db.rules ++ r ∷ [];
              data_changes =
                  record_data_change (clock 0) user.tenant_id (
                    change_of user r "policy" none (some (json.dump_rule r)) (codes "INSERT")
                      (("database_name", some r.database_name) ∷ []))
                  ∷ db.data_changes;
              activities =
                  record_privileged_activity (clock 1) user.tenant_id
                    (activity_of user "policy_create" r "Created")
                  ∷ db.activities;
              audit_log =
                  audit_entry user payload.resource ("created policy " <> show_nat r.id)
                  ∷ db.audit_log;
              cache = invalidated user.tenant_id payload.resource db.cache;
            },
          )
        ]
      ]

  unfoldable pub update_policy :
      (ℕ → ℕ) → ℕ → RuleUpdate → User → RuleDb Store → Result PolicyRule × RuleDb Store
  unfolding require_admin get_or_404 updated_rule changed_columns changes_logged save_rule
  update_policy clock policy_id payload user db = elim (require_admin user) [
    | raise e ↦ (raise e, db)
    | ok admin ↦ elim (get_or_404 policy_id user.tenant_id db.rules) [
      | raise e ↦ (raise e, db)
      | ok old ↦
          let r = updated_rule payload old in
          let changed = changed_columns json old r in
          (
            ok r,
            record db {
              rules = save_rule r db.rules;
              data_changes = changes_logged clock user r 0 changed db.data_changes;
              activities = elim changed [
                | [] ↦ db.activities
                | c ∷ cs ↦
                    record_privileged_activity (clock (length (c ∷ cs))) user.tenant_id
                      (activity_of user "policy_update" r "Updated")
                    ∷ db.activities
              ];
              audit_log =
                  audit_entry user r.resource ("updated policy " <> show_nat r.id) ∷ db.audit_log;
              cache = invalidated user.tenant_id r.resource db.cache;
            },
          )
    ]
  ]

  unfoldable pub delete_policy :
      (ℕ → ℕ) → ℕ → User → RuleDb Store → Result (Unit {0}) × RuleDb Store
  unfolding require_admin get_or_404 delete_rule
  delete_policy clock policy_id user db = elim (require_admin user) [
    | raise e ↦ (raise e, db)
    | ok admin ↦ elim (get_or_404 policy_id user.tenant_id db.rules) [
      | raise e ↦ (raise e, db)
      | ok r ↦ (
        ok tt,
        record db {
          rules = delete_rule r.id db.rules;
          data_changes =
              record_data_change (clock 0) user.tenant_id
                (change_of user r "policy" (some (json.dump_rule r)) none (codes "DELETE") [])
              ∷ db.data_changes;
          activities =
              record_privileged_activity (clock 1) user.tenant_id
                (activity_of user "policy_delete" r "Deleted")
              ∷ db.activities;
          audit_log =
              audit_entry user r.resource ("deleted policy " <> show_nat r.id) ∷ db.audit_log;
        },
      )
    ]
  ]
