-- ===== src/Prepare/Tests.antt =====
-- Runs of backend/app/services/gateway_prepare.py over a cache that keeps nothing, and the theorems at
-- concrete inputs.
use metasight.Prelude.{
  All, Bool, List, Option, String, [], arith, codes, elem, false, first, if◌then◌else◌, inr, length,
  lower, nat_eq, none, refl, some, string_eq, text_beq, text_eq, true, ◌==◌, ◌∷◌, ◌≡◌, ◌≢◌,
}
use metasight.Prelude.Dict.{insert, lookup, update}
use metasight.Http.{ok}
use metasight.Identity.{User}
use metasight.Json.{end, lookup_field, section, truthy}
use metasight.Settings.{get_settings, masking_enabled}
use metasight.Masking.{masking_level_for_role}
use metasight.Policy.{ColumnEntity, PolicyDecision, ok}
use metasight.Policy.Schedule.{Now}
use metasight.Policy.Auto.{auto_column, auto_columns, auto_policy, escalate}
use metasight.Policy.Cache.{Redis, get_cached_policy, set_cached_policy}
use metasight.Policy.Decide.{
  PolicyDb, barred, best_rule, columns_of, decide, decide_by_scan, find_rule, find_table, in_source,
  longest_first, pii_map_from, same_department,
}
use metasight.Risk.{RewriteMeta}
use metasight.Prepare.Dialect.{dialect_from, get_dialect}
use metasight.Prepare.Combine.{append_new, explicit_kinds, gather, insert_kinds, scanned_kinds}
use metasight.Prepare.{
  DataSource, PrepareResponse, SqlRewriter, document, level_texts, prepare, prepare_document,
  prepare_sql, refuse, resolve_tables, rewritten_sql, role_levels_of, sql, sql_answer,
}
use metasight.Prepare.Allowed.{Cleared, prepare_allowed}
use metasight.Prepare.Masks.{by_rewriter, sql_answer_masks}

program : Unit {0}
unfolding prepare prepare_sql sql_answer prepare_document resolve_tables role_levels_of level_texts
    explicit_kinds insert_kinds scanned_kinds gather append_new get_dialect dialect_from decide
    decide_by_scan auto_policy auto_columns auto_column escalate barred same_department find_table
    in_source columns_of pii_map_from best_rule find_rule longest_first get_settings masking_enabled
    section lookup_field truthy masking_level_for_role lookup insert update get_cached_policy
    set_cached_policy lower text_beq
program = tt

none-some : {d : PolicyDecision} → none ≡ some d → ⊥
none-some h = ground arith

-- A cache that forgets what is written.
abbrev no_cache : Redis
no_cache = record {
  Store = Unit {0};
  get = λ s k. none;
  setex = λ s k ttl d. s;
  scan = λ s p. [];
  delete = λ s k. s;
  get-setex = λ s k j ttl v d h. absurd (none-some h);
  get-delete = λ s k j d h. absurd (none-some h);
}

abbrev no_match : String → String → Bool
no_match pattern name = false

-- A rewriter that takes every text for a query of one table, and leaves it as it is.
abbrev plain : SqlRewriter
plain = record {
  guard_sql = λ statement. if length statement == 0 then some "Empty query." else none;
  get_tables = λ statement. "orders" ∷ [];
  rewrite_with_meta = λ statement found dialect. ok (
    statement,
    record {
      masked_columns = [];
      tokenized_columns = [];
      denied_columns = [];
      row_filter_applied = false;
      tables_affected = "orders" ∷ [];
      warnings = [];
    },
  );
}

abbrev monday : Now
monday = record { day_name = "Mon"; hour = 10 }

abbrev analyst : User
analyst = record {
  tenant_id = 1;
  department_id = none;
  claims = ("sub", "ana@x.io") ∷ ("role", "analyst") ∷ [];
}

abbrev column : String → Option String → ColumnEntity
column name action = record {
  name = name;
  pii_type = some "EMAIL";
  classification = some "PII";
  action = action;
  table_id = 6;
  tenant_id = 1;
}

abbrev database : PolicyDb
database = record {
  rules = [];
  tables =
      record {
        id = 6;
        name = "orders";
        tenant_id = 1;
        department_id = none;
        data_source_id = some 4;
      }
      ∷ [];
  columns = column "email" none ∷ column "card" (some "tokenize") ∷ [];
  system_settings = [];
  default_unclassified_policy = "deny";
}

abbrev sources : List DataSource
sources =
    record { id = 4; source_type = "postgres" } ∷ record { id = 5; source_type = "mongodb" } ∷ []

abbrev answer : PrepareResponse
answer = record {
  allowed = true;
  reason = none;
  rewritten_query = some (rewritten_sql (codes "SELECT"));
  tables = "orders" ∷ [];
  denied_columns = [];
  masked_columns = "email" ∷ "card" ∷ [];
  column_pii_map = ("email", some "EMAIL") ∷ ("card", some "EMAIL") ∷ [];
  masking_level = "full";
  policy_classification = some "PII";
}

-- A tokenized column is masked.
sql_run :
    prepare no_cache no_match plain monday database sources 1 analyst 4 (sql (codes "SELECT")) tt
    ≡ ok (answer, tt)
unfolding program
sql_run = refl

-- A table that nobody has classified is refused.
document_run :
    prepare no_cache no_match plain monday database sources 1 analyst 5
      (document (record { collection = some "logs"; filter = end; projection = [] }))
      tt
    ≡ ok (refuse "Access denied to resource 'logs'." ("logs" ∷ []), tt)
unfolding program
document_run = refl

prepare_allowed_example :
    (source : DataSource) × (first (λ d. d.id == 4) sources ≡ some source)
    × (answer.tables ≢ [])
    × All
        (λ t.
          (d : PolicyDecision) × Cleared no_cache no_match monday database 1 analyst
            source.source_type 4 t d)
        answer.tables
prepare_allowed_example =
    prepare_allowed no_cache no_match plain monday database sources 1 analyst 4
      (sql (codes "SELECT")) tt tt answer sql_run refl

abbrev meta : RewriteMeta
meta = record {
  masked_columns = ("email", some "EMAIL") ∷ [];
  tokenized_columns = ("card", "card") ∷ [];
  denied_columns = [];
  row_filter_applied = false;
  tables_affected = "orders" ∷ [];
  warnings = [];
}

sql_answer_masks_example :
    elem "card"
      (sql_answer no_cache no_match plain database 1 analyst
        (codes "SELECT")
        meta
        ("orders" ∷ [])
        []).masked_columns
    ≡ true
sql_answer_masks_example =
    sql_answer_masks no_cache no_match plain database 1 analyst (codes "SELECT") meta
      ("orders" ∷ []) [] "card" (inr (by_rewriter refl))
