-- ===== src/Prepare.antt =====
-- The decision on a query before it runs. Models backend/app/services/gateway_prepare.py. The SQL
-- rewriter works on the trees of a parser library; its three entry points are an interface here,
-- which Prepare/Rewriting fills.
pub mod Dialect
pub mod Combine
pub mod Samples
pub mod Course
pub mod Allowed
pub mod Rewriting
pub mod Masks
mod Tests
use metasight.Prelude.{
  Bool, List, Option, String, Text, [], elem, false, first, if◌then◌else◌, nat_eq, none, or_else,
  show_nat, some, string_eq, text_eq, true, ℕ, ◌<>◌, ◌==◌, ◌∷◌,
}
use metasight.Prelude.Dict.{Dict, insert, keys, lookup}
use metasight.Http.{Result, http, ok}
use metasight.Identity.{User, role}
use metasight.Json.{Fields, end, field, lookup_field, obj, section, text}
use metasight.Settings.{get_settings}
use metasight.Masking.{masking_level_for_role}
use metasight.Policy.{Outcome, PolicyDecision, ok, permission_error}
use metasight.Policy.Schedule.{Now}
use metasight.Policy.Cache.{Redis}
use metasight.Policy.Decide.{PolicyDb, decide}
use metasight.Risk.{RewriteMeta}
use metasight.Mongo.{MongoQuery, RewrittenQuery, rewrite}
use metasight.Prepare.Dialect.{get_dialect}
use metasight.Prepare.Combine.{append_new, column_actions, explicit_kinds, or_gather, scanned_kinds}

pub record DataSource : Type 0 where
  pub id : ℕ
  pub source_type : String

-- `_NOSQL_TYPES`.
abbrev pub nosql_types : List String
nosql_types = "mongodb" ∷ "elasticsearch" ∷ "opensearch" ∷ "dynamodb" ∷ "redis" ∷ []

-- A query of the caller: a text, or a document.
pub data Query : Type 0 where
  sql : Text → Query
  document : MongoQuery → Query

pub data RewrittenBody : Type 0 where
  rewritten_sql : Text → RewrittenBody
  rewritten_document : RewrittenQuery → RewrittenBody

pub record PrepareResponse : Type 0 where
  pub allowed : Bool
  pub reason : Option String
  pub rewritten_query : Option RewrittenBody
  pub tables : List String
  pub denied_columns : List String
  pub masked_columns : List String
  pub column_pii_map : Dict (Option String)
  pub masking_level : String
  pub policy_classification : Option String

-- `PrepareResponse(allowed=False, reason=…, tables=…)`.
abbrev pub refuse : String → List String → PrepareResponse
refuse reason tables = record {
  allowed = false;
  reason = some reason;
  rewritten_query = none;
  tables = tables;
  denied_columns = [];
  masked_columns = [];
  column_pii_map = [];
  masking_level = "full";
  policy_classification = none;
}

-- What `prepare` calls of the SQL rewriter; an error is the text of a ValueError.
pub record SqlRewriter : Type 0 where
  pub guard_sql : Text → Option String
  pub get_tables : Text → List String
  pub rewrite_with_meta : Text → Dict PolicyDecision → String → Outcome (Text × RewriteMeta)

abbrev pub denial : String → String
denial table = "Access denied to resource '" <> table <> "'."

-- What the loop over the tables ends with.
pub data Resolved : Type 0 where
  policies : Dict PolicyDecision → Resolved
  refused : String → Resolved

-- `cfg.get("masking", {}).get("role_levels", None)`; a level that is no text masks like `full`.
unfoldable pub level_texts : Fields → Dict String
level_texts end = []
level_texts (field name (text level) fs) = (name, level) ∷ level_texts fs
level_texts (field name v fs) = (name, "full") ∷ level_texts fs

unfoldable pub role_levels_of : Fields → Option (Dict String)
role_levels_of masking = elim (lookup_field "role_levels" masking) [
  | some (obj fs) ↦ some (level_texts fs)
  | _ ↦ none
]

module _ (redis : Redis) (ilike : String → String → Bool) (rewriter : SqlRewriter) where
  open redis use {Store}

  abbrev pub level_of : PolicyDb → ℕ → User → String
  level_of db tenant_id user =
      masking_level_for_role (role user)
        (role_levels_of (section "masking" (get_settings tenant_id db.system_settings)))

  unfoldable pub resolve_tables :
      Now
      → PolicyDb
      → ℕ
      → User
      → String
      → ℕ
      → List String
      → Dict PolicyDecision
      → Store
      → Resolved × Store
  resolve_tables now db tenant_id user source_type source_id [] found s = (policies found, s)
  resolve_tables now db tenant_id user source_type source_id (table ∷ tables) found s =
      let (outcome, s') =
        decide redis ilike now db tenant_id table user source_type (some source_id) s in
      elim outcome [
        | permission_error message ↦ (refused message, s')
        | ok decision ↦
            (let rest =
                resolve_tables now db tenant_id user source_type source_id tables
                  (insert table decision found) s' in
              if decision.allowed then rest else (refused (denial table), s'))
      ]

  -- The branch for document stores.
  unfoldable pub prepare_document :
      Now → PolicyDb → ℕ → User → String → ℕ → MongoQuery → Store → PrepareResponse × Store
  prepare_document now db tenant_id user source_type source_id query s =
      let table = or_else query.collection "default" in
      let (outcome, s') =
        decide redis ilike now db tenant_id table user source_type (some source_id) s in
      elim outcome [
        | permission_error message ↦ (refuse message (table ∷ []), s')
        | ok d ↦
            (let answer : PrepareResponse = record {
              allowed = true;
              reason = none;
              rewritten_query = some (
                  rewritten_document
                    (rewrite query d.row_filter_conditions (column_actions d) user));
              tables = table ∷ [];
              denied_columns = d.denied_columns;
              masked_columns = append_new (append_new [] d.masked_columns) d.tokenized_columns;
              column_pii_map = d.column_pii_map;
              masking_level = level_of db tenant_id user;
              policy_classification = some d.classification;
            } in
              (if d.allowed then answer else refuse (denial table) (table ∷ []), s'))
      ]

  -- The answer for a query that was rewritten.
  unfoldable pub sql_answer :
      PolicyDb → ℕ → User → Text → RewriteMeta → List String → Dict PolicyDecision → PrepareResponse
  sql_answer db tenant_id user statement meta tables found =
      let masked = or_gather (keys meta.masked_columns) (λ d. d.masked_columns) found in
      let tokenized = or_gather (keys meta.tokenized_columns) (λ d. d.tokenized_columns) found in
      record {
        allowed = true;
        reason = none;
        rewritten_query = some (rewritten_sql statement);
        tables = tables;
        denied_columns = or_gather meta.denied_columns (λ d. d.denied_columns) found;
        masked_columns = append_new masked tokenized;
        column_pii_map = explicit_kinds found (scanned_kinds found []);
        masking_level = level_of db tenant_id user;
        policy_classification = elim tables [
          | [] ↦ none
          | t ∷ ts ↦ elim (lookup t found) [ none ↦ none | some d ↦ some d.classification ]
        ];
      }

  unfoldable pub prepare_sql :
      Now → PolicyDb → ℕ → User → String → ℕ → Text → Store → PrepareResponse × Store
  prepare_sql now db tenant_id user source_type source_id statement s =
      elim (rewriter.guard_sql statement) [
        | some message ↦ (refuse message [], s)
        | none ↦ elim (rewriter.get_tables statement) [
          | [] ↦ (refuse "Could not extract table name from SQL." [], s)
          | t ∷ ts ↦
              (let (resolved, s') =
                  resolve_tables now db tenant_id user source_type source_id (t ∷ ts) [] s in
                elim resolved [
                  | refused message ↦ (refuse message (t ∷ ts), s')
                  | policies found ↦
                      elim (rewriter.rewrite_with_meta statement found (get_dialect source_type)) [
                        | permission_error message ↦ (refuse message (t ∷ ts), s')
                        | ok (rewritten, meta) ↦
                            (sql_answer db tenant_id user rewritten meta (t ∷ ts) found, s')
                      ]
                ])
        ]
      ]

  unfoldable pub prepare :
      Now
      → PolicyDb
      → List DataSource
      → ℕ
      → User
      → ℕ
      → Query
      → Store
      → Result (PrepareResponse × Store)
  prepare now db sources tenant_id user source_id query s =
      elim (first (λ d. d.id == source_id) sources) [
        | none ↦ http 404 ("DataSource with id=" <> show_nat source_id <> " not found.")
        | some source ↦ elim query [
          | sql statement ↦
              if elem source.source_type nosql_types
              then http 422 "NoSQL query must be an object with collection/filter/projection"
              else ok (prepare_sql now db tenant_id user source.source_type source_id statement s)
          | document q ↦
              if elem source.source_type nosql_types
              then ok (prepare_document now db tenant_id user source.source_type source_id q s)
              else http 422 "SQL query must be a string"
        ]
      ]
