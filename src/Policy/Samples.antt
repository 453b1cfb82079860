-- ===== src/Policy/Samples.antt =====
-- A cache in memory, and sample rules, tables and decisions, for the runs of
-- backend/app/services/policy_engine.py.
use metasight.Prelude.{
  Bool, Bool-cases, List, Option, String, [], arith, codes, eq_iff, false, if◌then◌else◌, inl, inr,
  keep, nat_eq, none, some, string_eq, text_eq, true, ℕ, ◌==◌, ◌∷◌, ◌≡◌, ◌≢◌, ◌⊎◌,
}
use metasight.Prelude.Dict.{Dict, insert, keys, lookup, lookup-insert}
use metasight.Identity.{User, role}
use metasight.Policy.{ColumnEntity, ColumnPolicy, PolicyDecision, PolicyRule, Table}
use metasight.Policy.Glob.{glob}
use metasight.Policy.Schedule.{Now}
use metasight.Policy.Auto.{auto_policy}
use metasight.Policy.Cache.{Redis}
use metasight.Policy.Decide.{PolicyDb}

unfoldable pub remove {ℓ} : {V : Type ℓ} → String → Dict V → Dict V
remove k [] = []
remove k ((j, v) ∷ d) = let rest = remove k d in if j == k then rest else (j, v) ∷ rest

lookup-remove {ℓ} :
    {V : Type ℓ} (k j : String) (d : Dict V)
    → lookup j (remove k d) ≡ (if k == j then none else lookup j d)
unfolding lookup remove
lookup-remove k j [] = ground arith
lookup-remove k j ((i, v) ∷ d) =
    ground (arith, lookup-remove k j d, eq_iff i k, eq_iff i j, eq_iff k j)

pub lookup-setex :
    (s : Dict PolicyDecision) (k j : String) (ttl : ℕ) (v d : PolicyDecision)
    → lookup j (insert k v s) ≡ some d
    → (k ≡ j) × (d ≡ v) ⊎ (lookup j s ≡ some d)
lookup-setex s k j ttl v d h = elim (Bool-cases (k == j)) [
  | inl same ↦ inl (ground (arith, lookup-insert k j v s, eq_iff k j))
  | inr another ↦ inr (ground (arith, lookup-insert k j v s))
]

pub lookup-delete :
    (s : Dict PolicyDecision) (k j : String) (d : PolicyDecision)
    → lookup j (remove k s) ≡ some d
    → (k ≢ j) × (lookup j s ≡ some d)
lookup-delete s k j d h = elim (Bool-cases (k == j)) [
  | inl same ↦ absurd (ground (arith, lookup-remove k j s))
  | inr another ↦
      (ground (arith, lookup-remove k j s, eq_iff k j), ground (arith, lookup-remove k j s))
]

-- A cache in memory, whose entries do not expire.
abbrev pub memory : Redis
memory = record {
  Store = Dict PolicyDecision;
  get = λ s k. lookup k s;
  setex = λ s k ttl d. insert k d s;
  scan = λ s p. keep (λ k. glob (codes p) (codes k)) (keys s);
  delete = λ s k. remove k s;
  get-setex = lookup-setex;
  get-delete = lookup-delete;
}

abbrev pub analyst : User
analyst = record {
  tenant_id = 1;
  department_id = some 2;
  claims = ("sub", "ana@x.io") ∷ ("role", "analyst") ∷ [];
}

abbrev pub sales : Table
sales = record {
  id = 5;
  name = "orders";
  tenant_id = 1;
  department_id = some 9;
  data_source_id = some 3;
}

abbrev pub shared : Table
shared = record {
  id = 6;
  name = "orders";
  tenant_id = 1;
  department_id = none;
  data_source_id = some 4;
}

abbrev pub column : String → ℕ → Option String → ColumnEntity
column name table_id pii = record {
  name = name;
  pii_type = pii;
  classification = some "PII";
  action = none;
  table_id = table_id;
  tenant_id = 1;
}

abbrev pub policy : String → List String → ColumnPolicy
policy action exempt = record { action = some action; roles_exempt = exempt; masking_type = none }

abbrev pub rule : ℕ → String → PolicyRule
rule id resource = record {
  id = id;
  resource = resource;
  database_name = "";
  classification = "PII";
  source_type = "";
  column_policies = record {
    schedule =
        some
          (record { allowed_days = "Mon" ∷ []; allowed_hours = 9 ∷ 17 ∷ []; exempt_roles = none });
    tags = ("EMAIL", policy "mask" []) ∷ [];
    columns = ("ssn", policy "deny" ("auditor" ∷ [])) ∷ [];
  };
  row_filters = [];
  tenant_id = 1;
}

abbrev pub database : List PolicyRule → List Table → PolicyDb
database rules tables = record {
  rules = rules;
  tables = tables;
  columns = column "email" 6 (some "EMAIL") ∷ column "ssn" 6 none ∷ [];
  system_settings = [];
  default_unclassified_policy = "deny";
}

abbrev pub monday : Now
monday = record { day_name = "Mon"; hour = 10 }

abbrev pub sunday : Now
sunday = record { day_name = "Sun"; hour = 10 }

abbrev pub no_match : String → String → Bool
no_match pattern name = false

abbrev pub pii_map : Dict (Option String)
pii_map = ("email", some "EMAIL") ∷ ("ssn", none) ∷ []

abbrev pub by_rule_decision : PolicyDecision
by_rule_decision = record {
  resource = "orders";
  allowed = true;
  denied_columns = "ssn" ∷ [];
  masked_columns = "email" ∷ [];
  tokenized_columns = [];
  row_filter_conditions = [];
  policy_id = some 1;
  classification = "PII";
  is_admin_exempt = false;
  source_type = "table";
  auto_policy = false;
  column_pii_map = pii_map;
  known_columns = "email" ∷ "ssn" ∷ [];
  column_masking_type_map = [];
  active_tag_policies = ("EMAIL", "mask") ∷ [];
  active_field_policies = [];
}

abbrev pub by_scan_decision : PolicyDecision
by_scan_decision =
    auto_policy (column "email" 6 (some "EMAIL") ∷ column "ssn" 6 none ∷ []) (role analyst)
      ("email" ∷ "ssn" ∷ []) pii_map "table" "orders"
