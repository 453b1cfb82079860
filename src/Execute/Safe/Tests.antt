-- ===== src/Execute/Safe/Tests.antt =====
-- A run of execute_query_endpoint (backend/app/api/query.py) on one table.
use metasight.Prelude.{Bool, List, String, Text, [], codes, false, none, refl, ℕ, ◌∷◌}
use metasight.Prelude.Dict.{Dict}
use metasight.Http.{Result, ok}
use metasight.Json.{null, text}
use metasight.Masking.{Cell, null, text}
use metasight.Policy.{PolicyDecision, ok}
use metasight.Policy.Samples.{analyst, memory, monday, no_match}
use metasight.Tokenization.{Cipher}
use metasight.Sql.{columns, null}
use metasight.Execute.Sql.{ExecState, ExecuteRequest, ExecuteResponse, Execution, execute_sql}
use metasight.Prepare.Samples.{decided, one_statement, with_secret}

abbrev plain : Cipher
plain = record { encrypt = λ n s. s; decrypt = λ s. s; decrypt-encrypt = λ n s. refl }

abbrev one_token : ℕ → String
one_token n = "tok_1"

abbrev no_text : Text → String
no_text t = ""

abbrev never : ℕ → Bool
never n = false

-- The driver returns the denied column all the same.
abbrev leaking : Text → Result (List String × List (List Cell))
leaking statement =
    ok ("ssn" ∷ "email" ∷ [], (text (codes "123") ∷ text (codes "ana@x.io") ∷ []) ∷ [])

abbrev request : ExecuteRequest
request = record {
  source_id = 4;
  sql = codes "SELECT";
  approval_token = none;
  bypass_masking = false;
}

abbrev start : ExecState (Dict PolicyDecision)
start = record {
  cache = [];
  approvals = record { approvals = []; data_changes = []; activities = [] };
  tokens = record { vault = []; tenant_id = 1; cache = []; pending = []; drawn = 0 };
}

abbrev run : Execution × ExecState (Dict PolicyDecision)
run =
    execute_sql memory no_match one_statement plain one_token no_text never leaking (λ n. n) 9
      monday with_secret analyst "postgres" request start

abbrev response : ExecuteResponse
response = record {
  columns = "ssn" ∷ "email" ∷ [];
  rows = (null ∷ text (codes "a***@x.io") ∷ []) ∷ [];
  rewritten_sql = codes "1";
  warnings = "POST-REWRITE LEAK DETECTED: denied column 'ssn' appears in rewritten projection" ∷ [];
  risk = record {
    score = 430;
    level = "MEDIUM";
    factors =
        ("denied_columns", 1500)
        ∷ ("masked_columns", 1000)
        ∷ ("no_row_filter", 1000)
        ∷ ("row_count", 1)
        ∷ ("leakage_warnings", 300)
        ∷ ("auto_policy", 500)
        ∷ [];
    recommendations =
        "1 denied column(s) present — consider narrowing SELECT list"
        ∷ "No row-level filter applied — full table scan risk"
        ∷ "1 function leakage expression(s) suppressed"
        ∷ "Auto-policy in effect — create an explicit PolicyRule for better control" ∷ [];
  };
  masking_level = "full";
}

abbrev finish : ExecState (Dict PolicyDecision)
finish = record start { cache = ("dg:policy:1:orders:analyst", decided) ∷ [] }
