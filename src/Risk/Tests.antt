-- ===== src/Risk/Tests.antt =====
-- Runs of backend/app/services/risk_scorer.py, and the theorems at concrete inputs.
use metasight.Prelude.{
  Bool, List, String, [], arith, false, none, refl, show_nat, some, take, true, ℕ, ◌*◌, ◌+◌, ◌∷◌,
  ◌≡◌, ◌≤◌,
}
use metasight.Prelude.Dict.{Dict, insert}
use metasight.Policy.{PolicyDecision}
use metasight.Risk.{
  RewriteMeta, add_factor, level_from, round_tenths, score_query, score_sheet, sum_values,
}
use metasight.Risk.Score.{Levels, points, score_query_lem, score_query_mono}

program : Unit {0}
unfolding level_from round_tenths add_factor sum_values score_sheet score_query insert show_nat
program = tt

abbrev half_up : ℕ → Bool
half_up h = true

abbrev denies : ℕ → List String → RewriteMeta
denies n warnings = record {
  masked_columns = ("email", some "EMAIL") ∷ [];
  tokenized_columns = [];
  denied_columns = take n ("a" ∷ "b" ∷ "c" ∷ "d" ∷ "e" ∷ []);
  row_filter_applied = false;
  tables_affected = "orders" ∷ [];
  warnings = warnings;
}

abbrev decision : PolicyDecision
decision = record {
  resource = "orders";
  allowed = true;
  denied_columns = [];
  masked_columns = "email" ∷ [];
  tokenized_columns = [];
  row_filter_conditions = [];
  policy_id = none;
  classification = "PII";
  is_admin_exempt = false;
  source_type = "postgres";
  auto_policy = true;
  column_pii_map = [];
  known_columns = [];
  column_masking_type_map = [];
  active_tag_policies = [];
  active_field_policies = [];
}

abbrev tables : Dict PolicyDecision
tables = ("orders", decision) ∷ []

scores : score_query half_up (denies 2 []) tables 7 ≡ record {
  score = 551;
  level = "HIGH";
  factors =
      ("denied_columns", 3000)
      ∷ ("masked_columns", 1000)
      ∷ ("no_row_filter", 1000)
      ∷ ("row_count", 7)
      ∷ ("auto_policy", 500)
      ∷ [];
  recommendations =
      "2 denied column(s) present — consider narrowing SELECT list"
      ∷ "No row-level filter applied — full table scan risk"
      ∷ "Auto-policy in effect — create an explicit PolicyRule for better control" ∷ [];
}
unfolding program
scores = refl

score_query_example :
    let r = score_query half_up (denies 5 []) tables 0 in
    (points (denies 5 []) tables 0 ≤ 10 * r.score + 5)
    × (10 * r.score ≤ points (denies 5 []) tables 0 + 5)
    × Levels r.score r.level
score_query_example = score_query_lem half_up (denies 5 []) tables 0

score_query_mono_example :
    (score_query half_up (denies 2 []) tables 0).score
    ≤ (score_query half_up (denies 5 ("UPPER(email)" ∷ [])) tables 9000).score
score_query_mono_example =
    score_query_mono half_up (denies 2 []) (denies 5 ("UPPER(email)" ∷ [])) tables 0 9000
      (omega arith) (omega arith) (omega arith) (omega arith) refl (omega arith)
