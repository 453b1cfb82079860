-- ===== src/Risk.antt =====
-- The risk of a query. Models backend/app/services/risk_scorer.py and the dataclass RewriteMeta of
-- backend/app/rewriters/sql_rewriter.py. Points of factors are in hundredths and scores in tenths.
pub mod Score
mod Tests
use metasight.Prelude.{
  Bool, List, Option, String, [], any, if◌then◌else◌, leb, length, ltb, min, not, show_nat, ℕ, ◌%◌,
  ◌&&◌, ◌*◌, ◌++◌, ◌+◌, ◌-◌, ◌/◌, ◌<>◌, ◌∷◌,
}
use metasight.Prelude.Dict.{Dict, insert}
use metasight.Policy.{PolicyDecision}

pub record RewriteMeta : Type 0 where
  pub masked_columns : Dict (Option String)
  pub tokenized_columns : Dict String
  pub denied_columns : List String
  pub row_filter_applied : Bool
  pub tables_affected : List String
  pub warnings : List String

pub record RiskScore : Type 0 where
  pub score : ℕ
  pub level : String
  pub factors : Dict ℕ
  pub recommendations : List String

-- `_THRESHOLDS`, and the loop of `_level`.
abbrev pub thresholds : List (ℕ × String)
thresholds = (800, "CRITICAL") ∷ (500, "HIGH") ∷ (200, "MEDIUM") ∷ (0, "LOW") ∷ []

unfoldable pub level_from : List (ℕ × String) → ℕ → String
level_from [] score = "LOW"
level_from ((threshold, label) ∷ rest) score =
    if leb threshold score then label else level_from rest score

-- `round(h / 100, 1)` in tenths. A number that ends in five hundredths goes up or down with its
-- binary representation, as `tie` says.
unfoldable pub round_tenths : (ℕ → Bool) → ℕ → ℕ
round_tenths tie h =
    if ltb (h % 10) 5
    then h / 10
    else if ltb 5 (h % 10)
    then h / 10 + 1
    else if tie h
    then h / 10 + 1
    else h / 10

-- `factors` and `recs` of `score_query`.
pub record Sheet : Type 0 where
  pub factors : Dict ℕ
  pub recommendations : List String

abbrev pub blank_sheet : Sheet
blank_sheet = record { factors = []; recommendations = [] }

-- `if test: factors[name] = points` with the recommendations of the branch.
unfoldable pub add_factor : Bool → String → ℕ → List String → Sheet → Sheet
add_factor test name points recs sheet =
    if test
    then record {
      factors = insert name points sheet.factors;
      recommendations = sheet.recommendations ++ recs;
    }
    else sheet

unfoldable pub sum_values : Dict ℕ → ℕ
sum_values [] = 0
sum_values ((name, points) ∷ factors) = points + sum_values factors

-- The factors, in the order of the code.
unfoldable pub score_sheet : RewriteMeta → Dict PolicyDecision → ℕ → Sheet
score_sheet meta decisions row_count =
    let n_denied = length meta.denied_columns in
    let n_masked = length meta.masked_columns in
    let n_tokenized = length meta.tokenized_columns in
    let join_depth = length decisions - 1 in
    let s =
      add_factor (ltb 0 n_denied) "denied_columns" (n_denied * 1500)
        ((show_nat n_denied <> " denied column(s) present — consider narrowing SELECT list") ∷ [])
        blank_sheet in
    let s = add_factor (ltb 0 n_masked) "masked_columns" (n_masked * 1000) [] s in
    let s = add_factor (ltb 0 n_tokenized) "tokenized_columns" (n_tokenized * 800) [] s in
    let s =
      add_factor (ltb 0 join_depth) "join_depth" (join_depth * 500)
        (if leb 3 join_depth then "Query spans 4+ tables — verify data minimization" ∷ [] else [])
        s in
    let s =
      add_factor (not meta.row_filter_applied && ltb 0 (length decisions)) "no_row_filter" 1000
        ("No row-level filter applied — full table scan risk" ∷ []) s in
    let s =
      add_factor (ltb 0 row_count) "row_count" (min row_count 2000)
        (if ltb 5000 row_count
          then ("Large result set (" <> show_nat row_count <> " rows) — consider adding filters")
            ∷ []
          else [])
        s in
    let s =
      add_factor (any (λ e. e.1.is_admin_exempt) decisions) "admin_exempt" 500
        ("Admin exemption in effect — access is unmasked" ∷ []) s in
    let s =
      add_factor (ltb 0 (length meta.warnings)) "leakage_warnings" (length meta.warnings * 300)
        ((show_nat (length meta.warnings) <> " function leakage expression(s) suppressed") ∷ [])
        s in
    add_factor (any (λ e. e.1.auto_policy) decisions) "auto_policy" 500
      ("Auto-policy in effect — create an explicit PolicyRule for better control" ∷ []) s

unfoldable pub score_query : (ℕ → Bool) → RewriteMeta → Dict PolicyDecision → ℕ → RiskScore
score_query tie meta decisions row_count =
    let sheet = score_sheet meta decisions row_count in
    let total = round_tenths tie (sum_values sheet.factors) in
    record {
      score = total;
      level = level_from thresholds total;
      factors = sheet.factors;
      recommendations = sheet.recommendations;
    }
