-- ===== src/Risk/Score.antt =====
-- The formula of a score, its levels, and that a riskier query scores no less.
-- About score_query of backend/app/services/risk_scorer.py.
use metasight.Prelude.{
  All, Bool, Bool-cases, List, String, [], any, ap, arith, elem, eq_iff, false, if◌then◌else◌, inl,
  inr, length, ltb, min, nat_eq, none, not, refl, string_eq, sym, text_eq, true, ℕ, ◌&&◌, ◌*◌, ◌+◌,
  ◌-◌, ◌<◌, ◌==◌, ◌↔◌, ◌∙◌, ◌∷◌, ◌≡◌, ◌≤◌,
}
use metasight.Prelude.Dict.{Dict, insert, lookup, lookup-insert}
use metasight.Policy.{PolicyDecision}
use metasight.Risk.{
  RewriteMeta, Sheet, add_factor, blank_sheet, level_from, round_tenths, score_query, score_sheet,
  sum_values, thresholds,
}

abbrev pub points_if : Bool → ℕ → ℕ
points_if test n = if test then n else 0

-- The points of a query in hundredths, as the formula at the top of the file counts them, with those
-- for a decision without a rule.
abbrev pub points : RewriteMeta → Dict PolicyDecision → ℕ → ℕ
points meta decisions row_count =
    length meta.denied_columns * 1500
    + length meta.masked_columns * 1000
    + length meta.tokenized_columns * 800
    + (length decisions - 1) * 500
    + points_if (not meta.row_filter_applied && ltb 0 (length decisions)) 1000
    + min row_count 2000
    + points_if (any (λ e. e.1.is_admin_exempt) decisions) 500
    + length meta.warnings * 300
    + points_if (any (λ e. e.1.auto_policy) decisions) 500

sum_values-insert :
    (name : String) (n : ℕ) (factors : Dict ℕ)
    → lookup name factors ≡ none
    → sum_values (insert name n factors) ≡ sum_values factors + n
unfolding sum_values insert lookup
sum_values-insert name n [] fresh = omega arith
sum_values-insert name n ((j, m) ∷ factors) fresh = elim (Bool-cases (j == name)) [
  | inl same ↦ absurd (ground arith)
  | inr another ↦ ground (arith, sum_values-insert name n factors)
]

-- The names that have no factor yet.
abbrev Unused : List String → Sheet → Type 0
Unused names sheet = All (λ n. lookup n sheet.factors ≡ none) names

-- A factor adds its points where its test holds, and leaves the other names unused.
add_factor-sum :
    (test : Bool) (name : String) (n : ℕ) (recs : List String) (sheet : Sheet)
    → lookup name sheet.factors ≡ none
    → sum_values (add_factor test name n recs sheet).factors
      ≡ sum_values sheet.factors + points_if test n
unfolding add_factor
add_factor-sum true name n recs sheet fresh = sum_values-insert name n sheet.factors fresh
add_factor-sum false name n recs sheet fresh = omega arith

add_factor-Unused :
    (test : Bool) (name : String) (n : ℕ) (recs : List String) (sheet : Sheet) (names : List String)
    → elem name names ≡ false
    → Unused names sheet
    → Unused names (add_factor test name n recs sheet)
unfolding add_factor
add_factor-Unused test name n recs sheet [] others unused = tt
add_factor-Unused true name n recs sheet (m ∷ names) others unused =
    let apart : (name == m) ≡ false = ground arith in
    let rest : elem name names ≡ false = ground arith in
    (
      lookup-insert name m n sheet.factors ∙ rw apart unused.0,
      add_factor-Unused true name n recs sheet names rest unused.1,
    )
add_factor-Unused false name n recs sheet (m ∷ names) others unused = unused

-- The points so far, and the names still unused.
record Totals (total : ℕ) (names : List String) (sheet : Sheet) : Type 0 where
  sum : sum_values sheet.factors ≡ total
  unused : Unused names sheet

add_factor-Totals :
    (test : Bool) (name : String) (n : ℕ) (recs : List String) {total : ℕ} {names : List String}
    {sheet : Sheet}
    → elem name names ≡ false
    → Totals total (name ∷ names) sheet
    → Totals (total + points_if test n) names (add_factor test name n recs sheet)
add_factor-Totals test name n recs {total} {names} {sheet} others t = record {
  sum = add_factor-sum test name n recs sheet t.unused.0 ∙ ap (λ m. m + points_if test n) t.sum;
  unused = add_factor-Unused test name n recs sheet names others t.unused.1;
}

-- A factor of no columns has no points.
points_if-positive : (n m : ℕ) → (n ≡ 0 → m ≡ 0) → points_if (ltb 0 n) m ≡ m
points_if-positive n m h = elim (Bool-cases (ltb 0 n)) [
  | inl some_points ↦ rw some_points refl
  | inr no_points ↦ rw no_points (sym (h (ground arith)))
]

points_if-scaled : (n k : ℕ) → points_if (ltb 0 n) (n * k) ≡ n * k
points_if-scaled n k = points_if-positive n (n * k) (λ e. rw e (omega arith))

points_if-rows : (n : ℕ) → points_if (ltb 0 n) (min n 2000) ≡ min n 2000
points_if-rows n = points_if-positive n (min n 2000) (λ e. rw e refl)

abbrev all_names : List String
all_names =
    "denied_columns" ∷ "masked_columns" ∷ "tokenized_columns" ∷ "join_depth" ∷ "no_row_filter"
    ∷ "row_count" ∷ "admin_exempt" ∷ "leakage_warnings" ∷ "auto_policy" ∷ []

blank_sheet-Totals : Totals 0 all_names blank_sheet
unfolding sum_values lookup
blank_sheet-Totals = record {
  sum = refl;
  unused = (refl, (refl, (refl, (refl, (refl, (refl, (refl, (refl, (refl, tt)))))))));
}

pub score_sheet-points :
    (meta : RewriteMeta) (decisions : Dict PolicyDecision) (row_count : ℕ)
    → sum_values (score_sheet meta decisions row_count).factors ≡ points meta decisions row_count
unfolding score_sheet
score_sheet-points meta decisions row_count =
    let d = add_factor-Totals _ _ _ _ refl blank_sheet-Totals in
    let m = add_factor-Totals _ _ _ _ refl d in
    let t = add_factor-Totals _ _ _ _ refl m in
    let j = add_factor-Totals _ _ _ _ refl t in
    let f = add_factor-Totals _ _ _ _ refl j in
    let r = add_factor-Totals _ _ _ _ refl f in
    let e = add_factor-Totals _ _ _ _ refl r in
    let w = add_factor-Totals _ _ _ _ refl e in
    let a = add_factor-Totals _ _ _ _ refl w in
    a.sum
    ∙ rw
        (
          points_if-scaled (length meta.denied_columns) 1500,
          points_if-scaled (length meta.masked_columns) 1000,
          points_if-scaled (length meta.tokenized_columns) 800,
          points_if-scaled (length decisions - 1) 500,
          points_if-rows row_count,
          points_if-scaled (length meta.warnings) 300,
        )
        (omega arith)

-- What a level says of a score.
abbrev pub Levels : ℕ → String → Type 0
Levels score level =
    ((level ≡ "CRITICAL") ↔ (800 ≤ score))
    × ((level ≡ "HIGH") ↔ ((500 ≤ score) × (score < 800)))
    × ((level ≡ "MEDIUM") ↔ ((200 ≤ score) × (score < 500)))
    × ((level ≡ "LOW") ↔ (score < 200))

level_from-Levels : (score : ℕ) → Levels score (level_from thresholds score)
unfolding level_from
level_from-Levels score = ground (
  arith,
  eq_iff "CRITICAL" "HIGH",
  eq_iff "CRITICAL" "MEDIUM",
  eq_iff "CRITICAL" "LOW",
  eq_iff "HIGH" "MEDIUM",
  eq_iff "HIGH" "LOW",
  eq_iff "MEDIUM" "LOW",
)

module _ (tie : ℕ → Bool) where
  round_tenths-near :
      (h : ℕ) → (h ≤ 10 * round_tenths tie h + 5) × (10 * round_tenths tie h ≤ h + 5)
  unfolding round_tenths
  round_tenths-near h = (ground arith, ground arith)

  round_tenths_mono : (h k : ℕ) → h ≤ k → round_tenths tie h ≤ round_tenths tie k
  unfolding round_tenths
  round_tenths_mono h k le = ground arith

  -- A score is the formula's points, rounded to a tenth with an error of at most five hundredths;
  -- the level is CRITICAL exactly from 80 on, HIGH from 50, MEDIUM from 20, and LOW below.
  pub score_query_lem :
      (meta : RewriteMeta) (decisions : Dict PolicyDecision) (row_count : ℕ)
      → let r = score_query tie meta decisions row_count in
        (points meta decisions row_count ≤ 10 * r.score + 5)
        × (10 * r.score ≤ points meta decisions row_count + 5)
        × Levels r.score r.level
  unfolding score_query
  score_query_lem meta decisions row_count =
      let e = score_sheet-points meta decisions row_count in
      let total = sum_values (score_sheet meta decisions row_count).factors in
      let (up, down) = round_tenths-near total in
      (omega arith, omega arith, level_from-Levels (round_tenths tie total))

  -- With the same decisions and the same row filter, a query with at least as many columns denied,
  -- masked and tokenized, warnings and rows scores no less.
  pub score_query_mono :
      (meta meta' : RewriteMeta) (decisions : Dict PolicyDecision) (row_count row_count' : ℕ)
      → length meta.denied_columns ≤ length meta'.denied_columns
      → length meta.masked_columns ≤ length meta'.masked_columns
      → length meta.tokenized_columns ≤ length meta'.tokenized_columns
      → length meta.warnings ≤ length meta'.warnings
      → meta.row_filter_applied ≡ meta'.row_filter_applied
      → row_count ≤ row_count'
      → (score_query tie meta decisions row_count).score
        ≤ (score_query tie meta' decisions row_count').score
  unfolding score_query
  score_query_mono meta meta' decisions row_count row_count' d m t w f r =
      let e = score_sheet-points meta decisions row_count in
      let e' = score_sheet-points meta' decisions row_count' in
      let more : points meta decisions row_count ≤ points meta' decisions row_count' =
        rw f (omega arith) in
      round_tenths_mono (sum_values (score_sheet meta decisions row_count).factors)
        (sum_values (score_sheet meta' decisions row_count').factors) (omega arith)
