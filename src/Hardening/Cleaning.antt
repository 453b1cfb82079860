-- ===== src/Hardening/Cleaning.antt =====
-- The cleaning of a query's text: models normalize_sql, strip_sql_comments,
-- check_exfiltration_patterns, check_multi_statement and harden_sql of
-- backend/app/rewriters/hardening.py. Logging is left out.
use metasight.Prelude.{
  Bool, List, Option, String, Text, [], any, codes, drop, elem, false, if◌then◌else◌, is_some, keep,
  leb, length, ltb, nat_eq, none, not, some, string_eq, strip, suc, text_eq, zero, ℕ, ◌&&◌, ◌++◌,
  ◌+◌, ◌-◌, ◌==◌, ◌||◌, ◌∷◌,
}
use metasight.Sql.{Expr}
use metasight.Mask.Scan.{starts_with}
use metasight.Hardening.Patterns.{exfil_patterns, found}

-- A value, or the ValueError that is raised.
pub data Checked {ℓ} (A : Type ℓ) : Type ℓ where
  done : A → Checked A
  value_error : String → Checked A

infixl 5 ◌>>=◌ ◌>>◌
abbrev pub ◌>>=◌ {ℓ κ} : {A : Type ℓ} {B : Type κ} → Checked A → (A → Checked B) → Checked B
done a >>= f = f a
value_error e >>= f = value_error e

abbrev pub ◌>>◌ {ℓ} : {B : Type ℓ} → Checked (Unit {0}) → Checked B → Checked B
m >> k = m >>= λ _. k

abbrev pub value_error_if : Bool → String → Checked (Unit {0})
value_error_if test message = if test then value_error message else done tt

-- What the code calls of unicodedata and sqlglot. `parse` and `parse_one` give nothing where they
-- raise.
pub record Sqlglot : Type 0 where
  pub nfkc : Text → Text
  pub parse : Text → Option (List (Option Expr))
  pub parse_one : Text → Option Expr
  pub to_sql : Expr → String → Text

-- `_ZERO_WIDTH`.
unfoldable pub is_zero_width : ℕ → Bool
is_zero_width c =
    leb 0x200B c && leb c 0x200F
    || leb 0x202A c && leb c 0x202E
    || leb 0x2060 c && leb c 0x2064
    || leb 0x206A c && leb c 0x206F
    || elem c (0xFEFF ∷ 0xAD ∷ [])

-- `[\x01-\x08\x0b\x0c\x0e-\x1f]`.
unfoldable pub is_non_printable : ℕ → Bool
is_non_printable c =
    leb 0x01 c && leb c 0x08 || elem c (0x0B ∷ 0x0C ∷ []) || leb 0x0E c && leb c 0x1F

-- How many characters there are up to the end of the next `*/`.
unfoldable pub close_at : Text → Option ℕ
unfolding starts_with
close_at [] = none
close_at (c ∷ s) =
    let rest = close_at s in
    if starts_with (codes "*/") (c ∷ s)
    then some 2
    else elim rest [ none ↦ none | some n ↦ some (suc n) ]

-- `re.sub(opening + r".*?\*/", by, s)`, where `skip` characters of a match are still to pass.
unfoldable pub sub_blocks : Text → Text → ℕ → Text → Text
unfolding close_at starts_with
sub_blocks opening by skip [] = []
sub_blocks opening by (suc skip) (c ∷ s) = sub_blocks opening by skip s
sub_blocks opening by zero (c ∷ s) =
    let kept = c ∷ sub_blocks opening by 0 s in
    if starts_with opening (c ∷ s)
    then elim (close_at (drop (length opening) (c ∷ s))) [
      | none ↦ kept
      | some n ↦ by ++ sub_blocks opening by (length opening + n - 1) s
    ]
    else kept

-- `re.sub(r"--[^\r\n]*", " ", s)`; the flag says that a comment is being passed.
unfoldable pub sub_lines : Bool → Text → Text
unfolding starts_with
sub_lines inside [] = []
sub_lines inside (c ∷ s) =
    let stays = c == 10 || c == 13 in
    let opens = starts_with (codes "--") (c ∷ s) in
    let rest = sub_lines (if inside then not stays else opens) s in
    if inside && not stays then rest else if opens && not inside then b' ' ∷ rest else c ∷ rest

unfoldable pub normalize_sql : (Text → Text) → Text → Checked Text
unfolding is_zero_width sub_blocks is_non_printable strip
normalize_sql nfkc sql =
    let visible = keep (λ c. not (is_zero_width c)) (nfkc sql) in
    let no_nulls = keep (λ c. not (c == 0)) visible in
    let no_hints = sub_blocks (codes "/*+") [] 0 no_nulls in
    do
      value_error_if (any is_non_printable no_hints)
          "SQL contains non-printable control characters. Request blocked."
      done (strip no_hints)

unfoldable pub strip_sql_comments : Text → Text
unfolding sub_lines sub_blocks
strip_sql_comments sql = sub_blocks (codes "/*") (b' ' ∷ []) 0 (sub_lines false sql)

unfoldable pub check_exfiltration_patterns : Text → Checked (Unit {0})
unfolding found
check_exfiltration_patterns sql =
    value_error_if (found exfil_patterns sql)
      "Query blocked: potential data exfiltration pattern detected."

module _ (sqlglot : Sqlglot) where
  unfoldable pub check_multi_statement : Text → Checked (Unit {0})
  check_multi_statement sql =
      if elem b';' sql
      then elim (sqlglot.parse sql) [
        | none ↦ done tt
        | some stmts ↦
            value_error_if (ltb 1 (length (keep is_some stmts)))
              "Multi-statement SQL blocked. Only a single SELECT is allowed per request."
      ]
      else done tt

  unfoldable pub harden_sql : Text → Checked Text
  unfolding normalize_sql strip_sql_comments check_exfiltration_patterns check_multi_statement
  harden_sql sql = do
    normal ← normalize_sql sqlglot.nfkc sql
    let stripped = strip_sql_comments normal
    check_exfiltration_patterns stripped
    check_multi_statement stripped
    done stripped
