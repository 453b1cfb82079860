-- ===== src/Execute/Tests.antt =====
-- Runs of step 7 of execute_query_endpoint (backend/app/api/query.py).
use metasight.Prelude.{
  All, List, String, Text, [], codes, elem, false, lower, nat_eq, refl, string_eq, text_eq, true, ℕ,
  ◌∷◌, ◌≡◌,
}
use metasight.Prelude.Dict.{Dict, insert, keys, lookup}
use metasight.Mask.Infer.{first_match, infer_pii_type, infer_tags, matches_any}
use metasight.Masking.{Cell, mask_row, null, text}
use metasight.Policy.{PolicyDecision}
use metasight.Policy.Samples.{by_rule_decision}
use metasight.Risk.{RewriteMeta}
use metasight.Tokenization.{Cipher, TokenizationService}
use metasight.Execute.{decisions_of, denied_col_keys, result_rows, treatment_of}
use metasight.Execute.Denied.{Blanked, result_rows_denied}
use metasight.Execute.Actions.{actions, asked, marks, or_else_marks}
use metasight.Execute.Discovery.{treatment_of_lem}
use metasight.Prepare.Combine.{explicit_kinds, gather, or_gather, scanned_kinds}

-- A cipher that keeps the text, and one token for all.
abbrev plain : Cipher
plain = record { encrypt = λ n s. s; decrypt = λ s. s; decrypt-encrypt = λ n s. refl }

abbrev one_token : ℕ → String
one_token n = "tok_1"

abbrev no_text : Text → String
no_text t = ""

abbrev silent : RewriteMeta
silent = record {
  masked_columns = [];
  tokenized_columns = [];
  denied_columns = [];
  row_filter_applied = false;
  tables_affected = [];
  warnings = [];
}

abbrev policies : Dict PolicyDecision
policies = ("orders", record by_rule_decision { active_tag_policies = ("PHONE", "mask") ∷ [] }) ∷ []

abbrev empty : TokenizationService
empty = record { vault = []; tenant_id = 1; cache = []; pending = []; drawn = 0 }

abbrev columns : List String
columns = "id" ∷ "ssn" ∷ "phone" ∷ []

abbrev rows : List (List Cell)
rows = (text (codes "7") ∷ text (codes "123") ∷ null ∷ []) ∷ []

-- An admin who bypasses masking does not see the denied column.
bypass_run :
    (result_rows plain one_token no_text silent policies true "admin" "raw" columns rows empty).0
    ≡ (text (codes "7") ∷ null ∷ null ∷ []) ∷ []
unfolding result_rows lookup insert gather
bypass_run = refl

tags_run : infer_tags (codes "phone") ≡ "PII" ∷ "PHONE" ∷ []
unfolding infer_tags infer_pii_type first_match matches_any lower
tags_run = refl

result_rows_denied_example :
    All
      (Blanked (denied_col_keys silent policies) columns)
      (result_rows plain one_token no_text silent policies true "admin" "raw" columns rows empty).0
result_rows_denied_example =
    result_rows_denied plain one_token no_text silent policies true "admin" "raw" columns rows empty

asked_run : asked (actions "phone" (decisions_of policies)) ≡ (true, false)
unfolding infer_tags infer_pii_type first_match matches_any lower lookup
asked_run = refl

treatment_of_example :
    marks "phone" (treatment_of silent policies columns)
    ≡ or_else_marks
        (
          elem "phone" (or_gather (keys silent.masked_columns) (λ d. d.masked_columns) policies),
          elem "phone"
              (or_gather (keys silent.tokenized_columns) (λ d. d.tokenized_columns) policies),
        )
        (asked (actions "phone" (decisions_of policies)))
treatment_of_example = treatment_of_lem silent policies columns "phone" refl

-- A denied column that the rewriter has not reported, while it has reported another one, is shown.
reported_run :
    (result_rows plain one_token no_text
      (record silent { denied_columns = "x" ∷ [] })
      policies
      false
      "analyst"
      "full"
      ("x" ∷ "ssn" ∷ [])
      ((text (codes "123") ∷ text (codes "123") ∷ []) ∷ [])
      empty).0
    ≡ (null ∷ text (codes "123") ∷ []) ∷ []
unfolding result_rows lookup insert infer_tags infer_pii_type first_match matches_any lower gather
    scanned_kinds explicit_kinds mask_row
reported_run = refl
