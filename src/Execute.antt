-- ===== src/Execute.antt =====
-- The rows of an executed query on their way to the caller: models step 7 of execute_query_endpoint in
-- backend/app/api/query.py. The columns and rows come from the driver.
pub mod Denied
pub mod Actions
pub mod Discovery
pub mod Sql
pub mod Allowed
pub mod Safe
mod Tests
use metasight.Prelude.{
  Bool, List, Option, String, Text, [], codes, elem, if◌then◌else◌, map, nat_eq, none, not, or_else,
  some, string_eq, text_eq, ℕ, ◌&&◌, ◌++◌, ◌==◌, ◌||◌, ◌∷◌,
}
use metasight.Prelude.Dict.{Dict, has, insert, keys, lookup}
use metasight.Mask.Infer.{infer_pii_type, infer_tags}
use metasight.Masking.{Cell, mask_row, null, object, text}
use metasight.Policy.{PolicyDecision}
use metasight.Risk.{RewriteMeta}
use metasight.Tokenization.{Cipher, TokenizationService, flush_batch, tokenize}
use metasight.Prepare.Combine.{explicit_kinds, or_gather, scanned_kinds}

-- `masked_col_keys`, `tokenize_cols` and `combined_pii_map`.
pub record Treatment : Type 0 where
  pub masked_col_keys : List String
  pub tokenize_cols : List String
  pub combined_pii_map : Dict (Option String)

abbrev pub is_treated : String → Treatment → Bool
is_treated col t = elem col t.masked_col_keys || elem col t.tokenize_cols

unfoldable pub add_masked : String → Treatment → Treatment
add_masked col t = record t {
  masked_col_keys = t.masked_col_keys ++ col ∷ [];
  combined_pii_map =
      if has col t.combined_pii_map
      then t.combined_pii_map
      else insert col (infer_pii_type (codes col)) t.combined_pii_map;
}

unfoldable pub add_tokenized : String → Treatment → Treatment
add_tokenized col t = record t { tokenize_cols = t.tokenize_cols ++ col ∷ [] }

-- One action that was looked up; `rest` is what the loop goes on with.
abbrev pub by_action : String → Option String → Treatment → Treatment → Treatment
by_action col none t rest = rest
by_action col (some action) t rest =
    if action == "mask"
    then add_masked col t
    else if action == "tokenize"
    then add_tokenized col t
    else rest

abbrev pub decisions_of : Dict PolicyDecision → List PolicyDecision
decisions_of = map (λ e. e.1)

-- The loop over `active_field_policies`.
unfoldable pub by_field : String → List PolicyDecision → Treatment → Treatment
unfolding add_masked add_tokenized
by_field col [] t = t
by_field col (d ∷ ds) t =
    let rest = by_field col ds t in by_action col (lookup col d.active_field_policies) t rest

-- The loops over the inferred tags and `active_tag_policies`.
unfoldable pub by_tag : String → List String → PolicyDecision → Treatment → Treatment
unfolding add_masked add_tokenized
by_tag col [] d t = t
by_tag col (tag ∷ tags) d t =
    let rest = by_tag col tags d t in by_action col (lookup tag d.active_tag_policies) t rest

unfoldable pub by_tags : String → List String → List PolicyDecision → Treatment → Treatment
unfolding by_tag
by_tags col tags [] t = t
by_tags col tags (d ∷ ds) t =
    let t' = by_tag col tags d t in
    let rest = by_tags col tags ds t' in if is_treated col t' then t' else rest

unfoldable pub discover_column : List PolicyDecision → String → Treatment → Treatment
unfolding by_field by_tags
discover_column ds col t =
    let t' = by_field col ds t in
    if is_treated col t
    then t
    else if is_treated col t'
    then t'
    else by_tags col (infer_tags (codes col)) ds t'

-- Dynamic column discovery.
unfoldable pub discover : List PolicyDecision → List String → Treatment → Treatment
unfolding discover_column
discover ds [] t = t
discover ds (col ∷ columns) t = discover ds columns (discover_column ds col t)

unfoldable pub treatment_of : RewriteMeta → Dict PolicyDecision → List String → Treatment
unfolding discover
treatment_of meta table_policies columns = discover (decisions_of table_policies) columns (record {
  masked_col_keys = or_gather (keys meta.masked_columns) (λ d. d.masked_columns) table_policies;
  tokenize_cols = or_gather (keys meta.tokenized_columns) (λ d. d.tokenized_columns) table_policies;
  combined_pii_map = explicit_kinds table_policies (scanned_kinds table_policies []);
})

abbrev pub denied_col_keys : RewriteMeta → Dict PolicyDecision → List String
denied_col_keys meta table_policies =
    or_gather meta.denied_columns (λ d. d.denied_columns) table_policies

-- `dict(zip(columns, raw_row))`.
unfoldable pub zip_row : Dict Cell → List String → List Cell → Dict Cell
zip_row row [] cells = row
zip_row row (col ∷ columns) [] = row
zip_row row (col ∷ columns) (v ∷ cells) = zip_row (insert col v row) columns cells

unfoldable pub deny_row : List String → Dict Cell → Dict Cell
deny_row [] row = row
deny_row (col ∷ cols) row = deny_row cols (if has col row then insert col null row else row)

-- `str(row_dict[col])`, unless the column is missing or None.
abbrev pub shown_cell : Option Cell → Option Text
shown_cell none = none
shown_cell (some null) = none
shown_cell (some (text s)) = some s
shown_cell (some (object s)) = some s

-- `row_dict.get(col)`.
abbrev pub cell_at : Dict Cell → String → Cell
cell_at row col = or_else (lookup col row) null

-- `string_of` is the string with the given characters.
module _ (cipher : Cipher) (fresh : ℕ → String) (string_of : Text → String) where
  unfoldable pub tokenize_columns :
      List String → Dict Cell → TokenizationService → Dict Cell × TokenizationService
  tokenize_columns [] row s = (row, s)
  tokenize_columns (col ∷ cols) row s = elim (shown_cell (lookup col row)) [
    | none ↦ tokenize_columns cols row s
    | some v ↦
        (let (token, s') = tokenize cipher fresh (string_of v) (some col) s in
          tokenize_columns cols (insert col (text (codes token)) row) s')
  ]

  -- One row; `should_mask` is false for an admin who asks to bypass masking.
  unfoldable pub process_row :
      List String
      → List String
      → Treatment
      → String
      → Bool
      → List Cell
      → TokenizationService
      → List Cell × TokenizationService
  unfolding deny_row zip_row tokenize_columns
  process_row columns denied t mask_level should_mask raw_row s =
      let row = deny_row denied (zip_row [] columns raw_row) in
      let (processed, s') =
        tokenize_columns t.tokenize_cols
          (mask_row row t.masked_col_keys t.combined_pii_map mask_level) s in
      if should_mask then (map (cell_at processed) columns, s') else (map (cell_at row) columns, s)

  unfoldable pub process_rows :
      List String
      → List String
      → Treatment
      → String
      → Bool
      → List (List Cell)
      → TokenizationService
      → List (List Cell) × TokenizationService
  unfolding process_row
  process_rows columns denied t mask_level should_mask [] s = ([], s)
  process_rows columns denied t mask_level should_mask (raw_row ∷ rows) s =
      let (row, s') = process_row columns denied t mask_level should_mask raw_row s in
      let (processed, s'') = process_rows columns denied t mask_level should_mask rows s' in
      (row ∷ processed, s'')

  -- The rows that the caller gets, and the vault with the new tokens.
  unfoldable pub result_rows :
      RewriteMeta
      → Dict PolicyDecision
      → Bool
      → String
      → String
      → List String
      → List (List Cell)
      → TokenizationService
      → List (List Cell) × TokenizationService
  unfolding treatment_of process_rows
  result_rows meta table_policies bypass_masking user_role mask_level columns rows s =
      let (processed, s') =
        process_rows columns (denied_col_keys meta table_policies)
          (treatment_of meta table_policies columns) mask_level
          (not (bypass_masking && user_role == "admin")) rows s in
      (processed, (flush_batch cipher fresh s').1)
