-- ===== src/Execute/Denied.antt =====
-- Denied columns leave no value in the rows of a query.
-- About step 7 of execute_query_endpoint in backend/app/api/query.py.
use metasight.Prelude.{
  All, Bool, Bool-cases, List, Option, Option-cases, String, Text, [], arith, codes, elem, eq_iff,
  false, inl, inr, map, nat_eq, none, refl, some, string_eq, subst, sym, text_eq, true, ℕ, ◌==◌,
  ◌∷◌, ◌≡◌, ◌⊎◌,
}
use metasight.Prelude.Dict.{Dict, has, insert, lookup, lookup-insert}
use metasight.Masking.{Cell, mask_row, mask_value, null, pii_of, text}
use metasight.Policy.{PolicyDecision}
use metasight.Tokenization.{Cipher, TokenizationService, tokenize}
use metasight.Execute.{
  Treatment, cell_at, denied_col_keys, deny_row, process_row, process_rows, result_rows, shown_cell,
  tokenize_columns, zip_row,
}
use metasight.Risk.{RewriteMeta}

-- The row has no value for the column.
abbrev pub IsSilent : String → Dict Cell → Type 0
IsSilent j row = (lookup j row ≡ none) ⊎ (lookup j row ≡ some null)

IsSilent-insert :
    (j col : String) (v : Cell) (row : Dict Cell)
    → IsSilent j row
    → (col == j) ≡ false
    → IsSilent j (insert col v row)
IsSilent-insert j col v row h apart =
    let same : lookup j (insert col v row) ≡ lookup j row =
      ground (arith, lookup-insert col j v row) in
    subst (λ o. (o ≡ none) ⊎ (o ≡ some null)) (sym same) h

IsSilent-null :
    (j col : String) (row : Dict Cell) → IsSilent j row → IsSilent j (insert col null row)
IsSilent-null j col row h = elim (Bool-cases (col == j)) [
  | inl same ↦ inr (ground (arith, lookup-insert col j null row))
  | inr apart ↦ IsSilent-insert j col null row h apart
]

deny_row-kept :
    (j : String) (cols : List String) (row : Dict Cell)
    → IsSilent j row
    → IsSilent j (deny_row cols row)
unfolding deny_row
deny_row-kept j [] row h = h
deny_row-kept j (col ∷ cols) row h = elim (Bool-cases (has col row)) [
  | inl present ↦
      rw (present, deny_row)
        (deny_row-kept j cols (insert col null row) (IsSilent-null j col row h))
  | inr absent ↦ rw (absent, deny_row) (deny_row-kept j cols row h)
]

deny_row-IsSilent :
    (j : String) (cols : List String) (row : Dict Cell)
    → elem j cols ≡ true
    → IsSilent j (deny_row cols row)
unfolding deny_row
deny_row-IsSilent j [] row h = absurd (ground arith)
deny_row-IsSilent j (col ∷ cols) row h = elim (Bool-cases (j == col)) [
  | inr apart ↦ deny_row-IsSilent j cols _ (ground arith)
  | inl same ↦ elim (Option-cases (lookup col row)) [
    | inl missing ↦
        let absent : has col row ≡ false = rw missing refl in
        rw (absent, deny_row) (deny_row-kept j cols row (inl (ground (arith, eq_iff j col))))
    | inr (v, found) ↦
        let present : has col row ≡ true = rw found refl in
        rw (present, deny_row)
          (deny_row-kept j cols (insert col null row)
            (inr (ground (arith, eq_iff j col, eq_iff col j, lookup-insert col j null row))))
  ]
]

mask_row-IsSilent :
    (j : String) (cols : List String) (kinds : Dict (Option String)) (level : String)
    (row : Dict Cell)
    → IsSilent j row
    → IsSilent j (mask_row row cols kinds level)
unfolding mask_row mask_value
mask_row-IsSilent j [] kinds level row h = h
mask_row-IsSilent j (col ∷ cols) kinds level row h = elim (Option-cases (lookup col row)) [
  | inl missing ↦ rw (missing, mask_row) (mask_row-IsSilent j cols kinds level row h)
  | inr (v, found) ↦
      let next = insert col (mask_value v (pii_of col kinds) level) row in
      rw (found, mask_row)
        (mask_row-IsSilent j cols kinds level next (elim (Bool-cases (col == j)) [
          | inr apart ↦ IsSilent-insert j col _ row h apart
          | inl same ↦ elim h [
            | inl missing ↦ absurd (ground (arith, eq_iff col j))
            | inr known ↦
                let e : v ≡ null = ground (arith, eq_iff col j) in
                rw e (IsSilent-null j col row (inr known))
          ]
        ]))
]

-- The cell of a denied column is null; the lists are of the same length.
abbrev pub Blanked : List String → List String → List Cell → Type 0
Blanked denied [] cells = cells ≡ []
Blanked denied (col ∷ columns) [] = ⊥
Blanked denied (col ∷ columns) (v ∷ cells) =
    ((elem col denied ≡ false) ⊎ (v ≡ null)) × Blanked denied columns cells

cells-Blanked :
    (denied columns : List String) (row : Dict Cell)
    → ((j : String) → elem j denied ≡ true → IsSilent j row)
    → Blanked denied columns (map (cell_at row) columns)
cells-Blanked denied [] row h = refl
cells-Blanked denied (col ∷ columns) row h = elim (Bool-cases (elem col denied)) [
  | inr free ↦ (inl free, cells-Blanked denied columns row h)
  | inl barred ↦ (
    inr (elim (h col barred) [ inl missing ↦ rw missing refl | inr known ↦ rw known refl ]),
    cells-Blanked denied columns row h,
  )
]

module _ (cipher : Cipher) (fresh : ℕ → String) (string_of : Text → String) where
  tokenize_columns-IsSilent :
      (j : String) (cols : List String) (row : Dict Cell) (s : TokenizationService)
      → IsSilent j row
      → IsSilent j (tokenize_columns cipher fresh string_of cols row s).0
  unfolding tokenize_columns
  tokenize_columns-IsSilent j [] row s h = h
  tokenize_columns-IsSilent j (col ∷ cols) row s h =
      elim (Option-cases (shown_cell (lookup col row))) [
        | inl missing ↦ rw (missing, tokenize_columns) (tokenize_columns-IsSilent j cols row s h)
        | inr (v, shown) ↦
            let answer = tokenize cipher fresh (string_of v) (some col) s in
            rw (shown, tokenize_columns)
              (tokenize_columns-IsSilent j cols (insert col (text (codes answer.0)) row) answer.1
                (elim (Bool-cases (col == j)) [
                  | inr apart ↦ IsSilent-insert j col _ row h apart
                  | inl same ↦ elim h [
                    | inl missing ↦
                        let e : lookup col row ≡ none = ground (arith, eq_iff col j) in
                        let k = rw e at shown in absurd (ground arith)
                    | inr known ↦
                        let e : lookup col row ≡ some null = ground (arith, eq_iff col j) in
                        let k = rw e at shown in absurd (ground arith)
                  ]
                ]))
      ]

  process_row-Blanked :
      (columns denied : List String) (t : Treatment) (mask_level : String) (should_mask : Bool)
      (raw_row : List Cell) (s : TokenizationService)
      → Blanked denied columns
          (process_row cipher fresh string_of columns denied t mask_level should_mask raw_row s).0
  unfolding process_row
  process_row-Blanked columns denied t mask_level should_mask raw_row s =
      let row = deny_row denied (zip_row [] columns raw_row) in
      let silent : (j : String) → elem j denied ≡ true → IsSilent j row =
        λ j h. deny_row-IsSilent j denied (zip_row [] columns raw_row) h in
      elim (Bool-cases should_mask) [
        | inr bypassed ↦ rw (bypassed, process_row) (cells-Blanked denied columns row silent)
        | inl masked ↦
            rw (masked, process_row)
              (cells-Blanked denied columns _ (λ j h.
                tokenize_columns-IsSilent j t.tokenize_cols _ s (
                  mask_row-IsSilent j t.masked_col_keys t.combined_pii_map mask_level row
                    (silent j h))))
      ]

  process_rows-Blanked :
      (columns denied : List String) (t : Treatment) (mask_level : String) (should_mask : Bool)
      (rows : List (List Cell)) (s : TokenizationService)
      → All
          (Blanked denied columns)
          (process_rows cipher fresh string_of columns denied t mask_level should_mask rows s).0
  unfolding process_rows
  process_rows-Blanked columns denied t mask_level should_mask [] s = tt
  process_rows-Blanked columns denied t mask_level should_mask (raw_row ∷ rows) s = (
    process_row-Blanked columns denied t mask_level should_mask raw_row s,
    process_rows-Blanked columns denied t mask_level should_mask rows _,
  )

  -- Whatever the driver returns, also for an admin who bypasses masking and for columns that are found
  -- only now, every row has one cell for each column, and the cell of a denied column is null; denied
  -- are the columns that the rewriter reports, or those of all decisions if it reports none.
  pub result_rows_denied :
      (meta : RewriteMeta) (table_policies : Dict PolicyDecision) (bypass_masking : Bool)
      (user_role mask_level : String) (columns : List String) (rows : List (List Cell))
      (s : TokenizationService)
      → All
          (Blanked (denied_col_keys meta table_policies) columns)
          (result_rows cipher fresh string_of meta table_policies bypass_masking user_role
            mask_level columns rows s).0
  unfolding result_rows
  result_rows_denied meta table_policies bypass_masking user_role mask_level columns rows s =
      process_rows-Blanked columns (denied_col_keys meta table_policies) _ mask_level _ rows s
