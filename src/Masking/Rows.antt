-- ===== src/Masking/Rows.antt =====
-- Which cells of a row are masked, and how often.
-- About mask_row of backend/app/services/masking.py.
use metasight.Prelude.{
  Bool-cases, List, Option, Option-cases, String, [], ap, arith, elem, eq_iff, false, if◌then◌else◌,
  inl, inr, nat_eq, none, refl, some, string_eq, text_eq, ◌==◌, ◌∙◌, ◌∷◌, ◌≡◌,
}
use metasight.Prelude.Dict.{Dict, insert, keys, lookup, lookup-insert}
use metasight.Masking.{Cell, mask_row, mask_value, pii_of}

abbrev pub DistinctNames : List String → Type 0
DistinctNames [] = Unit
DistinctNames (c ∷ cs) = (elem c cs ≡ false) × DistinctNames cs

-- `mask_value` of a cell that may be missing.
abbrev pub masked_cell : Option Cell → Option String → String → Option Cell
masked_cell none pii_type level = none
masked_cell (some v) pii_type level = some (mask_value v pii_type level)

pub keys-insert {ℓ} :
    {V : Type ℓ} (k : String) (v : V) (d : Dict V) {w : V}
    → lookup k d ≡ some w
    → keys (insert k v d) ≡ keys d
unfolding lookup insert
keys-insert k v [] h = cc
keys-insert k v ((j, u) ∷ d) {w} h = elim (Bool-cases (j == k)) [
  | inl same ↦ rw same
  | inr other ↦ rw other (ap (◌∷◌ j) (keys-insert k v d {w = w} (rw other at h)))
]

module _ (column_pii_map : Dict (Option String)) (level : String) where
  -- One round of the loop.
  mask_column : String → Dict Cell → Dict Cell
  mask_column col row = elim (lookup col row) [
    | none ↦ row
    | some value ↦ insert col (mask_value value (pii_of col column_pii_map) level) row
  ]

  keys-mask_column : (col : String) (row : Dict Cell) → keys (mask_column col row) ≡ keys row
  unfolding mask_column
  keys-mask_column col row = elim (Option-cases (lookup col row)) [
    | inl missing ↦ rw (missing, mask_column)
    | inr (v, found) ↦ rw (found, mask_column) (keys-insert col _ row found)
  ]

  lookup-mask_column :
      (col j : String) (row : Dict Cell)
      → lookup j (mask_column col row) ≡ (
          if col == j
          then masked_cell (lookup j row) (pii_of j column_pii_map) level
          else lookup j row)
  unfolding mask_column
  lookup-mask_column col j row = elim (Option-cases (lookup col row)) [
    | inl missing ↦ rw (missing, mask_column) (ground (arith, eq_iff col j))
    | inr (v, found) ↦
        rw (found, mask_column)
          (ground (
            arith,
            eq_iff col j,
            lookup-insert col j (mask_value v (pii_of col column_pii_map) level) row,
          ))
  ]

  -- Masking keeps the columns of the row and their order. With no column named twice, the cell of a
  -- column that is named is masked once, by the kind of data that the map gives the column, and
  -- every other cell is as it was.
  pub mask_row_lem :
      (row : Dict Cell) (masked_columns : List String)
      → DistinctNames masked_columns
      → (keys (mask_row row masked_columns column_pii_map level) ≡ keys row)
        × ((j : String)
            → lookup j (mask_row row masked_columns column_pii_map level) ≡ (
                if elem j masked_columns
                then masked_cell (lookup j row) (pii_of j column_pii_map) level
                else lookup j row))
  unfolding mask_row mask_column
  mask_row_lem row [] d = (refl, λ j. refl)
  mask_row_lem row (col ∷ cols) d =
      let (same_keys, cells) = mask_row_lem (mask_column col row) cols d.1 in
      (
        same_keys ∙ keys-mask_column col row,
        λ j.
            cells j ∙ ground (arith, lookup-mask_column col j row, eq_iff col j, eq_iff j col, d.0),
      )
