-- ===== src/Settings/Update.antt =====
-- What an update of a tenant's settings changes, and what a later read sees.
-- About update_settings and get_settings of backend/app/services/settings_service.py.
use metasight.Prelude.{
  Bool-cases, List, Option, String, [], ap, arith, eq_iff, first, if◌then◌else◌, inl, inr, nat_eq,
  none, or_else, refl, some, string_eq, sym, text_eq, ℕ, ◌==◌, ◌∙◌, ◌∷◌, ◌≡◌, ◌⊎◌,
}
use metasight.Json.{Fields, Json, end, field, insert_field, lookup_field, lookup_field-insert_field}
use metasight.Settings.Defaults.{default_settings}
use metasight.Settings.{
  SystemSettings, deep_merge, get_settings, merge_value, of_tenant, overrides, update_settings,
  write_row,
}
use metasight.Settings.Merge.{DistinctFields, lookup-deep_merge, overridden}

insert_field-DistinctFields :
    (k : String) (v : Json) (fs : Fields) → DistinctFields fs → DistinctFields (insert_field k v fs)
unfolding insert_field lookup_field
insert_field-DistinctFields k v end d = (refl, tt)
insert_field-DistinctFields k v (field j w fs) d = elim (Bool-cases (j == k)) [
  | inl same ↦ rw same d
  | inr other ↦ rw other (
    ground (arith, lookup_field-insert_field k j v fs, eq_iff k j, eq_iff j k, d.0),
    insert_field-DistinctFields k v fs d.1,
  )
]

pub deep_merge-DistinctFields :
    (base override : Fields) → DistinctFields base → DistinctFields (deep_merge base override)
unfolding deep_merge
deep_merge-DistinctFields base end d = d
deep_merge-DistinctFields base (field k v rest) d =
    deep_merge-DistinctFields (insert_field k (merge_value (lookup_field k base) v) base) rest
      (insert_field-DistinctFields k (merge_value (lookup_field k base) v) base d)

-- What is read does not depend on how an empty configuration is stored.
get_settings-overrides :
    (tenant_id : ℕ) (rows : List SystemSettings)
    → get_settings tenant_id rows ≡ deep_merge default_settings (overrides tenant_id rows)
unfolding get_settings overrides deep_merge
get_settings-overrides tenant_id rows = go (first (of_tenant tenant_id) rows)
  where
    go :
        (found : Option SystemSettings)
        → (elim found [
          | none ↦ default_settings
          | some row ↦ elim row.config [
            | none ↦ default_settings
            | some fs ↦ elim fs [
              | end ↦ default_settings
              | field k v rest ↦ deep_merge default_settings (field k v rest)
            ]
          ]
        ])
          ≡ deep_merge default_settings
              (elim found [ none ↦ end | some row ↦ or_else row.config end ])
    go none = refl
    go (some row) = config row.config
      where
        config :
            (c : Option Fields)
            → (elim c [
              | none ↦ default_settings
              | some fs ↦ elim fs [
                | end ↦ default_settings
                | field k v rest ↦ deep_merge default_settings (field k v rest)
              ]
            ])
              ≡ deep_merge default_settings (or_else c end)
        config none = refl
        config (some end) = refl
        config (some (field k v rest)) = refl

first-write_row :
    (t : ℕ) (row : SystemSettings) (rows : List SystemSettings)
    → first (of_tenant t) (write_row row rows)
      ≡ (if row.tenant_id == t then some row else first (of_tenant t) rows)
unfolding write_row
first-write_row t row [] = refl
first-write_row t row (r ∷ rows) = ground (arith, first-write_row t row rows)

overrides-write_row :
    (t : ℕ) (row : SystemSettings) (rows : List SystemSettings)
    → overrides t (write_row row rows)
      ≡ (if row.tenant_id == t then or_else row.config end else overrides t rows)
unfolding overrides
overrides-write_row t row rows = elim (Bool-cases (row.tenant_id == t)) [
  | inl same ↦ rw (first-write_row t row rows, overrides, same) refl
  | inr another ↦ rw (first-write_row t row rows, overrides, another) refl
]

module _ (tenant_id : ℕ) (patch : Fields) (by : String) (rows : List SystemSettings) where
  -- An update answers with the settings that a read then gives; a key that the patch does not name
  -- keeps its effective value, and so do the settings of every other tenant.
  pub update_settings_lem :
      DistinctFields patch
      → DistinctFields (overrides tenant_id rows)
      → (get_settings tenant_id (update_settings tenant_id patch by rows).1
          ≡ (update_settings tenant_id patch by rows).0)
        × ((j : String)
            → lookup_field j (update_settings tenant_id patch by rows).0
              ≡ overridden
                  (lookup_field j default_settings)
                  (overridden (lookup_field j (overrides tenant_id rows)) (lookup_field j patch)))
        × ((t : ℕ)
            → (t ≡ tenant_id)
              ⊎ (get_settings t (update_settings tenant_id patch by rows).1 ≡ get_settings t rows))
  unfolding update_settings
  update_settings_lem d e =
      let merged = deep_merge (overrides tenant_id rows) patch in
      let row : SystemSettings = record {
        tenant_id = tenant_id;
        config = some merged;
        updated_by = by;
      } in
      let stored : overrides tenant_id (write_row row rows) ≡ merged =
        overrides-write_row tenant_id row rows ∙ ground arith in
      (
        get_settings-overrides tenant_id (write_row row rows)
            ∙ ap (deep_merge default_settings) stored,
        λ j.
            lookup-deep_merge default_settings merged j
              (deep_merge-DistinctFields (overrides tenant_id rows) patch e)
            ∙ ap (overridden (lookup_field j default_settings))
                (lookup-deep_merge (overrides tenant_id rows) patch j d),
        λ t. elim (Bool-cases (tenant_id == t)) [
          | inl same ↦ inl (ground arith)
          | inr another ↦ inr (
              get_settings-overrides t (write_row row rows)
              ∙ ap (deep_merge default_settings) (overrides-write_row t row rows ∙ ground arith)
              ∙ sym (get_settings-overrides t rows))
        ],
      )
