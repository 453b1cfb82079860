-- ===== src/Settings.antt =====
-- Per-tenant settings: the platform's defaults under the tenant's overrides.
-- Models backend/app/services/settings_service.py.
pub mod Defaults
pub mod Merge
pub mod Update
pub mod Public
mod Tests
use metasight.Prelude.{
  Bool, List, Option, String, [], first, if◌then◌else◌, nat_eq, none, or_else, some, string_eq,
  text_eq, true, ℕ, ◌==◌, ◌∷◌,
}
use metasight.Json.{Fields, Json, end, field, insert_field, lookup_field, obj, section, truthy}
use metasight.Settings.Defaults.{default_settings}

-- `_deep_merge(base, override)`, and what it stores under one key.

unfoldable mutual
  pub merge_value : Option Json → Json → Json
  merge_value (some (obj base)) (obj override) = obj (deep_merge base override)
  merge_value old v = v

  pub deep_merge : Fields → Fields → Fields
  deep_merge base end = base
  deep_merge base (field k v rest) =
      deep_merge (insert_field k (merge_value (lookup_field k base) v) base) rest

-- The row of a tenant; `config` holds the overrides, `none` where the column is null.
pub record SystemSettings : Type 0 where
  pub tenant_id : ℕ
  pub config : Option Fields
  pub updated_by : String

abbrev pub of_tenant : ℕ → SystemSettings → Bool
of_tenant tenant_id row = row.tenant_id == tenant_id

-- `row.config if (row and row.config) else {}`.
unfoldable pub overrides : ℕ → List SystemSettings → Fields
overrides tenant_id rows = elim (first (of_tenant tenant_id) rows) [
  | none ↦ end
  | some row ↦ or_else row.config end
]

-- With no row or an empty configuration the code returns a copy of the defaults.
unfoldable pub get_settings : ℕ → List SystemSettings → Fields
get_settings tenant_id rows = elim (first (of_tenant tenant_id) rows) [
  | none ↦ default_settings
  | some row ↦ elim row.config [
    | none ↦ default_settings
    | some fs ↦ elim fs [
      | end ↦ default_settings
      | field k v rest ↦ deep_merge default_settings (field k v rest)
    ]
  ]
]

-- The first row of the tenant gets the configuration; the column tenant_id is unique.
unfoldable pub write_row : SystemSettings → List SystemSettings → List SystemSettings
write_row new [] = new ∷ []
write_row new (row ∷ rows) =
    if row.tenant_id == new.tenant_id then new ∷ rows else row ∷ write_row new rows

unfoldable pub update_settings :
    ℕ → Fields → String → List SystemSettings → Fields × List SystemSettings
update_settings tenant_id patch updated_by rows =
    let new_overrides = deep_merge (overrides tenant_id rows) patch in
    let row : SystemSettings = record {
      tenant_id = tenant_id;
      config = some new_overrides;
      updated_by = updated_by;
    } in
    (deep_merge default_settings new_overrides, write_row row rows)

-- `cfg.get("masking", {}).get("global_masking_enabled", True)`, by its truth.
unfoldable pub masking_enabled : Fields → Bool
masking_enabled cfg = elim (lookup_field "global_masking_enabled" (section "masking" cfg)) [
  | none ↦ true
  | some v ↦ truthy v
]
