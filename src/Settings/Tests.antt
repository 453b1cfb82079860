-- ===== src/Settings/Tests.antt =====
-- Runs of backend/app/services/settings_service.py, and the theorems at concrete inputs.
use metasight.Prelude.{List, [], false, none, refl, some, true, ◌∷◌, ◌≡◌}
use metasight.Json.{
  Fields, bool, end, field, insert_field, lookup_field, num, obj, section, text, truthy,
}
use metasight.Settings.{
  SystemSettings, deep_merge, get_settings, masking_enabled, merge_value, overrides,
  update_settings, write_row,
}
use metasight.Settings.Public.{get_public_settings, public_from, required}

program : Unit {0}
unfolding lookup_field insert_field section truthy merge_value deep_merge overrides get_settings
    write_row update_settings masking_enabled
program = tt

abbrev switch_off : Fields
switch_off = field "masking" (obj (field "global_masking_enabled" (bool false) end)) end

abbrev stored : List SystemSettings
stored =
    record { tenant_id = 2; config = none; updated_by = "root@x.io" }
    ∷ record { tenant_id = 1; config = some (field "extra" (num 1) end); updated_by = "root@x.io" }
    ∷ []

-- The patch reaches one nested key, and the section keeps the others.
switched :
    let (effective, rows) = update_settings 1 switch_off "root@x.io" stored in
    (masking_enabled effective ≡ false)
    × (masking_enabled (get_settings 2 rows) ≡ true)
    × (lookup_field "extra" effective ≡ some (num 1))
    × (overrides 1 rows ≡ field "extra" (num 1) switch_off)
unfolding program
switched = (refl, refl, refl, refl)

public_run :
    (let shown = get_public_settings (get_settings 1 []) in
      elim shown [ none ↦ none | some fs ↦ lookup_field "sso_provider_name" fs ])
    ≡ some (text "SSO")
unfolding program get_public_settings public_from required
public_run = refl
