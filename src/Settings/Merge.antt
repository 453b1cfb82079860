-- ===== src/Settings/Merge.antt =====
-- What the merged settings hold under each key, about backend/app/services/settings_service.py.
use metasight.Prelude.{Option, String, arith, eq_iff, none, refl, some, ◌∙◌, ◌≡◌}
use metasight.Json.{Fields, Json, end, field, insert_field, lookup_field, lookup_field-insert_field}
use metasight.Settings.{deep_merge, merge_value}

-- A dictionary holds a key once.

abbrev pub DistinctFields : Fields → Type 0
DistinctFields end = Unit
DistinctFields (field k v fs) = (lookup_field k fs ≡ none) × DistinctFields fs

-- The value of a key: the override merged into the old value, or the old value.
abbrev pub overridden : Option Json → Option Json → Option Json
overridden old none = old
overridden old (some v) = some (merge_value old v)

-- Under each key the merged dictionary holds the override's value, merged into the base's where
-- both are dictionaries, and the base's value where the override has no such key.
pub lookup-deep_merge :
    (base override : Fields) (j : String)
    → DistinctFields override
    → lookup_field j (deep_merge base override)
      ≡ overridden (lookup_field j base) (lookup_field j override)
unfolding deep_merge lookup_field
lookup-deep_merge base end j d = refl
lookup-deep_merge base (field k v rest) j d =
    lookup-deep_merge (insert_field k (merge_value (lookup_field k base) v) base) rest j d.1
    ∙ ground (
      arith,
      lookup_field-insert_field k j (merge_value (lookup_field k base) v) base,
      eq_iff k j,
      d.0,
    )
