-- ===== src/Json.antt =====
-- JSON values and objects, as the settings of backend/app/services/settings_service.py hold them.
use metasight.Prelude.{
  Bool, Option, String, arith, eq_iff, false, if◌then◌else◌, nat_eq, none, not, refl, some,
  string_eq, text_eq, true, ℕ, ◌==◌, ◌≡◌,
}

mutual
  pub data Json : Type 0 where
    null : Json
    bool : Bool → Json
    num : ℕ → Json
    text : String → Json
    arr : Items → Json
    obj : Fields → Json

  pub data Items : Type 0 where
    nil : Items
    cons : Json → Items → Items

  pub data Fields : Type 0 where
    end : Fields
    field : String → Json → Fields → Fields

-- `d.get(k)`.
unfoldable pub lookup_field : String → Fields → Option Json
lookup_field k end = none
lookup_field k (field j v fs) = if j == k then some v else lookup_field k fs

-- `d[k] = v`.
unfoldable pub insert_field : String → Json → Fields → Fields
insert_field k v end = field k v end
insert_field k v (field j w fs) = if j == k then field j v fs else field j w (insert_field k v fs)

-- `del d[k]`.
unfoldable pub delete_field : String → Fields → Fields
delete_field k end = end
delete_field k (field j w fs) = if j == k then fs else field j w (delete_field k fs)

-- `d.get(k, {})`, for a section that is an object wherever it is present.
unfoldable pub section : String → Fields → Fields
unfolding lookup_field
section k fs = elim (lookup_field k fs) [ some (obj s) ↦ s | _ ↦ end ]

-- Python's truth of a value.
unfoldable pub truthy : Json → Bool
truthy null = false
truthy (bool b) = b
truthy (num n) = not (n == 0)
truthy (text s) = not (s == "")
truthy (arr nil) = false
truthy (arr (cons v vs)) = true
truthy (obj end) = false
truthy (obj (field k v fs)) = true

pub lookup_field-insert_field :
    (k j : String) (v : Json) (fs : Fields)
    → lookup_field j (insert_field k v fs) ≡ (if k == j then some v else lookup_field j fs)
unfolding lookup_field insert_field
lookup_field-insert_field k j v end = refl
lookup_field-insert_field k j v (field i w fs) =
    ground (arith, eq_iff k j, eq_iff i k, eq_iff i j, lookup_field-insert_field k j v fs)
