-- ===== src/Masking.antt =====
-- Masking a value and a row by the kind of data and the reader's level.
-- Models masking_level_for_role, mask_value and mask_row of backend/app/services/masking.py.
pub mod Digits
pub mod Rows
pub mod Hides
mod Tests
use metasight.Prelude.{
  List, Option, String, Text, [], codes, if◌then◌else◌, length, nat_eq, none, or_else, some,
  string_eq, text_eq, upper, ◌==◌, ◌∷◌,
}
use metasight.Prelude.Dict.{Dict, insert, lookup}
use metasight.Mask.Partial.{
  partial_card, partial_email, partial_generic, partial_name, partial_phone, partial_ssn,
}
use metasight.Mask.Full.{
  mask_account, mask_address, mask_amount, mask_credit_card, mask_dob, mask_email, mask_generic,
  mask_govt_id, mask_ip_address, mask_location, mask_name, mask_phone, mask_secret, mask_sensitive,
  mask_ssn,
}

-- A cell of a result row: null, a text, or another object by its `str`.

pub data Cell : Type 0 where
  null : Cell
  text : Text → Cell
  object : Text → Cell

abbrev pub role_mask_level : Dict String
role_mask_level =
    ("admin", "raw") ∷ ("manager", "partial") ∷ ("analyst", "full") ∷ ("viewer", "full") ∷ []

-- `role_levels or _ROLE_MASK_LEVEL`: an empty dictionary counts as none.
abbrev pub levels_or_default : Option (Dict String) → Dict String
levels_or_default none = role_mask_level
levels_or_default (some []) = role_mask_level
levels_or_default (some (e ∷ levels)) = e ∷ levels

unfoldable pub masking_level_for_role : String → Option (Dict String) → String
unfolding lookup
masking_level_for_role role role_levels =
    or_else (lookup role (levels_or_default role_levels)) "full"

abbrev pub MaskTable : Type 0
MaskTable = List (String × (Text → Text))

abbrev pub mask_fn : MaskTable
mask_fn =
    ("EMAIL", mask_email)
    ∷ ("PHONE", mask_phone)
    ∷ ("SSN", mask_ssn)
    ∷ ("CREDIT_CARD", mask_credit_card)
    ∷ ("NAME", mask_name)
    ∷ ("ADDRESS", mask_address)
    ∷ ("IP_ADDRESS", mask_ip_address)
    ∷ ("AMOUNT", mask_amount)
    ∷ ("ACCOUNT", mask_account)
    ∷ ("GOVT_ID", mask_govt_id)
    ∷ ("TAX_ID", mask_account)
    ∷ ("SECRET", mask_secret)
    ∷ ("DOB", mask_dob)
    ∷ ("LOCATION", mask_location)
    ∷ ("SENSITIVE", mask_sensitive)
    ∷ []

abbrev pub partial_mask_fn : MaskTable
partial_mask_fn =
    ("EMAIL", partial_email)
    ∷ ("PHONE", partial_phone)
    ∷ ("SSN", partial_ssn)
    ∷ ("CREDIT_CARD", partial_card)
    ∷ ("NAME", partial_name)
    ∷ []

unfoldable pub find_fn : Text → MaskTable → Option (Text → Text)
find_fn pii_upper [] = none
find_fn pii_upper ((name, fn) ∷ table) =
    if codes name == pii_upper then some fn else find_fn pii_upper table

-- `(pii_type or "").upper()`.
abbrev pub upper_type : Option String → Text
upper_type none = []
upper_type (some s) = upper (codes s)

-- The function that `mask_value` picks for a level that is not `raw`.
unfoldable pub select_fn : Text → String → Text → Text
unfolding find_fn
select_fn pii_upper level =
    if level == "partial"
    then elim (find_fn pii_upper partial_mask_fn) [
      | some fn ↦ fn
      | none ↦ or_else (find_fn pii_upper mask_fn) partial_generic
    ]
    else or_else (find_fn pii_upper mask_fn) mask_generic

unfoldable pub mask_text : Text → Option String → String → Text
mask_text s pii_type level =
    if level == "raw"
    then s
    else if length s == 0
    then s
    else select_fn (upper_type pii_type) level s

unfoldable pub mask_value : Cell → Option String → String → Cell
unfolding mask_text
mask_value null pii_type level = null
mask_value (text s) pii_type level = text (mask_text s pii_type level)
mask_value (object s) pii_type level = text (mask_text s pii_type level)

-- `column_pii_map.get(col)`.
abbrev pub pii_of : String → Dict (Option String) → Option String
pii_of col m = or_else (lookup col m) none

unfoldable pub mask_row : Dict Cell → List String → Dict (Option String) → String → Dict Cell
unfolding mask_value lookup insert
mask_row row [] column_pii_map level = row
mask_row row (col ∷ masked_columns) column_pii_map level =
    let row' : Dict Cell = elim (lookup col row) [
      | none ↦ row
      | some value ↦ insert col (mask_value value (pii_of col column_pii_map) level) row
    ] in
    mask_row row' masked_columns column_pii_map level
