-- ===== src/Mask/Infer.antt =====
-- Guessing the kind of personal data from a column's name.
-- Models infer_pii_type and infer_tags of backend/app/services/masking.py.
pub mod Case
use metasight.Prelude.{
  Bool, List, Option, String, Text, [], codes, false, if◌then◌else◌, lower, none, some, ◌||◌, ◌∷◌,
}
use metasight.Mask.Scan.{contains}

-- Each pattern is a choice of literals.

abbrev pub field_pii_map : List (List String × String)
field_pii_map =
    ("email" ∷ "mail" ∷ [], "EMAIL")
    ∷ ("phone" ∷ "mobile" ∷ "tele" ∷ [], "PHONE")
    ∷ ("ssn" ∷ "social_security" ∷ "socialsecurity" ∷ [], "SSN")
    ∷ ("credit_card" ∷ "card_num" ∷ "cardnum" ∷ "cc_" ∷ [], "CREDIT_CARD")
    ∷ ("name" ∷ "fullname" ∷ "full_name" ∷ "first_name" ∷ "last_name" ∷ [], "NAME")
    ∷ ("address" ∷ [], "ADDRESS")
    ∷ ("ip_addr" ∷ "ip_address" ∷ [], "IP_ADDRESS")
    ∷ ("amount" ∷ "balance" ∷ "salary" ∷ [], "AMOUNT")
    ∷ ("account" ∷ "acc_num" ∷ [], "ACCOUNT")
    ∷ ("govt_id" ∷ "national_id" ∷ "passport" ∷ [], "GOVT_ID")
    ∷ ("secret" ∷ "password" ∷ "passwd" ∷ "token" ∷ "key" ∷ [], "SECRET")
    ∷ ("dob" ∷ "birth" ∷ [], "DOB")
    ∷ []

unfoldable pub matches_any : List String → Text → Bool
unfolding contains
matches_any [] name = false
matches_any (p ∷ ps) name = contains (codes p) name || matches_any ps name

unfoldable pub first_match : List (List String × String) → Text → Option String
first_match [] name = none
first_match ((alternatives, pii_type) ∷ patterns) name =
    if matches_any alternatives name then some pii_type else first_match patterns name

unfoldable pub infer_pii_type : Text → Option String
infer_pii_type col_name = first_match field_pii_map (lower col_name)

unfoldable pub infer_tags : Text → List String
infer_tags col_name = elim (infer_pii_type col_name) [
  | none ↦ []
  | some pii_type ↦ "PII" ∷ pii_type ∷ []
]
