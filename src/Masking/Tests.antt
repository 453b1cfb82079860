-- ===== src/Masking/Tests.antt =====
-- Runs of the masks of backend/app/services/masking.py, and the theorems at concrete inputs.
use metasight.Prelude.{
  [], arith, codes, eq_iff, is_space, length, lower, nat_eq, none, refl, some, string_eq, text_beq,
  text_eq, upper, ◌∷◌, ◌≡◌, ◌≤◌,
}
use metasight.Prelude.Dict.{Dict, insert, lookup}
use metasight.Mask.Scan.{
  contains, digits_of, is_digit, join, last, split_first, split_last, split_on, star_digits,
  star_leading, stars, starts_with, take_digits, words,
}
use metasight.Mask.Infer.{first_match, infer_pii_type, infer_tags, matches_any}
use metasight.Mask.Partial.{
  partial_card, partial_email, partial_generic, partial_name, partial_phone, partial_ssn,
}
use metasight.Mask.Full.{
  mask_account, mask_address, mask_amount, mask_credit_card, mask_dob, mask_email, mask_generic,
  mask_govt_id, mask_ip_address, mask_location, mask_name, mask_phone, mask_secret, mask_sensitive,
  mask_ssn,
}
use metasight.Masking.{
  Cell, find_fn, mask_row, mask_text, mask_value, masking_level_for_role, object, select_fn, text,
}
use metasight.Masking.Digits.{mask_text-digits, ssn}
use metasight.Masking.Hides.{ssn}

program : Unit {0}
unfolding is_digit split_first stars words split_on split_last join star_leading take_digits
    partial_email partial_phone partial_ssn partial_card partial_name partial_generic mask_email
    mask_phone mask_ssn mask_credit_card mask_name mask_address mask_ip_address mask_account
    mask_govt_id mask_dob mask_amount mask_secret mask_location mask_sensitive mask_generic
    select_fn find_fn mask_text mask_value mask_row masking_level_for_role upper lower text_beq
    lookup insert infer_pii_type infer_tags first_match matches_any contains starts_with star_digits
    is_space
program = tt

full_masks :
    (mask_text (codes "jo@ex.com") (some "email") "full" ≡ codes "j***@ex.com")
    × (mask_text (codes "+1-555-1234") (some "PHONE") "full" ≡ codes "+*-***-1234")
    × (mask_text (codes "123-45-6789") (some "SSN") "full" ≡ codes "***-**-6789")
    × (mask_text (codes "John  Doe") (some "NAME") "full" ≡ codes "J*** D***")
    × (mask_text (codes "12 Main St, Rome") (some "ADDRESS") "full" ≡ codes "*** Main St, ***")
    × (mask_text (codes "10.0.3.4") (some "IP_ADDRESS") "full" ≡ codes "10.0.*.*")
    × (mask_text (codes "1990-07-21") (some "DOB") "full" ≡ codes "****-07-**")
    × (mask_text (codes "7/4/1990") (some "DOB") "full" ≡ codes "7/**/****")
    × (mask_text (codes "abc") none "full" ≡ codes "********")
unfolding program
full_masks = (refl, refl, refl, refl, refl, refl, refl, refl, refl)

partial_masks :
    (mask_text (codes "john@ex.com") (some "EMAIL") "partial" ≡ codes "jo**@ex.com")
    × (mask_text (codes "4111111111112222") (some "CREDIT_CARD") "partial"
        ≡ codes "****-****-1111-2222")
    × (mask_text (codes "John Doe") (some "NAME") "partial" ≡ codes "John D***")
    × (mask_text (codes "secret") none "partial" ≡ codes "se***et")
unfolding program
partial_masks = (refl, refl, refl, refl)

guesses :
    (infer_pii_type (codes "User_Email") ≡ some "EMAIL") × (infer_pii_type (codes "qty") ≡ none)
unfolding program
guesses = (refl, refl)

abbrev row : Dict Cell
row = ("id", object (codes "7")) ∷ ("ssn", text (codes "123-45-6789")) ∷ []

row_run :
    mask_row row ("ssn" ∷ []) (("ssn", some "SSN") ∷ []) "full"
    ≡ ("id", object (codes "7")) ∷ ("ssn", text (codes "***-**-6789")) ∷ []
unfolding program
row_run = refl

mask_text-digits_example :
    (digits_of (mask_text (codes "123-45-6789") (some "SSN") "full")
      ≡ last 4 (digits_of (codes "123-45-6789")))
    × (length (digits_of (mask_text (codes "123-45-6789") (some "SSN") "full")) ≤ 4)
mask_text-digits_example =
    mask_text-digits "SSN" "full" (codes "123-45-6789") (ground (arith, eq_iff "full" "raw"))
      (ground (arith, eq_iff "full" "partial")) ssn
