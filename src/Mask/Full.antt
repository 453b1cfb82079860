-- ===== src/Mask/Full.antt =====
-- The masks of the level `full`: the _mask_* functions of backend/app/services/masking.py.
use metasight.Prelude.{
  List, Option, Text, [], codes, if◌then◌else◌, leb, length, ltb, nat_eq, none, some, string_eq,
  take, text_eq, ◌++◌, ◌/◌, ◌==◌, ◌∷◌,
}
use metasight.Mask.Scan.{
  but_last, digits_of, join, last, split_first, split_last, split_on, star_digits, star_leading,
  take_digits, words,
}

unfoldable pub mask_email : Text → Text
mask_email value = elim (split_first b'@' value) [
  | some (before, domain) ↦ elim before [
    | [] ↦ codes "***@" ++ domain
    | c ∷ _ ↦ c ∷ (codes "***@" ++ domain)
  ]
  | none ↦ codes "********"
]

unfoldable pub mask_phone : Text → Text
unfolding star_digits
mask_phone value =
    let digits = digits_of value in
    if leb 4 (length digits)
    then (if ltb 4 (length value) then star_digits (but_last 4 value) else codes "***-***-")
      ++ last 4 digits
    else codes "***-***-" ++ digits

unfoldable pub mask_ssn : Text → Text
mask_ssn value =
    let digits = digits_of value in
    if leb 4 (length digits) then codes "***-**-" ++ last 4 digits else codes "***-**-" ++ digits

unfoldable pub mask_credit_card : Text → Text
mask_credit_card value =
    let digits = digits_of value in
    if leb 4 (length digits)
    then codes "****-****-****-" ++ last 4 digits
    else codes "****-****-****-" ++ digits

unfoldable pub mask_words : List Text → List Text
mask_words [] = []
mask_words (part ∷ parts) = elim part [ [] ↦ [] | c ∷ _ ↦ c ∷ codes "***" ] ∷ mask_words parts

unfoldable pub mask_name : Text → Text
unfolding words mask_words join
mask_name value = elim (mask_words (words value)) [
  | [] ↦ codes "********"
  | p ∷ parts ↦ join (codes " ") (p ∷ parts)
]

unfoldable pub mask_address : Text → Text
unfolding star_leading split_last
mask_address value =
    let masked = star_leading value in
    elim (split_last b',' masked) [ none ↦ masked | some (before, _) ↦ before ++ codes ", ***" ]

unfoldable pub mask_ip_address : Text → Text
unfolding split_on join
mask_ip_address value =
    let parts = split_on b'.' value in
    if length parts == 4
    then join (codes ".") (take 2 parts) ++ codes ".*.*"
    else take (length value / 2) value ++ codes "***"

unfoldable pub mask_amount : Text → Text
mask_amount value = codes "***.**"

unfoldable pub mask_account : Text → Text
mask_account s = if leb 4 (length s) then codes "***" ++ last 4 s else codes "***" ++ s

unfoldable pub mask_govt_id : Text → Text
mask_govt_id s =
    let digits = digits_of s in
    if leb 4 (length digits)
    then codes "***" ++ last 4 digits
    else if leb 4 (length s)
    then codes "***" ++ last 4 s
    else codes "***" ++ s

unfoldable pub mask_secret : Text → Text
mask_secret value = codes "********"

-- `(\d{4})-(\d{2})-(\d{2})` at the start: its second group.
unfoldable pub iso_month : Text → Option Text
unfolding take_digits
iso_month s = elim (take_digits 4 s) [
  | none ↦ none
  | some (_, r) ↦ elim r [
    | [] ↦ none
    | c ∷ r₁ ↦
        if c == b'-'
        then elim (take_digits 2 r₁) [
          | none ↦ none
          | some (month, r₂) ↦ elim r₂ [
            | [] ↦ none
            | d ∷ r₃ ↦
                if d == b'-'
                then elim (take_digits 2 r₃) [ none ↦ none | some _ ↦ some month ]
                else none
          ]
        ]
        else none
  ]
]

-- `(\d{1,2})/` at the start: two digits are tried first.
unfoldable pub short_group : Text → Option (Text × Text)
unfolding take_digits
short_group s =
    let closed : Option (Text × Text) → Option (Text × Text) = λ m. elim m [
      | none ↦ none
      | some (ds, r) ↦ elim r [ [] ↦ none | c ∷ r' ↦ if c == b'/' then some (ds, r') else none ]
    ] in
    elim (closed (take_digits 2 s)) [ some m ↦ some m | none ↦ closed (take_digits 1 s) ]

-- `(\d{1,2})/(\d{1,2})/(\d{4})` at the start: its first group.
unfoldable pub us_month : Text → Option Text
unfolding short_group take_digits
us_month s = elim (short_group s) [
  | none ↦ none
  | some (month, r) ↦ elim (short_group r) [
    | none ↦ none
    | some (_, r') ↦ elim (take_digits 4 r') [ none ↦ none | some _ ↦ some month ]
  ]
]

unfoldable pub mask_dob : Text → Text
unfolding iso_month us_month
mask_dob s = elim (iso_month s) [
  | some month ↦ codes "****-" ++ (month ++ codes "-**")
  | none ↦ elim (us_month s) [
    | some month ↦ month ++ codes "/**/****"
    | none ↦ codes "****/**, ****"
  ]
]

unfoldable pub mask_location : Text → Text
mask_location value = codes "****, ****"

unfoldable pub mask_sensitive : Text → Text
mask_sensitive value = codes "********"

unfoldable pub mask_generic : Text → Text
mask_generic value = codes "********"
