-- ===== src/Mask/Partial.antt =====
-- The masks of the level `partial`: the _partial_* functions of backend/app/services/masking.py.
use metasight.Prelude.{
  List, Text, [], codes, if◌then◌else◌, leb, length, ltb, nat_eq, none, some, string_eq, take,
  text_eq, ◌++◌, ◌-◌, ◌==◌, ◌∷◌,
}
use metasight.Mask.Scan.{but_last, digits_of, last, split_first, stars, words}

unfoldable pub partial_email : Text → Text
partial_email value = elim (split_first b'@' value) [
  | some (before, domain) ↦
      let shown : Text = if leb 2 (length before) then take 2 before else before in
      shown ++ (stars (length before - 2) ++ (b'@' ∷ domain))
  | none ↦ take 3 value ++ codes "***"
]

unfoldable pub partial_phone : Text → Text
partial_phone value =
    let digits = digits_of value in
    if leb 7 (length digits) then take 3 digits ++ (codes "-***-" ++ last 4 digits) else value

unfoldable pub partial_ssn : Text → Text
partial_ssn value =
    let digits = digits_of value in
    if leb 4 (length digits) then codes "***-**-" ++ last 4 digits else value

-- `digits[-8:-4]` has its four digits, since there are eight.
unfoldable pub partial_card : Text → Text
partial_card value =
    let digits = digits_of value in
    if leb 8 (length digits)
    then codes "****-****-" ++ (but_last 4 (last 8 digits) ++ (codes "-" ++ last 4 digits))
    else codes "****-" ++ last 4 value

-- `parts[-1]` of a list that is not empty.
unfoldable pub last_word : Text → List Text → Text
last_word p [] = p
last_word p (q ∷ parts) = last_word q parts

unfoldable pub partial_name : Text → Text
unfolding words last_word
partial_name value = elim (words value) [
  | [] ↦ value
  | p ∷ parts ↦ elim parts [
    | [] ↦ p
    | q ∷ more ↦ p ++ (codes " " ++ (take 1 (last_word q more) ++ codes "***"))
  ]
]

unfoldable pub partial_generic : Text → Text
partial_generic s =
    if length s == 0
    then s
    else if ltb 4 (length s)
    then take 2 s ++ (codes "***" ++ last 2 s)
    else if ltb 1 (length s)
    then take 1 s ++ codes "***"
    else codes "***"
