-- ===== src/Policy/Attributes.antt =====
-- The user's attributes in a row filter's value.
-- Models substitute_user_attrs and _resolve_row_filters of backend/app/services/policy_engine.py.
use metasight.Prelude.{
  Bool, List, Option, String, Text, [], codes, drop, if◌then◌else◌, leb, length, nat_eq, none,
  or_else, show_nat, some, string_eq, suc, text_eq, zero, ℕ, ◌&&◌, ◌++◌, ◌+◌, ◌-◌, ◌==◌, ◌||◌, ◌∷◌,
}
use metasight.Prelude.Dict.{Dict}
use metasight.Identity.{User, claim, role, sub}
use metasight.Mask.Scan.{starts_with}
use metasight.Policy.{RowCondition, RowFilter}

-- `s.replace(old, new)`, with the number of characters of a hit still to pass over; `old` is not
-- empty.

unfoldable pub replace_from : ℕ → Text → Text → Text → Text
replace_from n old new [] = []
replace_from (suc n) old new (c ∷ s) = replace_from n old new s
replace_from zero old new (c ∷ s) =
    let hit = new ++ replace_from (length old - 1) old new s in
    let miss = c ∷ replace_from zero old new s in if starts_with old (c ∷ s) then hit else miss

unfoldable pub replace : Text → Text → Text → Text
unfolding replace_from
replace old new s = replace_from 0 old new s

-- `\w` of an ASCII character.
unfoldable pub is_word : ℕ → Bool
is_word c =
    leb b'0' c && leb c b'9' || leb b'A' c && leb c b'Z' || leb b'a' c && leb c b'z' || c == b'_'

-- The longest run of word characters, and what follows it.
unfoldable pub word_run : Text → Text × Text
unfolding is_word
word_run [] = ([], [])
word_run (c ∷ s) = let (w, rest) = word_run s in if is_word c then (c ∷ w, rest) else ([], c ∷ s)

-- The name in `{user.name}` at the start of a text.
unfoldable pub placeholder_name : Text → Option Text
unfolding word_run
placeholder_name s =
    if starts_with (codes "{user.") s
    then (let (w, rest) = word_run (drop 6 s) in
        if length w == 0 then none else if starts_with (codes "}") rest then some w else none)
    else none

-- `str(user.get(name, ""))` of any claim.
unfoldable pub find_claim : Text → Dict String → Text
find_claim name [] = []
find_claim name ((k, v) ∷ claims) = if codes k == name then codes v else find_claim name claims

unfoldable pub attribute : User → Text → Text
unfolding find_claim show_nat
attribute user name =
    if name == codes "tenant_id"
    then codes (show_nat user.tenant_id)
    else if name == codes "department_id"
    then elim user.department_id [ none ↦ codes "None" | some d ↦ codes (show_nat d) ]
    else find_claim name user.claims

-- `re.sub(r"\{user\.(\w+)\}", …)`, with the characters of a hit still to pass over.
unfoldable pub sub_rest : ℕ → User → Text → Text
sub_rest n user [] = []
sub_rest (suc n) user (c ∷ s) = sub_rest n user s
sub_rest zero user (c ∷ s) =
    let miss = c ∷ sub_rest zero user s in
    elim (placeholder_name (c ∷ s)) [
      | none ↦ miss
      | some name ↦ attribute user name ++ sub_rest (length name + 6) user s
    ]

unfoldable pub substitute_user_attrs : Text → User → Text
unfolding replace sub_rest placeholder_name attribute show_nat
substitute_user_attrs template user =
    let r₁ = replace (codes "{user.email}") (codes (sub user)) template in
    let r₂ = replace (codes "{user.role}") (codes (role user)) r₁ in
    let r₃ = replace (codes "{user.tenant_id}") (codes (show_nat user.tenant_id)) r₂ in
    let r₄ = replace (codes "{user.region}") (codes (claim user "region" "")) r₃ in
    let r₅ = replace (codes "{user.department}") (codes (claim user "department" "")) r₄ in
    sub_rest 0 user r₅

unfoldable pub resolve_row_filters : List RowFilter → User → List RowCondition
resolve_row_filters [] user = []
resolve_row_filters (rf ∷ filters) user =
    record {
      column = or_else rf.column "";
      operator = or_else rf.operator "=";
      value = substitute_user_attrs (or_else rf.value []) user;
    }
    ∷ resolve_row_filters filters user
