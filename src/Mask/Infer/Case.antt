-- ===== src/Mask/Infer/Case.antt =====
-- Guesses from a column's name, about infer_pii_type and infer_tags of
-- backend/app/services/masking.py.
use metasight.Prelude.{
  Bool-cases, List, String, Text, [], ap, arith, false, inl, inr, lower, lower_code, refl, some,
  true, upper, upper_code, ℕ, ◌∙◌, ◌∷◌, ◌≡◌, ◌⊎◌,
}
use metasight.Mask.Infer.{field_pii_map, first_match, infer_pii_type, infer_tags, matches_any}

lower_code-upper_code : (c : ℕ) → lower_code (upper_code c) ≡ lower_code c
unfolding lower_code upper_code
lower_code-upper_code c = ground arith

lower-upper : (s : Text) → lower (upper s) ≡ lower s
unfolding lower upper
lower-upper [] = refl
lower-upper (c ∷ s) = cc (lower_code-upper_code c, lower-upper s)

lower_code_idem : (c : ℕ) → lower_code (lower_code c) ≡ lower_code c
unfolding lower_code
lower_code_idem c = ground arith

lower_idem : (s : Text) → lower (lower s) ≡ lower s
unfolding lower
lower_idem [] = refl
lower_idem (c ∷ s) = cc (lower_code_idem c, lower_idem s)

-- A row of the table that a name matches.
abbrev pub Explains : Text → String → List (List String × String) → Type 0
Explains name kind [] = ⊥
Explains name kind ((alternatives, pii_type) ∷ patterns) =
    (matches_any alternatives name ≡ true) × (kind ≡ pii_type)
    ⊎ (matches_any alternatives name ≡ false) × Explains name kind patterns

first_match-Explains :
    (patterns : List (List String × String)) (name : Text) (kind : String)
    → first_match patterns name ≡ some kind
    → Explains name kind patterns
unfolding first_match
first_match-Explains [] name kind h = cc
first_match-Explains ((alternatives, pii_type) ∷ patterns) name kind h =
    elim (Bool-cases (matches_any alternatives name)) [
      | inl hit ↦ inl (hit, ground arith)
      | inr miss ↦ inr (miss, first_match-Explains patterns name kind (rw (miss, first_match) at h))
    ]

infer_tags_of_some :
    (name : Text) (kind : String)
    → infer_pii_type name ≡ some kind
    → infer_tags name ≡ "PII" ∷ kind ∷ []
unfolding infer_tags
infer_tags_of_some name kind h = rw (h, infer_tags) refl

-- A guessed kind is that of the first row of the table with a literal that the lowered name
-- contains, the tags are then PII and the kind, and the guess does not depend on the name's case.
pub infer_pii_type_lem :
    (name : Text) (kind : String)
    → infer_pii_type name ≡ some kind
    → Explains (lower name) kind field_pii_map
      × (infer_tags name ≡ "PII" ∷ kind ∷ [])
      × (infer_pii_type (upper name) ≡ some kind)
      × (infer_pii_type (lower name) ≡ some kind)
unfolding infer_pii_type
infer_pii_type_lem name kind h = (
  first_match-Explains field_pii_map (lower name) kind h,
  infer_tags_of_some name kind h,
  ap (first_match field_pii_map) (lower-upper name) ∙ h,
  ap (first_match field_pii_map) (lower_idem name) ∙ h,
)
