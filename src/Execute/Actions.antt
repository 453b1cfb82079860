-- ===== src/Execute/Actions.antt =====
-- What the loops over the actions for one column mark it for.
-- About step 7 of execute_query_endpoint in backend/app/api/query.py.
use metasight.Prelude.{
  Bool, Bool-cases, List, Option, String, [], ap, arith, codes, elem, elem-concat, eq_iff, false,
  if◌then◌else◌, inl, inr, map, nat_eq, none, refl, some, string_eq, sym, text_eq, true, ◌++◌, ◌==◌,
  ◌||◌, ◌∙◌, ◌∷◌, ◌≡◌,
}
use metasight.Prelude.Dict.{lookup}
use metasight.Mask.Infer.{infer_tags}
use metasight.Policy.{PolicyDecision}
use metasight.Execute.{
  Treatment, add_masked, add_tokenized, by_action, by_field, by_tag, by_tags, is_treated,
}

-- Whether a column is to be masked, and whether it is to be tokenized.
abbrev pub marks : String → Treatment → Bool × Bool
marks col t = (elem col t.masked_col_keys, elem col t.tokenize_cols)

-- The first action of the two that the discovery knows.
abbrev pub asked : List (Option String) → Bool × Bool
asked [] = (false, false)
asked (none ∷ actions) = asked actions
asked (some a ∷ actions) =
    if a == "mask" then (true, false) else if a == "tokenize" then (false, true) else asked actions

abbrev pub field_actions : String → List PolicyDecision → List (Option String)
field_actions col = map (λ d. lookup col d.active_field_policies)

-- The decisions one after the other, each by all the tags.
abbrev pub tag_actions : List String → List PolicyDecision → List (Option String)
tag_actions tags [] = []
tag_actions tags (d ∷ ds) =
    map (λ tag. lookup tag d.active_tag_policies) tags ++ tag_actions tags ds

-- The actions for a column: those for its name come before those for the tags inferred from it.
abbrev pub actions : String → List PolicyDecision → List (Option String)
actions col ds = field_actions col ds ++ tag_actions (infer_tags (codes col)) ds

-- What is marked stays so; what is not is marked as the other says.
abbrev pub or_else_marks : Bool × Bool → Bool × Bool → Bool × Bool
or_else_marks m n = if m.0 || m.1 then m else n

or_else_marks_twice : (m n : Bool × Bool) → or_else_marks (or_else_marks m n) n ≡ or_else_marks m n
or_else_marks_twice (true, b) n = refl
or_else_marks_twice (false, true) n = refl
or_else_marks_twice (false, false) (true, b) = refl
or_else_marks_twice (false, false) (false, true) = refl
or_else_marks_twice (false, false) (false, false) = refl

-- Nor does it matter whether the same column comes again.
pub once_more :
    (again : Bool) (m n m' : Bool × Bool)
    → m' ≡ or_else_marks m n
    → (if again then or_else_marks m' n else m') ≡ or_else_marks m n
once_more true m n m' h = ap (λ x. or_else_marks x n) h ∙ or_else_marks_twice m n
once_more false m n m' h = h

pub asked-append :
    (os ps : List (Option String)) → asked (os ++ ps) ≡ or_else_marks (asked os) (asked ps)
asked-append [] ps = refl
asked-append (none ∷ os) ps = asked-append os ps
asked-append (some a ∷ os) ps = elim (Bool-cases (a == "mask")) [
  | inl e ↦ rw e refl
  | inr e ↦ elim (Bool-cases (a == "tokenize")) [
    | inl f ↦ rw (e, f) refl
    | inr f ↦ rw (e, f) (asked-append os ps)
  ]
]

both : {a b c d : Bool} → a ≡ c → b ≡ d → Path (Bool × Bool) (a, b) (c, d)
both h k = rw (h, k) refl

pub marked : (m : Bool × Bool) → (m.0 || m.1) ≡ true → (n : Bool × Bool) → or_else_marks m n ≡ m
marked m h n = rw h refl

pub unmarked : (m : Bool × Bool) → (m.0 || m.1) ≡ false → m ≡ (false, false)
unmarked m h = both (ground arith) (ground arith)

module _ (col : String) where
  -- Other columns are left alone.
  by_action-apart :
      (j : String) (o : Option String) (t rest : Treatment)
      → (j == col) ≡ false
      → marks j rest ≡ marks j t
      → marks j (by_action col o t rest) ≡ marks j t
  unfolding add_masked add_tokenized
  by_action-apart j none t rest apart h = h
  by_action-apart j (some a) t rest apart h = elim (Bool-cases (a == "mask")) [
    | inl e ↦ rw e (both (ground (arith, elem-concat j col t.masked_col_keys)) refl)
    | inr e ↦ elim (Bool-cases (a == "tokenize")) [
      | inl f ↦ rw (e, f) (both refl (ground (arith, elem-concat j col t.tokenize_cols)))
      | inr f ↦ rw (e, f) h
    ]
  ]

  by_action-asked :
      (o : Option String) (os : List (Option String)) (t rest : Treatment)
      → marks col t ≡ (false, false)
      → marks col rest ≡ asked os
      → marks col (by_action col o t rest) ≡ asked (o ∷ os)
  unfolding add_masked add_tokenized
  by_action-asked none os t rest h k = k
  by_action-asked (some a) os t rest h k = elim (Bool-cases (a == "mask")) [
    | inl e ↦ rw e (
        both (ground (arith, elem-concat col col t.masked_col_keys, eq_iff col col))
          (ap (λ m. m.1) h))
    | inr e ↦ elim (Bool-cases (a == "tokenize")) [
      | inl f ↦
          rw (e, f)
            (both (ap (λ m. m.0) h)
              (ground (arith, elem-concat col col t.tokenize_cols, eq_iff col col)))
      | inr f ↦ rw (e, f) k
    ]
  ]

  pub by_field-asked :
      (ds : List PolicyDecision) (t : Treatment)
      → marks col t ≡ (false, false)
      → marks col (by_field col ds t) ≡ asked (field_actions col ds)
  unfolding by_field
  by_field-asked [] t h = h
  by_field-asked (d ∷ ds) t h =
      by_action-asked (lookup col d.active_field_policies) (field_actions col ds) t _ h
        (by_field-asked ds t h)

  pub by_field-apart :
      (j : String) (ds : List PolicyDecision) (t : Treatment)
      → (j == col) ≡ false
      → marks j (by_field col ds t) ≡ marks j t
  unfolding by_field
  by_field-apart j [] t h = refl
  by_field-apart j (d ∷ ds) t h =
      by_action-apart j (lookup col d.active_field_policies) t _ h (by_field-apart j ds t h)

  by_tag-asked :
      (tags : List String) (d : PolicyDecision) (t : Treatment)
      → marks col t ≡ (false, false)
      → marks col (by_tag col tags d t) ≡ asked (map (λ tag. lookup tag d.active_tag_policies) tags)
  unfolding by_tag
  by_tag-asked [] d t h = h
  by_tag-asked (tag ∷ tags) d t h =
      by_action-asked (lookup tag d.active_tag_policies)
        (map (λ x. lookup x d.active_tag_policies) tags) t _ h (by_tag-asked tags d t h)

  by_tag-apart :
      (j : String) (tags : List String) (d : PolicyDecision) (t : Treatment)
      → (j == col) ≡ false
      → marks j (by_tag col tags d t) ≡ marks j t
  unfolding by_tag
  by_tag-apart j [] d t h = refl
  by_tag-apart j (tag ∷ tags) d t h =
      by_action-apart j (lookup tag d.active_tag_policies) t _ h (by_tag-apart j tags d t h)

  pub by_tags-asked :
      (tags : List String) (ds : List PolicyDecision) (t : Treatment)
      → marks col t ≡ (false, false)
      → marks col (by_tags col tags ds t) ≡ asked (tag_actions tags ds)
  unfolding by_tags
  by_tags-asked tags [] t h = h
  by_tags-asked tags (d ∷ ds) t h =
      let t' = by_tag col tags d t in
      let here = map (λ tag. lookup tag d.active_tag_policies) tags in
      let k : marks col t' ≡ asked here = by_tag-asked tags d t h in
      asked_next t' here (by_tags col tags ds t') (tag_actions tags ds) k (by_tags-asked tags ds t')
    where
      asked_next :
          (t' : Treatment) (here : List (Option String)) (rest : Treatment)
          (later : List (Option String))
          → marks col t' ≡ asked here
          → (marks col t' ≡ (false, false) → marks col rest ≡ asked later)
          → marks col (if is_treated col t' then t' else rest) ≡ asked (here ++ later)
      asked_next t' here rest later k next = elim (Bool-cases (is_treated col t')) [
        | inl done ↦ rw done (
            sym (
              asked-append here later
              ∙ ap (λ m. or_else_marks m (asked later)) (sym k)
              ∙ marked (marks col t') done (asked later)))
        | inr open' ↦
            let none_yet = unmarked (marks col t') open' in
            rw open' (
              next none_yet
              ∙ sym (
                  asked-append here later
                  ∙ ap (λ m. or_else_marks m (asked later)) (sym k ∙ none_yet)))
      ]

  pub by_tags-apart :
      (j : String) (tags : List String) (ds : List PolicyDecision) (t : Treatment)
      → (j == col) ≡ false
      → marks j (by_tags col tags ds t) ≡ marks j t
  unfolding by_tags
  by_tags-apart j tags [] t h = refl
  by_tags-apart j tags (d ∷ ds) t h =
      let t' = by_tag col tags d t in
      let k = by_tag-apart j tags d t h in
      elim (Bool-cases (is_treated col t')) [
        | inl done ↦ rw (done, by_tags) k
        | inr open' ↦ rw (open', by_tags) (by_tags-apart j tags ds t' h ∙ k)
      ]
