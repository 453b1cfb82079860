-- ===== src/Rewrite/Kept.antt =====
-- Which row filters are kept: each, unless it names no column or stands for the same as one before
-- (the two `continue`s of _inject_row_filters_multi in backend/app/rewriters/sql_rewriter.py).
use metasight.Prelude.{
  All, Bool-cases, List, [], any, arith, eq_iff, false, inl, inr, nat_eq, refl, string_eq, subst,
  sym, text_beq_iff, text_eq, true, ◌==◌, ◌||◌, ◌∷◌, ◌≡◌, ◌⊎◌,
}
use metasight.Rewrite.Filters.{AliasFilter, fresh, same_key}

-- The filter is one that the alias map holds.
abbrev pub Among : AliasFilter → List AliasFilter → Type 0
Among f [] = ⊥
Among f (g ∷ filters) = (f ≡ g) ⊎ Among f filters

-- The filter, or one with the same key and so the same condition, is among those kept.
abbrev pub Covered : AliasFilter → List AliasFilter → Type 0
Covered f kept =
    (g : AliasFilter) × Among g kept × (g.ident ≡ f.ident) × (g.condition ≡ f.condition)

Covered-weaken :
    (f g : AliasFilter) (kept : List AliasFilter) → Covered f kept → Covered f (g ∷ kept)
Covered-weaken f g kept (h, among, i, c) = (h, inr among, i, c)

same_key_sound :
    (f g : AliasFilter) → same_key f g ≡ true → (g.ident ≡ f.ident) × (g.condition ≡ f.condition)
same_key_sound f g h = ground (
  arith,
  eq_iff f.condition.column g.condition.column,
  eq_iff f.condition.operator g.condition.operator,
  text_beq_iff f.condition.value g.condition.value,
)

seen_sound :
    (f : AliasFilter) (seen : List AliasFilter) → any (same_key f) seen ≡ true → Covered f seen
seen_sound f [] h = absurd (cc)
seen_sound f (g ∷ seen) h = elim (Bool-cases (same_key f g)) [
  | inl e ↦ let (i, c) = same_key_sound f g e in (g, inl refl, i, c)
  | inr e ↦ Covered-weaken f g seen (seen_sound f seen (ground arith))
]

-- A filter that is passed over has no column, or is among those seen or kept.
abbrev pub Accounted : List AliasFilter → List AliasFilter → AliasFilter → Type 0
Accounted seen kept f = (f.condition.column ≡ "") ⊎ Covered f seen ⊎ Covered f kept

Accounted-step :
    (g : AliasFilter) (seen kept filters : List AliasFilter)
    → All (Accounted (g ∷ seen) kept) filters
    → All (Accounted seen (g ∷ kept)) filters
Accounted-step g seen kept [] h = tt
Accounted-step g seen kept (f ∷ filters) (first_one, h) = (
  elim first_one [
    | inl blank ↦ inl blank
    | inr (inl (k, inl e, i, c)) ↦ inr (inr (g, inl refl, rw (← e) i, rw (← e) c))
    | inr (inl (k, inr among, i, c)) ↦ inr (inl (k, among, i, c))
    | inr (inr covered) ↦ inr (inr (Covered-weaken f g kept covered))
  ],
  Accounted-step g seen kept filters h,
)

fresh_skip :
    (seen filters : List AliasFilter) (f : AliasFilter)
    → (f.condition.column == "" || any (same_key f) seen) ≡ true
    → fresh seen (f ∷ filters) ≡ fresh seen filters
unfolding fresh
fresh_skip seen filters f h = ground arith

fresh_take :
    (seen filters : List AliasFilter) (f : AliasFilter)
    → (f.condition.column == "" || any (same_key f) seen) ≡ false
    → fresh seen (f ∷ filters) ≡ f ∷ fresh (f ∷ seen) filters
unfolding fresh
fresh_take seen filters f h = ground arith

pub fresh-Accounted :
    (seen filters : List AliasFilter) → All (Accounted seen (fresh seen filters)) filters
fresh-Accounted seen [] = tt
fresh-Accounted seen (f ∷ filters) =
    elim (Bool-cases (f.condition.column == "" || any (same_key f) seen)) [
      | inl e ↦
          subst (λ k. All (Accounted seen k) (f ∷ filters)) (sym (fresh_skip seen filters f e))
            (
              elim (Bool-cases (f.condition.column == "")) [
                | inl b ↦ inl ((eq_iff f.condition.column "").0 b)
                | inr n ↦ inr (inl (seen_sound f seen (ground arith)))
              ],
              fresh-Accounted seen filters,
            )
      | inr e ↦
          subst (λ k. All (Accounted seen k) (f ∷ filters)) (sym (fresh_take seen filters f e))
            (
              inr (inr (f, inl refl, refl, refl)),
              Accounted-step f seen (fresh (f ∷ seen) filters) filters
                  (fresh-Accounted (f ∷ seen) filters),
            )
    ]

pub unseen :
    (kept filters : List AliasFilter)
    → All (Accounted [] kept) filters
    → All (λ f. (f.condition.column ≡ "") ⊎ Covered f kept) filters
unseen kept [] h = tt
unseen kept (f ∷ filters) (first_one, h) = (
  elim first_one [
    | inl blank ↦ inl blank
    | inr (inl (k, among, i, c)) ↦ absurd among
    | inr (inr covered) ↦ inr covered
  ],
  unseen kept filters h,
)
