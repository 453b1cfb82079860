-- ===== src/Rewrite/SelfJoin.antt =====
-- The row filters of a table that a SELECT names more than once
-- (backend/app/rewriters/sql_rewriter.py).
use metasight.Prelude.{
  All, Bool-cases, List, String, [], any, ap, arith, eq_iff, false, inl, inr, map, nat_eq, refl,
  string_eq, subst, sym, text_beq_iff, text_eq, true, ℕ, ◌++◌, ◌==◌, ◌||◌, ◌∙◌, ◌∷◌, ◌≡◌,
}
use metasight.Policy.{RowCondition}
use metasight.Rewrite.Filters.{
  AliasFilter, all_filters, condition_of, filters_under, fresh, same_key,
}
use metasight.Prelude.Dict.{Dict}
use metasight.Rewrite.{Policy}

-- What `seen` holds after some filters.
seen_after : List AliasFilter → List AliasFilter → List AliasFilter
seen_after seen [] = seen
seen_after seen (f ∷ filters) = elim (f.condition.column == "" || any (same_key f) seen) [
  | true ↦ seen_after seen filters
  | false ↦ seen_after (f ∷ seen) filters
]

abbrev Skipped : List AliasFilter → AliasFilter → Type 0
Skipped seen f = (f.condition.column == "" || any (same_key f) seen) ≡ true

same_key_refl :
    (alias b : String) (ident : ℕ) (rf : RowCondition)
    → same_key
        (record { alias = b; ident = ident; condition = rf })
        (record { alias = alias; ident = ident; condition = rf })
      ≡ true
same_key_refl alias b ident rf = ground (
  arith,
  eq_iff rf.column rf.column,
  eq_iff rf.operator rf.operator,
  text_beq_iff rf.value rf.value,
)

fresh-append :
    (seen xs ys : List AliasFilter)
    → fresh seen (xs ++ ys) ≡ fresh seen xs ++ fresh (seen_after seen xs) ys
unfolding fresh seen_after
fresh-append seen [] ys = refl
fresh-append seen (x ∷ xs) ys =
    ground (arith, fresh-append seen xs ys, fresh-append (x ∷ seen) xs ys)

seen_mono :
    (f : AliasFilter) (seen xs : List AliasFilter)
    → any (same_key f) seen ≡ true
    → any (same_key f) (seen_after seen xs) ≡ true
unfolding seen_after
seen_mono f seen [] h = h
seen_mono f seen (x ∷ xs) h = ground (arith, seen_mono f seen xs, seen_mono f (x ∷ seen) xs)

fresh-Skipped : (seen ys : List AliasFilter) → All (Skipped seen) ys → fresh seen ys ≡ []
unfolding fresh
fresh-Skipped seen [] h = refl
fresh-Skipped seen (y ∷ ys) h = rw (h.0, fresh) (fresh-Skipped seen ys h.1)

fresh_seen : (seen ys : List AliasFilter) → All (Skipped seen) ys → seen_after seen ys ≡ seen
unfolding seen_after
fresh_seen seen [] h = refl
fresh_seen seen (y ∷ ys) h = rw (h.0, seen_after) (fresh_seen seen ys h.1)

Skipped-mono :
    (f : AliasFilter) (seen xs : List AliasFilter) → Skipped seen f → Skipped (seen_after seen xs) f
Skipped-mono f seen xs h = ground (arith, seen_mono f seen xs)

seen_skip :
    (seen filters : List AliasFilter) (f : AliasFilter)
    → Skipped seen f
    → seen_after seen (f ∷ filters) ≡ seen_after seen filters
unfolding seen_after
seen_skip seen filters f h = ground arith

seen_take :
    (seen filters : List AliasFilter) (f : AliasFilter)
    → (f.condition.column == "" || any (same_key f) seen) ≡ false
    → seen_after seen (f ∷ filters) ≡ seen_after (f ∷ seen) filters
unfolding seen_after
seen_take seen filters f h = ground arith

module _ (alias b : String) (ident : ℕ) where
  abbrev under : String → RowCondition → AliasFilter
  under a rf = record { alias = a; ident = ident; condition = rf }

  -- After the filters of a decision under one alias, those under another are passed over.
  filters-Skipped :
      (rfs : List RowCondition) (seen : List AliasFilter)
      → All (Skipped (seen_after seen (filters_under alias ident rfs))) (filters_under b ident rfs)
  unfolding filters_under
  filters-Skipped [] seen = tt
  filters-Skipped (rf ∷ rfs) seen =
      let rest = filters_under alias ident rfs in
      elim (Bool-cases (rf.column == "" || any (same_key (under alias rf)) seen)) [
        | inl e ↦
            subst (λ k. All (Skipped k) (under b rf ∷ filters_under b ident rfs))
              (sym (seen_skip seen rest (under alias rf) e))
              (Skipped-mono (under b rf) seen rest e, filters-Skipped rfs seen)
        | inr e ↦
            subst (λ k. All (Skipped k) (under b rf ∷ filters_under b ident rfs))
              (sym (seen_take seen rest (under alias rf) e))
              (
                Skipped-mono (under b rf) (under alias rf ∷ seen) rest
                    (ground (arith, same_key_refl alias b ident rf)),
                filters-Skipped rfs (under alias rf ∷ seen),
              )
      ]

module _ (p : Policy) where
  -- The alias map of a SELECT that names one table under several aliases.
  abbrev pub under_aliases : List String → Dict Policy
  under_aliases [] = []
  under_aliases (b ∷ aliases) = (b, p) ∷ under_aliases aliases

  others_skipped :
      (alias : String) (aliases : List String)
      → fresh
          (seen_after [] (filters_under alias p.ident p.decision.row_filter_conditions))
          (all_filters (under_aliases aliases))
        ≡ []
  unfolding all_filters fresh
  others_skipped alias [] = refl
  others_skipped alias (b ∷ aliases) =
      let rfs = p.decision.row_filter_conditions in
      let seen = seen_after [] (filters_under alias p.ident rfs) in
      let ys = filters_under b p.ident rfs in
      let skipped = filters-Skipped alias b p.ident rfs [] in
      rw (fresh-append seen ys (all_filters (under_aliases aliases))) (
        rw (fresh-Skipped seen ys skipped, fresh_seen seen ys skipped)
          (others_skipped alias aliases))

  -- In a SELECT that names one table under several aliases, the row filters are put on the first
  -- alias only: the conditions are those of the SELECT with that alias alone.
  pub self_join_lem :
      (alias : String) (aliases : List String)
      → map condition_of (fresh [] (all_filters (under_aliases (alias ∷ aliases))))
        ≡ map condition_of (fresh [] (all_filters (under_aliases (alias ∷ []))))
  unfolding all_filters
  self_join_lem alias aliases =
      let xs = filters_under alias p.ident p.decision.row_filter_conditions in
      ap (map condition_of) (
        fresh-append [] xs (all_filters (under_aliases aliases))
        ∙ ap (λ l. fresh [] xs ++ l) (others_skipped alias aliases ∙ sym (others_skipped alias []))
        ∙ sym (fresh-append [] xs (all_filters (under_aliases []))))
