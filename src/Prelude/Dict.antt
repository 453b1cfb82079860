-- ===== src/Prelude/Dict.antt =====
-- A Python dictionary with string keys: its entries in the order of insertion.
use metasight.Prelude.{
  Bool, Bool-cases, List, Option, String, [], arith, eq_iff, if◌then◌else◌, inl, inr, is_some, map,
  nat_eq, none, refl, some, string_eq, text_eq, ◌==◌, ◌∙◌, ◌∷◌, ◌≡◌,
}

abbrev pub Dict {ℓ} : Type ℓ → Type ℓ
Dict V = List (String × V)

module _ {ℓ} {V : Type ℓ} where
  -- `d.get(k)`.
  unfoldable pub lookup : String → Dict V → Option V
  lookup k [] = none
  lookup k ((j, v) ∷ d) = if j == k then some v else lookup k d

  -- `d[k] = v`: an old key keeps its place.
  unfoldable pub insert : String → V → Dict V → Dict V
  insert k v [] = (k, v) ∷ []
  insert k v ((j, w) ∷ d) = if j == k then (j, v) ∷ d else (j, w) ∷ insert k v d

  -- `d.update(other)`.
  unfoldable pub update : Dict V → Dict V → Dict V
  update d [] = d
  update d ((k, v) ∷ other) = update (insert k v d) other

  abbrev pub keys : Dict V → List String
  keys = map (λ e. e.0)

  -- `k in d`.
  abbrev pub has : String → Dict V → Bool
  has k d = is_some (lookup k d)

  pub lookup-insert :
      (k j : String) (v : V) (d : Dict V)
      → lookup j (insert k v d) ≡ (if k == j then some v else lookup j d)
  unfolding lookup insert
  lookup-insert k j v [] = refl
  lookup-insert k j v ((i, w) ∷ d) =
      ground (arith, eq_iff k j, eq_iff i k, eq_iff i j, lookup-insert k j v d)

  -- A dictionary holds a key once.
  abbrev pub DistinctKeys : Dict V → Type ℓ
  DistinctKeys [] = Unit
  DistinctKeys ((k, v) ∷ d) = (lookup k d ≡ none) × DistinctKeys d

  pub insert-DistinctKeys :
      (k : String) (v : V) (d : Dict V) → DistinctKeys d → DistinctKeys (insert k v d)
  unfolding lookup insert
  insert-DistinctKeys k v [] h = (refl, tt)
  insert-DistinctKeys k v ((j, w) ∷ d) h = elim (Bool-cases (j == k)) [
    | inl same ↦ rw same h
    | inr another ↦ rw another (
      lookup-insert k j v d ∙ ground (arith, eq_iff k j, eq_iff j k, h.0),
      insert-DistinctKeys k v d h.1,
    )
  ]

  pub update-DistinctKeys : (d other : Dict V) → DistinctKeys d → DistinctKeys (update d other)
  unfolding update
  update-DistinctKeys d [] h = h
  update-DistinctKeys d ((k, v) ∷ other) h =
      update-DistinctKeys (insert k v d) other (insert-DistinctKeys k v d h)

  -- The value that is found first, if any.
  abbrev pub either_of : Option V → Option V → Option V
  either_of none o = o
  either_of (some v) o = some v

  pub lookup-update :
      (j : String) (d other : Dict V)
      → DistinctKeys other
      → lookup j (update d other) ≡ either_of (lookup j other) (lookup j d)
  unfolding update lookup
  lookup-update j d [] h = refl
  lookup-update j d ((k, v) ∷ other) h =
      lookup-update j (insert k v d) other h.1
      ∙ ground (arith, lookup-insert k j v d, eq_iff k j, h.0)
