-- ===== src/Policy/Glob.antt =====
-- Wildcard resources: `re.fullmatch(re.escape(resource).replace(r"\*", ".*"), name, re.IGNORECASE)`.
-- Models the matching step of PolicyEngine.decide in backend/app/services/policy_engine.py.
use metasight.Prelude.{
  All, Bool, Bool-cases, Text, [], arith, elem, false, if◌then◌else◌, inl, inr, lower_code, nat_eq,
  not, refl, string_eq, text_eq, true, ℕ, ◌&&◌, ◌++◌, ◌==◌, ◌||◌, ◌↔◌, ◌∷◌, ◌≡◌, ◌≢◌,
}

abbrev pub star : ℕ
star = b'*'

abbrev pub newline : ℕ
newline = 10

-- Two characters that IGNORECASE identifies.
abbrev pub same_letter : ℕ → ℕ → Bool
same_letter c d = lower_code c == lower_code d

-- `.*` is any run of characters that are no line ends; the calls on the right wait.
unfoldable pub glob : Text → Text → Bool
glob [] [] = true
glob [] (d ∷ s) = false
glob (c ∷ p) [] = let rest = glob p [] in if c == star then rest else false
glob (c ∷ p) (d ∷ s) =
    let skip = glob p (d ∷ s) in
    let eat = glob (c ∷ p) s in
    let both = glob p s in
    if c == star then skip || not (d == newline) && eat else same_letter c d && both

-- `"*" in r.resource`.
unfoldable pub has_star : Text → Bool
has_star = elem star

-- The texts that a pattern matches.
pub data Matches : Text → Text → Type 0 where
  done : Matches [] []
  letter :
      {c d : ℕ} {p s : Text}
      → c ≢ star
      → lower_code c ≡ lower_code d
      → Matches p s
      → Matches (c ∷ p) (d ∷ s)
  stop : {c : ℕ} {p s : Text} → c ≡ star → Matches p s → Matches (c ∷ p) s
  more :
      {c d : ℕ} {p s : Text} → c ≡ star → d ≢ newline → Matches (c ∷ p) s → Matches (c ∷ p) (d ∷ s)

glob_sound : (p s : Text) → glob p s ≡ true → Matches p s
unfolding glob
glob_sound [] [] h = done
glob_sound [] (d ∷ s) h = cc
glob_sound (c ∷ p) [] h = stop (ground arith) (glob_sound p [] (ground arith))
glob_sound (c ∷ p) (d ∷ s) h = elim (Bool-cases (c == star)) [
  | inl is_star ↦ elim (Bool-cases (glob p (d ∷ s))) [
    | inl skip ↦ stop (ground arith) (glob_sound p (d ∷ s) skip)
    | inr no_skip ↦ more (ground arith) (ground arith) (glob_sound (c ∷ p) s (ground arith))
  ]
  | inr no_star ↦ letter (ground arith) (ground arith) (glob_sound p s (ground arith))
]

glob-star : (c : ℕ) (p s : Text) → c ≡ star → glob p s ≡ true → glob (c ∷ p) s ≡ true
unfolding glob
glob-star c p [] e h = ground arith
glob-star c p (d ∷ s) e h = ground arith

glob_complete : {p s : Text} → Matches p s → glob p s ≡ true
unfolding glob
glob_complete done = refl
glob_complete (letter n e m) = ground (arith, glob_complete m)
glob_complete (stop {c} {p} {s} e m) = glob-star c p s e (glob_complete m)
glob_complete (more e n m) = ground (arith, glob_complete m)

-- The matcher decides the relation: a star stands for any run of characters without a line end, and
-- any other character for itself in either case.
pub glob_iff : (p s : Text) → (glob p s ≡ true) ↔ Matches p s
glob_iff p s = (glob_sound p s, glob_complete)

-- A name followed by a star matches the name itself.
pub glob_name_star : (s : Text) → All (λ c. c ≢ star) s → glob (s ++ star ∷ []) s ≡ true
glob_name_star s h = glob_complete (go s h)
  where
    go : (s : Text) → All (λ c. c ≢ star) s → Matches (s ++ star ∷ []) s
    go [] h = stop refl done
    go (c ∷ s) h = letter h.0 refl (go s h.1)
