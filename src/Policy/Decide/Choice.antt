-- ===== src/Policy/Decide/Choice.antt =====
-- Which rule the engine takes. About PolicyEngine.decide of backend/app/services/policy_engine.py.
use metasight.Prelude.{
  All, Bool, Bool-cases, List, Option, Option-cases, String, Text, [], ap, arith, codes,
  elem-concat, eq_iff, eq_of_ne, false, first, first_sound, if◌then◌else◌, inl, inr, is_some, keep,
  length, length-append, ltb, nat_eq, none, not, refl, some, string_eq, sym, text_eq, true, ℕ, ◌&&◌,
  ◌++◌, ◌==◌, ◌∙◌, ◌∷◌, ◌≡◌, ◌≢◌,
}
use metasight.Policy.{PolicyRule}
use metasight.Policy.Glob.{Matches, glob_iff, glob_name_star, has_star, star}
use metasight.Policy.Decide.{
  PolicyDb, best_rule, find_rule, insert_rule, longest_first, matches_wildcard,
}

-- Why a rule applies to a resource: its name, a wildcard, being global, or the database's ILIKE.

pub data Applies (ilike : String → String → Bool) (resource : String) (r : PolicyRule)
    : Type 0 where
  exact : r.resource ≡ resource → Applies ilike resource r
  wildcard :
      has_star (codes r.resource) ≡ true
      → Matches (codes r.resource) (codes resource)
      → Applies ilike resource r
  global : r.resource ≡ "*" → Applies ilike resource r
  alike : ilike r.resource resource ≡ true → Applies ilike resource r

insert_rule-All :
    (P : PolicyRule → Type 0) (r : PolicyRule) (rules : List PolicyRule)
    → P r
    → All P rules
    → All P (insert_rule r rules)
unfolding insert_rule
insert_rule-All P r [] p h = (p, tt)
insert_rule-All P r (q ∷ rules) p h =
    elim (Bool-cases (ltb (length (codes r.resource)) (length (codes q.resource)))) [
      | inl shorter ↦ rw (shorter, insert_rule) (h.0, insert_rule-All P r rules p h.1)
      | inr no_shorter ↦ rw (no_shorter, insert_rule) (p, h)
    ]

longest_first-All :
    (P : PolicyRule → Type 0) (rules : List PolicyRule) → All P rules → All P (longest_first rules)
unfolding longest_first
longest_first-All P [] h = tt
longest_first-All P (r ∷ rules) h =
    insert_rule-All P r (longest_first rules) h.0 (longest_first-All P rules h.1)

keep-own :
    (tenant_id : ℕ) (rules : List PolicyRule)
    → All (λ r. r.tenant_id ≡ tenant_id) (keep (λ r. r.tenant_id == tenant_id) rules)
keep-own tenant_id [] = tt
keep-own tenant_id (r ∷ rules) = elim (Bool-cases (r.tenant_id == tenant_id)) [
  | inl own ↦ rw own (ground arith, keep-own tenant_id rules)
  | inr foreign ↦ rw foreign (keep-own tenant_id rules)
]

longer-ne : (s : Text) → s ++ star ∷ [] ≢ s
longer-ne s h = let e = ap length h in absurd (ground (arith, length-append s (star ∷ [])))

module _ (ilike : String → String → Bool) (tenant_id : ℕ) (resource : String) where
  abbrev pub Chosen : PolicyRule → Type 0
  Chosen r = (r.tenant_id ≡ tenant_id) × Applies ilike resource r

  find_rule-Chosen :
      (fallback : Option PolicyRule) (rules : List PolicyRule) (r : PolicyRule)
      → All (λ q. q.tenant_id ≡ tenant_id) rules
      → ((q : PolicyRule) → fallback ≡ some q → Chosen q)
      → find_rule resource fallback rules ≡ some r
      → Chosen r
  unfolding find_rule matches_wildcard
  find_rule-Chosen fallback [] r own ready h = ready r h
  find_rule-Chosen fallback (q ∷ rules) r own ready h = elim (Bool-cases (q.resource == resource)) [
    | inl same ↦
        let e : q ≡ r = ground arith in
        rw (sym e) (own.0, exact (ground (arith, eq_iff q.resource resource)))
    | inr another ↦ elim (Bool-cases (matches_wildcard resource q)) [
      | inl matched ↦
          let e : q ≡ r = ground arith in
          rw (sym e) (
            own.0,
            wildcard (ground arith)
                ((glob_iff (codes q.resource) (codes resource)).0 (ground arith)),
          )
      | inr unmatched ↦
          find_rule-Chosen
            (if q.resource == "*" && not (is_some fallback) then some q else fallback) rules r own.1
            next (ground arith)
    ]
  ]
    where
      next :
          (p : PolicyRule)
          → (if q.resource == "*" && not (is_some fallback) then some q else fallback) ≡ some p
          → Chosen p
      next p e = elim (Bool-cases (q.resource == "*" && not (is_some fallback))) [
        | inl taken ↦
            let same : q ≡ p = ground arith in
            rw (sym same) (own.0, global (ground (arith, eq_iff q.resource "*")))
        | inr kept ↦ ready p (ground arith)
      ]

  -- The rule that the engine takes belongs to the tenant, and it applies to the resource by its
  -- name, by a wildcard that matches the whole name, as the global rule, or by the database's ILIKE.
  pub best_rule-Chosen :
      (db : PolicyDb) (r : PolicyRule) → best_rule ilike db tenant_id resource ≡ some r → Chosen r
  unfolding best_rule
  best_rule-Chosen db r h = elim (Option-cases (find_rule resource none (longest_first own))) [
    | inl nothing ↦
        let found : first (λ q. ilike q.resource resource && q.tenant_id == tenant_id) db.rules
            ≡ some r =
          rw (nothing, best_rule) at h in
        let test =
          first_sound (λ q. ilike q.resource resource && q.tenant_id == tenant_id) db.rules found in
        (ground arith, alike (ground arith))
    | inr (q, found) ↦
        let picked : some q ≡ some r = rw (found, best_rule) at h in
        let e : q ≡ r = ground arith in
        find_rule-Chosen none (longest_first own) r
          (longest_first-All (λ p. p.tenant_id ≡ tenant_id) own (keep-own tenant_id db.rules))
          (λ p e'. absurd (ground arith)) (rw e at found)
  ]
    where
      own : List PolicyRule
      own = keep (λ q. q.tenant_id == tenant_id) db.rules

  -- Of a tenant's two rules `orders` and `orders*`, the engine takes `orders*` for `orders`, though
  -- the other is the exact one: the longer name is tried first.
  pub best_rule-longer :
      (db : PolicyDb) (e w : PolicyRule)
      → db.rules ≡ e ∷ w ∷ []
      → e.tenant_id ≡ tenant_id
      → w.tenant_id ≡ tenant_id
      → e.resource ≡ resource
      → codes w.resource ≡ codes resource ++ star ∷ []
      → All (λ c. c ≢ star) (codes resource)
      → best_rule ilike db tenant_id resource ≡ some w
  unfolding best_rule longest_first insert_rule find_rule matches_wildcard has_star
  best_rule-longer db e w two own₁ own₂ exact' starred plain =
      let other : (w.resource == resource) ≡ false =
        eq_of_ne w.resource resource (λ h. longer-ne (codes resource) (sym starred ∙ ap codes h)) in
      let matched : matches_wildcard resource w ≡ true =
        rw (starred, matches_wildcard, has_star)
          (ground (
            arith,
            elem-concat star star (codes resource),
            glob_name_star (codes resource) plain,
          )) in
      let shorter : ltb (length (codes e.resource)) (length (codes w.resource)) ≡ true =
        rw (exact', starred) (ground (arith, length-append (codes resource) (star ∷ []))) in
      let mine₁ : (e.tenant_id == tenant_id) ≡ true = ground arith in
      let mine₂ : (w.tenant_id == tenant_id) ≡ true = ground arith in
      let sorted : longest_first (keep (λ q. q.tenant_id == tenant_id) db.rules) ≡ w ∷ e ∷ [] =
        rw (two, mine₁, mine₂, longest_first, insert_rule, shorter) refl in
      rw (sorted, best_rule) (rw (other, matched) refl)
