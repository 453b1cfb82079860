-- ===== src/Rules/Unique.antt =====
-- One rule for each resource of a tenant, whatever create_policy, update_policy and delete_policy of
-- backend/app/api/policies.py do.
use metasight.Prelude.{
  All, All-append, All-map, Bool, Bool-cases, List, [], arith, eq_iff, false, first, inl, inr,
  nat_eq, none, some, string_eq, text_eq, true, ℕ, ◌++◌, ◌==◌, ◌∷◌, ◌≡◌,
}
use metasight.Policy.{PolicyRule}
use metasight.Approval.Rows.{All-first}
use metasight.Rules.{delete_rule, is_for, save_rule}

-- Neither the primary key nor the pair of the resource and the tenant is shared.
abbrev pub Apart : PolicyRule → PolicyRule → Type 0
Apart r q = ((q.id == r.id) ≡ false) × (is_for r.resource r.tenant_id q ≡ false)

abbrev pub Unique : List PolicyRule → Type 0
Unique [] = Unit
Unique (r ∷ rules) = All (Apart r) rules × Unique rules

-- The columns that an update leaves alone.
abbrev pub SameKeys : PolicyRule → PolicyRule → Type 0
SameKeys q r = (q.id ≡ r.id) × (q.resource ≡ r.resource) × (q.tenant_id ≡ r.tenant_id)

pub first-none :
    (p : PolicyRule → Bool) (rules : List PolicyRule)
    → first p rules ≡ none
    → All (λ q. p q ≡ false) rules
first-none p [] h = tt
first-none p (r ∷ rules) h = elim (Bool-cases (p r)) [
  | inl found ↦ absurd (ground arith)
  | inr other ↦ (other, first-none p rules (ground arith))
]

-- The row with the key of a rule that was found is that rule.
pub same_row :
    (p : PolicyRule → Bool) (rules : List PolicyRule) {old : PolicyRule}
    → Unique rules
    → first p rules ≡ some old
    → All (λ q. (q.id == old.id) ≡ true → q ≡ old) rules
same_row p [] u h = tt
same_row p (r ∷ rules) {old} u h = elim (Bool-cases (p r)) [
  | inl here ↦
      let e : r ≡ old = ground arith in
      (λ same. e, All-map (λ q a s. absurd (ground arith)) rules u.0)
  | inr later ↦
      let found = rw later at h in
      let a = All-first (Apart r) p rules found u.0 in
      (λ same. absurd (ground arith), same_row p rules u.1 found)
]

module _ (new : PolicyRule) where
  save_rule-All :
      (P : PolicyRule → Type 0) (rules : List PolicyRule)
      → All (λ q. (q.id == new.id) ≡ true → P q → P new) rules
      → All P rules
      → All P (save_rule new rules)
  unfolding save_rule
  save_rule-All P [] h all = tt
  save_rule-All P (r ∷ rules) h all = elim (Bool-cases (r.id == new.id)) [
    | inl same ↦ rw same (h.0 same all.0, all.1)
    | inr other ↦ rw other (all.0, save_rule-All P rules h.1 all.1)
  ]

  pub save_rule-Unique :
      (rules : List PolicyRule)
      → All (λ q. (q.id == new.id) ≡ true → SameKeys q new) rules
      → Unique rules
      → Unique (save_rule new rules)
  unfolding save_rule
  save_rule-Unique [] h u = tt
  save_rule-Unique (r ∷ rules) h u = elim (Bool-cases (r.id == new.id)) [
    | inl same ↦
        let (i, n, t) = h.0 same in
        rw same (All-map (λ q a. (rw (← i) a.0, rw (← n, ← t) a.1)) rules u.0, u.1)
    | inr other ↦ rw other (
      save_rule-All (Apart r) rules
          (All-map (λ q k same a. let (i, n, t) = k same in (rw (← i) a.0, rw (← n, ← t) a.1)) rules
            h.1)
          u.0,
      save_rule-Unique rules h.1 u.1,
    )
  ]

delete_rule-All :
    (P : PolicyRule → Type 0) (id : ℕ) (rules : List PolicyRule)
    → All P rules
    → All P (delete_rule id rules)
unfolding delete_rule
delete_rule-All P id [] all = tt
delete_rule-All P id (r ∷ rules) all = elim (Bool-cases (r.id == id)) [
  | inl same ↦ rw same all.1
  | inr other ↦ rw other (all.0, delete_rule-All P id rules all.1)
]

pub delete_rule-Unique :
    (id : ℕ) (rules : List PolicyRule) → Unique rules → Unique (delete_rule id rules)
unfolding delete_rule
delete_rule-Unique id [] u = tt
delete_rule-Unique id (r ∷ rules) u = elim (Bool-cases (r.id == id)) [
  | inl same ↦ rw same u.1
  | inr other ↦ rw other (delete_rule-All (Apart r) id rules u.0, delete_rule-Unique id rules u.1)
]

pub append-Unique :
    (new : PolicyRule) (rules : List PolicyRule)
    → All (λ q. (q.id == new.id) ≡ false) rules
    → All (λ q. is_for new.resource new.tenant_id q ≡ false) rules
    → Unique rules
    → Unique (rules ++ new ∷ [])
append-Unique new [] i f u = (tt, tt)
append-Unique new (r ∷ rules) i f u = (
  All-append (Apart r) rules (new ∷ []) u.0 (
    (ground arith, ground (arith, eq_iff r.resource new.resource, eq_iff new.resource r.resource)),
    tt,
  ),
  append-Unique new rules i.1 f.1 u.1,
)
