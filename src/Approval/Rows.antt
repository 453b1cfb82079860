-- ===== src/Approval/Rows.antt =====
-- Rows of query_approvals as the handlers of backend/app/api/approvals.py read and write them.
use metasight.Prelude.{
  All, Bool, Bool-cases, List, [], arith, first, inl, inr, nat_eq, refl, some, string_eq, text_eq,
  ◌==◌, ◌∷◌, ◌≡◌, ◌≢◌,
}
use metasight.Approval.{QueryApproval, save}

pub All-first {ℓ κ} :
    {A : Type ℓ} (P : A → Type κ) (p : A → Bool) (rows : List A) {a : A}
    → first p rows ≡ some a
    → All P rows
    → P a
All-first P p [] h all = absurd (ground arith)
All-first P p (x ∷ rows) {a} h all = elim (Bool-cases (p x)) [
  | inl here ↦ let e : x ≡ a = ground arith in rw (← e) all.0
  | inr later ↦ All-first P p rows (rw later at h) all.1
]

-- No two rows share a primary key.
abbrev pub DistinctIds : List QueryApproval → Type 0
DistinctIds [] = Unit
DistinctIds (a ∷ rows) = All (λ b. b.id ≢ a.id) rows × DistinctIds rows

module _ (row : QueryApproval) where
  pub save-All :
      (P : QueryApproval → Type 0) (rows : List QueryApproval)
      → P row
      → All P rows
      → All P (save row rows)
  unfolding save
  save-All P [] h all = tt
  save-All P (a ∷ rows) h all = elim (Bool-cases (a.id == row.id)) [
    | inl same ↦ rw same (h, save-All P rows h all.1)
    | inr other ↦ rw other (all.0, save-All P rows h all.1)
  ]

  -- A row that no key matches leaves the table alone.
  pub save_absent :
      (rows : List QueryApproval) → All (λ b. b.id ≢ row.id) rows → save row rows ≡ rows
  unfolding save
  save_absent [] h = refl
  save_absent (a ∷ rows) h = ground (arith, save_absent rows h.1)

  pub save-DistinctIds :
      (rows : List QueryApproval) → DistinctIds rows → DistinctIds (save row rows)
  unfolding save
  save-DistinctIds [] d = tt
  save-DistinctIds (a ∷ rows) d = elim (Bool-cases (a.id == row.id)) [
    | inl same ↦
        let e : a.id ≡ row.id = ground arith in
        let kept : save row rows ≡ rows = save_absent rows (rw (← e) d.0) in
        rw (same, kept) (rw (← e) d.0, d.1)
    | inr other ↦
        rw other (save-All (λ b. b.id ≢ a.id) rows (ground arith) d.0, save-DistinctIds rows d.1)
  ]
