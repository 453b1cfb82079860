-- ===== src/Approval/Evolution.antt =====
-- How one row of query_approvals may change: what an approval is about is fixed, and its status
-- moves forward. About backend/app/api/approvals.py.
use metasight.Prelude.{
  Bool, Bool-cases, List, String, [], arith, eq_iff, false, first, inl, inr, nat_eq, some,
  string_eq, sym, text_eq, true, ◌++◌, ◌==◌, ◌∙◌, ◌∷◌, ◌≡◌, ◌≢◌, ◌⊎◌,
}
use metasight.Approval.{QueryApproval, save}
use metasight.Approval.Rows.{All-first, DistinctIds, save_absent}

-- `pending` may become anything, `approved` may become `used`, and the other two are final.

abbrev pub Later : String → String → Type 0
Later s t = (s ≡ t) ⊎ (s ≡ "pending") ⊎ (s ≡ "approved") × (t ≡ "used")

pub record Evolves (a b : QueryApproval) : Type 0 where
  pub same_id : b.id ≡ a.id
  pub same_tenant : b.tenant_id ≡ a.tenant_id
  pub same_requester : b.requester_email ≡ a.requester_email
  pub same_sql : b.sql ≡ a.sql
  pub same_source : b.source_id ≡ a.source_id
  pub forward : Later a.status b.status

-- The rows of the first table stand in the second, in place, perhaps changed; new rows follow.
abbrev pub EvolvesAll : List QueryApproval → List QueryApproval → Type 0
EvolvesAll [] rows = Unit
EvolvesAll (a ∷ old) [] = ⊥
EvolvesAll (a ∷ old) (b ∷ rows) = Evolves a b × EvolvesAll old rows

pub Evolves-refl : (a : QueryApproval) → Evolves a a
Evolves-refl a = ground arith

pub Evolves-trans : {a b c : QueryApproval} → Evolves a b → Evolves b c → Evolves a c
Evolves-trans p q = record {
  same_id = q.same_id ∙ p.same_id;
  same_tenant = q.same_tenant ∙ p.same_tenant;
  same_requester = q.same_requester ∙ p.same_requester;
  same_sql = q.same_sql ∙ p.same_sql;
  same_source = q.same_source ∙ p.same_source;
  forward =
      ground
        (arith, eq_iff "approved" "pending", eq_iff "used" "pending", eq_iff "used" "approved");
}

pub EvolvesAll-refl : (rows : List QueryApproval) → EvolvesAll rows rows
EvolvesAll-refl [] = tt
EvolvesAll-refl (a ∷ rows) = (Evolves-refl a, EvolvesAll-refl rows)

pub EvolvesAll-append : (rows new : List QueryApproval) → EvolvesAll rows (rows ++ new)
EvolvesAll-append [] new = tt
EvolvesAll-append (a ∷ rows) new = (Evolves-refl a, EvolvesAll-append rows new)

pub EvolvesAll-trans :
    (xs ys zs : List QueryApproval) → EvolvesAll xs ys → EvolvesAll ys zs → EvolvesAll xs zs
EvolvesAll-trans [] ys zs p q = tt
EvolvesAll-trans (x ∷ xs) [] zs p q = absurd p
EvolvesAll-trans (x ∷ xs) (y ∷ ys) [] p q = absurd q
EvolvesAll-trans (x ∷ xs) (y ∷ ys) (z ∷ zs) p q =
    (Evolves-trans p.0 q.0, EvolvesAll-trans xs ys zs p.1 q.1)

-- Writing back a changed version of the row that a query found changes that row alone.
pub EvolvesAll-save :
    (p : QueryApproval → Bool) (row : QueryApproval) (rows : List QueryApproval) {a : QueryApproval}
    → DistinctIds rows
    → first p rows ≡ some a
    → Evolves a row
    → EvolvesAll rows (save row rows)
unfolding save
EvolvesAll-save p row [] d found e = tt
EvolvesAll-save p row (x ∷ rows) {a} d found e = elim (Bool-cases (p x)) [
  | inl here ↦
      let is_x : x ≡ a = ground arith in
      let key : x.id ≡ row.id = rw is_x (sym e.same_id) in
      let hit : (x.id == row.id) ≡ true = ground arith in
      let kept : save row rows ≡ rows = save_absent row rows (rw (← key) d.0) in
      rw (hit, kept) (rw is_x e, EvolvesAll-refl rows)
  | inr later ↦
      let found' : first p rows ≡ some a = rw later at found in
      let apart : a.id ≢ x.id = All-first (λ b. b.id ≢ x.id) p rows found' d.0 in
      let miss : (x.id == row.id) ≡ false = ground (arith, e.same_id) in
      rw miss (Evolves-refl x, EvolvesAll-save p row rows d.1 found' e)
]
