-- ===== src/Approval/Workflow.antt =====
-- The approval workflow as a state machine: every sequence of successful handler calls of
-- backend/app/api/approvals.py, by any users and at any times.
use metasight.Prelude.{
  All, All-append, Bool, List, Option, String, Text, [], arith, eq_iff, inl, inr, none, refl, some,
  ℕ, ◌++◌, ◌∙◌, ◌∷◌, ◌≡◌, ◌≢◌, ◌⊎◌,
}
use metasight.Http.{ok}
use metasight.Identity.{User, sub}
use metasight.Approval.{
  ApprovalResponse, Db, QueryApproval, approve_request, create_approval_request, reject_request,
  validate_approval_token,
}
use metasight.Approval.Rows.{All-first, DistinctIds, save-All, save-DistinctIds}
use metasight.Approval.Evolution.{
  EvolvesAll, EvolvesAll-append, EvolvesAll-save, EvolvesAll-refl, EvolvesAll-trans,
}
use metasight.Approval.Effects.{
  Wrote, answers_token_sound, approve_effect, reject_effect, validate_effect,
}

-- A new row gets a primary key that no row has.

pub data Step (db db' : Db) : Type 0 where
  created :
      (clock : ℕ → ℕ) (id tenant_id : ℕ) (user : User) (source_id : ℕ) (sql : Text) (risk_score : ℕ)
      (risk_level : String)
      → All (λ a. a.id ≢ id) db.approvals
      → (create_approval_request clock id tenant_id user source_id sql risk_score risk_level db).1
        ≡ db'
      → Step db db'
  approved :
      (clock : ℕ → ℕ) (token : String) (approval_id : ℕ) (note : Option String) (user : User)
      (r : ApprovalResponse)
      → approve_request clock token approval_id note user db ≡ ok (r, db')
      → Step db db'
  rejected :
      (clock : ℕ → ℕ) (approval_id : ℕ) (note : Option String) (user : User) (r : ApprovalResponse)
      → reject_request clock approval_id note user db ≡ ok (r, db')
      → Step db db'
  consumed :
      (clock : ℕ → ℕ) (tenant_id : ℕ) (sql : Text) (token : String) (row : QueryApproval)
      → validate_approval_token clock tenant_id sql token db ≡ ok (row, db')
      → Step db db'

pub data Reach (db : Db) : Db → Type 0 where
  here : Reach db db
  next : {mid db' : Db} → Reach db mid → Step mid db' → Reach db db'

-- A second person has decided the row.
abbrev pub DecidedByAnother : QueryApproval → Type 0
DecidedByAnother a = (e : String) × (a.approver_email ≡ some e) × (e ≢ a.requester_email)

abbrev pub HasToken : QueryApproval → Type 0
HasToken a = (t : String) × (n : ℕ) × (a.approval_token ≡ some t) × (a.expires_at ≡ some n)

-- No query runs on a token without a second person: a row is pending or rejected and has no token,
-- or it was approved by somebody else, with a token and an end of its life.
pub data IsGuarded (a : QueryApproval) : Type 0 where
  waiting : a.status ≡ "pending" → a.approval_token ≡ none → IsGuarded a
  refused : a.status ≡ "rejected" → a.approval_token ≡ none → DecidedByAnother a → IsGuarded a
  granted :
      (a.status ≡ "approved") ⊎ (a.status ≡ "used") → DecidedByAnother a → HasToken a → IsGuarded a

pub record IsValid (db : Db) : Type 0 where
  pub distinct : DistinctIds db.approvals
  pub guarded : All IsGuarded db.approvals

IsGuarded-pending :
    (a : QueryApproval) → a.status ≡ "pending" → IsGuarded a → a.approval_token ≡ none
IsGuarded-pending a h (waiting p n) = n
IsGuarded-pending a h (refused p n d) = n
IsGuarded-pending a h (granted p d t) =
    absurd (ground (arith, eq_iff "approved" "pending", eq_iff "used" "pending"))

pub IsGuarded-approved :
    (a : QueryApproval) → a.status ≡ "approved" → IsGuarded a → DecidedByAnother a × HasToken a
IsGuarded-approved a h (waiting p n) = absurd (ground (arith, eq_iff "approved" "pending"))
IsGuarded-approved a h (refused p n d) = absurd (ground (arith, eq_iff "approved" "rejected"))
IsGuarded-approved a h (granted p d t) = (d, t)

Wrote-IsValid :
    (p : QueryApproval → Bool) (db db' : Db) (old row : QueryApproval)
    → Wrote p db db' old row
    → (IsGuarded old → IsGuarded row)
    → IsValid db
    → IsValid db'
Wrote-IsValid p db db' old row w keeps v = record {
  distinct = rw w.written (save-DistinctIds row db.approvals v.distinct);
  guarded = rw w.written (
      save-All row IsGuarded db.approvals
        (keeps (All-first IsGuarded p db.approvals w.found v.guarded)) v.guarded);
}

DistinctIds-concat :
    (rows : List QueryApproval) (a : QueryApproval)
    → All (λ b. b.id ≢ a.id) rows
    → DistinctIds rows
    → DistinctIds (rows ++ a ∷ [])
DistinctIds-concat [] a h d = (tt, tt)
DistinctIds-concat (b ∷ rows) a h d = (
  All-append (λ c. c.id ≢ b.id) rows (a ∷ []) d.0 (ground arith, tt),
  DistinctIds-concat rows a h.1 d.1,
)

pub Step-IsValid : {db db' : Db} → Step db db' → IsValid db → IsValid db'
unfolding create_approval_request
Step-IsValid {db} (created clock id tenant_id user source_id sql score level fresh e) v =
    rw (← e) (record {
      distinct = DistinctIds-concat db.approvals _ fresh v.distinct;
      guarded = All-append IsGuarded db.approvals _ v.guarded (waiting refl refl, tt);
    })
Step-IsValid {db} {db'} (approved clock token id note user r e) v =
    let (old, row, w, d, t) = approve_effect clock token id note user db e in
    Wrote-IsValid _ db db' old row w
      (λ g.
        granted (inl d.new_status) (sub user, d.approver, rw w.evolves.same_requester d.by_another)
          (token, _, t.0, t.1))
      v
Step-IsValid {db} {db'} (rejected clock id note user r e) v =
    let (old, row, w, d, same) = reject_effect clock id note user db e in
    Wrote-IsValid _ db db' old row w
      (λ g.
        refused d.new_status (same ∙ IsGuarded-pending old d.was_pending g)
          (sub user, d.approver, rw w.evolves.same_requester d.by_another))
      v
Step-IsValid {db} {db'} (consumed clock tenant_id sql token row e) v =
    let (old, w, c) = validate_effect clock tenant_id sql token db e in
    let (_, _, was_approved) = answers_token_sound tenant_id token db.approvals w.found in
    Wrote-IsValid _ db db' old row w
      (λ g.
        let ((who, by, other), (t, n, has, ends)) = IsGuarded-approved old was_approved g in
        granted (inr c.used) (who, c.approver ∙ by, rw w.evolves.same_requester other)
          (t, n, c.token ∙ has, c.expires ∙ ends))
      v

-- From a valid table, every sequence of handler calls keeps the keys distinct and every row
-- guarded: a row that is approved or used was decided by someone other than its requester and
-- has a token and an expiry, and no pending or rejected row has a token.
pub Reach-IsValid : {db db' : Db} → Reach db db' → IsValid db → IsValid db'
Reach-IsValid here v = v
Reach-IsValid (next r s) v = Step-IsValid s (Reach-IsValid r v)

Step-EvolvesAll :
    {db db' : Db} → Step db db' → DistinctIds db.approvals → EvolvesAll db.approvals db'.approvals
unfolding create_approval_request
Step-EvolvesAll {db} (created clock id tenant_id user source_id sql score level fresh e) d =
    rw (← e) (EvolvesAll-append db.approvals _)
Step-EvolvesAll {db} (approved clock token id note user r e) d =
    let (old, row, w, _, _) = approve_effect clock token id note user db e in
    rw w.written (EvolvesAll-save _ row db.approvals d w.found w.evolves)
Step-EvolvesAll {db} (rejected clock id note user r e) d =
    let (old, row, w, _, _) = reject_effect clock id note user db e in
    rw w.written (EvolvesAll-save _ row db.approvals d w.found w.evolves)
Step-EvolvesAll {db} (consumed clock tenant_id sql token row e) d =
    let (old, w, _) = validate_effect clock tenant_id sql token db e in
    rw w.written (EvolvesAll-save _ row db.approvals d w.found w.evolves)

-- Along every sequence of handler calls from a valid table each row stays in place, keeps its key,
-- tenant, requester, source and query, and its status moves only forward: pending to anything,
-- approved to used, and never away from rejected or used.
pub Reach-EvolvesAll :
    {db db' : Db} → Reach db db' → IsValid db → EvolvesAll db.approvals db'.approvals
Reach-EvolvesAll {db} here v = EvolvesAll-refl db.approvals
Reach-EvolvesAll {db} {db'} (next {mid} r s) v =
    EvolvesAll-trans db.approvals mid.approvals db'.approvals (Reach-EvolvesAll r v)
      (Step-EvolvesAll s (Reach-IsValid r v).distinct)
