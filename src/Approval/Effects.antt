-- ===== src/Approval/Effects.antt =====
-- What each handler of backend/app/api/approvals.py does to the rows when it succeeds.
use metasight.Prelude.{
  Bool, List, Option, Option-cases, String, Text, [], arith, eq_iff, false, first, first_sound, inl,
  inr, nat_eq, refl, some, string_eq, strip, text_beq, text_beq_iff, text_eq, true, ℕ, ◌&&◌, ◌+◌,
  ◌==◌, ◌∷◌, ◌≡◌, ◌≢◌,
}
use metasight.Http.{ok}
use metasight.Identity.{User, has_role, require_admin, sub}
use metasight.Approval.{
  ApprovalResponse, Db, QueryApproval, answers_token, approval_ttl_hours, approve_request,
  audit_decision, decidable, get_approval, has_expired, hours, reject_request, save,
  validate_approval_token,
}
use metasight.Approval.Evolution.{Evolves}

-- The handler found `old` by the query `p`, and wrote `row` back in its place.

pub record Wrote (p : QueryApproval → Bool) (db db' : Db) (old row : QueryApproval) : Type 0 where
  pub found : first p db.approvals ≡ some old
  pub evolves : Evolves old row
  pub written : db'.approvals ≡ save row db.approvals

abbrev pub by_key : ℕ → ℕ → QueryApproval → Bool
by_key approval_id tenant_id a = a.id == approval_id && a.tenant_id == tenant_id

-- A decision by an admin who is not the requester, on a row that was pending.
pub record Decided (status : String) (user : User) (old row : QueryApproval) : Type 0 where
  pub by_admin : has_role user ("admin" ∷ "superadmin" ∷ []) ≡ true
  pub was_pending : old.status ≡ "pending"
  pub by_another : sub user ≢ old.requester_email
  pub new_status : row.status ≡ status
  pub approver : row.approver_email ≡ some (sub user)

abbrev pub Granted : String → ℕ → QueryApproval → Type 0
Granted token expires row = (row.approval_token ≡ some token) × (row.expires_at ≡ some expires)

decidable-ok :
    (verb : String) (user : User) (a : QueryApproval)
    → decidable verb user a ≡ ok tt
    → (a.status ≡ "pending") × (sub user ≢ a.requester_email)
unfolding decidable
decidable-ok verb user a h =
    ground (arith, eq_iff a.status "pending", eq_iff a.requester_email (sub user))

pub approve_effect :
    (clock : ℕ → ℕ) (token : String) (approval_id : ℕ) (note : Option String) (user : User)
    (db : Db) {r : ApprovalResponse} {db' : Db}
    → approve_request clock token approval_id note user db ≡ ok (r, db')
    → (old row : QueryApproval) × Wrote (by_key approval_id user.tenant_id) db db' old row
      × Decided "approved" user old row
      × Granted token (clock 0 + hours approval_ttl_hours) row
unfolding approve_request require_admin get_approval audit_decision
approve_effect clock token approval_id note user db {r} {db'} h =
    elim (Option-cases (first (by_key approval_id user.tenant_id) db.approvals)) [
      | inl missing ↦ absurd (ground arith)
      | inr (a, found) ↦
          let row : QueryApproval = record a {
            status = "approved";
            approver_email = some (sub user);
            approver_note = note;
            approval_token = some token;
            expires_at = some (clock 0 + hours approval_ttl_hours);
            updated_at = clock 1;
          } in
          let checked : decidable "approve" user a ≡ ok tt = ground arith in
          let (pending, another) = decidable-ok "approve" user a checked in
          (
            a,
            row,
            record { found = found; evolves = ground arith; written = ground arith },
            ground arith,
            ground arith,
          )
    ]

pub reject_effect :
    (clock : ℕ → ℕ) (approval_id : ℕ) (note : Option String) (user : User) (db : Db)
    {r : ApprovalResponse} {db' : Db}
    → reject_request clock approval_id note user db ≡ ok (r, db')
    → (old row : QueryApproval) × Wrote (by_key approval_id user.tenant_id) db db' old row
      × Decided "rejected" user old row
      × (row.approval_token ≡ old.approval_token)
unfolding reject_request require_admin get_approval audit_decision
reject_effect clock approval_id note user db {r} {db'} h =
    elim (Option-cases (first (by_key approval_id user.tenant_id) db.approvals)) [
      | inl missing ↦ absurd (ground arith)
      | inr (a, found) ↦
          let row : QueryApproval = record a {
            status = "rejected";
            approver_email = some (sub user);
            approver_note = note;
            updated_at = clock 1;
          } in
          let checked : decidable "reject" user a ≡ ok tt = ground arith in
          let (pending, another) = decidable-ok "reject" user a checked in
          (
            a,
            row,
            record { found = found; evolves = ground arith; written = ground arith },
            ground arith,
            refl,
          )
    ]

-- What a token that was accepted had to meet, and what became of its row.
pub record Consumed (now : ℕ) (sql : Text) (old row : QueryApproval) : Type 0 where
  pub in_time : has_expired old.expires_at now ≡ false
  pub same_query : strip old.sql ≡ strip sql
  pub used : row.status ≡ "used"
  pub approver : row.approver_email ≡ old.approver_email
  pub token : row.approval_token ≡ old.approval_token
  pub expires : row.expires_at ≡ old.expires_at

pub answers_token-status :
    (tenant_id : ℕ) (token : String) (a : QueryApproval)
    → answers_token tenant_id token a ≡ true
    → (a.tenant_id ≡ tenant_id) × (a.approval_token ≡ some token) × (a.status ≡ "approved")
unfolding answers_token
answers_token-status tenant_id token a h = elim (Option-cases a.approval_token) [
  | inl missing ↦ absurd (ground arith)
  | inr (t, e) ↦ ground (arith, eq_iff t token, eq_iff a.status "approved")
]

pub answers_token_sound :
    (tenant_id : ℕ) (token : String) (rows : List QueryApproval) {a : QueryApproval}
    → first (answers_token tenant_id token) rows ≡ some a
    → (a.tenant_id ≡ tenant_id) × (a.approval_token ≡ some token) × (a.status ≡ "approved")
answers_token_sound tenant_id token rows {a} found =
    answers_token-status tenant_id token a (first_sound (answers_token tenant_id token) rows found)

pub validate_effect :
    (clock : ℕ → ℕ) (tenant_id : ℕ) (sql : Text) (token : String) (db : Db) {row : QueryApproval}
    {db' : Db}
    → validate_approval_token clock tenant_id sql token db ≡ ok (row, db')
    → (old : QueryApproval) × Wrote (answers_token tenant_id token) db db' old row
      × Consumed (clock 0) sql old row
unfolding validate_approval_token
validate_effect clock tenant_id sql token db {row} {db'} h =
    elim (Option-cases (first (answers_token tenant_id token) db.approvals)) [
      | inl missing ↦ absurd (ground arith)
      | inr (a, found) ↦
          let (_, _, approved) = answers_token_sound tenant_id token db.approvals found in
          let in_time : has_expired a.expires_at (clock 0) ≡ false = ground arith in
          let same : text_beq (strip a.sql) (strip sql) ≡ true = ground arith in
          (
            a,
            record { found = found; evolves = ground arith; written = ground arith },
            record {
              in_time = in_time;
              same_query = (text_beq_iff (strip a.sql) (strip sql)).0 same;
              used = ground arith;
              approver = ground arith;
              token = ground arith;
              expires = ground arith;
            },
          )
    ]
