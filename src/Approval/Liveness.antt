-- ===== src/Approval/Liveness.antt =====
-- A request can be made, approved and executed: the whole flow of backend/app/api/approvals.py.
use metasight.Prelude.{
  All, Bool, List, Option, String, Text, [], arith, eq_iff, false, first, refl, some, strip, sym,
  text_beq_iff, true, ℕ, ◌++◌, ◌+◌, ◌∷◌, ◌≡◌, ◌≢◌, ◌≤◌,
}
use metasight.Http.{Result, ok, ◌>>=◌}
use metasight.Identity.{User, has_role, require_admin, sub}
use metasight.Approval.{
  ApprovalResponse, Db, QueryApproval, answers_token, approval_ttl_hours, approve_request,
  audit_decision, create_approval_request, decidable, get_approval, has_expired, hours, save,
  to_response, validate_approval_token,
}
use metasight.Approval.Effects.{by_key}
use metasight.Approval.Token.{unanswered_of_token}

first_of_fresh :
    (p : QueryApproval → Bool) (rows : List QueryApproval) (a : QueryApproval)
    → All (λ b. p b ≡ false) rows
    → p a ≡ true
    → first p (rows ++ a ∷ []) ≡ some a
first_of_fresh p [] a h yes' = rw yes'
first_of_fresh p (b ∷ rows) a h yes' = rw h.0 (first_of_fresh p rows a h.1 yes')

save-append :
    (row : QueryApproval) (rows : List QueryApproval) (a : QueryApproval)
    → All (λ b. b.id ≢ row.id) rows
    → a.id ≡ row.id
    → save row (rows ++ a ∷ []) ≡ rows ++ row ∷ []
unfolding save
save-append row [] a h e = ground arith
save-append row (b ∷ rows) a h e = ground (arith, save-append row rows a h.1 e)

unkeyed :
    (id tenant_id : ℕ) (rows : List QueryApproval)
    → All (λ b. b.id ≢ id) rows
    → All (λ b. by_key id tenant_id b ≡ false) rows
unkeyed id tenant_id [] h = tt
unkeyed id tenant_id (b ∷ rows) h = (ground arith, unkeyed id tenant_id rows h.1)

untokened :
    (tenant_id : ℕ) (token : String) (rows : List QueryApproval)
    → All (λ b. b.approval_token ≢ some token) rows
    → All (λ b. answers_token tenant_id token b ≡ false) rows
untokened tenant_id token [] h = tt
untokened tenant_id token (b ∷ rows) h =
    (unanswered_of_token tenant_id token b h.0, untokened tenant_id token rows h.1)

answers_of :
    (tenant_id : ℕ) (token : String) (a : QueryApproval)
    → a.tenant_id ≡ tenant_id
    → a.approval_token ≡ some token
    → a.status ≡ "approved"
    → answers_token tenant_id token a ≡ true
unfolding answers_token
answers_of tenant_id token a tenant has approved =
    rw has (ground (arith, eq_iff token token, eq_iff a.status "approved"))

decidable_total :
    (verb : String) (user : User) (a : QueryApproval)
    → a.status ≡ "pending"
    → a.requester_email ≢ sub user
    → decidable verb user a ≡ ok tt
unfolding decidable
decidable_total verb user a pending another =
    ground (arith, eq_iff a.status "pending", eq_iff a.requester_email (sub user))

abbrev approved_row : (ℕ → ℕ) → String → Option String → User → QueryApproval → QueryApproval
approved_row clock token note admin a = record a {
  status = "approved";
  approver_email = some (sub admin);
  approver_note = note;
  approval_token = some token;
  expires_at = some (clock 0 + hours approval_ttl_hours);
  updated_at = clock 1;
}

approve_total :
    (clock : ℕ → ℕ) (token : String) (note : Option String) (admin : User) (db : Db)
    (rows : List QueryApproval) (a : QueryApproval)
    → db.approvals ≡ rows ++ a ∷ []
    → All (λ b. b.id ≢ a.id) rows
    → has_role admin ("admin" ∷ "superadmin" ∷ []) ≡ true
    → a.tenant_id ≡ admin.tenant_id
    → a.status ≡ "pending"
    → a.requester_email ≢ sub admin
    → (r : ApprovalResponse) × (db' : Db) × (approve_request clock token a.id note admin db
        ≡ ok (r, db'))
      × (db'.approvals ≡ rows ++ approved_row clock token note admin a ∷ [])
unfolding approve_request require_admin get_approval
approve_total clock token note admin db rows a e fresh is_admin tenant pending another =
    let row = approved_row clock token note admin a in
    let here : by_key a.id admin.tenant_id a ≡ true = ground arith in
    let found : first (by_key a.id admin.tenant_id) db.approvals ≡ some a = rw e (
      first_of_fresh (by_key a.id admin.tenant_id) rows a (unkeyed a.id admin.tenant_id rows fresh)
        here) in
    let checked = decidable_total "approve" admin a pending another in
    (
      to_response row true,
      record (audit_decision clock admin "approved" "approve" a note db) {
        approvals = save row db.approvals;
      },
      ground arith,
      rw e (save-append row rows a fresh refl),
    )

validate_total :
    (clock : ℕ → ℕ) (sql : Text) (token : String) (db : Db) (rows : List QueryApproval)
    (a : QueryApproval) (expires : ℕ)
    → db.approvals ≡ rows ++ a ∷ []
    → All (λ b. b.approval_token ≢ some token) rows
    → a.approval_token ≡ some token
    → a.status ≡ "approved"
    → a.expires_at ≡ some expires
    → clock 0 ≤ expires
    → strip a.sql ≡ strip sql
    → (db' : Db) × (validate_approval_token clock a.tenant_id sql token db
        ≡ ok (record a { status = "used"; updated_at = clock 1 }, db'))
unfolding validate_approval_token has_expired
validate_total clock sql token db rows a expires e fresh has approved ends in_time same =
    let answers = answers_token a.tenant_id token in
    let here : answers a ≡ true = answers_of a.tenant_id token a refl has approved in
    let found : first answers db.approvals ≡ some a =
      rw e (first_of_fresh answers rows a (untokened a.tenant_id token rows fresh) here) in
    let same' = (text_beq_iff (strip a.sql) (strip sql)).1 same in
    (
      record db {
        approvals = save (record a { status = "used"; updated_at = clock 1 }) db.approvals;
      },
      ground arith,
    )

-- The three calls, one after the other; the result is the row that was executed.
unfoldable pub request_approve_execute :
    (ℕ → ℕ)
    → (ℕ → ℕ)
    → (ℕ → ℕ)
    → ℕ
    → ℕ
    → Text
    → ℕ
    → String
    → String
    → Option String
    → User
    → User
    → Text
    → Db
    → Result (QueryApproval × Db)
request_approve_execute clock clock' clock'' id source_id sql score level token note user admin sql'
      db =
    let (_, db₁) =
      create_approval_request clock id user.tenant_id user source_id sql score level db in
    do
      (_, db₂) ← approve_request clock' token id note admin db₁
      validate_approval_token clock'' user.tenant_id sql' token db₂

module _ (clock clock' clock'' : ℕ → ℕ) (id source_id : ℕ) (sql : Text) (score : ℕ)
    (level token : String) (note : Option String) (user admin : User) (sql' : Text) (db : Db) where
  -- A critical query that a user asks for, that an admin of the same tenant with another address
  -- approves, and that is resubmitted within 24 hours with the token and the same text up to
  -- surrounding white space, is executed: the three calls succeed, and the row is then used.
  -- The key and the token are new, as the database and the random generator make them.
  pub request_approve_execute_total :
      All (λ b. b.id ≢ id) db.approvals
      → All (λ b. b.approval_token ≢ some token) db.approvals
      → has_role admin ("admin" ∷ "superadmin" ∷ []) ≡ true
      → admin.tenant_id ≡ user.tenant_id
      → sub user ≢ sub admin
      → clock'' 0 ≤ clock' 0 + hours 24
      → strip sql ≡ strip sql'
      → (row : QueryApproval) × (db' : Db) × (request_approve_execute clock clock' clock'' id
            source_id sql score level token note user admin sql' db
          ≡ ok (row, db'))
        × (row.status ≡ "used")
        × (row.requester_email ≡ sub user)
        × (row.approver_email ≡ some (sub admin))
  unfolding request_approve_execute create_approval_request
  request_approve_execute_total fresh_id fresh_token is_admin same_tenant another in_time same_sql =
      let created =
        create_approval_request clock id user.tenant_id user source_id sql score level db in
      let (r, db₂, approved, rows₂) =
        approve_total clock' token note admin created.1 db.approvals created.0 refl fresh_id
          is_admin (sym same_tenant) refl another in
      let row = approved_row clock' token note admin created.0 in
      let (db₃, executed) =
        validate_total clock'' sql' token db₂ db.approvals row (clock' 0 + hours 24) rows₂
          fresh_token refl refl refl in_time same_sql in
      (record row { status = "used"; updated_at = clock'' 1 }, db₃, ground arith, refl, refl, refl)
