-- ===== src/Approval.antt =====
-- The approval workflow of critical queries: its rows, and the handlers that change them.
-- Models backend/app/api/approvals.py over the QueryApproval rows of backend/app/models/models.py.
pub mod Rows
pub mod Evolution
pub mod Effects
pub mod Workflow
pub mod Token
pub mod Listing
pub mod Liveness
mod Tests
use metasight.Prelude.{
  Bool, List, Option, String, Text, [], codes, false, first, if◌then◌else◌, keep, ltb, map, nat_eq,
  none, not, show_nat, some, string_eq, strip, take, text_eq, true, ℕ, ◌&&◌, ◌*◌, ◌++◌, ◌+◌, ◌/◌,
  ◌<>◌, ◌==◌, ◌||◌, ◌∷◌,
}
use metasight.Http.{Result, http, ok, raise_if, ◌>>=◌, ◌>>◌}
use metasight.Identity.{User, require_admin, role, sub}
use metasight.Audit.{
  DataChangeAudit, PrivilegedActivity, record_data_change, record_privileged_activity,
}

pub record QueryApproval : Type 0 where
  pub id : ℕ
  pub tenant_id : ℕ
  pub requester_email : String
  pub requester_role : String
  pub source_id : ℕ
  pub sql : Text
  pub risk_score : ℕ
  pub risk_level : String
  pub status : String
  pub approval_token : Option String
  pub approver_email : Option String
  pub approver_note : Option String
  pub created_at : ℕ
  pub updated_at : ℕ
  pub expires_at : Option ℕ

-- The tables that the handlers read and write.
pub record Db : Type 0 where
  pub approvals : List QueryApproval
  pub data_changes : List DataChangeAudit
  pub activities : List PrivilegedActivity

-- Times are counted in microseconds.
abbrev pub approval_ttl_hours : ℕ
approval_ttl_hours = 24

abbrev pub hours : ℕ → ℕ
hours n = n * 3_600_000_000

pub record ApprovalResponse : Type 0 where
  pub id : ℕ
  pub requester_email : String
  pub requester_role : String
  pub source_id : ℕ
  pub sql : Text
  pub risk_score : ℕ
  pub risk_level : String
  pub status : String
  pub approver_email : Option String
  pub approver_note : Option String
  pub created_at : ℕ
  pub expires_at : Option ℕ
  pub approval_token : Option String

unfoldable pub to_response : QueryApproval → Bool → ApprovalResponse
to_response a include_token = record {
  id = a.id;
  requester_email = a.requester_email;
  requester_role = a.requester_role;
  source_id = a.source_id;
  sql = a.sql;
  risk_score = a.risk_score;
  risk_level = a.risk_level;
  status = a.status;
  approver_email = a.approver_email;
  approver_note = a.approver_note;
  created_at = a.created_at;
  expires_at = a.expires_at;
  approval_token = if include_token then a.approval_token else none;
}

-- The session writes a changed row back to the row with its primary key.
unfoldable pub save : QueryApproval → List QueryApproval → List QueryApproval
save row [] = []
save row (a ∷ rows) = (if a.id == row.id then row else a) ∷ save row rows

unfoldable pub get_approval : ℕ → ℕ → List QueryApproval → Result QueryApproval
get_approval approval_id tenant_id rows =
    elim (first (λ a. a.id == approval_id && a.tenant_id == tenant_id) rows) [
      | none ↦ http 404 "Approval request not found."
      | some a ↦ ok a
    ]

-- The checks that `approve_request` and `reject_request` share; `verb` is theirs.
unfoldable pub decidable : String → User → QueryApproval → Result (Unit {0})
decidable verb user a = do
  raise_if (not (a.status == "pending")) 409 ("Request is already " <> a.status <> ".")
  raise_if (a.requester_email == sub user) 403 ("You cannot " <> verb <> " your own request.")

-- The audit rows of a decision; `clock` gives the readings of the time in their order.
unfoldable pub audit_decision :
    (ℕ → ℕ) → User → String → String → QueryApproval → Option String → Db → Db
unfolding record_data_change record_privileged_activity
audit_decision clock user status action a note db = record db {
  data_changes =
      record_data_change (clock 2) user.tenant_id (record {
        user = some user;
        entity = "QueryApproval";
        entity_id = some (show_nat a.id);
        table_name = some "query_approvals";
        record_pk = some (show_nat a.id);
        column_name = "status";
        old_value = some a.status;
        new_value = some status;
        operation_type = codes "UPDATE";
        approval_status = some status;
        approval_id = some a.id;
        details = ("requester_email", some a.requester_email) ∷ ("note", note) ∷ [];
      })
      ∷ db.data_changes;
  activities =
      record_privileged_activity (clock 3) user.tenant_id (record {
        user = some user;
        action = action <> "_query_request";
        target_type = some "QueryApproval";
        target_id = some (show_nat a.id);
        description = some (
            (if action == "approve" then "Approved" else "Rejected")
            <> " query request "
            <> show_nat a.id
            <> " from "
            <> a.requester_email);
        risk_level = codes "HIGH";
      })
      ∷ db.activities;
}

-- `body.note` is the note; the token is what `secrets.token_urlsafe` returns.
unfoldable pub approve_request :
    (ℕ → ℕ) → String → ℕ → Option String → User → Db → Result (ApprovalResponse × Db)
approve_request clock token approval_id note user db = do
  admin ← require_admin user
  approval ← get_approval approval_id admin.tenant_id db.approvals
  decidable "approve" admin approval
  let approved = record approval {
    status = "approved";
    approver_email = some (sub admin);
    approver_note = note;
    approval_token = some token;
    expires_at = some (clock 0 + hours approval_ttl_hours);
    updated_at = clock 1;
  }
  let audited = audit_decision clock admin "approved" "approve" approval note db
  ok (to_response approved true, record audited { approvals = save approved db.approvals })

unfoldable pub reject_request :
    (ℕ → ℕ) → ℕ → Option String → User → Db → Result (ApprovalResponse × Db)
reject_request clock approval_id note user db = do
  admin ← require_admin user
  approval ← get_approval approval_id admin.tenant_id db.approvals
  decidable "reject" admin approval
  let rejected = record approval {
    status = "rejected";
    approver_email = some (sub admin);
    approver_note = note;
    updated_at = clock 1;
  }
  let audited = audit_decision clock admin "rejected" "reject" approval note db
  ok (to_response rejected false, record audited { approvals = save rejected db.approvals })

-- `id` is the key that the database gives to the row; `risk_score` counts tenths.
unfoldable pub create_approval_request :
    (ℕ → ℕ) → ℕ → ℕ → User → ℕ → Text → ℕ → String → Db → QueryApproval × Db
create_approval_request clock id tenant_id user source_id sql risk_score risk_level db =
    let approval : QueryApproval = record {
      id = id;
      tenant_id = tenant_id;
      requester_email = sub user;
      requester_role = role user;
      source_id = source_id;
      sql = sql;
      risk_score = risk_score / 10;
      risk_level = risk_level;
      status = "pending";
      approval_token = none;
      approver_email = none;
      approver_note = none;
      created_at = clock 0;
      updated_at = clock 1;
      expires_at = none;
    } in
    (approval, record db { approvals = db.approvals ++ approval ∷ [] })

-- A missing time never lies before `now`.
unfoldable pub has_expired : Option ℕ → ℕ → Bool
has_expired none now = false
has_expired (some t) now = ltb t now

-- The query of `validate_approval_token`.
unfoldable pub answers_token : ℕ → String → QueryApproval → Bool
answers_token tenant_id token a =
    a.tenant_id == tenant_id
    && elim a.approval_token [ none ↦ false | some t ↦ t == token ]
    && a.status == "approved"

unfoldable pub validate_approval_token :
    (ℕ → ℕ) → ℕ → Text → String → Db → Result (QueryApproval × Db)
unfolding answers_token has_expired
validate_approval_token clock tenant_id sql token db =
    elim (first (answers_token tenant_id token) db.approvals) [
      | none ↦ http 403 "Invalid or already-used approval token."
      | some approval ↦ do
        raise_if (has_expired approval.expires_at (clock 0)) 403 "Approval token has expired."
        raise_if (not (strip approval.sql == strip sql)) 403
            "Approval token was issued for a different SQL query."
        let consumed = record approval { status = "used"; updated_at = clock 1 }
        ok (consumed, record db { approvals = save consumed db.approvals })
    ]

-- Rows in descending order of `created_at`, as `order_by(created_at.desc())` gives them.
unfoldable pub insert_desc : QueryApproval → List QueryApproval → List QueryApproval
insert_desc a [] = a ∷ []
insert_desc a (b ∷ rows) =
    if ltb a.created_at b.created_at then b ∷ insert_desc a rows else a ∷ b ∷ rows

unfoldable pub newest_first : List QueryApproval → List QueryApproval
unfolding insert_desc
newest_first [] = []
newest_first (a ∷ rows) = insert_desc a (newest_first rows)

-- `if status: q = q.filter(...)`: an empty text is no filter.
unfoldable pub with_status : Option String → QueryApproval → Bool
with_status none a = true
with_status (some status) a = status == "" || a.status == status

unfoldable pub list_approvals : Option String → User → Db → Result (List ApprovalResponse)
list_approvals status user db = do
  admin ← require_admin user
  let rows = keep (λ a. a.tenant_id == admin.tenant_id && with_status status a) db.approvals
  ok (map (λ a. to_response a true) (take 200 (newest_first rows)))

unfoldable pub list_my_approvals : User → Db → List ApprovalResponse
list_my_approvals user db =
    let mine =
      keep (λ a. a.tenant_id == user.tenant_id && a.requester_email == sub user) db.approvals in
    map (λ a. to_response a (a.status == "approved")) (take 100 (newest_first mine))
