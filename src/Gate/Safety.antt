-- ===== src/Gate/Safety.antt =====
-- Who passes the gate, and what an attempt does to the requests.
-- About step 5 of execute_query_endpoint in backend/app/api/query.py.
use metasight.Prelude.{
  All, Bool, Bool-cases, List, Option, Option-cases, String, Text, [], ap, arith, eq_iff, eq_of_ne,
  false, first, inl, inr, leb, nat_eq, none, refl, some, string_eq, strip, sym, text_eq, true, ℕ,
  ◌++◌, ◌/◌, ◌<◌, ◌==◌, ◌∙◌, ◌∷◌, ◌≡◌, ◌≢◌, ◌≤◌, ◌⊎◌,
}
use metasight.Http.{HttpError, Result-cases, ok}
use metasight.Identity.{User, sub}
use metasight.Approval.{
  Db, QueryApproval, answers_token, create_approval_request, has_expired, save,
  validate_approval_token,
}
use metasight.Approval.Workflow.{
  DecidedByAnother, IsGuarded, IsGuarded-approved, IsValid, Reach, consumed, created, here, next,
}
use metasight.Gate.{
  approval_gate, approval_required, given_token, goes_on, http_error, stopped, use_token,
}
-- A request that pays for the query of a user at a time: approved by someone else, for the same text
-- up to surrounding white space, and not expired.
use metasight.Risk.{RewriteMeta, RiskScore, level_from, score_query, thresholds}
use metasight.Prelude.Dict.{Dict, has}
use metasight.Policy.{PolicyDecision, ok}
use metasight.Approval.Rows.{All-first, DistinctIds}
use metasight.Approval.Effects.{answers_token_sound, validate_effect}
use metasight.Approval.Token.{DistinctTokens, validate_once}

pub record Pays (now : ℕ) (user : User) (sql : Text) (a : QueryApproval) : Type 0 where
  pub own_tenant : a.tenant_id ≡ user.tenant_id
  pub own_request : a.requester_email ≡ sub user
  pub approved : a.status ≡ "approved"
  pub same_query : strip a.sql ≡ strip sql
  pub in_time : has_expired a.expires_at now ≡ false
  pub by_another : DecidedByAnother a

module _ (clock : ℕ → ℕ) (user : User) (sql : Text) (token : String) (db : Db) where
  -- The three ends of an attempt with a token.
  use_token-cases :
      ((row : QueryApproval) × (db' : Db) × (validate_approval_token clock user.tenant_id sql token
            db
          ≡ ok (row, db'))
        × (row.requester_email ≡ sub user)
        × (use_token clock user sql token db
            ≡ (goes_on ("Query executed under admin-approved token." ∷ []), db')))
      ⊎ ((row : QueryApproval) × (db' : Db) × (validate_approval_token clock user.tenant_id sql
              token db
            ≡ ok (row, db'))
          × (row.requester_email ≢ sub user)
          × (use_token clock user sql token db ≡ (
            stopped (
                http_error (record {
                  status_code = 403;
                  detail = "Only the original requester may execute this approved query.";
                })),
            db',
          )))
      ⊎ ((e : HttpError) × (use_token clock user sql token db ≡ (stopped (http_error e), db)))
  unfolding use_token
  use_token-cases =
      elim (Result-cases (validate_approval_token clock user.tenant_id sql token db)) [
        | inl ((row, db'), accepted) ↦ elim (Bool-cases (row.requester_email == sub user)) [
          | inl own ↦ inl (
            row,
            db',
            accepted,
            ground (arith, eq_iff row.requester_email (sub user)),
            rw (accepted, use_token, own) refl,
          )
          | inr foreign ↦ inr (
              inl (
                row,
                db',
                accepted,
                ground (arith, eq_iff row.requester_email (sub user)),
                rw (accepted, use_token, foreign) refl,
              ))
        ]
        | inr (e, turned_away) ↦ inr (inr (e, rw (turned_away, use_token) refl))
      ]

Pays-of :
    (clock : ℕ → ℕ) (user : User) (sql : Text) (token : String) (db : Db) (row : QueryApproval)
    (db' : Db)
    → IsValid db
    → validate_approval_token clock user.tenant_id sql token db ≡ ok (row, db')
    → row.requester_email ≡ sub user
    → (a : QueryApproval) × (first (answers_token user.tenant_id token) db.approvals ≡ some a)
      × Pays (clock 0) user sql a
      × (row.status ≡ "used")
      × (db'.approvals ≡ save row db.approvals)
Pays-of clock user sql token db row db' v accepted own =
    let (a, w, c) = validate_effect clock user.tenant_id sql token db accepted in
    let (tenant, has, status) = answers_token_sound user.tenant_id token db.approvals w.found in
    let guarded =
      All-first IsGuarded (answers_token user.tenant_id token) db.approvals w.found v.guarded in
    (
      a,
      w.found,
      record {
        own_tenant = tenant;
        own_request = sym w.evolves.same_requester ∙ own;
        approved = status;
        same_query = c.same_query;
        in_time = c.in_time;
        by_another = (IsGuarded-approved a status guarded).0;
      },
      c.used,
      w.written,
    )

module _ (clock : ℕ → ℕ) (id : ℕ) (user : User) (source_id : ℕ) (sql : Text) (risk : RiskScore)
    (approval_token : Option String) (db : Db) where
  is_critical : risk.level ≡ "CRITICAL" → (risk.level == "CRITICAL") ≡ true
  is_critical h = ground (arith, eq_iff risk.level "CRITICAL")

  -- From a valid table, a critical query goes on only with the token of a request that the user made
  -- for the same text, that someone else approved and that has not expired; the row is then used.
  pub approval_gate_safe :
      (warnings : List String) (db' : Db)
      → IsValid db
      → risk.level ≡ "CRITICAL"
      → approval_gate clock id user source_id sql risk approval_token db ≡ (goes_on warnings, db')
      → (token : String) × (a : QueryApproval) × (row : QueryApproval) × (given_token approval_token
          ≡ some token)
        × (first (answers_token user.tenant_id token) db.approvals ≡ some a)
        × Pays (clock 0) user sql a
        × (row.status ≡ "used")
        × (db'.approvals ≡ save row db.approvals)
  unfolding approval_gate
  approval_gate_safe warnings db' v critical h = elim (Option-cases (given_token approval_token)) [
    | inl without ↦
        let e = ap (λ p. p.0) (rw (critical, without, approval_gate) at h) in absurd (ground arith)
    | inr (token, given) ↦
        let used : use_token clock user sql token db ≡ (goes_on warnings, db') =
          rw (critical, given, approval_gate) at h in
        elim (use_token-cases clock user sql token db) [
          | inl (row, db'', accepted, own, e) ↦
              let same : db'' ≡ db' = ap (λ p. p.1) (sym e ∙ used) in
              let (a, found, pays, spent', written) =
                Pays-of clock user sql token db row db' v (rw same at accepted) own in
              (token, a, row, given, found, pays, spent', written)
          | inr (inl (row, db'', accepted, foreign, e)) ↦
              let clash = ap (λ p. p.0) (sym e ∙ used) in absurd (ground arith)
          | inr (inr (e', e)) ↦ let clash = ap (λ p. p.0) (sym e ∙ used) in absurd (ground arith)
        ]
  ]

  -- Every run of the gate is a step of the approval workflow, or changes nothing.
  pub approval_gate-Reach :
      All (λ a. a.id ≢ id) db.approvals
      → Reach db (approval_gate clock id user source_id sql risk approval_token db).1
  unfolding approval_gate
  approval_gate-Reach fresh = elim (Bool-cases (risk.level == "CRITICAL")) [
    | inr other ↦ rw (other, approval_gate) here
    | inl critical ↦ elim (Option-cases (given_token approval_token)) [
      | inl without ↦
          rw (critical, without, approval_gate)
            (next here
              (created clock id user.tenant_id user source_id sql risk.score risk.level fresh refl))
      | inr (token, given) ↦
          rw (critical, given, approval_gate)
            (elim (use_token-cases clock user sql token db) [
              | inl (row, db', accepted, own, e) ↦
                  rw e (next here (consumed clock user.tenant_id sql token row accepted))
              | inr (inl (row, db', accepted, foreign, e)) ↦
                  rw e (next here (consumed clock user.tenant_id sql token row accepted))
              | inr (inr (e', e)) ↦ rw e here
            ])
    ]
  ]

-- An attempt with the token of somebody else's request is turned away with status 403, but the token
-- is consumed: afterwards the requester's own attempt fails, where keys and tokens are unique.
pub use_token_burns :
    (clock clock' : ℕ → ℕ) (thief owner : User) (sql sql' : Text) (token : String) (db db' : Db)
    (row : QueryApproval)
    → DistinctIds db.approvals
    → DistinctTokens db.approvals
    → owner.tenant_id ≡ thief.tenant_id
    → validate_approval_token clock thief.tenant_id sql token db ≡ ok (row, db')
    → row.requester_email ≢ sub thief
    → (use_token clock thief sql token db ≡ (
      stopped (
          http_error (record {
            status_code = 403;
            detail = "Only the original requester may execute this approved query.";
          })),
      db',
    ))
      × (use_token clock' owner sql' token db' ≡ (
        stopped (
            http_error
              (record { status_code = 403; detail = "Invalid or already-used approval token." })),
        db',
      ))
unfolding use_token
use_token_burns clock clock' thief owner sql sql' token db db' row ids tokens tenant accepted
      foreign =
    let once =
      validate_once clock clock' thief.tenant_id sql sql' token db db' row ids tokens accepted in
    (
      rw (accepted, use_token, eq_of_ne row.requester_email (sub thief) foreign) refl,
      rw (use_token, tenant, once) refl,
    )

-- The level that stops a query is that of a score of 80 or more.
level_from-critical : (n : ℕ) → (level_from thresholds n == "CRITICAL") ≡ leb 800 n
unfolding level_from
level_from-critical n = elim (Bool-cases (leb 800 n)) [
  | inl severe ↦ rw severe refl
  | inr h ↦ rw h (elim (Bool-cases (leb 500 n)) [
    | inl high ↦ rw high refl
    | inr m ↦ rw m (elim (Bool-cases (leb 200 n)) [
      | inl medium ↦ rw medium refl
      | inr low ↦ rw low (elim (Bool-cases (leb 0 n)) [ inl e ↦ rw e refl | inr e ↦ rw e refl ])
    ])
  ])
]

score_query-critical :
    (tie : ℕ → Bool) (meta : RewriteMeta) (decisions : Dict PolicyDecision) (row_count : ℕ)
    → let risk = score_query tie meta decisions row_count in
      (risk.level == "CRITICAL") ≡ leb 800 risk.score
unfolding score_query
score_query-critical tie meta decisions row_count = level_from-critical _

-- A request that waits for an admin, with all that the admin decides on.
pub record IsRequest (id source_id : ℕ) (user : User) (sql : Text) (risk : RiskScore)
    (a : QueryApproval) : Type 0 where
  pub key : a.id ≡ id
  pub pending : a.status ≡ "pending"
  pub own_tenant : a.tenant_id ≡ user.tenant_id
  pub own_request : a.requester_email ≡ sub user
  pub own_query : a.sql ≡ sql
  pub own_source : a.source_id ≡ source_id
  -- The column holds whole points; a score counts tenths.
  pub own_score : a.risk_score ≡ risk.score / 10
  pub own_level : a.risk_level ≡ "CRITICAL"
  pub without_token : a.approval_token ≡ none
  pub undecided : a.approver_email ≡ none

-- Without a token, a query whose score is below 80 goes on and changes nothing; any other is stopped,
-- and the one row that it adds is the user's pending request for this text and source, with the whole
-- points of the score.
pub approval_gate_stops :
    (clock : ℕ → ℕ) (id : ℕ) (user : User) (source_id : ℕ) (sql : Text) (tie : ℕ → Bool)
    (meta : RewriteMeta) (decisions : Dict PolicyDecision) (approval_token : Option String)
    (db : Db)
    → given_token approval_token ≡ none
    → let risk = score_query tie meta decisions 0 in
      let (passage, db') = approval_gate clock id user source_id sql risk approval_token db in
      ((risk.score < 800) × (passage ≡ goes_on []) × (db' ≡ db))
      ⊎ ((800 ≤ risk.score)
          × (passage ≡ stopped (approval_required risk id))
          × (a : QueryApproval) × (db' ≡ record db { approvals = db.approvals ++ a ∷ [] })
          × IsRequest id source_id user sql risk a)
unfolding approval_gate create_approval_request
approval_gate_stops clock id user source_id sql tie meta decisions approval_token db without =
    let risk = score_query tie meta decisions 0 in
    let level = score_query-critical tie meta decisions 0 in
    elim (Bool-cases (risk.level == "CRITICAL")) [
      | inr mild ↦ inl (rw (mild, approval_gate) (ground arith, refl, refl))
      | inl severe ↦
          let made =
            create_approval_request clock id user.tenant_id user source_id sql risk.score risk.level
              db in
          inr (
            rw (severe, without, approval_gate)
              (
                ground arith,
                refl,
                made.0,
                refl,
                record {
                  key = refl;
                  pending = refl;
                  own_tenant = refl;
                  own_request = refl;
                  own_query = refl;
                  own_source = refl;
                  own_score = refl;
                  own_level = ground (arith, eq_iff risk.level "CRITICAL");
                  without_token = refl;
                  undecided = refl;
                },
              ))
    ]
