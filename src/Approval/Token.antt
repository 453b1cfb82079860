-- ===== src/Approval/Token.antt =====
-- Approval tokens: one token pays for one execution, and an approved request can be executed.
-- About validate_approval_token of backend/app/api/approvals.py.
use metasight.Prelude.{
  All, Bool, Bool-cases, List, String, Text, [], arith, eq_iff, false, first, inl, inr, nat_eq,
  none, refl, some, string_eq, sym, text_eq, true, ℕ, ◌==◌, ◌∷◌, ◌≡◌, ◌≢◌,
}
use metasight.Http.{http, ok}
use metasight.Approval.{Db, QueryApproval, answers_token, save, validate_approval_token}
use metasight.Approval.Rows.{All-first, DistinctIds, save_absent}
use metasight.Approval.Effects.{answers_token-status, validate_effect}

-- The column approval_token is unique.

abbrev pub DistinctTokens : List QueryApproval → Type 0
DistinctTokens [] = Unit
DistinctTokens (a ∷ rows) =
    All (λ b. (t : String) → a.approval_token ≡ some t → b.approval_token ≢ some t) rows
    × DistinctTokens rows

module _ (tenant_id : ℕ) (token : String) where
  abbrev answers : QueryApproval → Bool
  answers = answers_token tenant_id token

  unanswered_of_used : (a : QueryApproval) → a.status ≡ "used" → answers a ≡ false
  unanswered_of_used a h = elim (Bool-cases (answers a)) [
    | inl answered ↦
        let (_, _, approved) = answers_token-status tenant_id token a answered in
        absurd (ground (arith, eq_iff "used" "approved"))
    | inr silent ↦ silent
  ]

  pub unanswered_of_token : (a : QueryApproval) → a.approval_token ≢ some token → answers a ≡ false
  unanswered_of_token a h = elim (Bool-cases (answers a)) [
    | inl answered ↦ absurd (h (answers_token-status tenant_id token a answered).1)
    | inr silent ↦ silent
  ]

  unanswered_of_All :
      (rows : List QueryApproval)
      → All (λ b. b.approval_token ≢ some token) rows
      → first answers rows ≡ none
  unanswered_of_All [] h = refl
  unanswered_of_All (a ∷ rows) h = rw (unanswered_of_token a h.0) (unanswered_of_All rows h.1)

  tokens_apart :
      (a : QueryApproval) (rows : List QueryApproval)
      → a.approval_token ≡ some token
      → All (λ b. (t : String) → a.approval_token ≡ some t → b.approval_token ≢ some t) rows
      → All (λ b. b.approval_token ≢ some token) rows
  tokens_apart a [] e h = tt
  tokens_apart a (b ∷ rows) e h = (h.0 token e, tokens_apart a rows e h.1)

  -- Once the row that answers has been written back as used, no row answers.
  spent :
      (row : QueryApproval) (rows : List QueryApproval) {old : QueryApproval}
      → DistinctIds rows
      → DistinctTokens rows
      → first answers rows ≡ some old
      → row.id ≡ old.id
      → row.status ≡ "used"
      → first answers (save row rows) ≡ none
  unfolding save
  spent row [] d t found key used = refl
  spent row (x ∷ rows) {old} d t found key used = elim (Bool-cases (answers x)) [
    | inl here ↦
        let is_x : x ≡ old = ground arith in
        let same_key : x.id ≡ row.id = rw is_x (sym key) in
        let hit : (x.id == row.id) ≡ true = ground arith in
        let kept : save row rows ≡ rows = save_absent row rows (rw (← same_key) d.0) in
        let has : x.approval_token ≡ some token = (answers_token-status tenant_id token x here).1 in
        rw (hit, kept, unanswered_of_used row used)
          (unanswered_of_All rows (tokens_apart x rows has t.0))
    | inr later ↦
        let found' : first answers rows ≡ some old = rw later at found in
        let apart : old.id ≢ x.id = All-first (λ b. b.id ≢ x.id) answers rows found' d.0 in
        let miss : (x.id == row.id) ≡ false = ground arith in
        rw (miss, later) (spent row rows d.1 t.1 found' key used)
  ]

-- A token is good for one execution: once it has been accepted for a query, at any later time and
-- for any query it is refused as already used, where keys and tokens are unique in the table.
pub validate_once :
    (clock clock' : ℕ → ℕ) (tenant_id : ℕ) (sql sql' : Text) (token : String) (db db' : Db)
    (row : QueryApproval)
    → DistinctIds db.approvals
    → DistinctTokens db.approvals
    → validate_approval_token clock tenant_id sql token db ≡ ok (row, db')
    → validate_approval_token clock' tenant_id sql' token db'
      ≡ http 403 "Invalid or already-used approval token."
unfolding validate_approval_token
validate_once clock clock' tenant_id sql sql' token db db' row ids tokens h =
    let (old, w, c) = validate_effect clock tenant_id sql token db h in
    let none_left =
      spent tenant_id token row db.approvals ids tokens w.found w.evolves.same_id c.used in
    let gone : first (answers_token tenant_id token) db'.approvals ≡ none =
      rw w.written none_left in
    rw (gone, validate_approval_token)
