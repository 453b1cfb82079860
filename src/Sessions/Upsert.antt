-- ===== src/Sessions/Upsert.antt =====
-- What an upsert of a session does to the table.
-- About upsert_session_recording of backend/app/services/governance_audit.py.
use metasight.Prelude.{
  Bool, Bool-cases, List, Option-cases, String, [], ap, arith, eq_iff, false, first, first_sound,
  if◌then◌else◌, inl, inr, length, length-append, none, refl, some, sym, true, ℕ, ◌++◌, ◌+◌, ◌∙◌,
  ◌∷◌, ◌≡◌,
}
use metasight.Sessions.{
  SessionRecording, SessionUpdate, fill_session, is_session, new_session, put_session,
  upsert_session_recording,
}

is_session_sound :
    (t : ℕ) (k : String) (r : SessionRecording)
    → is_session t k r ≡ true
    → (r.tenant_id ≡ t) × (r.session_id ≡ k)
unfolding is_session
is_session_sound t k r h = ground (arith, eq_iff r.session_id k)

is_session_complete :
    (t : ℕ) (k : String) (r : SessionRecording)
    → r.tenant_id ≡ t
    → r.session_id ≡ k
    → is_session t k r ≡ true
unfolding is_session
is_session_complete t k r h i = ground (arith, eq_iff r.session_id k)

-- A row of one session is not a row of another.
is_session_apart :
    (t t' : ℕ) (k k' : String) (r : SessionRecording)
    → is_session t k r ≡ true
    → ¬ ((t ≡ t') × (k ≡ k'))
    → is_session t' k' r ≡ false
is_session_apart t t' k k' r h apart = elim (Bool-cases (is_session t' k' r)) [
  | inr no' ↦ no'
  | inl yes' ↦
      let (a, b) = is_session_sound t k r h in
      let (a', b') = is_session_sound t' k' r yes' in absurd (apart (sym a ∙ a', sym b ∙ b'))
]

module _ (t : ℕ) (k : String) (new : SessionRecording) (own : is_session t k new ≡ true) where
  put_session-own :
      (rows : List SessionRecording) {old : SessionRecording}
      → first (is_session t k) rows ≡ some old
      → first (is_session t k) (put_session t k new rows) ≡ some new
  unfolding put_session
  put_session-own [] h = absurd (ground arith)
  put_session-own (r ∷ rows) {old} h = elim (Bool-cases (is_session t k r)) [
    | inl here ↦ rw (here, put_session, own) refl
    | inr later ↦
        let h' : first (is_session t k) rows ≡ some old = rw later at h in
        rw (later, put_session) (rw later (put_session-own rows h'))
  ]

  put_session-other :
      (t' : ℕ) (k' : String) (rows : List SessionRecording)
      → ¬ ((t ≡ t') × (k ≡ k'))
      → first (is_session t' k') (put_session t k new rows) ≡ first (is_session t' k') rows
  unfolding put_session
  put_session-other t' k' [] apart = refl
  put_session-other t' k' (r ∷ rows) apart = elim (Bool-cases (is_session t k r)) [
    | inl here ↦
        rw
          (
            here,
            put_session,
            is_session_apart t t' k k' new own apart,
            is_session_apart t t' k k' r here apart,
          )
          refl
    | inr later ↦
        rw (later, put_session)
          (ap (λ o. if is_session t' k' r then some r else o) (put_session-other t' k' rows apart))
  ]

  length-put_session :
      (rows : List SessionRecording) → length (put_session t k new rows) ≡ length rows
  unfolding put_session
  length-put_session [] = refl
  length-put_session (r ∷ rows) = ground (arith, length-put_session rows)

first-concat :
    (p : SessionRecording → Bool) (rows : List SessionRecording) (r : SessionRecording)
    → first p (rows ++ r ∷ [])
      ≡ (elim (first p rows) [ none ↦ (if p r then some r else none) | some x ↦ some x ])
first-concat p [] r = ground arith
first-concat p (x ∷ rows) r = elim (Bool-cases (p x)) [
  | inl here ↦ rw here refl
  | inr later ↦ rw later (first-concat p rows r)
]

first-concat-miss :
    (p : SessionRecording → Bool) (rows : List SessionRecording) (r : SessionRecording)
    → p r ≡ false
    → first p (rows ++ r ∷ []) ≡ first p rows
first-concat-miss p [] r h = rw h refl
first-concat-miss p (x ∷ rows) r h =
    ap (λ o. if p x then some x else o) (first-concat-miss p rows r h)

-- What a row that was there keeps.
keeps_start :
    (now : ℕ) (u : SessionUpdate) (old : SessionRecording) (start : ℕ)
    → u.started_at ≡ none
    → old.started_at ≡ some start
    → (fill_session now u old).started_at ≡ some start
unfolding fill_session
keeps_start now u old start h i = rw (h, i) refl

-- After an upsert the row of the session is the one returned, and the rows of other sessions are as
-- they were. A row that was there keeps its user and its start, unless a start is given, and none is
-- added; otherwise one row is added.
pub upsert_session_recording_lem :
    (now t : ℕ) (k : String) (u : SessionUpdate) (rows : List SessionRecording)
    → let (r, rows') = upsert_session_recording now t k u rows in
      (first (is_session t k) rows' ≡ some r)
      × ((t' : ℕ) (k' : String)
          → ¬ ((t ≡ t') × (k ≡ k'))
          → first (is_session t' k') rows' ≡ first (is_session t' k') rows)
      × ((old : SessionRecording)
          → first (is_session t k) rows ≡ some old
          → (length rows' ≡ length rows)
            × (r.user_email ≡ old.user_email)
            × (r.role ≡ old.role)
            × ((start : ℕ)
                → u.started_at ≡ none
                → old.started_at ≡ some start
                → r.started_at ≡ some start))
      × (first (is_session t k) rows ≡ none → length rows' ≡ length rows + 1)
unfolding upsert_session_recording fill_session new_session
upsert_session_recording_lem now t k u rows = elim (Option-cases (first (is_session t k) rows)) [
  | inl missing ↦
      let r = fill_session now u (new_session t k u) in
      let own : is_session t k r ≡ true = is_session_complete t k r refl refl in
      rw (missing, upsert_session_recording)
        (
          rw (first-concat (is_session t k) rows r, missing, own) refl,
          λ t' k' apart.
              first-concat-miss (is_session t' k') rows r (is_session_apart t t' k k' r own apart),
          λ old h. absurd (ground arith),
          λ h. length-append rows (r ∷ []),
        )
  | inr (old, found) ↦
      let r = fill_session now u old in
      let (tenant, session) = is_session_sound t k old (first_sound (is_session t k) rows found) in
      let own : is_session t k r ≡ true = is_session_complete t k r tenant session in
      rw (found, upsert_session_recording)
        (
          put_session-own t k r own rows found,
          λ t' k' apart. put_session-other t k r own t' k' rows apart,
          λ old' h.
              let e : old ≡ old' = ground arith in
              rw (← e) (length-put_session t k r own rows, refl, refl, keeps_start now u old),
          λ h. absurd (ground arith),
        )
]
