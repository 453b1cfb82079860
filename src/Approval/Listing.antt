-- ===== src/Approval/Listing.antt =====
-- What the two listings of backend/app/api/approvals.py show, and to whom.
use metasight.Prelude.{
  All, Bool, Bool-cases, List, [], ap, arith, eq_iff, inl, inr, keep, length, length-take-le, ltb,
  map, nat_eq, none, refl, string_eq, suc, take, text_eq, true, zero, ℕ, ◌&&◌, ◌==◌, ◌∷◌, ◌≡◌, ◌≢◌,
  ◌≤◌,
}
use metasight.Identity.{User, sub}
use metasight.Approval.{
  ApprovalResponse, Db, QueryApproval, insert_desc, list_my_approvals, newest_first, to_response,
}

-- Descending times of creation.

abbrev pub IsNewestFirst : List ApprovalResponse → Type 0
IsNewestFirst [] = Unit
IsNewestFirst (a ∷ rows) = All (λ b. b.created_at ≤ a.created_at) rows × IsNewestFirst rows

abbrev IsDescending : List QueryApproval → Type 0
IsDescending [] = Unit
IsDescending (a ∷ rows) = All (λ b. b.created_at ≤ a.created_at) rows × IsDescending rows

module _ (P : QueryApproval → Type 0) where
  insert_desc-All :
      (a : QueryApproval) (rows : List QueryApproval)
      → P a
      → All P rows
      → All P (insert_desc a rows)
  unfolding insert_desc
  insert_desc-All a [] h hs = (h, tt)
  insert_desc-All a (b ∷ rows) h hs = elim (Bool-cases (ltb a.created_at b.created_at)) [
    | inl lt ↦ rw lt (hs.0, insert_desc-All a rows h hs.1)
    | inr ge ↦ rw ge (h, hs)
  ]

  newest_first-All : (rows : List QueryApproval) → All P rows → All P (newest_first rows)
  unfolding newest_first
  newest_first-All [] h = tt
  newest_first-All (a ∷ rows) h =
      insert_desc-All a (newest_first rows) h.0 (newest_first-All rows h.1)

  take-All : (n : ℕ) (rows : List QueryApproval) → All P rows → All P (take n rows)
  take-All zero rows h = tt
  take-All (suc n) [] h = tt
  take-All (suc n) (a ∷ rows) h = (h.0, take-All n rows h.1)

keep-All :
    (p : QueryApproval → Bool) (rows : List QueryApproval) → All (λ a. p a ≡ true) (keep p rows)
keep-All p [] = tt
keep-All p (a ∷ rows) = elim (Bool-cases (p a)) [
  | inl h ↦ rw h (h, keep-All p rows)
  | inr h ↦ rw h (keep-All p rows)
]

All-weaken :
    (a b : ℕ) (rows : List QueryApproval)
    → a ≤ b
    → All (λ c. c.created_at ≤ a) rows
    → All (λ c. c.created_at ≤ b) rows
All-weaken a b [] h hs = tt
All-weaken a b (c ∷ rows) h hs = (omega arith, All-weaken a b rows h hs.1)

insert_desc-IsDescending :
    (a : QueryApproval) (rows : List QueryApproval)
    → IsDescending rows
    → IsDescending (insert_desc a rows)
unfolding insert_desc
insert_desc-IsDescending a [] d = (tt, tt)
insert_desc-IsDescending a (b ∷ rows) d = elim (Bool-cases (ltb a.created_at b.created_at)) [
  | inl lt ↦ rw lt (
    insert_desc-All (λ c. c.created_at ≤ b.created_at) a rows (ground arith) d.0,
    insert_desc-IsDescending a rows d.1,
  )
  | inr ge ↦
      let le : b.created_at ≤ a.created_at = ground arith in
      rw ge ((le, All-weaken b.created_at a.created_at rows le d.0), d)
]

newest_first-IsDescending : (rows : List QueryApproval) → IsDescending (newest_first rows)
unfolding newest_first
newest_first-IsDescending [] = tt
newest_first-IsDescending (a ∷ rows) =
    insert_desc-IsDescending a (newest_first rows) (newest_first-IsDescending rows)

take-IsDescending :
    (n : ℕ) (rows : List QueryApproval) → IsDescending rows → IsDescending (take n rows)
take-IsDescending zero rows d = tt
take-IsDescending (suc n) [] d = tt
take-IsDescending (suc n) (a ∷ rows) d =
    (take-All (λ b. b.created_at ≤ a.created_at) n rows d.0, take-IsDescending n rows d.1)

module _ (visible : QueryApproval → Bool) where
  abbrev shown : QueryApproval → ApprovalResponse
  shown a = to_response a (visible a)

  shown-All :
      (t : ℕ) (rows : List QueryApproval)
      → All (λ b. b.created_at ≤ t) rows
      → All (λ r. r.created_at ≤ t) (map shown rows)
  unfolding to_response
  shown-All t [] h = tt
  shown-All t (b ∷ rows) h = (h.0, shown-All t rows h.1)

  shown-IsNewestFirst :
      (rows : List QueryApproval) → IsDescending rows → IsNewestFirst (map shown rows)
  unfolding to_response
  shown-IsNewestFirst [] d = tt
  shown-IsNewestFirst (a ∷ rows) d = (shown-All a.created_at rows d.0, shown-IsNewestFirst rows d.1)

length-map :
    (f : QueryApproval → ApprovalResponse) (rows : List QueryApproval)
    → length (map f rows) ≡ length rows
length-map f [] = refl
length-map f (a ∷ rows) = ap suc (length-map f rows)

-- A requester's view of one of their requests.
abbrev pub IsOwn : User → ApprovalResponse → Type 0
IsOwn user r = (r.requester_email ≡ sub user) × (r.status ≢ "approved" → r.approval_token ≡ none)

IsOwn-rows :
    (user : User) (rows : List QueryApproval)
    → All (λ a. (a.tenant_id == user.tenant_id && a.requester_email == sub user) ≡ true) rows
    → All (IsOwn user) (map (λ a. to_response a (a.status == "approved")) rows)
unfolding to_response
IsOwn-rows user [] h = tt
IsOwn-rows user (a ∷ rows) h = (
  (
    ground (arith, eq_iff a.requester_email (sub user)),
    λ n. ground (arith, eq_iff a.status "approved"),
  ),
  IsOwn-rows user rows h.1,
)

-- A user's own listing shows only requests made under their address, at most 100 of them, newest
-- first, and a token only where the request stands approved.
pub list_my_approvals_lem :
    (user : User) (db : Db)
    → All (IsOwn user) (list_my_approvals user db)
      × (length (list_my_approvals user db) ≤ 100)
      × IsNewestFirst (list_my_approvals user db)
unfolding list_my_approvals
list_my_approvals_lem user db =
    let mine : QueryApproval → Bool =
      λ a. a.tenant_id == user.tenant_id && a.requester_email == sub user in
    let rows = newest_first (keep mine db.approvals) in
    (
      IsOwn-rows user (take 100 rows)
          (take-All _ 100 rows (newest_first-All _ _ (keep-All mine db.approvals))),
      omega (
        arith,
        length-map (λ a. to_response a (a.status == "approved")) (take 100 rows),
        length-take-le {0} 100 rows,
      ),
      shown-IsNewestFirst (λ a. a.status == "approved") (take 100 rows)
          (take-IsDescending 100 rows (newest_first-IsDescending _)),
    )
