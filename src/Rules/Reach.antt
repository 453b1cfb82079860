-- ===== src/Rules/Reach.antt =====
-- Every sequence of calls of create_policy, update_policy and delete_policy of
-- backend/app/api/policies.py, by any users and at any times.
use metasight.Prelude.{
  All, All-map, Option-cases, ap, false, first, inl, inr, nat_eq, string_eq, text_eq, ℕ, ◌==◌, ◌≡◌,
}
use metasight.Http.{Result-cases}
use metasight.Identity.{User, require_admin}
use metasight.Policy.Cache.{Redis}
use metasight.Rules.Handlers.{create_policy, delete_policy, update_policy}
use metasight.Rules.{
  RuleCreate, RuleDb, RuleJson, RuleUpdate, get_or_404, is_for, is_rule, updated_rule,
}
use metasight.Rules.Unique.{
  Unique, append-Unique, delete_rule-Unique, first-none, same_row, save_rule-Unique,
}

module _ (redis : Redis) (json : RuleJson) where
  open redis use {Store}

  -- A new rule gets a primary key that no row has.
  pub data Step (db db' : RuleDb Store) : Type 0 where
    created :
        (clock : ℕ → ℕ) (new_id : ℕ) (payload : RuleCreate) (user : User)
        → All (λ q. (q.id == new_id) ≡ false) db.rules
        → (create_policy redis json clock new_id payload user db).1 ≡ db'
        → Step db db'
    updated :
        (clock : ℕ → ℕ) (policy_id : ℕ) (payload : RuleUpdate) (user : User)
        → (update_policy redis json clock policy_id payload user db).1 ≡ db'
        → Step db db'
    deleted :
        (clock : ℕ → ℕ) (policy_id : ℕ) (user : User)
        → (delete_policy redis json clock policy_id user db).1 ≡ db'
        → Step db db'

  pub data Reach (db : RuleDb Store) : RuleDb Store → Type 0 where
    here : Reach db db
    next : {mid db' : RuleDb Store} → Reach db mid → Step mid db' → Reach db db'

  module _ (clock : ℕ → ℕ) (user : User) (db : RuleDb Store) where
    create_policy-Unique :
        (new_id : ℕ) (payload : RuleCreate)
        → All (λ q. (q.id == new_id) ≡ false) db.rules
        → Unique db.rules
        → Unique (create_policy redis json clock new_id payload user db).1.rules
    unfolding create_policy
    create_policy-Unique new_id payload fresh u = elim (Result-cases (require_admin user)) [
      | inl (admin, allowed) ↦
          elim (Option-cases (first (is_for payload.resource user.tenant_id) db.rules)) [
            | inl absent ↦
                rw (allowed, absent, create_policy)
                  (append-Unique _ db.rules fresh (first-none _ db.rules absent) u)
            | inr (r, present) ↦ rw (allowed, present, create_policy) u
          ]
      | inr (e, refused) ↦ rw (refused, create_policy) u
    ]

    update_policy-Unique :
        (policy_id : ℕ) (payload : RuleUpdate)
        → Unique db.rules
        → Unique (update_policy redis json clock policy_id payload user db).1.rules
    unfolding update_policy get_or_404 updated_rule
    update_policy-Unique policy_id payload u = elim (Result-cases (require_admin user)) [
      | inl (admin, allowed) ↦
          elim (Option-cases (first (is_rule policy_id user.tenant_id) db.rules)) [
            | inl absent ↦ rw (allowed, absent, update_policy) u
            | inr (r, present) ↦
                rw (allowed, present, update_policy)
                  (save_rule-Unique (updated_rule payload r) db.rules
                    (All-map
                      (λ q k same.
                        let e = k same in
                        (ap (λ x. x.id) e, ap (λ x. x.resource) e, ap (λ x. x.tenant_id) e))
                      db.rules
                      (same_row (is_rule policy_id user.tenant_id) db.rules {old = r} u present))
                    u)
          ]
      | inr (e, refused) ↦ rw (refused, update_policy) u
    ]

    delete_policy-Unique :
        (policy_id : ℕ)
        → Unique db.rules
        → Unique (delete_policy redis json clock policy_id user db).1.rules
    unfolding delete_policy get_or_404
    delete_policy-Unique policy_id u = elim (Result-cases (require_admin user)) [
      | inl (admin, allowed) ↦
          elim (Option-cases (first (is_rule policy_id user.tenant_id) db.rules)) [
            | inl absent ↦ rw (allowed, absent, delete_policy) u
            | inr (r, present) ↦
                rw (allowed, present, delete_policy) (delete_rule-Unique r.id db.rules u)
          ]
      | inr (e, refused) ↦ rw (refused, delete_policy) u
    ]

  Step-Unique : (db db' : RuleDb Store) → Step db db' → Unique db.rules → Unique db'.rules
  Step-Unique db db' (created clock new_id payload user fresh e) u =
      rw (← e) (create_policy-Unique clock user db new_id payload fresh u)
  Step-Unique db db' (updated clock policy_id payload user e) u =
      rw (← e) (update_policy-Unique clock user db policy_id payload u)
  Step-Unique db db' (deleted clock policy_id user e) u =
      rw (← e) (delete_policy-Unique clock user db policy_id u)

  -- After any sequence of calls that create, update or delete rules, refused calls included, no two
  -- rules share their primary key, or their resource and their tenant, if none did before.
  pub Reach-Unique : (db db' : RuleDb Store) → Unique db.rules → Reach db db' → Unique db'.rules
  Reach-Unique db _ u here = u
  Reach-Unique db db' u (next {mid} earlier step) =
      Step-Unique mid db' step (Reach-Unique db mid u earlier)
