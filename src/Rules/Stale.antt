-- ===== src/Rules/Stale.antt =====
-- What the engine answers after a rule was deleted: delete_policy of backend/app/api/policies.py
-- together with PolicyEngine.decide of backend/app/services/policy_engine.py.
use metasight.Prelude.{
  All, All-map, Bool, Bool-cases, List, Option, Option-cases, String, [], arith, false, first, inl,
  inr, nat_eq, none, refl, some, string_eq, text_eq, true, ℕ, ◌<>◌, ◌==◌, ◌∷◌, ◌≡◌,
}
use metasight.Http.{Result-cases, http, ok}
use metasight.Identity.{User, require_admin, role}
use metasight.Settings.{get_settings, masking_enabled}
use metasight.Policy.{PolicyDecision, PolicyRule, ok}
use metasight.Policy.Schedule.{Now}
use metasight.Policy.Cache.{Redis, get_cached_policy}
use metasight.Approval.Rows.{All-first}
use metasight.Policy.Decide.{PolicyDb, barred, best_rule, decide, find_table}
use metasight.Rules.Handlers.{delete_policy}
use metasight.Rules.{RuleDb, RuleJson, delete_rule, get_or_404, is_rule}
use metasight.Rules.Unique.{Apart, Unique}
use metasight.Policy.Decide.Caching.{decide_cached_rule}

module _ (policy_id tenant_id : ℕ) where
  first-is_rule-none :
      (rules : List PolicyRule)
      → All (λ q. (q.id == policy_id) ≡ false) rules
      → first (is_rule policy_id tenant_id) rules ≡ none
  first-is_rule-none [] h = refl
  first-is_rule-none (q ∷ rules) h = rw (h.0) (first-is_rule-none rules h.1)

  first-delete_rule :
      (rules : List PolicyRule) {r : PolicyRule}
      → Unique rules
      → first (is_rule policy_id tenant_id) rules ≡ some r
      → first (is_rule policy_id tenant_id) (delete_rule r.id rules) ≡ none
  unfolding delete_rule
  first-delete_rule [] u h = refl
  first-delete_rule (q ∷ rules) {r} u h = elim (Bool-cases (is_rule policy_id tenant_id q)) [
    | inl here ↦
        let e : q ≡ r = ground arith in
        let same : (q.id == r.id) ≡ true = rw e (ground arith) in
        rw same (first-is_rule-none rules (All-map (λ x a. ground arith) rules u.0))
    | inr later ↦
        let found = rw later at h in
        let a = All-first (Apart q) (is_rule policy_id tenant_id) rules found u.0 in
        let apart : (q.id == r.id) ≡ false = ground arith in
        rw (apart, later) (first-delete_rule rules {r = r} u.1 found)
  ]

module _ (redis : Redis) (ilike : String → String → Bool) (json : RuleJson) (clock : ℕ → ℕ)
    (policy_id : ℕ) (admin : User) where
  open redis use {Store}

  delete_policy-ok :
      (db : RuleDb Store)
      → (delete_policy redis json clock policy_id admin db).0 ≡ ok tt
      → let db' = (delete_policy redis json clock policy_id admin db).1 in
        (r : PolicyRule) × (first (is_rule policy_id admin.tenant_id) db.rules ≡ some r)
        × (db'.rules ≡ delete_rule r.id db.rules)
        × (db'.cache ≡ db.cache)
  unfolding delete_policy get_or_404
  delete_policy-ok db h = elim (Result-cases (require_admin admin)) [
    | inr (e, refused) ↦ absurd (ground arith)
    | inl (a, allowed) ↦ elim (Option-cases (first (is_rule policy_id admin.tenant_id) db.rules)) [
      | inl absent ↦ absurd (ground arith)
      | inr (r, present) ↦ rw (allowed, present, delete_policy) (r, refl, refl, refl)
    ]
  ]

  -- A rule that was deleted cannot be found any more, but what was decided from it is still served: while
  -- masking is switched on, a decision that is cached for a resource is the engine's answer after the
  -- deletion too, if a rule without row filters is left that applies to the resource.
  pub deleted_policy_served :
      (now : Now) (pdb : PolicyDb) (db : RuleDb Store) (user : User) (resource source_type : String)
      (source_id : Option ℕ) (rule : PolicyRule) (d : PolicyDecision)
      → Unique db.rules
      → (delete_policy redis json clock policy_id admin db).0 ≡ ok tt
      → let db' = (delete_policy redis json clock policy_id admin db).1 in
        let left = record pdb { rules = db'.rules } in
        masking_enabled (get_settings user.tenant_id pdb.system_settings) ≡ true
        → best_rule ilike left user.tenant_id resource ≡ some rule
        → rule.row_filters ≡ []
        → barred user (find_table pdb user.tenant_id resource source_id) ≡ false
        → get_cached_policy redis user.tenant_id (resource <> "::no_rf") (role user) db.cache
          ≡ some d
        → (get_or_404 policy_id admin.tenant_id db'.rules ≡ http 404 "Policy not found")
          × (decide redis ilike now left user.tenant_id resource user source_type source_id
                db'.cache
              ≡ (ok d, db'.cache))
  unfolding get_or_404 find_table
  deleted_policy_served now pdb db user resource source_type source_id rule d u h on chosen
        unfiltered open' cached =
      let (r, present, rules, cache) = delete_policy-ok db h in
      let db' = (delete_policy redis json clock policy_id admin db).1 in
      let gone : first (is_rule policy_id admin.tenant_id) db'.rules ≡ none =
        rw rules (first-delete_rule policy_id admin.tenant_id db.rules {r = r} u present) in
      (
        rw (gone, get_or_404) refl,
        decide_cached_rule redis ilike now (record pdb { rules = db'.rules }) user.tenant_id
            resource user source_type d db'.cache source_id rule on chosen unfiltered open'
            (rw cache cached),
      )
