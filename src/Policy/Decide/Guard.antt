-- ===== src/Policy/Decide/Guard.antt =====
-- When the engine lets a user in at all.
-- About PolicyEngine.decide of backend/app/services/policy_engine.py.
use metasight.Prelude.{
  Bool, Bool-cases, List, Option, Option-cases, String, [], ap, arith, eq_iff, eq_of_ne, false, inl,
  inr, nat_eq, none, not, refl, some, string_eq, text_eq, true, ℕ, ◌&&◌, ◌==◌, ◌∷◌, ◌≡◌, ◌≢◌, ◌⊎◌,
}
use metasight.Identity.{User, role}
use metasight.Settings.{get_settings, masking_enabled}
use metasight.Policy.{ColumnEntity, PolicyDecision, PolicyRule, Table, ok}
use metasight.Policy.Schedule.{Now}
use metasight.Policy.Cache.{Redis}
use metasight.Policy.Decide.{
  PolicyDb, barred, best_rule, columns_of, decide, find_table, fixed_decision, same_department,
}

-- What an access can rest on: an admin while masking is switched off, a rule, a scan of the
-- resource, or the configured permission for resources that nobody has classified.

pub data Basis (ilike : String → String → Bool) (db : PolicyDb) (tenant_id : ℕ) (resource : String)
    (user : User) (source_id : Option ℕ) : Type 0 where
  unmasked_admin :
      role user ≡ "admin"
      → masking_enabled (get_settings tenant_id db.system_settings) ≡ false
      → Basis ilike db tenant_id resource user source_id
  by_rule :
      (rule : PolicyRule)
      → best_rule ilike db tenant_id resource ≡ some rule
      → Basis ilike db tenant_id resource user source_id
  by_scan :
      columns_of db tenant_id (find_table db tenant_id resource source_id) ≢ []
      → Basis ilike db tenant_id resource user source_id
  by_default :
      db.default_unclassified_policy ≡ "allow" → Basis ilike db tenant_id resource user source_id

empty_or : (cols : List ColumnEntity) → (cols ≡ []) ⊎ (cols ≢ [])
empty_or [] = inl refl
empty_or (c ∷ cols) = inr (λ e. cc)

barred_of :
    (user : User) (t : Table) (d : ℕ)
    → t.department_id ≡ some d
    → d ≢ 0
    → user.department_id ≢ some d
    → role user ≢ "superadmin"
    → barred user (some t) ≡ true
unfolding barred same_department
barred_of user t d own real other_department not_super =
    let e = eq_of_ne (role user) "superadmin" not_super in
    elim (Option-cases user.department_id) [
      | inl none_at_all ↦ rw (e, own) (ground arith)
      | inr (u, theirs) ↦ rw (e, own) (ground arith)
    ]

module _ (redis : Redis) (ilike : String → String → Bool) where
  open redis use {Store}

  module _ (now : Now) (db : PolicyDb) (tenant_id : ℕ) (resource : String) (user : User)
      (source_type : String) (source_id : Option ℕ) (s : Store) where
    -- A user who belongs to another department than the table, or to none, is refused whatever the
    -- rules, the settings and the cache say, unless they are a superadmin, and nothing is cached.
    pub decide_barred :
        (t : Table) (d : ℕ)
        → find_table db tenant_id resource source_id ≡ some t
        → t.department_id ≡ some d
        → d ≢ 0
        → user.department_id ≢ some d
        → role user ≢ "superadmin"
        → (decision : PolicyDecision) × (decide redis ilike now db tenant_id resource user
              source_type source_id s
            ≡ (ok decision, s))
          × (decision.allowed ≡ false)
          × (decision.known_columns ≡ [])
    unfolding decide
    decide_barred t d found own real other_department not_super =
        let shut : barred user (find_table db tenant_id resource source_id) ≡ true =
          rw found (barred_of user t d own real other_department not_super) in
        (
          fixed_decision resource false "INTERNAL" false source_type false [] [],
          rw (shut, decide) refl,
          refl,
          refl,
        )

    -- Whoever is allowed is not barred by a department, and the permission has a basis: a rule that
    -- applies, scanned columns of the table, the role of an admin while masking is switched off, or a
    -- configuration that says `allow` for what is unclassified.
    pub decide_allowed :
        (d : PolicyDecision) (s' : Store)
        → decide redis ilike now db tenant_id resource user source_type source_id s ≡ (ok d, s')
        → d.allowed ≡ true
        → (barred user (find_table db tenant_id resource source_id) ≡ false)
          × Basis ilike db tenant_id resource user source_id
    unfolding decide
    decide_allowed d s' h yes' =
        let table = find_table db tenant_id resource source_id in
        elim (Bool-cases (barred user table)) [
          | inl shut ↦ let e = ap (λ p. p.0) (rw (shut, decide) at h) in absurd (ground arith)
          | inr open' ↦ (
            open',
            basis open' (Option-cases (best_rule ilike db tenant_id resource))
                (empty_or (columns_of db tenant_id table)) (Bool-cases off),
          )
        ]
      where
        off : Bool
        off =
            not (masking_enabled (get_settings tenant_id db.system_settings))
            && role user == "admin"

        basis :
            barred user (find_table db tenant_id resource source_id) ≡ false
            → (best_rule ilike db tenant_id resource ≡ none)
              ⊎ ((r : PolicyRule) × (best_rule ilike db tenant_id resource ≡ some r))
            → (columns_of db tenant_id (find_table db tenant_id resource source_id) ≡ [])
              ⊎ (columns_of db tenant_id (find_table db tenant_id resource source_id) ≢ [])
            → (off ≡ true) ⊎ (off ≡ false)
            → Basis ilike db tenant_id resource user source_id
        basis open' (inr (r, chosen)) cols admin = by_rule r chosen
        basis open' (inl no_rule) (inr scanned) admin = by_scan scanned
        basis open' (inl no_rule) (inl unscanned) (inl admin) =
            unmasked_admin (ground (arith, eq_iff (role user) "admin")) (ground arith)
        basis open' (inl no_rule) (inl unscanned) (inr no_admin) =
            let e = rw (open', no_admin, no_rule, unscanned, decide) at h in
            by_default
              (ground (arith, ap (λ p. p.0) e, eq_iff db.default_unclassified_policy "allow"))
