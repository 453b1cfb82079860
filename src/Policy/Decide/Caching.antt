-- ===== src/Policy/Decide/Caching.antt =====
-- What a cached decision answers for.
-- About PolicyEngine.decide of backend/app/services/policy_engine.py.
use metasight.Prelude.{
  Bool, List, Option, String, [], ap, arith, false, inl, inr, none, refl, some, sym, true, ℕ, ◌<>◌,
  ◌∙◌, ◌∷◌, ◌≡◌, ◌≢◌, ◌⊎◌,
}
use metasight.Identity.{User, role}
use metasight.Settings.{get_settings, masking_enabled}
use metasight.Policy.{
  ColumnEntity, Outcome, Outcome-cases, PolicyDecision, PolicyRule, ok, permission_error,
}
use metasight.Policy.Schedule.{Now}
use metasight.Policy.Rule.{from_rule, is_empty}
use metasight.Policy.Auto.{auto_policy}
use metasight.Policy.Cache.{Redis, cache_key, get_cached_policy, policy_ttl, set_cached_policy}
use metasight.Policy.Decide.{
  PolicyDb, barred, best_rule, columns_of, decide, decide_by_rule, decide_by_scan, find_table,
  names_of, pii_map_from,
}

is_empty-false : {A : Type 0} (xs : List A) → xs ≢ [] → is_empty xs ≡ false
is_empty-false [] h = absurd (h refl)
is_empty-false (x ∷ xs) h = refl

module _ (redis : Redis) (ilike : String → String → Bool) where
  open redis use {Store}

  module _ (now : Now) (db : PolicyDb) (tenant_id : ℕ) (resource : String) (user : User)
      (source_type : String) (d : PolicyDecision) (s : Store) where
    decide_cached_scan :
        (source_id : Option ℕ)
        → masking_enabled (get_settings tenant_id db.system_settings) ≡ true
        → best_rule ilike db tenant_id resource ≡ none
        → barred user (find_table db tenant_id resource source_id) ≡ false
        → columns_of db tenant_id (find_table db tenant_id resource source_id) ≢ []
        → get_cached_policy redis tenant_id resource (role user) s ≡ some d
        → decide redis ilike now db tenant_id resource user source_type source_id s ≡ (ok d, s)
    unfolding decide decide_by_scan
    decide_cached_scan source_id on no_rule open' scanned cached =
        let some_cols =
          is_empty-false (columns_of db tenant_id (find_table db tenant_id resource source_id))
            scanned in
        rw (open', on, no_rule, some_cols, cached, decide, decide_by_scan) refl

    pub decide_cached_rule :
        (source_id : Option ℕ) (rule : PolicyRule)
        → masking_enabled (get_settings tenant_id db.system_settings) ≡ true
        → best_rule ilike db tenant_id resource ≡ some rule
        → rule.row_filters ≡ []
        → barred user (find_table db tenant_id resource source_id) ≡ false
        → get_cached_policy redis tenant_id (resource <> "::no_rf") (role user) s ≡ some d
        → decide redis ilike now db tenant_id resource user source_type source_id s ≡ (ok d, s)
    unfolding decide decide_by_rule
    decide_cached_rule source_id rule on chosen unfiltered open' cached =
        rw (open', on, chosen, unfiltered, cached, decide, decide_by_rule) refl

    -- What is read after a write is the value written, where nothing was there before.
    written_now :
        (key : String) (v : PolicyDecision)
        → redis.get s key ≡ none
        → redis.get (redis.setex s key policy_ttl v) key ≡ some d
        → d ≡ v
    written_now key v before after = elim (redis.get-setex s key key policy_ttl v d after) [
      | inl (_, e) ↦ e
      | inr still ↦ absurd (ground arith)
    ]

  module _ (now now' : Now) (db : PolicyDb) (tenant_id : ℕ) (resource : String) (user : User)
      (source_type : String) (d : PolicyDecision) (s : Store)
      (on : masking_enabled (get_settings tenant_id db.system_settings) ≡ true) where
    -- While masking is switched on and no rule applies, the decision made from the scan of a table
    -- in one source is, as long as it is cached, the answer for the table of the same name in any
    -- other source that was scanned: the source is no part of the key.
    pub decide_any_source :
        (a b : Option ℕ)
        → best_rule ilike db tenant_id resource ≡ none
        → barred user (find_table db tenant_id resource a) ≡ false
        → columns_of db tenant_id (find_table db tenant_id resource a) ≢ []
        → barred user (find_table db tenant_id resource b) ≡ false
        → columns_of db tenant_id (find_table db tenant_id resource b) ≢ []
        → get_cached_policy redis tenant_id resource (role user) s ≡ none
        → let (answer, s') = decide redis ilike now db tenant_id resource user source_type a s in
          get_cached_policy redis tenant_id resource (role user) s' ≡ some d
          → (answer ≡ ok d)
            × (decide redis ilike now' db tenant_id resource user source_type b s' ≡ (ok d, s'))
    unfolding decide decide_by_scan get_cached_policy set_cached_policy
    decide_any_source a b no_rule open_a scanned_a open_b scanned_b missing cached =
        let cols = columns_of db tenant_id (find_table db tenant_id resource a) in
        let v =
          auto_policy cols (role user) (names_of cols) (pii_map_from [] cols) source_type
            resource in
        let key = cache_key tenant_id resource (role user) in
        let some_cols = is_empty-false cols scanned_a in
        let fresh : decide redis ilike now db tenant_id resource user source_type a s
            ≡ (ok v, redis.setex s key policy_ttl v) =
          rw (open_a, on, no_rule, some_cols, missing, decide, decide_by_scan) refl in
        let e : d ≡ v =
          written_now now db tenant_id resource user source_type d s key v missing
            (rw fresh at cached) in
        (
          ap (λ p. p.0) fresh ∙ ap ok (sym e),
          decide_cached_scan now' db tenant_id resource user source_type d _ b on no_rule open_b
              scanned_b cached,
        )

    -- While masking is switched on, the decision made from a rule without row filters is, as long as it
    -- is cached, given at any later time, also when the rule's schedule refuses then.
    pub decide_any_time :
        (source_id : Option ℕ) (rule : PolicyRule)
        → best_rule ilike db tenant_id resource ≡ some rule
        → rule.row_filters ≡ []
        → barred user (find_table db tenant_id resource source_id) ≡ false
        → get_cached_policy redis tenant_id (resource <> "::no_rf") (role user) s ≡ none
        → let (answer, s') =
            decide redis ilike now db tenant_id resource user source_type source_id s in
          get_cached_policy redis tenant_id (resource <> "::no_rf") (role user) s' ≡ some d
          → (answer ≡ ok d)
            × (decide redis ilike now' db tenant_id resource user source_type source_id s'
                ≡ (ok d, s'))
    unfolding decide decide_by_rule get_cached_policy set_cached_policy
    decide_any_time source_id rule chosen unfiltered open' missing cached = (
      made (Outcome-cases fresh),
      decide_cached_rule now' db tenant_id resource user source_type d _ source_id rule on chosen
          unfiltered open' cached,
    )
      where
        cols : List ColumnEntity
        cols = columns_of db tenant_id (find_table db tenant_id resource source_id)

        fresh : Outcome PolicyDecision
        fresh = from_rule now rule user (names_of cols) (pii_map_from [] cols) source_type

        key : String
        key = cache_key tenant_id (resource <> "::no_rf") (role user)

        made :
            ((v : PolicyDecision) × (fresh ≡ ok v)) ⊎ ((m : String) × (fresh ≡ permission_error m))
            → (decide redis ilike now db tenant_id resource user source_type source_id s).0 ≡ ok d
        made (inl (v, passed)) =
            let e : decide redis ilike now db tenant_id resource user source_type source_id s
                ≡ (ok v, redis.setex s key policy_ttl v) =
              rw (open', on, chosen, unfiltered, missing, passed, decide, decide_by_rule) refl in
            let same : d ≡ v =
              written_now now db tenant_id resource user source_type d s key v missing
                (rw e at cached) in
            ap (λ p. p.0) e ∙ ap ok (sym same)
        made (inr (m, turned_away)) =
            let e : decide redis ilike now db tenant_id resource user source_type source_id s
                ≡ (permission_error m, s) =
              rw (open', on, chosen, unfiltered, missing, turned_away, decide, decide_by_rule)
                refl in
            let still = rw e at cached in absurd (ground arith)
