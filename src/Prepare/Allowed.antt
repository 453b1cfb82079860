-- ===== src/Prepare/Allowed.antt =====
-- What an allowed query has passed.
-- About prepare of backend/app/services/gateway_prepare.py.
use metasight.Prelude.{
  All, Bool, Bool-cases, List, Option-cases, String, Text, [], ap, arith, elem, first, inl, inr,
  nat_eq, or_else, some, string_eq, subst, sym, text_eq, true, ℕ, ◌==◌, ◌∙◌, ◌∷◌, ◌≡◌, ◌≢◌,
}
use metasight.Prelude.Dict.{Dict, insert}
use metasight.Http.{ok}
use metasight.Identity.{User}
use metasight.Policy.{Outcome-cases, PolicyDecision, ok}
use metasight.Policy.Schedule.{Now}
use metasight.Policy.Cache.{Redis}
use metasight.Policy.Decide.{PolicyDb, decide}
use metasight.Prepare.Course.{prepare_sql-Course}
use metasight.Prepare.{
  DataSource, PrepareResponse, Query, SqlRewriter, document, nosql_types, policies, prepare,
  prepare_document, prepare_sql, resolve_tables, sql, sql_answer,
}
use metasight.Mongo.{MongoQuery}

module _ (redis : Redis) (ilike : String → String → Bool) (now : Now) (db : PolicyDb)
    (tenant_id : ℕ) (user : User) (source_type : String) (source_id : ℕ) where
  open redis use {Store}

  -- The engine has allowed the table, in some state of the cache.
  abbrev pub Cleared : String → PolicyDecision → Type 0
  Cleared table d =
      (s : Store) × (s' : Store) × (decide redis ilike now db tenant_id table user source_type
          (some source_id) s
        ≡ (ok d, s'))
      × (d.allowed ≡ true)

  resolve_tables-Cleared :
      (rewriter : SqlRewriter) (tables : List String) (found found' : Dict PolicyDecision)
      (s s' : Store)
      → resolve_tables redis ilike rewriter now db tenant_id user source_type source_id tables found
          s
        ≡ (policies found', s')
      → All (λ t. (d : PolicyDecision) × Cleared t d) tables
  unfolding resolve_tables
  resolve_tables-Cleared rewriter [] found found' s s' h = tt
  resolve_tables-Cleared rewriter (t ∷ tables) found found' s s' h =
      let answer = decide redis ilike now db tenant_id t user source_type (some source_id) s in
      elim (Outcome-cases answer.0) [
        | inl (d, decided) ↦ elim (Bool-cases d.allowed) [
          | inl yes' ↦ (
            (d, (s, answer.1, ap (λ o. (o, answer.1)) decided, yes')),
            resolve_tables-Cleared rewriter tables (insert t (record d { allowed = true }) found)
                found' answer.1 s' (rw (decided, yes', resolve_tables) at h),
          )
          | inr no' ↦
              let e = ap (λ p. p.0) (rw (decided, no', resolve_tables) at h) in
              absurd (ground arith)
        ]
        | inr (m, thrown) ↦
            let e = ap (λ p. p.0) (rw (thrown, resolve_tables) at h) in absurd (ground arith)
      ]

  -- What an answer promises: its tables are cleared, and it masks what the engine would tokenize.
  abbrev pub Vouched : PrepareResponse → Type 0
  Vouched r = All (λ t. (d : PolicyDecision) × Cleared t d) r.tables

  prepare_sql-Vouched :
      (rewriter : SqlRewriter) (statement : Text) (s s' : Store) (r : PrepareResponse)
      → prepare_sql redis ilike rewriter now db tenant_id user source_type source_id statement s
        ≡ (r, s')
      → r.allowed ≡ true
      → Vouched r × (r.tables ≢ [])
  unfolding sql_answer
  prepare_sql-Vouched rewriter statement s s' r h yes' =
      let course =
        prepare_sql-Course redis ilike rewriter now db tenant_id user source_type source_id
          statement s s' r yes' h in
      let same : rewriter.get_tables statement ≡ r.tables = ap (λ x. x.tables) course.answered in
      (
        subst (All (λ t. (d : PolicyDecision) × Cleared t d)) same (
            resolve_tables-Cleared rewriter (rewriter.get_tables statement) [] course.found s s'
              course.resolved),
        subst (λ ts. ts ≢ []) same course.named,
      )

  prepare_document-Vouched :
      (rewriter : SqlRewriter) (query : MongoQuery) (s s' : Store) (r : PrepareResponse)
      → prepare_document redis ilike rewriter now db tenant_id user source_type source_id query s
        ≡ (r, s')
      → r.allowed ≡ true
      → Vouched r × (r.tables ≡ or_else query.collection "default" ∷ [])
  unfolding prepare_document
  prepare_document-Vouched rewriter query s s' r h yes' =
      let table = or_else query.collection "default" in
      let answer = decide redis ilike now db tenant_id table user source_type (some source_id) s in
      elim (Outcome-cases answer.0) [
        | inl (d, decided) ↦ elim (Bool-cases d.allowed) [
          | inl granted ↦
              let e = ap (λ p. p.0.tables) (rw (decided, granted, prepare_document) at h) in
              let cleared : (d : PolicyDecision) × Cleared table d =
                (d, (s, answer.1, ap (λ o. (o, answer.1)) decided, granted)) in
              (rw (← e) (cleared, tt), sym e)
          | inr denied ↦
              let e = ap (λ p. p.0.allowed) (rw (decided, denied, prepare_document) at h) in
              absurd (ground arith)
        ]
        | inr (m, thrown) ↦
            let e = ap (λ p. p.0.allowed) (rw (thrown, prepare_document) at h) in
            absurd (ground arith)
      ]

module _ (redis : Redis) (ilike : String → String → Bool) (rewriter : SqlRewriter) where
  open redis use {Store}

  -- An allowed query runs on a known source, names a table, and every table that it names was put to
  -- the engine for this user, tenant and source, and allowed.
  pub prepare_allowed :
      (now : Now) (db : PolicyDb) (sources : List DataSource) (tenant_id : ℕ) (user : User)
      (source_id : ℕ) (query : Query) (s s' : Store) (r : PrepareResponse)
      → prepare redis ilike rewriter now db sources tenant_id user source_id query s ≡ ok (r, s')
      → r.allowed ≡ true
      → (source : DataSource) × (first (λ d. d.id == source_id) sources ≡ some source)
        × (r.tables ≢ [])
        × All
            (λ t.
              (d : PolicyDecision) × Cleared redis ilike now db tenant_id user source.source_type
                source_id t d)
            r.tables
  unfolding prepare
  prepare_allowed now db sources tenant_id user source_id query s s' r h yes' =
      elim (Option-cases (first (λ d. d.id == source_id) sources)) [
        | inl unknown ↦ let e = rw (unknown, prepare) at h in absurd (ground arith)
        | inr (source, known) ↦
            let (some_tables, vouched) = dispatch source known query h in
            (source, known, some_tables, vouched)
      ]
    where
      dispatch :
          (source : DataSource)
          → first (λ d. d.id == source_id) sources ≡ some source
          → (q : Query)
          → prepare redis ilike rewriter now db sources tenant_id user source_id q s ≡ ok (r, s')
          → (r.tables ≢ [])
            × All
                (λ t.
                  (d : PolicyDecision) × Cleared redis ilike now db tenant_id user
                    source.source_type source_id t d)
                r.tables
      dispatch source known (sql statement) h' =
          elim (Bool-cases (elem source.source_type nosql_types)) [
            | inl nosql ↦ let e = rw (known, nosql, prepare) at h' in absurd (ground arith)
            | inr relational ↦
                let e = rw (known, relational, prepare) at h' in
                let (vouched, some_tables) =
                  prepare_sql-Vouched redis ilike now db tenant_id user source.source_type source_id
                    rewriter statement s s' r (ground arith) yes' in
                (some_tables, vouched)
          ]
      dispatch source known (document q) h' =
          elim (Bool-cases (elem source.source_type nosql_types)) [
            | inr relational ↦
                let e = rw (known, relational, prepare) at h' in absurd (ground arith)
            | inl nosql ↦
                let e = rw (known, nosql, prepare) at h' in
                let (vouched, named) =
                  prepare_document-Vouched redis ilike now db tenant_id user source.source_type
                    source_id rewriter q s s' r (ground arith) yes' in
                (λ none_left. let e = sym named ∙ none_left in ground arith, vouched)
          ]
