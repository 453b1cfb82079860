-- ===== src/Execute/Allowed.antt =====
-- The decisions that a query is rewritten with.
-- About _resolve_table_policies of backend/app/api/query.py.
use metasight.Prelude.{
  All, Bool, Bool-cases, List, String, Text, [], ap, arith, eq_iff, inl, inr, some, subst, true, ℕ,
  ◌∷◌, ◌≡◌,
}
use metasight.Prelude.Dict.{Dict, insert, lookup-insert}
use metasight.Http.{Result, ok, raise}
use metasight.Identity.{User}
use metasight.Masking.{Cell}
use metasight.Policy.{Outcome-cases, PolicyDecision, ok}
use metasight.Policy.Schedule.{Now}
use metasight.Policy.Cache.{Redis}
use metasight.Policy.Decide.{PolicyDb, decide}
use metasight.Tokenization.{Cipher}
use metasight.Hardening.Cleaning.{Sqlglot}
use metasight.Rewriter.{get_tables}
use metasight.Prepare.Course.{List-cases}
use metasight.Prepare.Allowed.{Cleared}
use metasight.Prepare.Rewriting.{Handed, insert-Handed}
use metasight.Execute.Sql.{ExecuteRequest, resolve_loop, resolve_table_policies}

module _ (redis : Redis) (ilike : String → String → Bool) (sqlglot : Sqlglot) (cipher : Cipher)
    (fresh : ℕ → String) (string_of : Text → String) (tie : ℕ → Bool)
    (driver : Text → Result (List String × List (List Cell))) (now : Now) (pdb : PolicyDb)
    (user : User) (source_type : String) where
  open redis use {Store}

  module _ (source_id : ℕ) where
    -- What was handed over stays so, and every table of the list is.
    resolve_loop-Handed :
        (tables : List String) (found found' : Dict PolicyDecision)
        (warnings warnings' : List String) (s : Store)
        → (resolve_loop redis ilike sqlglot cipher fresh string_of tie driver now pdb user
            source_type source_id tables found warnings s).0
          ≡ ok (found', warnings')
        → All (Handed redis ilike now pdb user.tenant_id user source_type source_id found') tables
          × ((other : String)
              → Handed redis ilike now pdb user.tenant_id user source_type source_id found other
              → Handed redis ilike now pdb user.tenant_id user source_type source_id found' other)
    unfolding resolve_loop
    resolve_loop-Handed [] found found' warnings warnings' s h =
        let e : found ≡ found' = ap (λ o. elim o [ ok p ↦ p.0 | raise x ↦ found ]) h in
        (
          tt,
          λ other known.
              subst
                (λ f. Handed redis ilike now pdb user.tenant_id user source_type source_id f other)
                e known,
        )
    resolve_loop-Handed (t ∷ tables) found found' warnings warnings' s h =
        let answer =
          decide redis ilike now pdb user.tenant_id t user source_type (some source_id) s in
        elim (Outcome-cases answer.0) [
          | inr (m, thrown) ↦ let e = rw (thrown, resolve_loop) at h in absurd (ground arith)
          | inl (d, decided) ↦ elim (Bool-cases d.allowed) [
            | inr no' ↦ let e = rw (decided, no', resolve_loop) at h in absurd (ground arith)
            | inl yes' ↦
                let granted = record d { allowed = true } in
                let same : d ≡ granted = ap (λ b. record d { allowed = b }) yes' in
                let cleared : Cleared redis ilike now pdb user.tenant_id user source_type source_id
                    t granted =
                  subst (Cleared redis ilike now pdb user.tenant_id user source_type source_id t)
                    same (s, answer.1, ap (λ o. (o, answer.1)) decided, yes') in
                let (rest, kept) =
                  resolve_loop-Handed tables (insert t granted found) found' _ warnings' answer.1
                    (rw (decided, yes', resolve_loop) at h) in
                (
                  (
                    kept t (
                      granted,
                      ground (arith, lookup-insert t t granted found, eq_iff t t),
                      cleared,
                    ),
                    rest,
                  ),
                  λ other known. kept other (
                      insert-Handed redis ilike now pdb user.tenant_id user source_type source_id
                        found t other granted cleared known),
                )
          ]
        ]

  pub resolve_table_policies-Handed :
      (req : ExecuteRequest) (found : Dict PolicyDecision) (warnings : List String) (s : Store)
      → (resolve_table_policies redis ilike sqlglot cipher fresh string_of tie driver now pdb user
          source_type req s).0
        ≡ ok (found, warnings)
      → All
          (Handed redis ilike now pdb user.tenant_id user source_type req.source_id found)
          (get_tables sqlglot req.sql)
  unfolding resolve_table_policies
  resolve_table_policies-Handed req found warnings s h =
      elim (List-cases (get_tables sqlglot req.sql)) [
        | inl missing ↦ let e = rw (missing, resolve_table_policies) at h in absurd (ground arith)
        | inr (t, ts, some_tables) ↦ rw some_tables (
            (resolve_loop-Handed req.source_id (t ∷ ts) [] found [] warnings s
              (rw (some_tables, resolve_table_policies) at h)).0)
      ]
