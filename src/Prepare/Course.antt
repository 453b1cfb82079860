-- ===== src/Prepare/Course.antt =====
-- The steps that an allowed text has gone through.
-- About prepare of backend/app/services/gateway_prepare.py.
use metasight.Prelude.{
  Bool, List, Option-cases, String, Text, [], ap, arith, inl, inr, none, refl, true, ℕ, ◌∙◌, ◌∷◌,
  ◌≡◌, ◌≢◌, ◌⊎◌,
}
use metasight.Prelude.Dict.{Dict}
use metasight.Identity.{User}
use metasight.Policy.{Outcome-cases, PolicyDecision, ok}
use metasight.Policy.Schedule.{Now}
use metasight.Policy.Cache.{Redis}
use metasight.Policy.Decide.{PolicyDb}
use metasight.Risk.{RewriteMeta}
use metasight.Prepare.Dialect.{get_dialect}
use metasight.Prepare.{
  PrepareResponse, Resolved, SqlRewriter, policies, prepare_sql, refused, resolve_tables,
  sql_answer,
}

pub List-cases {ℓ} :
    {A : Type ℓ} (xs : List A) → (xs ≡ []) ⊎ ((x : A) × (rest : List A) × (xs ≡ x ∷ rest))
List-cases [] = inl refl
List-cases (x ∷ rest) = inr (x, rest, refl)

Resolved-cases :
    (r : Resolved)
    → ((found : Dict PolicyDecision) × (r ≡ policies found)) ⊎ ((m : String) × (r ≡ refused m))
Resolved-cases (policies found) = inl (found, refl)
Resolved-cases (refused m) = inr (m, refl)

module _ (redis : Redis) (ilike : String → String → Bool) (rewriter : SqlRewriter) (now : Now)
    (db : PolicyDb) (tenant_id : ℕ) (user : User) (source_type : String) (source_id : ℕ) where
  open redis use {Store}

  -- The tables were resolved, the text was rewritten, and the answer is made of the two.
  pub record Course (statement : Text) (s s' : Store) (r : PrepareResponse) : Type 0 where
    pub found : Dict PolicyDecision
    pub rewritten : Text
    pub meta : RewriteMeta
    pub guarded : rewriter.guard_sql statement ≡ none
    pub named : rewriter.get_tables statement ≢ []
    pub resolved :
        resolve_tables redis ilike rewriter now db tenant_id user source_type source_id
          (rewriter.get_tables statement)
          []
          s
        ≡ (policies found, s')
    pub rewrote :
        rewriter.rewrite_with_meta statement found (get_dialect source_type) ≡ ok (rewritten, meta)
    pub answered :
        sql_answer redis ilike rewriter db tenant_id user rewritten meta
          (rewriter.get_tables statement)
          found
        ≡ r

  module _ (statement : Text) (s s' : Store) (r : PrepareResponse)
      (granted : r.allowed ≡ true) where
    resolved-Course :
        (t : String) (ts : List String)
        → rewriter.guard_sql statement ≡ none
        → rewriter.get_tables statement ≡ t ∷ ts
        → prepare_sql redis ilike rewriter now db tenant_id user source_type source_id statement s
          ≡ (r, s')
        → Course statement s s' r
    unfolding prepare_sql
    resolved-Course t ts guarded named h =
        let after =
          resolve_tables redis ilike rewriter now db tenant_id user source_type source_id (t ∷ ts)
            [] s in
        elim (Resolved-cases after.0) [
          | inr (m, stopped) ↦
              let e = ap (λ p. p.0.allowed) (rw (guarded, named, stopped, prepare_sql) at h) in
              absurd (ground arith)
          | inl (found, all_found) ↦
              elim (Outcome-cases
                (rewriter.rewrite_with_meta statement found (get_dialect source_type))) [
                  | inr (m, failed) ↦
                      let e =
                        ap (λ p. p.0.allowed)
                          (rw (guarded, named, all_found, failed, prepare_sql) at h) in
                      absurd (ground arith)
                  | inl ((rewritten, meta), rewrote) ↦
                      let e = rw (guarded, named, all_found, rewrote, prepare_sql) at h in
                      record {
                        found = found;
                        rewritten = rewritten;
                        meta = meta;
                        guarded = guarded;
                        named = λ none_left. ground arith;
                        resolved = rw named (
                            ap (λ x. (x, after.1)) all_found
                            ∙ ap (λ x. (policies found, x)) (ap (λ p. p.1) e));
                        rewrote = rewrote;
                        answered = rw named (ap (λ p. p.0) e);
                      }
                ]
        ]

    -- An allowed text went through all steps.
    pub prepare_sql-Course :
        prepare_sql redis ilike rewriter now db tenant_id user source_type source_id statement s
          ≡ (r, s')
        → Course statement s s' r
    unfolding prepare_sql
    prepare_sql-Course h = elim (Option-cases (rewriter.guard_sql statement)) [
      | inr (m, guarded) ↦
          let e = ap (λ p. p.0.allowed) (rw (guarded, prepare_sql) at h) in absurd (ground arith)
      | inl guarded ↦ elim (List-cases (rewriter.get_tables statement)) [
        | inl no_tables ↦
            let e = ap (λ p. p.0.allowed) (rw (guarded, no_tables, prepare_sql) at h) in
            absurd (ground arith)
        | inr (t, ts, named) ↦ resolved-Course t ts guarded named h
      ]
    ]
