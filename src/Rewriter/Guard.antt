-- ===== src/Rewriter/Guard.antt =====
-- What the guard refuses (_guard_sql and rewrite_with_meta of
-- backend/app/rewriters/sql_rewriter.py).
use metasight.Prelude.{
  All, Bool-cases, List, Option, String, Text, [], arith, false, inl, inr, none, refl, some, ◌∷◌,
  ◌≡◌,
}
use metasight.Prelude.Dict.{Dict}
use metasight.Policy.{PolicyDecision}
use metasight.Risk.{RewriteMeta}
use metasight.Sql.{Expr, find_all, kind}
use metasight.Hardening.Cleaning.{
  Sqlglot, check_exfiltration_patterns, check_multi_statement, done, harden_sql, normalize_sql,
  strip_sql_comments,
}
use metasight.Hardening.Patterns.{blocked_pattern, exfil_patterns, found}
use metasight.Rewriter.{
  guard_sql, guard_statements, is_blocked, is_into, rewrite_identified, rewrite_with_meta,
}
use metasight.Rewriter.Safe.{>>=-eq-done}

-- A statement that reads only: not of a blocked class, and with no INTO clause at any depth.
abbrev pub ReadsOnly : Option Expr → Type 0
ReadsOnly none = Unit
ReadsOnly (some stmt) = (is_blocked (kind stmt) ≡ false) × (find_all is_into stmt ≡ [])

guard_statements-ReadsOnly :
    (stmts : List (Option Expr)) → guard_statements stmts ≡ done tt → All ReadsOnly stmts
unfolding guard_statements
guard_statements-ReadsOnly [] h = tt
guard_statements-ReadsOnly (none ∷ stmts) h = (tt, guard_statements-ReadsOnly stmts h)
guard_statements-ReadsOnly (some stmt ∷ stmts) h =
    elim (find_all is_into stmt)
        as (λ es.
          find_all is_into stmt ≡ es
          → ((is_blocked (kind stmt) ≡ false) × (find_all is_into stmt ≡ []))
            × All ReadsOnly stmts) [
              | [] ↦ λ q. ((ground arith, q), guard_statements-ReadsOnly stmts (ground arith))
              | e ∷ es ↦ λ q. absurd (ground arith)
            ]
      refl

guard_sql-ReadsOnly :
    (sqlglot : Sqlglot) (query : Text) {stmts : List (Option Expr)}
    → guard_sql sqlglot query ≡ done tt
    → sqlglot.parse query ≡ some stmts
    → All ReadsOnly stmts
unfolding guard_sql
guard_sql-ReadsOnly sqlglot query {stmts} h q = elim (Bool-cases (found blocked_pattern query)) [
  | inl b ↦ absurd (ground arith)
  | inr b ↦ guard_statements-ReadsOnly stmts (ground arith)
]

guard_sql-words :
    (sqlglot : Sqlglot) (query : Text)
    → guard_sql sqlglot query ≡ done tt
    → found blocked_pattern query ≡ false
unfolding guard_sql
guard_sql-words sqlglot query h = elim (Bool-cases (found blocked_pattern query)) [
  | inl b ↦ absurd (ground arith)
  | inr b ↦ b
]

harden_sql-words :
    (sqlglot : Sqlglot) (query : Text) {hardened : Text}
    → harden_sql sqlglot query ≡ done hardened
    → found exfil_patterns hardened ≡ false
unfolding harden_sql check_exfiltration_patterns
harden_sql-words sqlglot query {hardened} h =
    let (normal, n, k) = >>=-eq-done (normalize_sql sqlglot.nfkc query) _ h in
    let stripped = strip_sql_comments normal in
    let (u, words, k') = >>=-eq-done (check_exfiltration_patterns stripped) _ k in
    let (v, single, k'') = >>=-eq-done (check_multi_statement sqlglot stripped) _ k' in
    let same : stripped ≡ hardened = ground arith in
    rw (← same) (elim (Bool-cases (found exfil_patterns stripped)) [
      | inl b ↦ absurd (ground arith)
      | inr b ↦ b
    ])

-- A query is refused unless its cleaned text has none of the blocked words, and each of its statements
-- is of a class that is not blocked and has no INTO clause at any depth, where it can be parsed.
pub rewrite_with_meta-ReadsOnly :
    (sqlglot : Sqlglot) (query : Text) (table_policies : Dict PolicyDecision) (dialect : String)
    {answer : Text × RewriteMeta}
    → rewrite_with_meta sqlglot query table_policies dialect ≡ done answer
    → (hardened : Text) × (harden_sql sqlglot query ≡ done hardened)
      × (found exfil_patterns hardened ≡ false)
      × (found blocked_pattern hardened ≡ false)
      × ((stmts : List (Option Expr)) → sqlglot.parse hardened ≡ some stmts → All ReadsOnly stmts)
unfolding rewrite_with_meta rewrite_identified
rewrite_with_meta-ReadsOnly sqlglot query table_policies dialect {answer} h =
    let (hardened, h1, k1) = >>=-eq-done (harden_sql sqlglot query) _ h in
    let (u, h2, k2) = >>=-eq-done (guard_sql sqlglot hardened) _ k1 in
    (
      hardened,
      h1,
      harden_sql-words sqlglot query {hardened = hardened} h1,
      guard_sql-words sqlglot hardened h2,
      λ stmts q. guard_sql-ReadsOnly sqlglot hardened {stmts = stmts} h2 q,
    )
