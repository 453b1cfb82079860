-- ===== src/Prepare/Masks.antt =====
-- Which columns a caller is told to mask. About prepare of backend/app/services/gateway_prepare.py.
use metasight.Prelude.{
  Bool, Bool-cases, List, String, Text, [], arith, elem, elem-concat, eq_iff, inl, inr, nat_eq,
  refl, some, string_eq, text_eq, true, ℕ, ◌++◌, ◌==◌, ◌||◌, ◌∙◌, ◌∷◌, ◌≡◌, ◌⊎◌,
}
use metasight.Prelude.Dict.{Dict, keys, lookup}
use metasight.Identity.{User}
use metasight.Policy.{PolicyDecision}
use metasight.Policy.Cache.{Redis}
use metasight.Policy.Decide.{PolicyDb}
use metasight.Risk.{RewriteMeta}
use metasight.Prepare.Combine.{append_new, gather, or_gather}
use metasight.Prepare.{SqlRewriter, sql_answer}

elem-or :
    (cols more : List String) (col j : String)
    → elem col cols ≡ true
    → (elem j cols || elem j more) ≡ (elem j cols || (j == col || elem j more))
elem-or cols more col j here = elim (Bool-cases (j == col)) [
  | inl same ↦
      let e : j ≡ col = ground (arith, eq_iff j col) in
      let present : elem j cols ≡ true = rw e here in rw present refl
  | inr another ↦ rw another refl
]

elem-append_new :
    (cols more : List String) (j : String)
    → elem j (append_new cols more) ≡ (elem j cols || elem j more)
unfolding append_new
elem-append_new cols [] j = ground arith
elem-append_new cols (col ∷ more) j = elim (Bool-cases (elem col cols)) [
  | inl here ↦ rw here (elem-append_new cols more j ∙ elem-or cols more col j here)
  | inr new ↦
      rw new (elem-append_new (cols ++ col ∷ []) more j ∙ ground (arith, elem-concat j col cols))
]

elem-append : (j : String) (xs ys : List String) → elem j (xs ++ ys) ≡ (elem j xs || elem j ys)
elem-append j [] ys = refl
elem-append j (x ∷ xs) ys = ground (arith, elem-append j xs ys)

gather-elem :
    (columns : PolicyDecision → List String) (found : Dict PolicyDecision) (table j : String)
    (d : PolicyDecision)
    → lookup table found ≡ some d
    → elem j (columns d) ≡ true
    → elem j (gather columns found) ≡ true
unfolding gather lookup
gather-elem columns [] table j d here asked = absurd (ground arith)
gather-elem columns ((name, x) ∷ found) table j d here asked = elim (Bool-cases (name == table)) [
  | inl same ↦
      let picked : some x ≡ some d = rw (same, lookup) at here in
      let e : x ≡ d = ground arith in
      elem-append j (columns x) (gather columns found) ∙ rw (e, asked) refl
  | inr another ↦
      let later : lookup table found ≡ some d = rw (another, lookup) at here in
      elem-append j (columns x) (gather columns found)
      ∙ or_true (elem j (columns x)) (gather-elem columns found table j d later asked)
]
  where
    or_true : {b : Bool} (a : Bool) → b ≡ true → (a || b) ≡ true
    or_true a h = ground arith

-- What is asked of a column: the rewriter reports it, or it reports none and a decision names it.
pub data IsAsked (reported : List String) (columns : PolicyDecision → List String)
    (found : Dict PolicyDecision) (j : String) : Type 0 where
  by_rewriter : elem j reported ≡ true → IsAsked reported columns found j
  by_decision :
      (table : String) (d : PolicyDecision)
      → reported ≡ []
      → lookup table found ≡ some d
      → elem j (columns d) ≡ true
      → IsAsked reported columns found j

or_gather-IsAsked :
    (reported : List String) (columns : PolicyDecision → List String) (found : Dict PolicyDecision)
    (j : String)
    → IsAsked reported columns found j
    → elem j (or_gather reported columns found) ≡ true
or_gather-IsAsked [] columns found j (by_rewriter h) = absurd (ground arith)
or_gather-IsAsked (c ∷ cs) columns found j (by_rewriter h) = h
or_gather-IsAsked reported columns found j (by_decision table d none_reported here asked) =
    rw none_reported (gather-elem columns found table j d here asked)

module _ (redis : Redis) (ilike : String → String → Bool) (rewriter : SqlRewriter) where
  -- A caller is told to mask every column that is to be masked or tokenized: that the rewriter
  -- reports, or, where it reports none of the kind, that the decision on a table names.
  pub sql_answer_masks :
      (db : PolicyDb) (tenant_id : ℕ) (user : User) (statement : Text) (meta : RewriteMeta)
      (tables : List String) (found : Dict PolicyDecision) (j : String)
      → IsAsked (keys meta.masked_columns) (λ d. d.masked_columns) found j
        ⊎ IsAsked (keys meta.tokenized_columns) (λ d. d.tokenized_columns) found j
      → elem j
          (sql_answer redis ilike rewriter db tenant_id user statement meta tables
            found).masked_columns
        ≡ true
  unfolding sql_answer
  sql_answer_masks db tenant_id user statement meta tables found j asked =
      let masked = or_gather (keys meta.masked_columns) (λ d. d.masked_columns) found in
      let tokenized = or_gather (keys meta.tokenized_columns) (λ d. d.tokenized_columns) found in
      elem-append_new masked tokenized j ∙ either asked
    where
      either :
          IsAsked (keys meta.masked_columns) (λ d. d.masked_columns) found j
            ⊎ IsAsked (keys meta.tokenized_columns) (λ d. d.tokenized_columns) found j
          → (elem j (or_gather (keys meta.masked_columns) (λ d. d.masked_columns) found)
              || elem j (or_gather (keys meta.tokenized_columns) (λ d. d.tokenized_columns) found))
            ≡ true
      either (inl m) =
          rw (or_gather-IsAsked (keys meta.masked_columns) (λ d. d.masked_columns) found j m) refl
      either (inr t) =
          let e =
            or_gather-IsAsked (keys meta.tokenized_columns) (λ d. d.tokenized_columns) found j t in
          ground arith
