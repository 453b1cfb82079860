-- ===== src/Rewrite/Reported.antt =====
-- What the report of a rewritten SELECT says of the columns that are to be masked or tokenized
-- (backend/app/rewriters/sql_rewriter.py).
use metasight.Prelude.{
  All, Bool-cases, Option, String, arith, eq_iff, if◌then◌else◌, inl, inr, nat_eq, refl, string_eq,
  subst, sym, text_eq, true, ◌==◌, ◌≡◌, ◌⊎◌,
}
use metasight.Prelude.Dict.{Dict, has, lookup-insert}
use metasight.Risk.{RewriteMeta}
use metasight.Sql.{Children, Expr, child, columns, end, item, items}
use metasight.Rewrite.{Policy, allow, deny, mask, tokenize}
use metasight.Rewrite.Projections.{
  Verdict, column_key, inner, is_column, judge, no_verdict, note_denied, note_masked,
  note_projection, note_projections, note_tokenized, null_expr, out_alias, rewrite_projection,
  rewrite_projections,
}

module _ (m : Dict Policy) where
  abbrev verdict_of : Expr → Verdict
  verdict_of e = judge m (columns (inner e)) no_verdict

  -- The name of the output column by which the report has a projection.
  abbrev key_of : Expr → String
  key_of e = column_key (out_alias e (columns (inner e))) (verdict_of e)

  note_masked_kept :
      (key k : String) (pii : Option String) (meta : RewriteMeta)
      → has k meta.masked_columns ≡ true
      → has k (note_masked key pii meta).masked_columns ≡ true
  unfolding note_masked
  note_masked_kept key k pii meta h = ground (arith, lookup-insert key k pii meta.masked_columns)

  note_projection_kept :
      (e : Expr) (k : String) (meta : RewriteMeta)
      → has k meta.masked_columns ≡ true
      → has k (note_projection m e meta).masked_columns ≡ true
  unfolding note_projection note_denied note_tokenized
  note_projection_kept e k meta h =
      ground (arith, note_masked_kept (key_of e) k (verdict_of e).pii meta)

  note_projections_kept :
      (cs : Children) (k : String) (meta : RewriteMeta)
      → has k meta.masked_columns ≡ true
      → has k (note_projections m cs meta).masked_columns ≡ true
  unfolding note_projections
  note_projections_kept end k meta h = h
  note_projections_kept (item e cs) k meta h =
      note_projections_kept cs k (note_projection m e meta) (note_projection_kept e k meta h)
  note_projections_kept (child key e cs) k meta h = note_projections_kept cs k meta h

  -- A projection that is left with a column to mask is that column, bare or with an alias, and the
  -- report names it.
  abbrev pub Reported : RewriteMeta → Expr → Type 0
  Reported meta e =
      (verdict_of e).action ≡ mask
      → (is_column (inner e) ≡ true)
        × ((key_of e ≡ "") ⊎ (has (key_of e) meta.masked_columns ≡ true))

  note_masked-has :
      (key : String) (pii : Option String) (meta : RewriteMeta)
      → (key ≡ "") ⊎ (has key (note_masked key pii meta).masked_columns ≡ true)
  unfolding note_masked
  note_masked-has key pii meta =
      ground (arith, eq_iff key "", eq_iff key key, lookup-insert key key pii meta.masked_columns)

  null_verdict : (out : String) → (verdict_of (null_expr out)).action ≡ allow
  unfolding judge columns
  null_verdict out = elim (Bool-cases (out == "")) [ inl e ↦ rw e refl | inr e ↦ rw e refl ]

  kept_or_null :
      (e : Expr)
      → ((verdict_of (rewrite_projection m e)).action ≡ allow)
        ⊎ ((rewrite_projection m e ≡ e)
            × ((verdict_of e).action ≡ mask → is_column (inner e) ≡ true))
  unfolding rewrite_projection
  kept_or_null e =
      let out = out_alias e (columns (inner e)) in
      let nulled = null_verdict out in
      let a = (verdict_of e).action in
      elim (verdict_of e).action
          as (λ b.
            (verdict_of e).action ≡ b
            → ((verdict_of (elim b [
              | deny ↦ null_expr out
              | mask ↦ if is_column (inner e) then e else null_expr out
              | tokenize ↦ e
              | allow ↦ e
            ])).action
                ≡ allow)
              ⊎ (((elim b [
                | deny ↦ null_expr out
                | mask ↦ if is_column (inner e) then e else null_expr out
                | tokenize ↦ e
                | allow ↦ e
              ])
                    ≡ e)
                  × ((verdict_of e).action ≡ mask → is_column (inner e) ≡ true))) [
                    | deny ↦ λ q. inl nulled
                    | mask ↦ λ q. elim (Bool-cases (is_column (inner e))) [
                      | inl c ↦ rw c (inr (refl, λ h. refl))
                      | inr c ↦ rw c (inl nulled)
                    ]
                    | tokenize ↦ λ q. inr (refl, λ h. cc)
                    | allow ↦ λ q. inr (refl, λ h. cc)
                  ]
        refl

  note_projection_mask :
      (e : Expr) (meta : RewriteMeta)
      → (verdict_of e).action ≡ mask
      → is_column (inner e) ≡ true
      → note_projection m e meta ≡ note_masked (key_of e) (verdict_of e).pii meta
  unfolding note_projection
  note_projection_mask e meta h c = ground arith

  rewrite_projection-Reported :
      (e : Expr) (meta : RewriteMeta) → Reported (note_projection m e meta) (rewrite_projection m e)
  rewrite_projection-Reported e meta = elim (kept_or_null e) [
    | inl q ↦ λ h. absurd (cc)
    | inr (q, column_only) ↦ subst (Reported (note_projection m e meta)) (sym q) (λ h. (
      column_only h,
      subst (λ r. (key_of e ≡ "") ⊎ (has (key_of e) r.masked_columns ≡ true))
          (sym (note_projection_mask e meta h (column_only h)))
          (note_masked-has (key_of e) (verdict_of e).pii meta),
    ))
  ]

  -- In a SELECT whose projections were rewritten, a projection that is left with a column to mask, and
  -- with none to deny, is that column, bare or with an alias, and the report of the rewriting has its
  -- name in the answer among the masked columns, unless it has no name.
  pub rewrite_projections-Reported :
      (cs : Children) (meta : RewriteMeta)
      → All (Reported (note_projections m cs meta)) (items (rewrite_projections m cs))
  unfolding rewrite_projections note_projections
  rewrite_projections-Reported end meta = tt
  rewrite_projections-Reported (item e cs) meta =
      let noted = note_projection m e meta in
      (
        λ h.
            let (plain, named) = rewrite_projection-Reported e meta h in
            (
              plain,
              elim named [
                | inl blank ↦ inl blank
                | inr known ↦
                    inr (note_projections_kept cs (key_of (rewrite_projection m e)) noted known)
              ],
            ),
        rewrite_projections-Reported cs noted,
      )
  rewrite_projections-Reported (child key e cs) meta = rewrite_projections-Reported cs meta
