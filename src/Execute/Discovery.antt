-- ===== src/Execute/Discovery.antt =====
-- Columns that were not scanned are marked all the same.
-- About step 7 of execute_query_endpoint in backend/app/api/query.py.
use metasight.Prelude.{
  Bool-cases, List, String, [], ap, codes, elem, eq_iff, false, if◌then◌else◌, inl, inr, nat_eq,
  refl, string_eq, sym, text_eq, true, ◌==◌, ◌∙◌, ◌∷◌, ◌≡◌,
}
use metasight.Prelude.Dict.{Dict, keys}
use metasight.Prepare.Combine.{or_gather}
use metasight.Mask.Infer.{infer_tags}
use metasight.Policy.{PolicyDecision}
use metasight.Risk.{RewriteMeta}
use metasight.Execute.{
  Treatment, by_field, decisions_of, discover, discover_column, is_treated, treatment_of,
}
use metasight.Execute.Actions.{
  actions, asked, asked-append, by_field-apart, by_field-asked, by_tags-apart, by_tags-asked,
  field_actions, marked, marks, once_more, or_else_marks, tag_actions, unmarked,
}

module _ (ds : List PolicyDecision) where
  discover_column-asked :
      (col : String) (t : Treatment)
      → marks col (discover_column ds col t) ≡ or_else_marks (marks col t) (asked (actions col ds))
  unfolding discover_column
  discover_column-asked col t = elim (Bool-cases (is_treated col t)) [
    | inl done ↦ rw (done, discover_column) refl
    | inr open' ↦
        let fields = field_actions col ds in
        let tags = tag_actions (infer_tags (codes col)) ds in
        let start = unmarked (marks col t) open' in
        let t' = by_field col ds t in
        let k : marks col t' ≡ asked fields = by_field-asked col ds t start in
        let whole : asked (actions col ds) ≡ or_else_marks (marks col t') (asked tags) =
          asked-append fields tags ∙ ap (λ m. or_else_marks m (asked tags)) (sym k) in
        elim (Bool-cases (is_treated col t')) [
          | inl done ↦
              rw (open', done, discover_column)
                (sym (whole ∙ marked (marks col t') done (asked tags)))
          | inr still ↦
              let none_yet = unmarked (marks col t') still in
              rw (open', still, discover_column)
                (by_tags-asked col (infer_tags (codes col)) ds t' none_yet
                  ∙ sym (whole ∙ ap (λ m. or_else_marks m (asked tags)) none_yet))
        ]
  ]

  discover_column-apart :
      (j col : String) (t : Treatment)
      → (j == col) ≡ false
      → marks j (discover_column ds col t) ≡ marks j t
  unfolding discover_column
  discover_column-apart j col t h = elim (Bool-cases (is_treated col t)) [
    | inl done ↦ rw (done, discover_column) refl
    | inr open' ↦
        let k = by_field-apart col j ds t h in
        elim (Bool-cases (is_treated col (by_field col ds t))) [
          | inl done ↦ rw (open', done, discover_column) k
          | inr still ↦ rw (open', still, discover_column) (by_tags-apart col j _ ds _ h ∙ k)
        ]
  ]

  discover-asked :
      (j : String) (columns : List String) (t : Treatment)
      → marks j (discover ds columns t)
        ≡ (if elem j columns then or_else_marks (marks j t) (asked (actions j ds)) else marks j t)
  unfolding discover
  discover-asked j [] t = refl
  discover-asked j (col ∷ columns) t = elim (Bool-cases (j == col)) [
    | inl same ↦
        let wanted = asked (actions j ds) in
        let e : j ≡ col = (eq_iff j col).0 same in
        let here : marks j (discover_column ds col t) ≡ or_else_marks (marks j t) wanted =
          rw (← e) (discover_column-asked j t) in
        discover-asked j columns (discover_column ds col t)
        ∙ once_more (elem j columns) (marks j t) wanted _ here
        ∙ rw same refl
    | inr apart ↦
        let here = discover_column-apart j col t apart in
        discover-asked j columns (discover_column ds col t)
        ∙ ap (λ m. if elem j columns then or_else_marks m (asked (actions j ds)) else m) here
        ∙ rw apart refl
  ]

-- A column of the answer that the rewriter's report marks to be masked or tokenized, or the decisions
-- where the report is empty, is marked so in the treatment of the answer. Any other is marked by the
-- first action that a decision has for it, to be masked or to be tokenized, and is not marked if there
-- is none: the actions for the column's name come first, in the order of the tables, then those for
-- the tags that are inferred from the name, table by table.
pub treatment_of_lem :
    (meta : RewriteMeta) (table_policies : Dict PolicyDecision) (columns : List String)
    (col : String)
    → elem col columns ≡ true
    → marks col (treatment_of meta table_policies columns)
      ≡ or_else_marks
          (
            elem col (or_gather (keys meta.masked_columns) (λ d. d.masked_columns) table_policies),
            elem col
                (or_gather (keys meta.tokenized_columns) (λ d. d.tokenized_columns) table_policies),
          )
          (asked (actions col (decisions_of table_policies)))
unfolding treatment_of
treatment_of_lem meta table_policies columns col here =
    discover-asked (decisions_of table_policies) col columns _ ∙ rw here refl
