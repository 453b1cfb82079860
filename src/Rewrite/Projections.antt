-- ===== src/Rewrite/Projections.antt =====
-- The projections of one SELECT: models _rewrite_projections of
-- backend/app/rewriters/sql_rewriter.py. What a projection becomes does not depend on the report, so
-- it is a function of its own beside the report's.
use metasight.Prelude.{
  Bool, List, Option, String, [], elem, false, if◌then◌else◌, leb, length, ltb, nat_eq, none, not,
  string_eq, text_eq, true, ◌&&◌, ◌++◌, ◌<>◌, ◌==◌, ◌||◌, ◌∷◌,
}
use metasight.Prelude.Dict.{Dict, has, insert}
use metasight.Risk.{RewriteMeta}
use metasight.Sql.{
  Children, ColumnRef, Expr, alias_, child, column, columns, end, item, node, null, table_star,
}
use metasight.Rewrite.{Action, Policy, action_rank, allow, deny, mask, resolve_action, tokenize}

-- `overall_action`, `primary_col_name` and `primary_pii`; a name that is None is empty.
pub record Verdict : Type 0 where
  pub action : Action
  pub name : String
  pub pii : Option String

abbrev pub no_verdict : Verdict
no_verdict = record { action = allow; name = ""; pii = none }

unfoldable pub judge : Dict Policy → List ColumnRef → Verdict → Verdict
judge alias_map [] v = v
judge alias_map (ref ∷ refs) v =
    let (action, pii) = resolve_action ref.table ref.name alias_map in
    judge alias_map refs (
      if ltb (action_rank v.action) (action_rank action)
      then record { action = action; name = ref.name; pii = pii }
      else v)

-- `inner_expr` and `alias_name`.
abbrev pub inner : Expr → Expr
inner (node (alias_ a) (child key e end)) = e
inner e = e

abbrev pub alias_name : Expr → String
alias_name (node (alias_ a) (child key e end)) = a
alias_name e = ""

-- `out_alias`; None is empty.
unfoldable pub out_alias : Expr → List ColumnRef → String
out_alias proj refs =
    if alias_name proj == "" then elim refs [ ref ∷ [] ↦ ref.name | _ ↦ "" ] else alias_name proj

abbrev pub null_expr : String → Expr
null_expr out =
    let n = node null end in if out == "" then n else node (alias_ out) (child "this" n end)

-- `isinstance(inner_expr, exp.Column)`.
abbrev pub is_column : Expr → Bool
is_column (node (column t n) cs) = true
is_column (node (table_star t) cs) = true
is_column _ = false

unfoldable pub rewrite_projection : Dict Policy → Expr → Expr
unfolding judge out_alias
rewrite_projection alias_map proj =
    let refs = columns (inner proj) in
    elim (judge alias_map refs no_verdict).action [
      | deny ↦ null_expr (out_alias proj refs)
      | mask ↦ if is_column (inner proj) then proj else null_expr (out_alias proj refs)
      | tokenize ↦ proj
      | allow ↦ proj
    ]

unfoldable pub rewrite_projections : Dict Policy → Children → Children
unfolding rewrite_projection
rewrite_projections alias_map end = end
rewrite_projections alias_map (item e cs) =
    item (rewrite_projection alias_map e) (rewrite_projections alias_map cs)
rewrite_projections alias_map (child key e cs) = child key e (rewrite_projections alias_map cs)

-- `if out_alias and out_alias not in meta.denied_columns: meta.denied_columns.append(out_alias)`.
unfoldable pub note_denied : String → RewriteMeta → RewriteMeta
note_denied out meta =
    if out == "" || elem out meta.denied_columns
    then meta
    else record meta { denied_columns = meta.denied_columns ++ out ∷ [] }

abbrev pub warn : String → RewriteMeta → RewriteMeta
warn text meta = record meta { warnings = meta.warnings ++ text ∷ [] }

-- `out_alias or (primary_col_name or "")`.
abbrev pub column_key : String → Verdict → String
column_key out v = if out == "" then v.name else out

unfoldable pub note_masked : String → Option String → RewriteMeta → RewriteMeta
note_masked key pii meta =
    if key == "" || has key meta.masked_columns
    then meta
    else record meta { masked_columns = insert key pii meta.masked_columns }

unfoldable pub note_tokenized : String → String → RewriteMeta → RewriteMeta
note_tokenized key original meta =
    if key == "" || has key meta.tokenized_columns
    then meta
    else record meta { tokenized_columns = insert key original meta.tokenized_columns }

unfoldable pub note_projection : Dict Policy → Expr → RewriteMeta → RewriteMeta
unfolding judge out_alias note_denied note_masked note_tokenized
note_projection alias_map proj meta =
    let refs = columns (inner proj) in
    let v = judge alias_map refs no_verdict in
    let out = out_alias proj refs in
    elim v.action [
      | deny ↦
          let noted = note_denied out meta in
          if leb 2 (length refs) && not (v.name == "")
          then warn
              ("Expression containing '" <> v.name
                <> "' was suppressed (function leakage protection)")
              noted
          else noted
      | mask ↦
          if is_column (inner proj)
          then note_masked (column_key out v) v.pii meta
          else warn
              ("Expression containing masked column '" <> v.name
                <> "' was suppressed to prevent function leakage")
              (note_denied out meta)
      | tokenize ↦
          let key = column_key out v in
          note_tokenized key (if v.name == "" then key else v.name) meta
      | allow ↦ meta
    ]

unfoldable pub note_projections : Dict Policy → Children → RewriteMeta → RewriteMeta
unfolding note_projection
note_projections alias_map end meta = meta
note_projections alias_map (item e cs) meta =
    note_projections alias_map cs (note_projection alias_map e meta)
note_projections alias_map (child key e cs) meta = note_projections alias_map cs meta
