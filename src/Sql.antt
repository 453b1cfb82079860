-- ===== src/Sql.antt =====
-- The syntax trees of sqlglot, as backend/app/rewriters/sql_rewriter.py and hardening.py walk them:
-- a node has a class and the children of its args, in their order. The names of identifiers stand in
-- the class of the node that has them.
use metasight.Prelude.{
  Bool, List, Option, String, Text, [], false, if◌then◌else◌, max, nat_eq, none, some, string_eq,
  suc, text_eq, true, ℕ, ◌++◌, ◌==◌, ◌∷◌,
}

-- The class of a node with what the code reads of its names; an alias that is absent is empty.
pub data Kind : Type 0 where
  select subquery with_ lateral star null : Kind
  and_ into : Kind
  column : (table name : String) → Kind
  table_star : (table : String) → Kind
  table : (name alias_ : String) → Kind
  alias_ : String → Kind
  cte : (alias_ : String) → Kind
  join : (side : String) → Kind
  literal : Text → Kind
  set_op : String → Kind
  other : String → Kind

-- An `item` is an element of `args["expressions"]`, a `child` one of the arg that is named.
mutual
  pub data Expr : Type 0 where
    node : Kind → Children → Expr

  pub data Children : Type 0 where
    end : Children
    item : Expr → Children → Children
    child : String → Expr → Children → Children

pub record ColumnRef : Type 0 where
  pub table : String
  pub name : String

abbrev pub is_select : Kind → Bool
is_select select = true
is_select _ = false

abbrev pub kind : Expr → Kind
kind (node k cs) = k

abbrev pub children : Expr → Children
children (node k cs) = cs

-- `node.expressions`.
abbrev pub items : Children → List Expr
items end = []
items (item e cs) = e ∷ items cs
items (child key e cs) = items cs

-- `node.args.get(key)`, and all its elements.
abbrev pub get : String → Children → Option Expr
get key end = none
get key (item e cs) = get key cs
get key (child j e cs) = if j == key then some e else get key cs

abbrev pub get_all : String → Children → List Expr
get_all key end = []
get_all key (item e cs) = get_all key cs
get_all key (child j e cs) = if j == key then e ∷ get_all key cs else get_all key cs

-- `node.set(key, e)` of an arg with one value, and `node.set(key, None)`.
unfoldable pub set_child : String → Expr → Children → Children
set_child key v end = child key v end
set_child key v (item e cs) = item e (set_child key v cs)
set_child key v (child j e cs) = if j == key then child j v cs else child j e (set_child key v cs)

unfoldable pub remove_child : String → Children → Children
remove_child key end = end
remove_child key (item e cs) = item e (remove_child key cs)
remove_child key (child j e cs) =
    let rest = remove_child key cs in if j == key then rest else child j e rest

-- `node.this`; a Select has none.
abbrev pub this_of : Expr → Option Expr
this_of (node k cs) = if is_select k then none else get "this" cs

-- A column by its class; `t.*` is the column named `*`.
abbrev pub column_of : Kind → List ColumnRef
column_of (column t n) = record { table = t; name = n } ∷ []
column_of (table_star t) = record { table = t; name = "*" } ∷ []
column_of _ = []

-- `list(expr.find_all(exp.Column))`.
unfoldable mutual
  pub columns : Expr → List ColumnRef
  columns (node k cs) = column_of k ++ columns_in cs

  pub columns_in : Children → List ColumnRef
  columns_in end = []
  columns_in (item e cs) = columns e ++ columns_in cs
  columns_in (child key e cs) = columns e ++ columns_in cs

-- The columns that do not stand inside a nested Select.
unfoldable mutual
  pub own_columns : Expr → List ColumnRef
  own_columns (node k cs) =
      let below = own_columns_in cs in if is_select k then [] else column_of k ++ below

  pub own_columns_in : Children → List ColumnRef
  own_columns_in end = []
  own_columns_in (item e cs) = own_columns e ++ own_columns_in cs
  own_columns_in (child key e cs) = own_columns e ++ own_columns_in cs

-- How deep Selects stand in one another.
unfoldable mutual
  pub depth : Expr → ℕ
  depth (node k cs) = let below = depth_in cs in if is_select k then suc below else below

  pub depth_in : Children → ℕ
  depth_in end = 0
  depth_in (item e cs) = max (depth e) (depth_in cs)
  depth_in (child key e cs) = max (depth e) (depth_in cs)

-- `list(expr.find_all(…))` of the nodes of a class.
unfoldable mutual
  pub find_all : (Kind → Bool) → Expr → List Expr
  find_all p (node k cs) = let below = find_all_in p cs in if p k then node k cs ∷ below else below

  pub find_all_in : (Kind → Bool) → Children → List Expr
  find_all_in p end = []
  find_all_in p (item e cs) = find_all p e ++ find_all_in p cs
  find_all_in p (child key e cs) = find_all p e ++ find_all_in p cs
