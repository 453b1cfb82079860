-- ===== src/Mongo.antt =====
-- Queries of document stores. Models backend/app/rewriters/mongo_rewriter.py. A query is given by
-- its collection, filter and projection.
pub mod Columns
pub mod Filters
mod Tests
use metasight.Prelude.{
  List, Option, String, Text, [], codes, elem, if◌then◌else◌, nat_eq, none, or_else, some,
  string_eq, text_eq, ◌==◌, ◌||◌, ◌∷◌,
}
use metasight.Prelude.Dict.{Dict, insert, lookup}
use metasight.Identity.{User, role}
use metasight.Json.{Fields, Json, end, field, num}
use metasight.Policy.{RowCondition}
use metasight.Policy.Attributes.{replace}
use metasight.Tokenization.{ColumnAction, value}

pub record MongoQuery : Type 0 where
  pub collection : Option String
  pub filter : Fields
  pub projection : Dict Json

-- A filter after the rewriting: the one that was there, the row conditions, or
-- `{"$and": [existing, conditions]}`.
pub data Filter : Type 0 where
  existing : Fields → Filter
  conditions : Dict Text → Filter
  and_both : Fields → Dict Text → Filter

pub record RewrittenQuery : Type 0 where
  pub query_filter : Filter
  pub query_projection : Dict Json

-- `user.get("region", "")`.
abbrev pub region : User → Text
region user = codes (or_else (lookup "region" user.claims) "")

unfoldable pub row_conditions : User → List RowCondition → Dict Text → Dict Text
row_conditions user [] found = found
row_conditions user (rf ∷ row_filters) found =
    row_conditions user row_filters
      (insert rf.column (replace (codes "{user.region}") (region user) rf.value) found)

unfoldable pub apply_row_filter : Fields → List RowCondition → User → Filter
apply_row_filter existing_filter row_filters user = elim (row_conditions user row_filters []) [
  | [] ↦ existing existing_filter
  | c ∷ cs ↦ elim existing_filter [
    | end ↦ conditions (c ∷ cs)
    | field k v rest ↦ and_both (field k v rest) (c ∷ cs)
  ]
]

-- What the projection holds of a field with a policy; an action of another name leaves it out.
unfoldable pub projected : User → ColumnAction → Option Json
projected user pol =
    if elem (role user) pol.roles_exempt || pol.action == "allow"
    then some (num 1)
    else if pol.action == "deny"
    then some (num 0)
    else if pol.action == "mask" || pol.action == "tokenize"
    then some (num 1)
    else none

unfoldable pub apply_projection : Dict Json → Dict ColumnAction → User → Dict Json → Dict Json
apply_projection [] col_policies user result = result
apply_projection ((name, include) ∷ projection) col_policies user result =
    apply_projection projection col_policies user (elim (lookup name col_policies) [
      | none ↦ insert name include result
      | some pol ↦ elim (projected user pol) [ none ↦ result | some v ↦ insert name v result ]
    ])

unfoldable pub rewrite : MongoQuery → List RowCondition → Dict ColumnAction → User → RewrittenQuery
rewrite query row_filters col_policies user = record {
  query_filter = apply_row_filter query.filter row_filters user;
  query_projection = apply_projection query.projection col_policies user [];
}
