-- ===== src/Mongo/Tests.antt =====
-- Runs of backend/app/rewriters/mongo_rewriter.py, and the theorems at concrete inputs.
use metasight.Prelude.{All, List, [], codes, map, none, refl, some, text_beq, ◌∷◌, ◌≡◌}
use metasight.Prelude.Dict.{Dict, insert, lookup}
use metasight.Identity.{User}
use metasight.Json.{end, field, num}
use metasight.Policy.{RowCondition}
use metasight.Policy.Attributes.{replace, replace_from}
use metasight.Mask.Scan.{starts_with}
use metasight.Tokenization.{ColumnAction}
use metasight.Mongo.{
  and_both, apply_projection, apply_row_filter, projected, rewrite, row_conditions,
}
use metasight.Mongo.Filters.{Asked, DistinctColumns, Guards, apply_row_filter_lem, with_operator}

program : Unit {0}
unfolding rewrite apply_projection projected apply_row_filter row_conditions lookup insert replace
    replace_from starts_with text_beq
program = tt

abbrev analyst : User
analyst = record {
  tenant_id = 1;
  department_id = none;
  claims = ("role", "analyst") ∷ ("region", "EU") ∷ [];
}

abbrev policies : Dict ColumnAction
policies =
    ("ssn", record { action = "deny"; roles_exempt = [] })
    ∷ ("name", record { action = "deny"; roles_exempt = "analyst" ∷ [] })
    ∷ []

abbrev filters : List RowCondition
filters = record { column = "region"; operator = "!="; value = codes "{user.region}" } ∷ []

rewrites :
    rewrite
      (record {
        collection = some "orders";
        filter = field "age" (num 3) end;
        projection = ("ssn", num 1) ∷ ("name", num 1) ∷ ("_id", num 0) ∷ [];
      })
      filters
      policies
      analyst
    ≡ record {
      query_filter = and_both (field "age" (num 3) end) (("region", codes "EU") ∷ []);
      query_projection = ("ssn", num 0) ∷ ("name", num 1) ∷ ("_id", num 0) ∷ [];
    }
unfolding program
rewrites = refl

apply_row_filter_example :
    Guards end (row_conditions analyst filters []) (apply_row_filter end filters analyst)
    × (DistinctColumns filters → All (Asked analyst (row_conditions analyst filters [])) filters)
    × (apply_row_filter end (map (with_operator "=") filters) analyst
        ≡ apply_row_filter end filters analyst)
apply_row_filter_example = apply_row_filter_lem end filters analyst "="
