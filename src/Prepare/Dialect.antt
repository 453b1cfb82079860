-- ===== src/Prepare/Dialect.antt =====
-- The SQL dialect of a source. Models _get_dialect of backend/app/services/gateway_prepare.py.
use metasight.Prelude.{
  List, String, Text, [], codes, if◌then◌else◌, lower, nat_eq, string_eq, text_eq, ◌==◌, ◌∷◌,
}

-- `_dialect_map`.

abbrev pub dialect_map : List (String × String)
dialect_map =
    ("postgres", "postgres")
    ∷ ("postgresql", "postgres")
    ∷ ("redshift", "redshift")
    ∷ ("greenplum", "postgres")
    ∷ ("cockroach", "postgres")
    ∷ ("yugabyte", "postgres")
    ∷ ("mysql", "mysql")
    ∷ ("mariadb", "mysql")
    ∷ ("tidb", "mysql")
    ∷ ("mssql", "tsql")
    ∷ ("sqlserver", "tsql")
    ∷ ("azuresql", "tsql")
    ∷ ("snowflake", "snowflake")
    ∷ ("bigquery", "bigquery")
    ∷ ("duckdb", "duckdb")
    ∷ ("clickhouse", "clickhouse")
    ∷ ("databricks", "databricks")
    ∷ ("spark", "spark")
    ∷ ("trino", "trino")
    ∷ ("presto", "presto")
    ∷ ("oracle", "oracle")
    ∷ ("oracledb", "oracle")
    ∷ []

-- `_dialect_map.get(source_type.lower(), "postgres")`.
unfoldable pub dialect_from : List (String × String) → Text → String
dialect_from [] name = "postgres"
dialect_from ((key, dialect) ∷ rest) name =
    if codes key == name then dialect else dialect_from rest name

unfoldable pub get_dialect : String → String
get_dialect source_type = dialect_from dialect_map (lower (codes source_type))
