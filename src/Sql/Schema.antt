-- ===== src/Sql/Schema.antt =====
-- common/schema.rs: SqlSchema with its tables, SqlTable, SqlView, SqlStatistics, and
-- SqlTableSource. A row count is the bit pattern of its f64, and a function of SQL is known by its
-- number.
use text.Mathlib.Text.{◌==◌ as str_eq}
use xorq_datafusion.Common.{
  ℕ, Bool, true, false, not, ◌&&◌, ◌||◌, Option, none, some, List, [], ◌∷◌, ◌++◌, String, Result,
  ok, if◌then◌else◌, traverse,
}
use xorq_datafusion.DataType.Types.{DataTypeMap}
use xorq_datafusion.Expr.Types.{Expr}
use xorq_datafusion.Filter.Pushdown.{TableProviderFilterPushDown, exact, inexact, unsupported}
pub mod Lookup

pub record SqlStatistics : Type 0 where
  pub row_count : ℕ

unfoldable pub new_statistics : ℕ → SqlStatistics
new_statistics row_count = record { row_count = row_count }

unfoldable pub get_row_count : SqlStatistics → ℕ
get_row_count self = self.row_count

pub record SqlTable : Type 0 where
  pub name : String
  pub columns : List (String × DataTypeMap)
  pub primary_key : Option String
  pub foreign_keys : List String
  pub indexes : List String
  pub constraints : List String
  pub statistics : SqlStatistics
  pub filepaths : Option (List String)

unfoldable pub new_table :
    String → List (String × DataTypeMap) → ℕ → Option (List String) → SqlTable
unfolding new_statistics
new_table table_name columns row_count filepaths = record {
  name = table_name;
  columns = columns;
  primary_key = none;
  foreign_keys = [];
  indexes = [];
  constraints = [];
  statistics = new_statistics row_count;
  filepaths = filepaths;
}

pub record SqlView : Type 0 where
  pub name : String
  pub definition : String

pub record SqlSchema : Type 0 where
  pub name : String
  pub tables : List SqlTable
  pub views : List SqlView
  pub functions : List ℕ

-- `SqlSchema::new`
unfoldable pub new : String → SqlSchema
new schema_name = record { name = schema_name; tables = []; views = []; functions = [] }

-- The loop of `table_by_name`, which returns at the first table of the name.
first_named : String → List SqlTable → Option SqlTable
first_named table_name [] = none
first_named table_name (t ∷ ts) =
    if str_eq t.name table_name then some t else first_named table_name ts

unfoldable pub table_by_name : SqlSchema → String → Option SqlTable
unfolding first_named
table_by_name self table_name = first_named table_name self.tables

unfoldable pub add_table : SqlSchema → SqlTable → SqlSchema
add_table self table = record self { tables = self.tables ++ table ∷ [] }

-- `retain` of the tables that have another name
retain_others : String → List SqlTable → List SqlTable
retain_others table_name [] = []
retain_others table_name (t ∷ ts) =
    let rest = retain_others table_name ts in
    if not (str_eq t.name table_name) then t ∷ rest else rest

unfoldable pub drop_table : SqlSchema → String → SqlSchema
unfolding retain_others
drop_table self table_name = record self { tables = retain_others table_name self.tables }

-- A source of a SQL table; `Schema` is Arrow's.
pub record SqlTableSource (Schema : Type 0) : Type 0 where
  pub schema : Schema
  pub statistics : Option SqlStatistics
  pub filepaths : Option (List String)

-- `SqlTableSource::new`
unfoldable pub new_source :
    {Schema : Type 0} → Schema → Option SqlStatistics → Option (List String) → SqlTableSource Schema
new_source schema statistics filepaths = record {
  schema = schema;
  statistics = statistics;
  filepaths = filepaths;
}

unfoldable pub is_supported_push_down_expr : Expr → Bool
is_supported_push_down_expr e = true

-- `iter().all` and `iter().any`
abbrev all : (Expr → Bool) → List Expr → Bool
all p [] = true
all p (e ∷ es) = p e && all p es

abbrev any : (Expr → Bool) → List Expr → Bool
any p [] = false
any p (e ∷ es) = p e || any p es

-- `split_conjunction` gives the operands of a conjunction.
module _ (split_conjunction : Expr → List Expr) where
  abbrev push_down : Expr → TableProviderFilterPushDown
  push_down f =
      let filters = split_conjunction f in
      if all is_supported_push_down_expr filters
      then exact
      else if any is_supported_push_down_expr filters
      then inexact
      else unsupported

  unfoldable pub supports_filters_pushdown : List Expr → Result (List TableProviderFilterPushDown)
  supports_filters_pushdown = traverse λ f. ok (push_down f)
