-- ===== src/DataType/Tests.antt =====
-- The theorems on the type maps, at single types.
use Prim.Native.String.{◌++◌ as append}
use xorq_datafusion.Common.{◌≡◌, refl, ok}
use xorq_datafusion.DataType.Types.{DataType, PythonType, SqlType, DataTypeMap}
use xorq_datafusion.DataType.Arrow.{map_from_arrow_type}
use xorq_datafusion.DataType.Sql.{py_map_from_sql_type}
use xorq_datafusion.DataType.Names.{to_arrow_str, py_map_from_arrow_type_str}
use xorq_datafusion.DataType.Laws.{
  sql_arrow_round_trip, ReadsBack, to_arrow_str-py_map_from_arrow_type_str,
}

abbrev stamp : DataTypeMap
stamp = record {
  arrow_type = DataType.date64;
  python_type = PythonType.datetime;
  sql_type = SqlType.date;
}

abbrev whole : DataTypeMap
whole = record {
  arrow_type = DataType.int8;
  python_type = PythonType.int;
  sql_type = SqlType.integer;
}

sql_arrow_round_trip_example :
    (whole.sql_type ≡ SqlType.integer)
    × ReadsBack whole (map_from_arrow_type (λ t. "type") DataType.int8)
unfolding py_map_from_sql_type
sql_arrow_round_trip_example =
    sql_arrow_round_trip (λ q. "type") (λ t. "type") SqlType.integer whole refl

to_arrow_str-py_map_from_arrow_type_str_example :
    (py_map_from_arrow_type_str (λ s. s) (λ s. s) "datetime64" ≡ ok DataType.date64)
    × (py_map_from_arrow_type_str (λ s. s) (λ s. s) (append "datetime64" (append "[" "ns]"))
        ≡ ok DataType.date64)
unfolding to_arrow_str
to_arrow_str-py_map_from_arrow_type_str_example =
    to_arrow_str-py_map_from_arrow_type_str (λ s. s) (λ s. s) (λ s h. refl) (λ t. "type")
      DataType.date64 "datetime64" "ns]" refl
