-- ===== src/DataType/Sql.antt =====
-- common/data_type.rs: `py_map_from_sql_type`. `debug` is the derived `{:?}` on `SqlType`.
use xorq_datafusion.Common.{String, Result, ok, err, not_implemented}
use xorq_datafusion.DataType.Types.{DataType, PythonType, SqlType, DataTypeMap}
use xorq_datafusion.DataType.Arrow.{new}

module _ (debug : SqlType → String) where
  unsupported : SqlType → Result DataTypeMap
  unsupported t = err (not_implemented (debug t))

  unfoldable pub py_map_from_sql_type : SqlType → Result DataTypeMap
  unfolding unsupported
  py_map_from_sql_type SqlType.any = unsupported SqlType.any
  py_map_from_sql_type SqlType.array = unsupported SqlType.array
  py_map_from_sql_type SqlType.bigint = ok (new DataType.int64 PythonType.int SqlType.bigint)
  py_map_from_sql_type SqlType.binary = ok (new DataType.binary PythonType.bytes SqlType.binary)
  py_map_from_sql_type SqlType.boolean = ok (new DataType.boolean PythonType.bool SqlType.boolean)
  py_map_from_sql_type SqlType.char = ok (new DataType.uint8 PythonType.int SqlType.char)
  py_map_from_sql_type SqlType.column_list = unsupported SqlType.column_list
  py_map_from_sql_type SqlType.cursor = unsupported SqlType.cursor
  py_map_from_sql_type SqlType.date = ok (new DataType.date64 PythonType.datetime SqlType.date)
  py_map_from_sql_type SqlType.decimal =
      ok (new (DataType.decimal128 1 1) PythonType.float SqlType.decimal)
  py_map_from_sql_type SqlType.distinct = unsupported SqlType.distinct
  py_map_from_sql_type SqlType.double =
      ok (new (DataType.decimal256 1 1) PythonType.float SqlType.double)
  py_map_from_sql_type SqlType.dynamic_star = unsupported SqlType.dynamic_star
  py_map_from_sql_type SqlType.float =
      ok (new (DataType.decimal128 1 1) PythonType.float SqlType.float)
  py_map_from_sql_type SqlType.geometry = unsupported SqlType.geometry
  py_map_from_sql_type SqlType.integer = ok (new DataType.int8 PythonType.int SqlType.integer)
  py_map_from_sql_type SqlType.interval = unsupported SqlType.interval
  py_map_from_sql_type SqlType.interval_day = unsupported SqlType.interval_day
  py_map_from_sql_type SqlType.interval_day_hour = unsupported SqlType.interval_day_hour
  py_map_from_sql_type SqlType.interval_day_minute = unsupported SqlType.interval_day_minute
  py_map_from_sql_type SqlType.interval_day_second = unsupported SqlType.interval_day_second
  py_map_from_sql_type SqlType.interval_hour = unsupported SqlType.interval_hour
  py_map_from_sql_type SqlType.interval_hour_minute = unsupported SqlType.interval_hour_minute
  py_map_from_sql_type SqlType.interval_hour_second = unsupported SqlType.interval_hour_second
  py_map_from_sql_type SqlType.interval_minute = unsupported SqlType.interval_minute
  py_map_from_sql_type SqlType.interval_minute_second = unsupported SqlType.interval_minute_second
  py_map_from_sql_type SqlType.interval_month = unsupported SqlType.interval_month
  py_map_from_sql_type SqlType.interval_second = unsupported SqlType.interval_second
  py_map_from_sql_type SqlType.interval_year = unsupported SqlType.interval_year
  py_map_from_sql_type SqlType.interval_year_month = unsupported SqlType.interval_year_month
  py_map_from_sql_type SqlType.map = unsupported SqlType.map
  py_map_from_sql_type SqlType.multiset = unsupported SqlType.multiset
  py_map_from_sql_type SqlType.null = ok (new DataType.null PythonType.none SqlType.null)
  py_map_from_sql_type SqlType.other = unsupported SqlType.other
  py_map_from_sql_type SqlType.real = unsupported SqlType.real
  py_map_from_sql_type SqlType.row = unsupported SqlType.row
  py_map_from_sql_type SqlType.sarg = unsupported SqlType.sarg
  py_map_from_sql_type SqlType.smallint = ok (new DataType.int16 PythonType.int SqlType.smallint)
  py_map_from_sql_type SqlType.structured = unsupported SqlType.structured
  py_map_from_sql_type SqlType.symbol = unsupported SqlType.symbol
  py_map_from_sql_type SqlType.time = unsupported SqlType.time
  py_map_from_sql_type SqlType.time_with_local_time_zone =
      unsupported SqlType.time_with_local_time_zone
  py_map_from_sql_type SqlType.timestamp = unsupported SqlType.timestamp
  py_map_from_sql_type SqlType.timestamp_with_local_time_zone =
      unsupported SqlType.timestamp_with_local_time_zone
  py_map_from_sql_type SqlType.tinyint = ok (new DataType.int8 PythonType.int SqlType.tinyint)
  py_map_from_sql_type SqlType.unknown = unsupported SqlType.unknown
  py_map_from_sql_type SqlType.varbinary =
      ok (new DataType.large_binary PythonType.bytes SqlType.varbinary)
  py_map_from_sql_type SqlType.varchar = ok (new DataType.utf8 PythonType.str SqlType.varchar)
