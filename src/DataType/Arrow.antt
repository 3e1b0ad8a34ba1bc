-- ===== src/DataType/Arrow.antt =====
-- common/data_type.rs: `DataTypeMap::new`, `map_from_arrow_type`, `map_from_scalar_to_arrow` and
-- `map_from_scalar_value`. `debug` is `{:?}` on `DataType`, which is Arrow's.
use xorq_datafusion.Common.{String, Result, ok, err, not_implemented, ◌>>=◌}
use xorq_datafusion.DataType.Types.{
  DataType, IntervalUnit, year_month, day_time, month_day_nano, second, millisecond, microsecond,
  nanosecond, PythonType, SqlType, ScalarValue, DataTypeMap,
}

-- `DataTypeMap::new`
abbrev pub new : DataType → PythonType → SqlType → DataTypeMap
new arrow_type python_type sql_type = record {
  arrow_type = arrow_type;
  python_type = python_type;
  sql_type = sql_type;
}

abbrev interval_sql : IntervalUnit → SqlType
interval_sql day_time = SqlType.interval_day
interval_sql month_day_nano = SqlType.interval_month
interval_sql year_month = SqlType.interval_year_month

module _ (debug : DataType → String) where
  unsupported : DataType → Result DataTypeMap
  unsupported t = err (not_implemented (debug t))

  unfoldable pub map_from_arrow_type : DataType → Result DataTypeMap
  unfolding unsupported
  map_from_arrow_type DataType.null = ok (new DataType.null PythonType.none SqlType.null)
  map_from_arrow_type DataType.boolean = ok (new DataType.boolean PythonType.bool SqlType.boolean)
  map_from_arrow_type DataType.int8 = ok (new DataType.int8 PythonType.int SqlType.tinyint)
  map_from_arrow_type DataType.int16 = ok (new DataType.int16 PythonType.int SqlType.smallint)
  map_from_arrow_type DataType.int32 = ok (new DataType.int32 PythonType.int SqlType.integer)
  map_from_arrow_type DataType.int64 = ok (new DataType.int64 PythonType.int SqlType.bigint)
  map_from_arrow_type DataType.uint8 = ok (new DataType.uint8 PythonType.int SqlType.tinyint)
  map_from_arrow_type DataType.uint16 = ok (new DataType.uint16 PythonType.int SqlType.smallint)
  map_from_arrow_type DataType.uint32 = ok (new DataType.uint32 PythonType.int SqlType.integer)
  map_from_arrow_type DataType.uint64 = ok (new DataType.uint64 PythonType.int SqlType.bigint)
  map_from_arrow_type DataType.float16 = ok (new DataType.float16 PythonType.float SqlType.float)
  map_from_arrow_type DataType.float32 = ok (new DataType.float32 PythonType.float SqlType.float)
  map_from_arrow_type DataType.float64 = ok (new DataType.float64 PythonType.float SqlType.float)
  map_from_arrow_type (DataType.timestamp unit tz) =
      ok (new (DataType.timestamp unit tz) PythonType.datetime SqlType.date)
  map_from_arrow_type DataType.date32 = ok (new DataType.date32 PythonType.datetime SqlType.date)
  map_from_arrow_type DataType.date64 = ok (new DataType.date64 PythonType.datetime SqlType.date)
  map_from_arrow_type (DataType.time32 unit) =
      ok (new (DataType.time32 unit) PythonType.datetime SqlType.date)
  map_from_arrow_type (DataType.time64 unit) =
      ok (new (DataType.time64 unit) PythonType.datetime SqlType.date)
  map_from_arrow_type (DataType.duration unit) = unsupported (DataType.duration unit)
  map_from_arrow_type (DataType.interval unit) =
      ok (new (DataType.interval unit) PythonType.datetime (interval_sql unit))
  map_from_arrow_type DataType.binary = ok (new DataType.binary PythonType.bytes SqlType.binary)
  map_from_arrow_type (DataType.fixed_size_binary n) = unsupported (DataType.fixed_size_binary n)
  map_from_arrow_type DataType.large_binary =
      ok (new DataType.large_binary PythonType.bytes SqlType.binary)
  map_from_arrow_type DataType.binary_view = unsupported DataType.binary_view
  map_from_arrow_type DataType.utf8 = ok (new DataType.utf8 PythonType.str SqlType.varchar)
  map_from_arrow_type DataType.large_utf8 =
      ok (new DataType.large_utf8 PythonType.str SqlType.varchar)
  map_from_arrow_type DataType.utf8_view = unsupported DataType.utf8_view
  map_from_arrow_type (DataType.list f) = unsupported (DataType.list f)
  map_from_arrow_type (DataType.list_view f) = unsupported (DataType.list_view f)
  map_from_arrow_type (DataType.fixed_size_list f n) = unsupported (DataType.fixed_size_list f n)
  map_from_arrow_type (DataType.large_list f) = unsupported (DataType.large_list f)
  map_from_arrow_type (DataType.large_list_view f) = unsupported (DataType.large_list_view f)
  map_from_arrow_type (DataType.struct fs) = unsupported (DataType.struct fs)
  map_from_arrow_type (DataType.union fs mode) = unsupported (DataType.union fs mode)
  map_from_arrow_type (DataType.dictionary k v) = unsupported (DataType.dictionary k v)
  map_from_arrow_type (DataType.decimal32 p s) =
      ok (new (DataType.decimal32 p s) PythonType.float SqlType.decimal)
  map_from_arrow_type (DataType.decimal64 p s) =
      ok (new (DataType.decimal64 p s) PythonType.float SqlType.decimal)
  map_from_arrow_type (DataType.decimal128 p s) =
      ok (new (DataType.decimal128 p s) PythonType.float SqlType.decimal)
  map_from_arrow_type (DataType.decimal256 p s) =
      ok (new (DataType.decimal256 p s) PythonType.float SqlType.decimal)
  map_from_arrow_type (DataType.map f sorted) = unsupported (DataType.map f sorted)
  map_from_arrow_type (DataType.run_end_encoded f g) = unsupported (DataType.run_end_encoded f g)

  unfoldable pub map_from_scalar_to_arrow : ScalarValue → Result DataType
  map_from_scalar_to_arrow (ScalarValue.boolean v) = ok DataType.boolean
  map_from_scalar_to_arrow (ScalarValue.float32 v) = ok DataType.float32
  map_from_scalar_to_arrow (ScalarValue.float64 v) = ok DataType.float64
  map_from_scalar_to_arrow (ScalarValue.decimal128 v p s) = ok (DataType.decimal128 p s)
  map_from_scalar_to_arrow (ScalarValue.decimal256 v p s) = ok (DataType.decimal256 p s)
  map_from_scalar_to_arrow (ScalarValue.dictionary k v) =
      map_from_scalar_to_arrow v >>= λ t. ok (DataType.dictionary k t)
  map_from_scalar_to_arrow (ScalarValue.int8 v) = ok DataType.int8
  map_from_scalar_to_arrow (ScalarValue.int16 v) = ok DataType.int16
  map_from_scalar_to_arrow (ScalarValue.int32 v) = ok DataType.int32
  map_from_scalar_to_arrow (ScalarValue.int64 v) = ok DataType.int64
  map_from_scalar_to_arrow (ScalarValue.uint8 v) = ok DataType.uint8
  map_from_scalar_to_arrow (ScalarValue.uint16 v) = ok DataType.uint16
  map_from_scalar_to_arrow (ScalarValue.uint32 v) = ok DataType.uint32
  map_from_scalar_to_arrow (ScalarValue.uint64 v) = ok DataType.uint64
  map_from_scalar_to_arrow (ScalarValue.utf8 v) = ok DataType.utf8
  map_from_scalar_to_arrow (ScalarValue.large_utf8 v) = ok DataType.large_utf8
  map_from_scalar_to_arrow (ScalarValue.binary v) = ok DataType.binary
  map_from_scalar_to_arrow (ScalarValue.large_binary v) = ok DataType.large_binary
  map_from_scalar_to_arrow (ScalarValue.date32 v) = ok DataType.date32
  map_from_scalar_to_arrow (ScalarValue.date64 v) = ok DataType.date64
  map_from_scalar_to_arrow (ScalarValue.time32_second v) = ok (DataType.time32 second)
  map_from_scalar_to_arrow (ScalarValue.time32_millisecond v) = ok (DataType.time32 millisecond)
  map_from_scalar_to_arrow (ScalarValue.time64_microsecond v) = ok (DataType.time64 microsecond)
  map_from_scalar_to_arrow (ScalarValue.time64_nanosecond v) = ok (DataType.time64 nanosecond)
  map_from_scalar_to_arrow ScalarValue.null = ok DataType.null
  map_from_scalar_to_arrow (ScalarValue.timestamp_second v tz) = ok (DataType.timestamp second tz)
  map_from_scalar_to_arrow (ScalarValue.timestamp_millisecond v tz) =
      ok (DataType.timestamp millisecond tz)
  map_from_scalar_to_arrow (ScalarValue.timestamp_microsecond v tz) =
      ok (DataType.timestamp microsecond tz)
  map_from_scalar_to_arrow (ScalarValue.timestamp_nanosecond v tz) =
      ok (DataType.timestamp nanosecond tz)
  map_from_scalar_to_arrow (ScalarValue.interval_year_month v) = ok (DataType.interval year_month)
  map_from_scalar_to_arrow (ScalarValue.interval_day_time v) = ok (DataType.interval day_time)
  map_from_scalar_to_arrow (ScalarValue.interval_month_day_nano v) =
      ok (DataType.interval month_day_nano)
  map_from_scalar_to_arrow (ScalarValue.list t) = ok t
  map_from_scalar_to_arrow (ScalarValue.struct fs) = err (not_implemented "ScalarValue::Struct")
  map_from_scalar_to_arrow (ScalarValue.fixed_size_binary n v) = ok (DataType.fixed_size_binary n)
  map_from_scalar_to_arrow (ScalarValue.fixed_size_list t) =
      err (not_implemented "ScalarValue::FixedSizeList")
  map_from_scalar_to_arrow (ScalarValue.large_list t) =
      err (not_implemented "ScalarValue::LargeList")
  map_from_scalar_to_arrow (ScalarValue.duration_second v) = ok (DataType.duration second)
  map_from_scalar_to_arrow (ScalarValue.duration_millisecond v) = ok (DataType.duration millisecond)
  map_from_scalar_to_arrow (ScalarValue.duration_microsecond v) = ok (DataType.duration microsecond)
  map_from_scalar_to_arrow (ScalarValue.duration_nanosecond v) = ok (DataType.duration nanosecond)
  map_from_scalar_to_arrow (ScalarValue.other text) = err (not_implemented text)

  pub map_from_scalar_value : ScalarValue → Result DataTypeMap
  unfolding map_from_arrow_type map_from_scalar_to_arrow
  map_from_scalar_value v = map_from_scalar_to_arrow v >>= λ t. map_from_arrow_type t
