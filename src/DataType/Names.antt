-- ===== src/DataType/Names.antt =====
-- common/data_type.rs: the names of data types, for Python and from Parquet and pandas.
-- `lowercase` is `str::to_lowercase`; `quoted` and `debug` are `{:?}` on a text and on `DataType`.
use Prim.Native.Char.{code}
use Prim.Native.String.{◌++◌ as append}
use text.Mathlib.Text.{◌==◌ as str_eq}
use xorq_datafusion.Common.{
  String, none, Result, ok, err, value_error, not_implemented, ◌>>=◌, ◌==◌, if◌then◌else◌,
}
use xorq_datafusion.DataType.Types.{DataType, nanosecond, DataTypeMap}
use xorq_datafusion.DataType.Arrow.{map_from_arrow_type}

friendly : DataType → Result String
friendly DataType.null = ok "Null"
friendly DataType.boolean = ok "Boolean"
friendly DataType.int8 = ok "Int8"
friendly DataType.int16 = ok "Int16"
friendly DataType.int32 = ok "Int32"
friendly DataType.int64 = ok "Int64"
friendly DataType.uint8 = ok "UInt8"
friendly DataType.uint16 = ok "UInt16"
friendly DataType.uint32 = ok "UInt32"
friendly DataType.uint64 = ok "UInt64"
friendly DataType.float16 = ok "Float16"
friendly DataType.float32 = ok "Float32"
friendly DataType.float64 = ok "Float64"
friendly (DataType.timestamp unit tz) = ok "Timestamp"
friendly DataType.date32 = ok "Date32"
friendly DataType.date64 = ok "Date64"
friendly (DataType.time32 unit) = ok "Time32"
friendly (DataType.time64 unit) = ok "Time64"
friendly (DataType.duration unit) = ok "Duration"
friendly (DataType.interval unit) = ok "Interval"
friendly DataType.binary = ok "Binary"
friendly (DataType.fixed_size_binary n) = ok "FixedSizeBinary"
friendly DataType.large_binary = ok "LargeBinary"
friendly DataType.binary_view = err (not_implemented "Unknown DataType")
friendly DataType.utf8 = ok "Utf8"
friendly DataType.large_utf8 = ok "LargeUtf8"
friendly DataType.utf8_view = err (not_implemented "Unknown DataType")
friendly (DataType.list f) = ok "List"
friendly (DataType.list_view f) = err (not_implemented "Unknown DataType")
friendly (DataType.fixed_size_list f n) = ok "FixedSizeList"
friendly (DataType.large_list f) = ok "LargeList"
friendly (DataType.large_list_view f) = err (not_implemented "Unknown DataType")
friendly (DataType.struct fs) = ok "Struct"
friendly (DataType.union fs mode) = ok "Union"
friendly (DataType.dictionary k v) = ok "Dictionary"
friendly (DataType.decimal32 p s) = ok "Decimal32"
friendly (DataType.decimal64 p s) = ok "Decimal64"
friendly (DataType.decimal128 p s) = ok "Decimal128"
friendly (DataType.decimal256 p s) = ok "Decimal256"
friendly (DataType.map f sorted) = ok "Map"
friendly (DataType.run_end_encoded f g) = ok "RunEndEncoded"

unfoldable pub friendly_arrow_type_name : DataTypeMap → Result String
unfolding friendly
friendly_arrow_type_name m = friendly m.arrow_type

-- The text before the first `[`, or all of it.
unfoldable pub trim_metadata : String → String
trim_metadata String.[] = ""
trim_metadata (String.◌∷◌ c s) = if code c == b'[' then "" else String.◌∷◌ c (trim_metadata s)

-- `shown` is what the error quotes.
unfoldable pub arrow_of : String → String → Result DataType
arrow_of shown s =
    if str_eq s "bool"
    then ok DataType.boolean
    else if str_eq s "boolean"
    then ok DataType.boolean
    else if str_eq s "uint8"
    then ok DataType.uint8
    else if str_eq s "uint16"
    then ok DataType.uint16
    else if str_eq s "uint32"
    then ok DataType.uint32
    else if str_eq s "uint64"
    then ok DataType.uint64
    else if str_eq s "int8"
    then ok DataType.int8
    else if str_eq s "int16"
    then ok DataType.int16
    else if str_eq s "int32"
    then ok DataType.int32
    else if str_eq s "int64"
    then ok DataType.int64
    else if str_eq s "float"
    then ok DataType.float32
    else if str_eq s "double"
    then ok DataType.float64
    else if str_eq s "float16"
    then ok DataType.float16
    else if str_eq s "float32"
    then ok DataType.float32
    else if str_eq s "float64"
    then ok DataType.float64
    else if str_eq s "datetime64"
    then ok DataType.date64
    else if str_eq s "object"
    then ok DataType.utf8
    else err
        (value_error (append "Unable to determine Arrow Data Type from Arrow String type: " shown))

parquet_of : String → String → Result DataType
parquet_of shown s =
    if str_eq s "boolean"
    then ok DataType.boolean
    else if str_eq s "int32"
    then ok DataType.int32
    else if str_eq s "int64"
    then ok DataType.int64
    else if str_eq s "int96"
    then ok (DataType.timestamp nanosecond none)
    else if str_eq s "float"
    then ok DataType.float32
    else if str_eq s "double"
    then ok DataType.float64
    else if str_eq s "byte_array"
    then ok DataType.utf8
    else err (
        value_error (append "Unable to determine Arrow Data Type from Parquet String type: " shown))

module _ (lowercase quoted : String → String) where
  -- `PyDataType::py_map_from_arrow_type_str`
  unfoldable pub py_map_from_arrow_type_str : String → Result DataType
  unfolding trim_metadata arrow_of
  py_map_from_arrow_type_str s =
      let trimmed = trim_metadata s in arrow_of (quoted trimmed) (lowercase trimmed)

  unfoldable pub py_map_from_parquet_type_str : (DataType → String) → String → Result DataTypeMap
  unfolding parquet_of map_from_arrow_type
  py_map_from_parquet_type_str debug s =
      parquet_of (quoted s) (lowercase s) >>= λ t. map_from_arrow_type debug t

unfoldable pub to_arrow_str : (DataType → String) → DataType → Result String
to_arrow_str debug DataType.null =
    err
      (value_error (append "Unable to determine Arrow Data Type from type: " (debug DataType.null)))
to_arrow_str debug DataType.boolean = ok "boolean"
to_arrow_str debug DataType.int8 = ok "int8"
to_arrow_str debug DataType.int16 = ok "int16"
to_arrow_str debug DataType.int32 = ok "int32"
to_arrow_str debug DataType.int64 = ok "int64"
to_arrow_str debug DataType.uint8 = ok "uint8"
to_arrow_str debug DataType.uint16 = ok "uint16"
to_arrow_str debug DataType.uint32 = ok "uint32"
to_arrow_str debug DataType.uint64 = ok "uint64"
to_arrow_str debug DataType.float16 = ok "float16"
to_arrow_str debug DataType.float32 = ok "float32"
to_arrow_str debug DataType.float64 = ok "float64"
to_arrow_str debug (DataType.timestamp unit tz) = err (
    value_error (
      append "Unable to determine Arrow Data Type from type: "
        (debug (DataType.timestamp unit tz))))
to_arrow_str debug DataType.date32 =
    err (
      value_error
        (append "Unable to determine Arrow Data Type from type: " (debug DataType.date32)))
to_arrow_str debug DataType.date64 = ok "datetime64"
to_arrow_str debug (DataType.time32 unit) = err (
    value_error
      (append "Unable to determine Arrow Data Type from type: " (debug (DataType.time32 unit))))
to_arrow_str debug (DataType.time64 unit) = err (
    value_error
      (append "Unable to determine Arrow Data Type from type: " (debug (DataType.time64 unit))))
to_arrow_str debug (DataType.duration unit) = err (
    value_error
      (append "Unable to determine Arrow Data Type from type: " (debug (DataType.duration unit))))
to_arrow_str debug (DataType.interval unit) = err (
    value_error
      (append "Unable to determine Arrow Data Type from type: " (debug (DataType.interval unit))))
to_arrow_str debug DataType.binary =
    err (
      value_error
        (append "Unable to determine Arrow Data Type from type: " (debug DataType.binary)))
to_arrow_str debug (DataType.fixed_size_binary n) = err (
    value_error (
      append "Unable to determine Arrow Data Type from type: "
        (debug (DataType.fixed_size_binary n))))
to_arrow_str debug DataType.large_binary = err (
    value_error
      (append "Unable to determine Arrow Data Type from type: " (debug DataType.large_binary)))
to_arrow_str debug DataType.binary_view = err (
    value_error
      (append "Unable to determine Arrow Data Type from type: " (debug DataType.binary_view)))
to_arrow_str debug DataType.utf8 = ok "object"
to_arrow_str debug DataType.large_utf8 = err (
    value_error
      (append "Unable to determine Arrow Data Type from type: " (debug DataType.large_utf8)))
to_arrow_str debug DataType.utf8_view = err (
    value_error
      (append "Unable to determine Arrow Data Type from type: " (debug DataType.utf8_view)))
to_arrow_str debug (DataType.list f) = err (
    value_error
      (append "Unable to determine Arrow Data Type from type: " (debug (DataType.list f))))
to_arrow_str debug (DataType.list_view f) = err (
    value_error
      (append "Unable to determine Arrow Data Type from type: " (debug (DataType.list_view f))))
to_arrow_str debug (DataType.fixed_size_list f n) = err (
    value_error (
      append "Unable to determine Arrow Data Type from type: "
        (debug (DataType.fixed_size_list f n))))
to_arrow_str debug (DataType.large_list f) = err (
    value_error
      (append "Unable to determine Arrow Data Type from type: " (debug (DataType.large_list f))))
to_arrow_str debug (DataType.large_list_view f) = err (
    value_error (
      append "Unable to determine Arrow Data Type from type: "
        (debug (DataType.large_list_view f))))
to_arrow_str debug (DataType.struct fs) = err (
    value_error
      (append "Unable to determine Arrow Data Type from type: " (debug (DataType.struct fs))))
to_arrow_str debug (DataType.union fs mode) = err (
    value_error
      (append "Unable to determine Arrow Data Type from type: " (debug (DataType.union fs mode))))
to_arrow_str debug (DataType.dictionary k v) = err (
    value_error
      (append "Unable to determine Arrow Data Type from type: " (debug (DataType.dictionary k v))))
to_arrow_str debug (DataType.decimal32 p s) = err (
    value_error
      (append "Unable to determine Arrow Data Type from type: " (debug (DataType.decimal32 p s))))
to_arrow_str debug (DataType.decimal64 p s) = err (
    value_error
      (append "Unable to determine Arrow Data Type from type: " (debug (DataType.decimal64 p s))))
to_arrow_str debug (DataType.decimal128 p s) = err (
    value_error
      (append "Unable to determine Arrow Data Type from type: " (debug (DataType.decimal128 p s))))
to_arrow_str debug (DataType.decimal256 p s) = err (
    value_error
      (append "Unable to determine Arrow Data Type from type: " (debug (DataType.decimal256 p s))))
to_arrow_str debug (DataType.map f sorted) = err (
    value_error
      (append "Unable to determine Arrow Data Type from type: " (debug (DataType.map f sorted))))
to_arrow_str debug (DataType.run_end_encoded f g) = err (
    value_error (
      append "Unable to determine Arrow Data Type from type: "
        (debug (DataType.run_end_encoded f g))))
