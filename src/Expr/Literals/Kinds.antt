-- ===== src/Expr/Literals/Kinds.antt =====
-- Which literals the getters of `PyLiteral` read.
use xorq_datafusion.Common.{◌≡◌, Bool, true, false, String, arith, ok, is_ok}
use xorq_datafusion.DataType.Types.{DataType, ScalarValue, nanosecond, day_time}
use xorq_datafusion.DataType.Arrow.{map_from_scalar_to_arrow}
use xorq_datafusion.Expr.Literals.{
  value_f32, value_f64, value_decimal128, value_i8, value_i16, value_i32, value_i64, value_u8,
  value_u16, value_u32, value_u64, value_date32, value_date64, value_time64, value_timestamp,
  value_bool, value_string, value_interval_day_time,
}

pub data Getter : Type 0 where
  f32 f64 decimal128 i8 i16 i32 i64 u8 u16 u32 u64 date32 date64 time64 timestamp bool string :
      Getter
  interval_day_time : Getter

-- The types whose values a getter is named for.
abbrev pub names_type : Getter → DataType → Bool
names_type f32 DataType.float32 = true
names_type f64 DataType.float64 = true
names_type decimal128 (DataType.decimal128 p s) = true
names_type i8 DataType.int8 = true
names_type i16 DataType.int16 = true
names_type i32 DataType.int32 = true
names_type i64 DataType.int64 = true
names_type u8 DataType.uint8 = true
names_type u16 DataType.uint16 = true
names_type u32 DataType.uint32 = true
names_type u64 DataType.uint64 = true
names_type date32 DataType.date32 = true
names_type date64 DataType.date64 = true
names_type time64 (DataType.time64 nanosecond) = true
names_type timestamp (DataType.timestamp unit tz) = true
names_type bool DataType.boolean = true
names_type string DataType.utf8 = true
names_type interval_day_time (DataType.interval day_time) = true
names_type _ _ = false

-- A list is of the type that its array has, which no getter is named for.
abbrev pub ListTyped : ScalarValue → Type 0
ListTyped (ScalarValue.list t) = (g : Getter) → names_type g t ≡ false
ListTyped _ = Unit

module _ (display : ScalarValue → String) where
  -- Whether a getter returns a value.
  abbrev pub returns : Getter → ScalarValue → Bool
  returns f32 v = is_ok (value_f32 display v)
  returns f64 v = is_ok (value_f64 display v)
  returns decimal128 v = is_ok (value_decimal128 display v)
  returns i8 v = is_ok (value_i8 display v)
  returns i16 v = is_ok (value_i16 display v)
  returns i32 v = is_ok (value_i32 display v)
  returns i64 v = is_ok (value_i64 display v)
  returns u8 v = is_ok (value_u8 display v)
  returns u16 v = is_ok (value_u16 display v)
  returns u32 v = is_ok (value_u32 display v)
  returns u64 v = is_ok (value_u64 display v)
  returns date32 v = is_ok (value_date32 display v)
  returns date64 v = is_ok (value_date64 display v)
  returns time64 v = is_ok (value_time64 display v)
  returns timestamp v = is_ok (value_timestamp display v)
  returns bool v = is_ok (value_bool display v)
  returns string v = is_ok (value_string display v)
  returns interval_day_time v = is_ok (value_interval_day_time display v)

  -- A getter returns a value exactly for the literals whose Arrow type, as the crate maps it, is
  -- one that the getter is named for, if the type of a list is none of these.
  pub returns-names_type :
      (debug : DataType → String) (g : Getter) (v : ScalarValue) (t : DataType)
      → ListTyped v
      → map_from_scalar_to_arrow debug v ≡ ok t
      → returns g v ≡ names_type g t
  unfolding map_from_scalar_to_arrow value_f32 value_f64 value_decimal128 value_i8 value_i16
      value_i32 value_i64 value_u8 value_u16 value_u32 value_u64 value_date32 value_date64
      value_time64 value_timestamp value_bool value_string value_interval_day_time
  returns-names_type debug f32 (ScalarValue.list u) t l h = ground (arith, l f32)
  returns-names_type debug f32 _ t l h = ground arith
  returns-names_type debug f64 (ScalarValue.list u) t l h = ground (arith, l f64)
  returns-names_type debug f64 _ t l h = ground arith
  returns-names_type debug decimal128 (ScalarValue.list u) t l h = ground (arith, l decimal128)
  returns-names_type debug decimal128 _ t l h = ground arith
  returns-names_type debug i8 (ScalarValue.list u) t l h = ground (arith, l i8)
  returns-names_type debug i8 _ t l h = ground arith
  returns-names_type debug i16 (ScalarValue.list u) t l h = ground (arith, l i16)
  returns-names_type debug i16 _ t l h = ground arith
  returns-names_type debug i32 (ScalarValue.list u) t l h = ground (arith, l i32)
  returns-names_type debug i32 _ t l h = ground arith
  returns-names_type debug i64 (ScalarValue.list u) t l h = ground (arith, l i64)
  returns-names_type debug i64 _ t l h = ground arith
  returns-names_type debug u8 (ScalarValue.list u) t l h = ground (arith, l u8)
  returns-names_type debug u8 _ t l h = ground arith
  returns-names_type debug u16 (ScalarValue.list u) t l h = ground (arith, l u16)
  returns-names_type debug u16 _ t l h = ground arith
  returns-names_type debug u32 (ScalarValue.list u) t l h = ground (arith, l u32)
  returns-names_type debug u32 _ t l h = ground arith
  returns-names_type debug u64 (ScalarValue.list u) t l h = ground (arith, l u64)
  returns-names_type debug u64 _ t l h = ground arith
  returns-names_type debug date32 (ScalarValue.list u) t l h = ground (arith, l date32)
  returns-names_type debug date32 _ t l h = ground arith
  returns-names_type debug date64 (ScalarValue.list u) t l h = ground (arith, l date64)
  returns-names_type debug date64 _ t l h = ground arith
  returns-names_type debug time64 (ScalarValue.list u) t l h = ground (arith, l time64)
  returns-names_type debug time64 _ t l h = ground arith
  returns-names_type debug timestamp (ScalarValue.list u) t l h = ground (arith, l timestamp)
  returns-names_type debug timestamp _ t l h = ground arith
  returns-names_type debug bool (ScalarValue.list u) t l h = ground (arith, l bool)
  returns-names_type debug bool _ t l h = ground arith
  returns-names_type debug string (ScalarValue.list u) t l h = ground (arith, l string)
  returns-names_type debug string _ t l h = ground arith
  returns-names_type debug interval_day_time (ScalarValue.list u) t l h =
      ground (arith, l interval_day_time)
  returns-names_type debug interval_day_time _ t l h = ground arith
