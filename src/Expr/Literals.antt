-- ===== src/Expr/Literals.antt =====
-- expr/literal.rs: what `PyLiteral` gives of its value. `display` is `{}` on DataFusion's scalars.
use Prim.Native.String.{◌++◌ as append}
use xorq_datafusion.Common.{ℕ, Bool, Option, none, some, String, Result, ok, err, value_error}
use xorq_datafusion.Common.Int.{ℤ}
use xorq_datafusion.DataType.Types.{
  ScalarValue, time64_nanosecond, timestamp_nanosecond, timestamp_microsecond,
  timestamp_millisecond, timestamp_second, interval_day_time,
}
pub mod Kinds

module _ (display : ScalarValue → String) where
  abbrev unexpected_literal_value {ℓ} : {A : Type ℓ} → ScalarValue → Result A
  unexpected_literal_value value =
      err (value_error (append "getValue<T>() - Unexpected value: " (display value)))

  unfoldable pub value_f32 : ScalarValue → Result (Option ℕ)
  value_f32 (ScalarValue.float32 v) = ok v
  value_f32 v = unexpected_literal_value v

  unfoldable pub value_f64 : ScalarValue → Result (Option ℕ)
  value_f64 (ScalarValue.float64 v) = ok v
  value_f64 v = unexpected_literal_value v

  unfoldable pub value_decimal128 : ScalarValue → Result (Option ℤ × ℕ × ℕ)
  value_decimal128 (ScalarValue.decimal128 v precision scale) = ok (v, precision, scale)
  value_decimal128 v = unexpected_literal_value v

  unfoldable pub value_i8 : ScalarValue → Result (Option ℤ)
  value_i8 (ScalarValue.int8 v) = ok v
  value_i8 v = unexpected_literal_value v

  unfoldable pub value_i16 : ScalarValue → Result (Option ℤ)
  value_i16 (ScalarValue.int16 v) = ok v
  value_i16 v = unexpected_literal_value v

  unfoldable pub value_i32 : ScalarValue → Result (Option ℤ)
  value_i32 (ScalarValue.int32 v) = ok v
  value_i32 v = unexpected_literal_value v

  unfoldable pub value_i64 : ScalarValue → Result (Option ℤ)
  value_i64 (ScalarValue.int64 v) = ok v
  value_i64 v = unexpected_literal_value v

  unfoldable pub value_u8 : ScalarValue → Result (Option ℕ)
  value_u8 (ScalarValue.uint8 v) = ok v
  value_u8 v = unexpected_literal_value v

  unfoldable pub value_u16 : ScalarValue → Result (Option ℕ)
  value_u16 (ScalarValue.uint16 v) = ok v
  value_u16 v = unexpected_literal_value v

  unfoldable pub value_u32 : ScalarValue → Result (Option ℕ)
  value_u32 (ScalarValue.uint32 v) = ok v
  value_u32 v = unexpected_literal_value v

  unfoldable pub value_u64 : ScalarValue → Result (Option ℕ)
  value_u64 (ScalarValue.uint64 v) = ok v
  value_u64 v = unexpected_literal_value v

  unfoldable pub value_date32 : ScalarValue → Result (Option ℤ)
  value_date32 (ScalarValue.date32 v) = ok v
  value_date32 v = unexpected_literal_value v

  unfoldable pub value_date64 : ScalarValue → Result (Option ℤ)
  value_date64 (ScalarValue.date64 v) = ok v
  value_date64 v = unexpected_literal_value v

  unfoldable pub value_time64 : ScalarValue → Result (Option ℤ)
  value_time64 (time64_nanosecond v) = ok v
  value_time64 v = unexpected_literal_value v

  unfoldable pub value_timestamp : ScalarValue → Result (Option ℤ × Option String)
  value_timestamp (timestamp_nanosecond iv tz) = ok (iv, tz)
  value_timestamp (timestamp_microsecond iv tz) = ok (iv, tz)
  value_timestamp (timestamp_millisecond iv tz) = ok (iv, tz)
  value_timestamp (timestamp_second iv tz) = ok (iv, tz)
  value_timestamp v = unexpected_literal_value v

  unfoldable pub value_bool : ScalarValue → Result (Option Bool)
  value_bool (ScalarValue.boolean v) = ok v
  value_bool v = unexpected_literal_value v

  unfoldable pub value_string : ScalarValue → Result (Option String)
  value_string (ScalarValue.utf8 v) = ok v
  value_string v = unexpected_literal_value v

  -- The days and the milliseconds of an interval
  unfoldable pub value_interval_day_time : ScalarValue → Result (Option (ℤ × ℤ))
  value_interval_day_time (interval_day_time (some iv)) = ok (some iv)
  value_interval_day_time (interval_day_time none) = ok none
  value_interval_day_time v = unexpected_literal_value v
