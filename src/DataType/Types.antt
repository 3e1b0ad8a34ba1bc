-- ===== src/DataType/Types.antt =====
-- common/data_type.rs: the types that the crate ties together. `DataType`, `TimeUnit`,
-- `IntervalUnit` and `ScalarValue` mirror the variants that the code matches on; a scale is the bit
-- pattern of its i8, a float that of its value, and a scalar of a type that no arm names is
-- `other`, with its debug text.
use xorq_datafusion.Common.{ℕ, Bool, Option, List, String}
use xorq_datafusion.Common.Int.{ℤ}

pub data TimeUnit : Type 0 where
  second millisecond microsecond nanosecond : TimeUnit

pub data IntervalUnit : Type 0 where
  year_month day_time month_day_nano : IntervalUnit

mutual
  pub data DataType : Type 0 where
    null : DataType
    boolean : DataType
    int8 : DataType
    int16 : DataType
    int32 : DataType
    int64 : DataType
    uint8 : DataType
    uint16 : DataType
    uint32 : DataType
    uint64 : DataType
    float16 : DataType
    float32 : DataType
    float64 : DataType
    timestamp : TimeUnit → Option String → DataType
    date32 : DataType
    date64 : DataType
    time32 : TimeUnit → DataType
    time64 : TimeUnit → DataType
    duration : TimeUnit → DataType
    interval : IntervalUnit → DataType
    binary : DataType
    fixed_size_binary : ℕ → DataType
    large_binary : DataType
    binary_view : DataType
    utf8 : DataType
    large_utf8 : DataType
    utf8_view : DataType
    list : FieldRef → DataType
    list_view : FieldRef → DataType
    fixed_size_list : FieldRef → ℕ → DataType
    large_list : FieldRef → DataType
    large_list_view : FieldRef → DataType
    struct : Fields → DataType
    union : Fields → Bool → DataType
    dictionary : DataType → DataType → DataType
    decimal32 : ℕ → ℕ → DataType
    decimal64 : ℕ → ℕ → DataType
    decimal128 : ℕ → ℕ → DataType
    decimal256 : ℕ → ℕ → DataType
    map : FieldRef → Bool → DataType
    run_end_encoded : FieldRef → FieldRef → DataType

  pub data FieldRef : Type 0 where
    field : String → DataType → Bool → FieldRef

  pub data Fields : Type 0 where
    nil : Fields
    cons : FieldRef → Fields → Fields

pub data PythonType : Type 0 where
  array bool bytes datetime float int list none object str : PythonType

pub data SqlType : Type 0 where
  any array bigint binary boolean char column_list cursor date decimal distinct double dynamic_star
        float geometry integer interval interval_day interval_day_hour interval_day_minute
        interval_day_second interval_hour interval_hour_minute interval_hour_second interval_minute
        interval_minute_second interval_month interval_second interval_year interval_year_month map
        multiset null other real row sarg smallint structured symbol time time_with_local_time_zone
        timestamp timestamp_with_local_time_zone tinyint unknown varbinary varchar :
      SqlType

-- A `List` scalar is known by the data type of its array.
pub data ScalarValue : Type 0 where
  boolean : Option Bool → ScalarValue
  float32 : Option ℕ → ScalarValue
  float64 : Option ℕ → ScalarValue
  decimal128 : Option ℤ → ℕ → ℕ → ScalarValue
  decimal256 : Option ℤ → ℕ → ℕ → ScalarValue
  dictionary : DataType → ScalarValue → ScalarValue
  int8 : Option ℤ → ScalarValue
  int16 : Option ℤ → ScalarValue
  int32 : Option ℤ → ScalarValue
  int64 : Option ℤ → ScalarValue
  uint8 : Option ℕ → ScalarValue
  uint16 : Option ℕ → ScalarValue
  uint32 : Option ℕ → ScalarValue
  uint64 : Option ℕ → ScalarValue
  utf8 : Option String → ScalarValue
  large_utf8 : Option String → ScalarValue
  binary : Option (List ℕ) → ScalarValue
  large_binary : Option (List ℕ) → ScalarValue
  date32 : Option ℤ → ScalarValue
  date64 : Option ℤ → ScalarValue
  time32_second : Option ℤ → ScalarValue
  time32_millisecond : Option ℤ → ScalarValue
  time64_microsecond : Option ℤ → ScalarValue
  time64_nanosecond : Option ℤ → ScalarValue
  null : ScalarValue
  timestamp_second : Option ℤ → Option String → ScalarValue
  timestamp_millisecond : Option ℤ → Option String → ScalarValue
  timestamp_microsecond : Option ℤ → Option String → ScalarValue
  timestamp_nanosecond : Option ℤ → Option String → ScalarValue
  interval_year_month : Option ℤ → ScalarValue
  interval_day_time : Option (ℤ × ℤ) → ScalarValue
  interval_month_day_nano : Option (ℤ × ℤ × ℤ) → ScalarValue
  list : DataType → ScalarValue
  struct : Fields → ScalarValue
  fixed_size_binary : ℕ → Option (List ℕ) → ScalarValue
  fixed_size_list : DataType → ScalarValue
  large_list : DataType → ScalarValue
  duration_second : Option ℤ → ScalarValue
  duration_millisecond : Option ℤ → ScalarValue
  duration_microsecond : Option ℤ → ScalarValue
  duration_nanosecond : Option ℤ → ScalarValue
  other : String → ScalarValue

pub data RexType : Type 0 where
  alias literal call reference scalar_subquery other : RexType

pub record DataTypeMap : Type 0 where
  pub arrow_type : DataType
  pub python_type : PythonType
  pub sql_type : SqlType
