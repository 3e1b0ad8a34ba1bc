-- ===== src/DataType/Laws.antt =====
-- What the maps between type systems keep.
use Prim.Native.String.{◌++◌ as append}
use text.Mathlib.TextLemmas.{nil-append, cons-append}
use Prim.Native.Char.{code}
use xorq_datafusion.Common.{
  ltb, ◌&&◌, ◌||◌, ◌≡◌, refl, ◌↔◌, Bool, true, false, String, arith, Result, ok, err, is_ok,
}
use xorq_datafusion.DataType.Types.{DataType, SqlType, DataTypeMap}
use xorq_datafusion.DataType.Arrow.{map_from_arrow_type}
use xorq_datafusion.DataType.Sql.{py_map_from_sql_type}
use xorq_datafusion.DataType.Names.{
  friendly_arrow_type_name, to_arrow_str, arrow_of, py_map_from_arrow_type_str, trim_metadata,
}

-- A map that is found describes the Arrow type that was asked for, in every arm, and has a friendly
-- name.
pub map_from_arrow_type-arrow_type :
    (debug : DataType → String) (t : DataType) (m : DataTypeMap)
    → map_from_arrow_type debug t ≡ ok m
    → (m.arrow_type ≡ t) × (is_ok (friendly_arrow_type_name m) ≡ true)
unfolding map_from_arrow_type friendly_arrow_type_name
map_from_arrow_type-arrow_type debug DataType.null m h = ground arith
map_from_arrow_type-arrow_type debug _ m h = ground arith

sql_type_kept :
    (debug : SqlType → String) (q : SqlType) (m : DataTypeMap)
    → py_map_from_sql_type debug q ≡ ok m
    → m.sql_type ≡ q
unfolding py_map_from_sql_type
sql_type_kept debug SqlType.any m h = ground arith
sql_type_kept debug _ m h = ground arith

-- The SQL types whose Arrow type is read back as another SQL type.
abbrev pub is_narrowed : SqlType → Bool
is_narrowed SqlType.char = true
is_narrowed SqlType.double = true
is_narrowed SqlType.float = true
is_narrowed SqlType.integer = true
is_narrowed SqlType.varbinary = true
is_narrowed _ = false

-- A map read back from Arrow has the Python type it had, and its SQL type unless that is narrowed.
abbrev pub ReadsBack : DataTypeMap → Result DataTypeMap → Type 0
ReadsBack m (ok back) =
    (back.python_type ≡ m.python_type)
    × ((back.sql_type ≡ m.sql_type) ↔ (is_narrowed m.sql_type ≡ false))
ReadsBack m (err e) = ⊥

-- From SQL to Arrow and back: every SQL type that has a map keeps its own name in it, the Arrow
-- type of that map has a map too, of the same Python type, and of the same SQL type except for
-- CHAR, DOUBLE, FLOAT, INTEGER and VARBINARY, which come back as another SQL type.
pub sql_arrow_round_trip :
    (debug_sql : SqlType → String) (debug : DataType → String) (q : SqlType) (m : DataTypeMap)
    → py_map_from_sql_type debug_sql q ≡ ok m
    → (m.sql_type ≡ q) × ReadsBack m (map_from_arrow_type debug m.arrow_type)
unfolding py_map_from_sql_type map_from_arrow_type
sql_arrow_round_trip debug_sql debug SqlType.any m h = ground arith
sql_arrow_round_trip debug_sql debug _ m h = ground arith

-- A text of lower-case ASCII letters and digits.
abbrev pub is_plain : String → Bool
is_plain String.[] = true
is_plain (String.◌∷◌ c s) =
    (ltb (code c) 58 && ltb 47 (code c) || ltb (code c) 123 && ltb 96 (code c)) && is_plain s

trim_metadata-append :
    (s unit : String) → trim_metadata (append s (append "[" unit)) ≡ trim_metadata s
unfolding trim_metadata
trim_metadata-append String.[] unit = rw nil-append (rw (cons-append "[" "" unit) refl)
trim_metadata-append (String.◌∷◌ c s) unit =
    rw (cons-append c s (append "[" unit)) (ground (arith, trim_metadata-append s unit))

module _ (lowercase quoted : String → String)
    (low : (s : String) → is_plain s ≡ true → lowercase s ≡ s) where
  reads_literal :
      (name : String) (t : DataType) (s unit : String)
      → ok name ≡ ok s
      → trim_metadata name ≡ name
      → is_plain name ≡ true
      → arrow_of (quoted name) name ≡ ok t
      → (py_map_from_arrow_type_str lowercase quoted s ≡ ok t)
        × (py_map_from_arrow_type_str lowercase quoted (append s (append "[" unit)) ≡ ok t)
  unfolding py_map_from_arrow_type_str
  reads_literal name t s unit e trimmed plain found =
      ground (arith, trim_metadata-append s unit, low name plain)

  -- The names that Python sees for an Arrow type are read as that type again, also with metadata in
  -- brackets behind them, if `to_lowercase` leaves plain names alone.
  pub to_arrow_str-py_map_from_arrow_type_str :
      (debug : DataType → String) (t : DataType) (s unit : String)
      → to_arrow_str debug t ≡ ok s
      → (py_map_from_arrow_type_str lowercase quoted s ≡ ok t)
        × (py_map_from_arrow_type_str lowercase quoted (append s (append "[" unit)) ≡ ok t)
  unfolding to_arrow_str trim_metadata arrow_of
  to_arrow_str-py_map_from_arrow_type_str debug DataType.boolean s unit h =
      reads_literal "boolean" DataType.boolean s unit h refl refl refl
  to_arrow_str-py_map_from_arrow_type_str debug DataType.uint8 s unit h =
      reads_literal "uint8" DataType.uint8 s unit h refl refl refl
  to_arrow_str-py_map_from_arrow_type_str debug DataType.uint16 s unit h =
      reads_literal "uint16" DataType.uint16 s unit h refl refl refl
  to_arrow_str-py_map_from_arrow_type_str debug DataType.uint32 s unit h =
      reads_literal "uint32" DataType.uint32 s unit h refl refl refl
  to_arrow_str-py_map_from_arrow_type_str debug DataType.uint64 s unit h =
      reads_literal "uint64" DataType.uint64 s unit h refl refl refl
  to_arrow_str-py_map_from_arrow_type_str debug DataType.int8 s unit h =
      reads_literal "int8" DataType.int8 s unit h refl refl refl
  to_arrow_str-py_map_from_arrow_type_str debug DataType.int16 s unit h =
      reads_literal "int16" DataType.int16 s unit h refl refl refl
  to_arrow_str-py_map_from_arrow_type_str debug DataType.int32 s unit h =
      reads_literal "int32" DataType.int32 s unit h refl refl refl
  to_arrow_str-py_map_from_arrow_type_str debug DataType.int64 s unit h =
      reads_literal "int64" DataType.int64 s unit h refl refl refl
  to_arrow_str-py_map_from_arrow_type_str debug DataType.float16 s unit h =
      reads_literal "float16" DataType.float16 s unit h refl refl refl
  to_arrow_str-py_map_from_arrow_type_str debug DataType.float32 s unit h =
      reads_literal "float32" DataType.float32 s unit h refl refl refl
  to_arrow_str-py_map_from_arrow_type_str debug DataType.float64 s unit h =
      reads_literal "float64" DataType.float64 s unit h refl refl refl
  to_arrow_str-py_map_from_arrow_type_str debug DataType.date64 s unit h =
      reads_literal "datetime64" DataType.date64 s unit h refl refl refl
  to_arrow_str-py_map_from_arrow_type_str debug DataType.utf8 s unit h =
      reads_literal "object" DataType.utf8 s unit h refl refl refl
  to_arrow_str-py_map_from_arrow_type_str debug _ s unit h = cc
