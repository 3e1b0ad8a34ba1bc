-- ===== src/Registration/Reader.antt =====
-- context.rs: `register_record_batch_reader`, and `PyRecordBatchProvider::try_new` of
-- py_record_batch_provider.rs. The session is returned beside the outcome.
pub mod Ordering
use Prim.Native.String.{◌++◌ as append}
use text.Mathlib.Text.{◌==◌ as str_eq}
use xorq_datafusion.Common.{
  Bool, true, false, ◌||◌, Option, none, some, List, [], ◌∷◌, ◌++◌, String, if◌then◌else◌, Result,
  ok, err, Error, value_error, ◌>>=◌,
}
use xorq_datafusion.Arrow.{Field, SchemaRef}
use xorq_datafusion.Expr.Types.{Expr}
use xorq_datafusion.Registration.Catalogs.{SortExpr, Catalogs, StreamingTables, map_err}

-- `Expr::Column(col)`
unfoldable pub column_name : Expr → Option String
column_name (Expr.column relation name) = some name
column_name _ = none

-- `schema.index_of(name).is_ok()`
unfoldable pub has_column : {T : Type 0} → String → List (Field T) → Bool
has_column name [] = false
has_column name (f ∷ fs) = str_eq f.name name || has_column name fs

-- `sort_order.into_iter().flatten()`
abbrev pub flattened : {A : Type 0} → Option (List A) → List A
flattened none = []
flattened (some xs) = xs

module _ {T : Type 0} (debug : Expr → String) (schema : SchemaRef T) where
  -- The loop over the sort expressions, with the ordering so far.
  unfoldable pub ordered : List SortExpr → List SortExpr → Result (List SortExpr)
  unfolding column_name has_column
  ordered ordering [] = ok ordering
  ordered ordering (sort ∷ rest) =
      let longer = ordered (ordering ++ sort ∷ []) rest in
      elim (column_name sort.expr) [
        | some name ↦ if has_column name schema.fields then longer else ok ordering
        | none ↦ err (value_error (append "Unsupported expr " (debug sort.expr)))
      ]

module _ {T Session Table Object : Type 0} (debug : Expr → String)
    (from_datafusion_error : Error → Error) (catalogs : Catalogs Session Table)
    (streaming : StreamingTables T Table Object) where
  open catalogs use {register_table}
  open streaming use {reader_schema, streaming_table, with_sort_order}

  -- `PyRecordBatchProvider::try_new`
  unfoldable pub try_new : Object → SchemaRef T → List SortExpr → Result Table
  try_new object schema ordering =
      streaming_table schema object >>= λ t. ok (with_sort_order ordering t)

  unfoldable pub provider : Object → Option (List SortExpr) → Result Table
  unfolding ordered try_new map_err
  provider reader sorts = do
    schema ← reader_schema reader
    ordering ← ordered debug schema [] (flattened sorts)
    map_err from_datafusion_error (try_new reader schema ordering)

  -- `self.ctx.register_table(..)`, of a table that may not have been made.
  unfoldable pub registered : String → Result Table → Session → Session × Result (Unit {0})
  unfolding map_err
  registered name (err e) s = (s, err e)
  registered name (ok t) s =
      let (s', r) = register_table name t s in (s', map_err from_datafusion_error r)

  unfoldable pub register_record_batch_reader :
      String → Object → Option (List SortExpr) → Session → Session × Result (Unit {0})
  unfolding provider registered
  register_record_batch_reader name reader sorts s = registered name (provider reader sorts) s
