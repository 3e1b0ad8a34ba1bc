-- ===== src/Scans/Dataset.antt =====
-- dataset_exec.rs: `DatasetExec::execute`, whose closure makes the pyarrow scanner of a fragment at
-- the first pull. The columns and the filter are moved into the call that makes it.
pub mod Planned
use xorq_datafusion.Common.{
  ℕ, ◌≡◌, refl, traverse, get_elem?, [], ◌∷◌, python_error, Option, none, some, List, String, arith,
  Result, ok, err, Error, Result-cases, inl, inr, ◌++◌, ◌>>=◌,
}
use mathlib.Core.List.{foldl}
use mathlib.Core.Option
use xorq_datafusion.Expr.Types.{Expr, and}
use xorq_datafusion.Filter.Python.{Debug}
use xorq_datafusion.Filter.PyArrow.{PyArrow}
use xorq_datafusion.Filter.PyArrow as PyArrowFilter
use xorq_datafusion.Arrow.{IsDataType, SchemaRef, RecordBatch}
use xorq_datafusion.Stream.Tokio.{Semaphores, Channels}
use xorq_datafusion.Stream.Credit.{buffered, channel_capacity}
use xorq_datafusion.Stream.Bridge.{Scan, Action, spawn_channel_stream, run}
use xorq_datafusion.Stream.Bridge.Order.{emitted}
use xorq_datafusion.Scans.Python.{to_external, extracted}
use xorq_datafusion.Scans.Reader.{Reader, nth_call, planned}
use xorq_datafusion.Scans.Batches.{with_pull, run-planned}

-- The calls of a dataset of pyarrow, with the outcome that each has. `scanner` is `scanner(..)` of
-- a fragment with its keyword arguments, `to_batches` and `iter`; `projected_schema` is that of the
-- dataset's own scanner. DataFusion's `conjunction` joins filters by AND from the left.
pub record Datasets (T : Type 0) (pc : PyArrow) : Type 1 where
  pub Fragment : Type 0
  pub Schema : Type 0
  pub Iter : Type 0
  pub Obj : Type 0
  pub field_name : ℕ → Result String
  pub projected_schema : Option (List String) → Option pc.Object → Result (SchemaRef T)
  pub get_fragments : Option pc.Object → Result (List Fragment)
  pub dataset_schema : Result Schema
  pub scanner :
      Fragment → Schema → Option (List String) → Option pc.Object → (batch_size : ℕ) → Result Iter
  pub next : Iter → Option (Result Obj) × Iter
  pub extract : Obj → Result (RecordBatch T)
  pub text : Error → String
  pub conjunction : List Expr → Option Expr
  pub conjunction-nil : conjunction [] ≡ none
  pub conjunction-cons :
      (f : Expr) (fs : List Expr)
      → conjunction (f ∷ fs) ≡ some (foldl (λ a b. Expr.binary_expr a and b) f fs)

pub record DatasetExec (T Fragment FilterExpr : Type 0) : Type 0 where
  pub schema : SchemaRef T
  pub fragments : List Fragment
  pub columns : Option (List String)
  pub filter_expr : Option FilterExpr

-- `Option::transpose`
abbrev pub transpose : {A : Type 0} → Option (Result A) → Result (Option A)
transpose none = ok none
transpose (some (ok a)) = ok (some a)
transpose (some (err e)) = err e

-- `list[index]`
unfoldable pub get_item : {A : Type 0} → List A → ℕ → Result A
get_item xs i = elim (get_elem? xs i) [
  | some x ↦ ok x
  | none ↦ err (python_error "list index out of range")
]

-- What the closure owns.
pub record DatasetPull (Iter FilterExpr : Type 0) : Type 0 where
  pub iter : Option Iter
  pub columns : Option (List String)
  pub filter_expr : Option FilterExpr

module _ {T : Type 0} (debug : Debug) (pc : PyArrow) (ds : Datasets T pc) where
  open ds use {Fragment, field_name, projected_schema, get_fragments, conjunction}

  -- `DatasetExec::new`: the names of the projected columns, and the filters as one expression.
  projected_columns : Option (List ℕ) → Result (Option (List String))
  projected_columns projection = transpose (Option.map (traverse field_name) projection)

  unfoldable pub translated : List Expr → Result (Option pc.Object)
  translated filters =
      transpose (Option.map (PyArrowFilter.try_from debug pc) (conjunction filters))

  unfoldable pub dataset_exec :
      Option (List ℕ) → List Expr → Result (DatasetExec T Fragment pc.Object)
  unfolding projected_columns translated
  dataset_exec projection filters = do
    columns ← projected_columns projection
    filter_expr ← translated filters
    schema ← projected_schema columns filter_expr
    fragments ← get_fragments filter_expr
    ok (record {
      schema = schema;
      fragments = fragments;
      columns = columns;
      filter_expr = filter_expr;
    })

module _ {T : Type 0} {pc : PyArrow} (ds : Datasets T pc)
    (exec : DatasetExec T ds.Fragment pc.Object) (partition batch_size : ℕ) where
  open ds use {Fragment, Schema, Iter, Obj, dataset_schema, scanner, next, extract, text}

  -- `bound_iter.next()` on the iterator that is there.
  pub next_batch : Iter → Option (Result (RecordBatch T)) × Iter
  unfolding extracted
  next_batch it = let (r, it') = next it in (extracted text extract r, it')

  -- The scanner, and the closure with its columns and its filter taken if it came so far.
  build : DatasetPull Iter pc.Object → Result Iter × DatasetPull Iter pc.Object
  unfolding to_external
  build s = elim (to_external text (get_item exec.fragments partition)) [
    | err e ↦ (err e, s)
    | ok fragment ↦ elim (to_external text dataset_schema) [
      | err e ↦ (err e, s)
      | ok schema ↦ (
        to_external text (scanner fragment schema s.columns s.filter_expr batch_size),
        record s { columns = none; filter_expr = none },
      )
    ]
  ]

  advance :
      Iter
      → DatasetPull Iter pc.Object
      → Option (Result (RecordBatch T)) × DatasetPull Iter pc.Object
  unfolding next_batch
  advance it s = let (r, it') = next_batch it in (r, record s { iter = some it' })

  dataset_pull :
      DatasetPull Iter pc.Object → Option (Result (RecordBatch T)) × DatasetPull Iter pc.Object
  unfolding build advance
  dataset_pull s = elim s.iter [
    | some it ↦ advance it s
    | none ↦
        let (built, s') = build s in
        elim built [ ok it ↦ advance it s' | err e ↦ (some (err e), s') ]
  ]

  -- The closure as `execute` makes it.
  captured : DatasetPull Iter pc.Object
  captured = record { iter = none; columns = exec.columns; filter_expr = exec.filter_expr }

  module _ (types : IsDataType T) (tokio : Semaphores)
      (mpsc : Channels (Result (RecordBatch T)) channel_capacity) where
    -- `DatasetExec::execute`
    pub dataset_execute : Scan T
    unfolding dataset_pull captured
    dataset_execute = record {
      types = types;
      tokio = tokio;
      mpsc = mpsc;
      schema = exec.schema;
      read_ahead = buffered;
      pull = nth_call dataset_pull captured;
    }
