-- ===== src/Scans/Dataset/Planned.antt =====
-- What a scan of a dataset yields: the batches of the scanner that the plan asks for.
use xorq_datafusion.Common.{
  ℕ, ◌≡◌, refl, Option, none, some, List, [], ◌∷◌, arith, Result, ok, err, Error, ◌>>=◌, ◌∙◌,
  Result-cases, inl, inr,
}
use mathlib.Core.List.{foldl}
use xorq_datafusion.Arrow.{IsDataType, RecordBatch}
use xorq_datafusion.Expr.Types.{Expr, and}
use xorq_datafusion.Filter.Python.{Debug, Engine, meaning}
use xorq_datafusion.Filter.PyArrow.{PyArrow, Evaluates, TestsNoNull, try_from-meaning}
use xorq_datafusion.Filter.PyArrow as PyArrowFilter
use xorq_datafusion.Stream.Tokio.{Semaphores, Channels}
use xorq_datafusion.Stream.Credit.{channel_capacity}
use xorq_datafusion.Stream.Bridge.{Scan, Action}
use xorq_datafusion.Scans.Python.{to_external}
use xorq_datafusion.Scans.Reader.{Reader}
use xorq_datafusion.Scans.Dataset.{
  Datasets, DatasetExec, DatasetPull, get_item, dataset_exec, translated, next_batch, dataset_pull,
  captured, dataset_execute,
}

module _ {T : Type 0} {pc : PyArrow} (ds : Datasets T pc)
    (exec : DatasetExec T ds.Fragment pc.Object) (partition batch_size : ℕ) where
  open ds use {Iter, dataset_schema, scanner, text}

  -- The scanner that the plan asks for: of the partition's fragment, with its columns and filter.
  pub planned_scanner : Result Iter
  planned_scanner = to_external text (get_item exec.fragments partition) >>= λ fragment.
      to_external text dataset_schema >>= λ schema.
      to_external text (scanner fragment schema exec.columns exec.filter_expr batch_size)

  abbrev with_iter : Iter → DatasetPull Iter pc.Object
  with_iter it = record { iter = some it; columns = none; filter_expr = none }

  abbrev pull :
      DatasetPull Iter pc.Object → Option (Result (RecordBatch T)) × DatasetPull Iter pc.Object
  pull = dataset_pull ds exec partition batch_size

  abbrev next' : Iter → Option (Result (RecordBatch T)) × Iter
  next' = next_batch ds exec partition batch_size

  abbrev start : DatasetPull Iter pc.Object
  start = captured ds exec partition batch_size

  running : (it : Iter) → pull (with_iter it) ≡ ((next' it).0, with_iter (next' it).1)
  unfolding dataset_pull
  running it = refl

  opens :
      (it : Iter) → planned_scanner ≡ ok it → pull start ≡ ((next' it).0, with_iter (next' it).1)
  unfolding dataset_pull planned_scanner captured
  opens it h = ground arith

  fails : (e : Error) → planned_scanner ≡ err e → (pull start).0 ≡ some (err e)
  unfolding dataset_pull planned_scanner captured
  fails e h = ground arith

  reader : Reader (DatasetPull Iter pc.Object) Iter (RecordBatch T)
  reader = record {
    pull = pull;
    next = next';
    start = start;
    opened = planned_scanner;
    with_iter = with_iter;
    running = running;
    opens = opens;
    fails = fails;
  }

  module _ (types : IsDataType T) (tokio : Semaphores)
      (mpsc : Channels (Result (RecordBatch T)) channel_capacity) (as' : List Action) where
    abbrev scan : Scan T
    scan = dataset_execute ds exec partition batch_size types tokio mpsc

module _ (engine : Engine) (debug : Debug) (pc : PyArrow) (laws : Evaluates engine pc) where
  -- The filters of a plan mean that all hold, one after the other.
  abbrev pub all_meaning : Expr → List Expr → engine.Row → engine.Value
  all_meaning f fs row =
      foldl (λ v g. engine.apply and v (meaning engine g row)) (meaning engine f row) fs

  abbrev pub AllTestNoNull : List Expr → engine.Row → Type 0
  AllTestNoNull [] row = Unit {0}
  AllTestNoNull (f ∷ fs) row = TestsNoNull engine debug pc laws f row × AllTestNoNull fs row

  meaning-conjunction :
      (f : Expr) (fs : List Expr) (row : engine.Row)
      → meaning engine (foldl (λ a b. Expr.binary_expr a and b) f fs) row ≡ all_meaning f fs row
  unfolding meaning
  meaning-conjunction f [] row = refl
  meaning-conjunction f (g ∷ fs) row = meaning-conjunction (Expr.binary_expr f and g) fs row

  TestsNoNull-conjunction :
      (f : Expr) (fs : List Expr) (row : engine.Row)
      → TestsNoNull engine debug pc laws f row
      → AllTestNoNull fs row
      → TestsNoNull engine debug pc laws (foldl (λ a b. Expr.binary_expr a and b) f fs) row
  TestsNoNull-conjunction f [] row h hs = h
  TestsNoNull-conjunction f (g ∷ fs) row h (k, hs) =
      TestsNoNull-conjunction (Expr.binary_expr f and g) fs row (h, k) hs

  module _ {T : Type 0} (ds : Datasets T pc) where
    translated-cons :
        (f : Expr) (fs : List Expr) (o : Option pc.Object)
        → translated debug pc ds (f ∷ fs) ≡ ok o
        → (filter : pc.Object) × (o ≡ some filter)
          × (PyArrowFilter.try_from debug pc (foldl (λ a b. Expr.binary_expr a and b) f fs)
              ≡ ok filter)
    unfolding translated
    translated-cons f fs o h =
        let whole = foldl (λ a b. Expr.binary_expr a and b) f fs in
        elim (Result-cases (PyArrowFilter.try_from debug pc whole)) [
          | inl (filter, p) ↦ (filter, ground (arith, ds.conjunction-cons f fs), p)
          | inr (e, p) ↦ absurd (ground (arith, ds.conjunction-cons f fs))
        ]

    dataset_exec-translated :
        (projection : Option (List ℕ)) (fs : List Expr) (exec : DatasetExec T ds.Fragment pc.Object)
        → dataset_exec debug pc ds projection fs ≡ ok exec
        → translated debug pc ds fs ≡ ok exec.filter_expr
    unfolding dataset_exec
    dataset_exec-translated projection fs exec h = ground arith

    -- The filter with which a dataset is scanned evaluates on a row to the conjunction of what the
    -- pushed-down filters mean, if there are any and no IN list of them tests a null on the row.
    pub dataset_exec-meaning :
        (projection : Option (List ℕ)) (f : Expr) (fs : List Expr)
        (exec : DatasetExec T ds.Fragment pc.Object) (row : engine.Row)
        → dataset_exec debug pc ds projection (f ∷ fs) ≡ ok exec
        → AllTestNoNull (f ∷ fs) row
        → (filter : pc.Object) × (exec.filter_expr ≡ some filter)
          × (laws.eval filter row ≡ all_meaning f fs row)
    dataset_exec-meaning projection f fs exec row h t =
        let (filter, e, p) =
          translated-cons f fs exec.filter_expr
            (dataset_exec-translated projection (f ∷ fs) exec h) in
        let q = TestsNoNull-conjunction f fs row t.0 t.1 in
        (
          filter,
          e,
          try_from-meaning engine debug pc laws _ filter row p q ∙ meaning-conjunction f fs row,
        )
