-- ===== src/Scans/Tests.antt =====
-- Scans of a table of one column and two batches, and the theorems at them. Data types are numbers,
-- and an iterator is the number of batches that it has left.
use xorq_datafusion.Common.{
  ℕ, zero, suc, ◌≡◌, refl, Bool, true, Option, none, some, List, [], ◌∷◌, Result, ok, Error, ◌==◌,
  ==_iff, String,
}
use mathlib.Core.List.{foldl}
use xorq_datafusion.Arrow.{IsDataType, SchemaRef, RecordBatch}
use xorq_datafusion.Expr.Types.{Expr, and}
use xorq_datafusion.Filter.Python.{operator_to_py}
use xorq_datafusion.Filter.PyArrow as PyArrowFilter
use xorq_datafusion.Filter.Samples.{Kleene, combine, kleene, debug, pc, pc_laws}
use xorq_datafusion.Stream.Bridge.{produce, polls, Action}
use xorq_datafusion.Scans.ArrowStream.{ArrowStreams}
use xorq_datafusion.Scans.Dataset.{Datasets, DatasetExec, dataset_exec, translated}
use xorq_datafusion.Scans.Dataset.Planned.{all_meaning, dataset_exec-meaning}
use xorq_datafusion.Scans.Ibis.{IbisReaders, IbisTableExec}

instance abbrev numbered : IsDataType ℕ
numbered = record { beq = ◌==◌; display = λ n. "type"; beq_iff = ==_iff }

abbrev table : SchemaRef ℕ
table = record {
  address = 0;
  fields = record { name = "flag"; data_type = 1; nullable = true } ∷ [];
}

abbrev batch : RecordBatch ℕ
batch = record { schema_ref = table; rows = 5 }

abbrev next : {A : Type 0} → A → ℕ → Option (Result A) × ℕ
next a zero = (none, zero)
next a (suc n) = (some (ok a), n)

abbrev shown : Error → String
shown e = "error"

abbrev history : List Action
history = polls ∷ produce ∷ produce ∷ produce ∷ produce ∷ produce ∷ polls ∷ produce ∷ []

abbrev joined : List Expr → Option Expr
joined [] = none
joined (f ∷ fs) = some (foldl (λ a b. Expr.binary_expr a and b) f fs)

-- A dataset of one fragment.
abbrev datasets : Datasets ℕ pc
datasets = record {
  Fragment = ℕ;
  Schema = ℕ;
  Iter = ℕ;
  Obj = RecordBatch ℕ;
  field_name = λ i. ok "flag";
  projected_schema = λ columns filter. ok table;
  get_fragments = λ filter. ok (2 ∷ []);
  dataset_schema = ok 0;
  scanner = λ fragment schema columns filter size. ok fragment;
  next = next batch;
  extract = λ o. ok o;
  text = shown;
  conjunction = joined;
  conjunction-nil = refl;
  conjunction-cons = λ f fs. refl;
}

abbrev flag : Expr
flag = Expr.column none "flag"

abbrev exec : DatasetExec ℕ ℕ (Bool → Kleene)
exec = record {
  schema = table;
  fragments = 2 ∷ [];
  columns = some ("flag" ∷ []);
  filter_expr = some (λ row. combine and (some row) (some row));
}

dataset_exec-meaning_example :
    (filter : Bool → Kleene) × (exec.filter_expr ≡ some filter)
    × (filter true ≡ all_meaning kleene debug pc pc_laws flag (flag ∷ []) true)
unfolding dataset_exec translated PyArrowFilter.try_from operator_to_py
dataset_exec-meaning_example =
    dataset_exec-meaning kleene debug pc pc_laws datasets (some (0 ∷ [])) flag (flag ∷ []) exec true
      refl (tt, (tt, tt))

abbrev readers : IbisReaders ℕ
readers = record {
  Iter = ℕ;
  Obj = RecordBatch ℕ;
  reader_schema = ok table;
  project_schema = λ schema projection. ok schema;
  from_object = λ attempt. ok 2;
  next = next batch;
  extract = λ o. ok o;
  project = λ indices b. ok b;
  text = shown;
}

abbrev whole : IbisTableExec ℕ
whole = record { schema = table; projection = some (0 ∷ []) }

abbrev streams : ArrowStreams ℕ
streams = record { Reader = ℕ; extract = λ attempt. ok 2; next = next batch; text = shown }
