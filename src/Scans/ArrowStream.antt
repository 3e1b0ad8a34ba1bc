-- ===== src/Scans/ArrowStream.antt =====
-- py_record_batch_provider.rs: `PyArrowStreamPartition`, whose closure acquires the Arrow C stream
-- of the Python object at the first pull.
pub mod Planned
use xorq_datafusion.Common.{ℕ, suc, Option, none, some, Result, ok, err, Error, arrow_error, String}
use xorq_datafusion.Arrow.{IsDataType, SchemaRef, RecordBatch}
use xorq_datafusion.Stream.Tokio.{Semaphores, Channels}
use xorq_datafusion.Stream.Credit.{buffered, channel_capacity}
use xorq_datafusion.Stream.Bridge.{Scan}
use xorq_datafusion.Scans.Python.{to_external}
use xorq_datafusion.Scans.Reader.{nth_call}

-- The Python object, which may give a reader at each attempt, and the reader's own `next`.
pub record ArrowStreams (T : Type 0) : Type 1 where
  pub Reader : Type 0
  pub extract : (attempt : ℕ) → Result Reader
  pub next : Reader → Option (Result (RecordBatch T)) × Reader
  pub text : Error → String

pub record StreamPull (Reader : Type 0) : Type 0 where
  pub reader : Option Reader
  pub attempts : ℕ

-- `map_err(DataFusionError::from)`, on an error of Arrow.
unfoldable pub from_arrow : {A : Type 0} → (Error → String) → Result A → Result A
from_arrow text (ok a) = ok a
from_arrow text (err e) = err (arrow_error (text e))

-- `.next().map(|res| ..)`
unfoldable pub converted : {A : Type 0} → (Error → String) → Option (Result A) → Option (Result A)
unfolding from_arrow
converted text none = none
converted text (some r) = some (from_arrow text r)

module _ {T : Type 0} (python : ArrowStreams T) where
  open python use {Reader, extract, next, text}

  read_from : Reader → StreamPull Reader → Option (Result (RecordBatch T)) × StreamPull Reader
  unfolding converted
  read_from it s = let (r, it') = next it in (converted text r, record s { reader = some it' })

  stream_pull : StreamPull Reader → Option (Result (RecordBatch T)) × StreamPull Reader
  unfolding read_from to_external
  stream_pull s = elim s.reader [
    | some it ↦ read_from it s
    | none ↦
        let s' = record s { attempts = suc s.attempts } in
        elim (to_external text (extract s.attempts)) [
          | ok it ↦ read_from it s'
          | err e ↦ (some (err e), s')
        ]
  ]

  captured : StreamPull Reader
  captured = record { reader = none; attempts = 0 }

  module _ (types : IsDataType T) (tokio : Semaphores)
      (mpsc : Channels (Result (RecordBatch T)) channel_capacity) where
    -- `PyArrowStreamPartition::execute`
    pub stream_execute : SchemaRef T → Scan T
    unfolding stream_pull captured
    stream_execute schema = record {
      types = types;
      tokio = tokio;
      mpsc = mpsc;
      schema = schema;
      read_ahead = buffered;
      pull = nth_call stream_pull captured;
    }
