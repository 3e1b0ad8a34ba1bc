-- ===== src/Scans/Ibis.antt =====
-- ibis_table_exec.rs: `IbisTableExec`, whose closure makes the Python iterator at the first pull
-- and projects each batch. A closure that failed to make it tries again when it is called again, so
-- the outcomes of the attempts are given by their number.
pub mod Planned
use xorq_datafusion.Common.{
  ℕ, zero, suc, Option, none, some, List, Result, ok, err, Error, String, ◌>>=◌,
}
use xorq_datafusion.Arrow.{IsDataType, SchemaRef, RecordBatch}
use xorq_datafusion.Stream.Tokio.{Semaphores, Channels}
use xorq_datafusion.Stream.Credit.{on_demand, channel_capacity}
use xorq_datafusion.Stream.Bridge.{Scan}
use xorq_datafusion.Scans.Python.{to_external, extracted}
use xorq_datafusion.Scans.Reader.{nth_call}

-- The Python reader, and Arrow's projections of a schema and of a batch.
pub record IbisReaders (T : Type 0) : Type 1 where
  pub Iter : Type 0
  pub Obj : Type 0
  pub reader_schema : Result (SchemaRef T)
  pub project_schema : SchemaRef T → Option (List ℕ) → Result (SchemaRef T)
  pub from_object : (attempt : ℕ) → Result Iter
  pub next : Iter → Option (Result Obj) × Iter
  pub extract : Obj → Result (RecordBatch T)
  pub project : List ℕ → RecordBatch T → Result (RecordBatch T)
  pub text : Error → String

pub record IbisTableExec (T : Type 0) : Type 0 where
  pub schema : SchemaRef T
  pub projection : Option (List ℕ)

-- What the closure owns, and how often it tried to make the iterator.
pub record IbisPull (Iter : Type 0) : Type 0 where
  pub iter : Option Iter
  pub attempts : ℕ

-- `match (pulled, &projection)`: a batch is projected, all else is passed on.
unfoldable pub projected :
    {B : Type 0} → (List ℕ → B → Result B) → Option (List ℕ) → Option (Result B) → Option (Result B)
projected project (some indices) (some (ok batch)) = some (project indices batch)
projected project (some indices) (some (err e)) = some (err e)
projected project (some indices) none = none
projected project none pulled = pulled

module _ {T : Type 0} (python : IbisReaders T) where
  open python use {
    Iter, Obj, reader_schema, project_schema, from_object, next, extract, project, text,
  }

  -- `IbisTableExec::new`
  pub ibis_table_exec : Option (List ℕ) → Result (IbisTableExec T)
  ibis_table_exec projections = do
    schema ← reader_schema
    schema' ← project_schema schema projections
    ok (record { schema = schema'; projection = projections })

  pulled_from : Iter → IbisPull Iter → Option (Result (RecordBatch T)) × IbisPull Iter
  unfolding extracted
  pulled_from it s =
      let (r, it') = next it in (extracted text extract r, record s { iter = some it' })

  -- `Python::attach(|py| ..)`
  pulled : IbisPull Iter → Option (Result (RecordBatch T)) × IbisPull Iter
  unfolding pulled_from to_external
  pulled s = elim s.iter [
    | some it ↦ pulled_from it s
    | none ↦
        let s' = record s { attempts = suc s.attempts } in
        elim (to_external text (from_object s.attempts)) [
          | ok it ↦ pulled_from it s'
          | err e ↦ (some (err e), s')
        ]
  ]

  ibis_pull : Option (List ℕ) → IbisPull Iter → Option (Result (RecordBatch T)) × IbisPull Iter
  unfolding pulled projected
  ibis_pull projection s = let (r, s') = pulled s in (projected project projection r, s')

  captured : IbisPull Iter
  captured = record { iter = none; attempts = 0 }

  module _ (types : IsDataType T) (tokio : Semaphores)
      (mpsc : Channels (Result (RecordBatch T)) channel_capacity) where
    -- `IbisTableExec::execute`
    pub ibis_execute : IbisTableExec T → Scan T
    unfolding ibis_pull captured
    ibis_execute exec = record {
      types = types;
      tokio = tokio;
      mpsc = mpsc;
      schema = exec.schema;
      read_ahead = on_demand;
      pull = nth_call (ibis_pull exec.projection) captured;
    }
