-- ===== src/Scans/Ibis/Planned.antt =====
-- What a scan of a Python reader yields, and how often the reader is asked.
use xorq_datafusion.Common.{
  ℕ, ◌+◌, ◌≤◌, ◌≡◌, refl, false, Option, some, List, ◌++◌, arith, length, Result, ok, err, Error,
}
use xorq_datafusion.Arrow.{IsDataType, RecordBatch}
use xorq_datafusion.Stream.Tokio.{Semaphores, Channels}
use xorq_datafusion.Stream.Credit.{channel_capacity}
use xorq_datafusion.Stream.Bridge.{Scan, Action, spawn_channel_stream, run}
use xorq_datafusion.Stream.Bridge.Credits.{pulls-le-delivered}
use xorq_datafusion.Stream.Bridge.Order.{emitted}
use xorq_datafusion.Scans.Python.{to_external, extracted}
use xorq_datafusion.Scans.Reader.{Reader, planned}
use xorq_datafusion.Scans.Batches.{with_pull, run-planned}
use xorq_datafusion.Scans.Ibis.{
  IbisReaders, IbisTableExec, IbisPull, projected, ibis_pull, captured, ibis_execute,
}

module _ {T : Type 0} (python : IbisReaders T) (projection : Option (List ℕ)) where
  open python use {Iter, from_object, next, extract, project, text}

  -- The projected batches of an iterator.
  pub next_projected : Iter → Option (Result (RecordBatch T)) × Iter
  unfolding projected extracted
  next_projected it =
      let (r, it') = next it in (projected project projection (extracted text extract r), it')

  abbrev with_iter : Iter → IbisPull Iter
  with_iter it = record { iter = some it; attempts = 1 }

  running :
      (it : Iter)
      → ibis_pull python projection (with_iter it)
        ≡ ((next_projected it).0, with_iter (next_projected it).1)
  unfolding ibis_pull next_projected
  running it = refl

  opens :
      (it : Iter)
      → to_external text (from_object 0) ≡ ok it
      → ibis_pull python projection (captured python)
        ≡ ((next_projected it).0, with_iter (next_projected it).1)
  unfolding ibis_pull next_projected captured
  opens it h = ground arith

  fails :
      (e : Error)
      → to_external text (from_object 0) ≡ err e
      → (ibis_pull python projection (captured python)).0 ≡ some (err e)
  unfolding ibis_pull captured projected
  fails e h = ground arith

  reader : Reader (IbisPull Iter) Iter (RecordBatch T)
  reader = record {
    pull = ibis_pull python projection;
    next = next_projected;
    start = captured python;
    opened = to_external text (from_object 0);
    with_iter = with_iter;
    running = running;
    opens = opens;
    fails = fails;
  }

module _ {T : Type 0} (python : IbisReaders T) (exec : IbisTableExec T) (types : IsDataType T)
    (tokio : Semaphores) (mpsc : Channels (Result (RecordBatch T)) channel_capacity)
    (as' : List Action) where
  open python use {from_object, text}

  abbrev scan : Scan T
  scan = ibis_execute python types tokio mpsc exec

  -- What the consumer of a scan of a Python reader got and what waits for it are, after any
  -- interleaving, the batches of one iterator, projected, in its order: that of the first attempt
  -- to make it, or the error of that attempt. And the reader is asked at most once more than the
  -- consumer has received batches, and never before it has asked for one.
  pub ibis_execute-planned :
      let s = run scan as' (spawn_channel_stream scan) in
      (s.delivered ++ (scan.mpsc.view s.channel).queued
        ≡ emitted
            (with_pull scan
              (planned (next_projected python exec.projection) (to_external text (from_object 0))))
            s.pulls)
      × (s.pulls ≤ length s.delivered + 1)
      × (s.requested ≡ false → s.pulls ≤ length s.delivered)
  unfolding ibis_execute reader
  ibis_execute-planned =
      let bound = pulls-le-delivered scan as' refl in
      (run-planned scan (reader python exec.projection) as' (λ n. refl), bound.0, bound.1)
