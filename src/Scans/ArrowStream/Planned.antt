-- ===== src/Scans/ArrowStream/Planned.antt =====
-- What a scan of an Arrow C stream yields.
use xorq_datafusion.Common.{◌≡◌, refl, Option, some, List, ◌++◌, arith, Result, ok, err, Error}
use xorq_datafusion.Arrow.{IsDataType, SchemaRef, RecordBatch}
use xorq_datafusion.Stream.Tokio.{Semaphores, Channels}
use xorq_datafusion.Stream.Credit.{channel_capacity}
use xorq_datafusion.Stream.Bridge.{Scan, Action, spawn_channel_stream, run}
use xorq_datafusion.Stream.Bridge.Order.{emitted}
use xorq_datafusion.Scans.Python.{to_external}
use xorq_datafusion.Scans.Reader.{nth_call, planned}
use xorq_datafusion.Scans.Reader as Lazy
use xorq_datafusion.Scans.Batches.{with_pull, run-planned}
use xorq_datafusion.Scans.ArrowStream.{
  ArrowStreams, StreamPull, converted, stream_pull, captured, stream_execute,
}

module _ {T : Type 0} (python : ArrowStreams T) where
  open python use {Reader, extract, next, text}

  -- The batches of a reader, with Arrow's errors converted.
  pub next_converted : Reader → Option (Result (RecordBatch T)) × Reader
  unfolding converted
  next_converted it = let (r, it') = next it in (converted text r, it')

  abbrev with_iter : Reader → StreamPull Reader
  with_iter it = record { reader = some it; attempts = 1 }

  running :
      (it : Reader)
      → stream_pull python (with_iter it) ≡ ((next_converted it).0, with_iter (next_converted it).1)
  unfolding stream_pull next_converted
  running it = refl

  opens :
      (it : Reader)
      → to_external text (extract 0) ≡ ok it
      → stream_pull python (captured python)
        ≡ ((next_converted it).0, with_iter (next_converted it).1)
  unfolding stream_pull next_converted captured
  opens it h = ground arith

  fails :
      (e : Error)
      → to_external text (extract 0) ≡ err e
      → (stream_pull python (captured python)).0 ≡ some (err e)
  unfolding stream_pull captured
  fails e h = ground arith

  reader : Lazy.Reader (StreamPull Reader) Reader (RecordBatch T)
  reader = record {
    pull = stream_pull python;
    next = next_converted;
    start = captured python;
    opened = to_external text (extract 0);
    with_iter = with_iter;
    running = running;
    opens = opens;
    fails = fails;
  }

  module _ (types : IsDataType T) (tokio : Semaphores)
      (mpsc : Channels (Result (RecordBatch T)) channel_capacity) (schema : SchemaRef T)
      (as' : List Action) where
    abbrev scan : Scan T
    scan = stream_execute python types tokio mpsc schema

    -- What the consumer of a scan of an Arrow C stream got and what waits for it are, after any
    -- interleaving, the batches of the reader that the first attempt to acquire one gave, in its
    -- order, or the error of that attempt: the stream is acquired once.
    pub stream_execute-planned :
        let s = run scan as' (spawn_channel_stream scan) in
        s.delivered ++ (scan.mpsc.view s.channel).queued
        ≡ emitted (with_pull scan (planned next_converted (to_external text (extract 0)))) s.pulls
    unfolding stream_execute reader
    stream_execute-planned = run-planned scan reader as' (λ n. refl)
