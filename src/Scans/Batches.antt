-- ===== src/Scans/Batches.antt =====
-- A reader behind the bridge: what the consumer of a scan gets.
use xorq_datafusion.Common.{
  ℕ, zero, suc, ◌<◌, ◌≡◌, refl, sym, ◌∙◌, ap, true, Option, none, some, List, ◌++◌, arith, Result,
  ok, err,
}
use mathlib.Core.Path.{ap₂}
use xorq_datafusion.Arrow.{RecordBatch}
use xorq_datafusion.Stream.Bridge.{Scan, Action, spawn_channel_stream, run}
use xorq_datafusion.Stream.Bridge.Order.{emit, emitted, run-emitted}
use xorq_datafusion.Stream.Bridge.Contract.{accepted, pull_again-accepted}
use xorq_datafusion.Scans.Reader.{Reader, nth_call, planned, AllBatches, nth_call-planned}

module _ {T : Type 0} (scan : Scan T) where
  accepted-batch :
      (n : ℕ) → accepted scan n ≡ true → (b : RecordBatch T) × (scan.pull n ≡ some (ok b))
  unfolding accepted
  accepted-batch n h = ground arith

  -- The scan with other outcomes of its reader.
  abbrev pub with_pull : (ℕ → Option (Result (RecordBatch T))) → Scan T
  with_pull calls = record scan { pull = calls }

  emit-with_pull :
      (calls : ℕ → Option (Result (RecordBatch T))) (r : Option (Result (RecordBatch T)))
      → emit scan r ≡ emit (with_pull calls) r
  unfolding emit
  emit-with_pull calls none = refl
  emit-with_pull calls (some (err e)) = refl
  emit-with_pull calls (some (ok b)) = refl

  emitted-with_pull :
      (calls : ℕ → Option (Result (RecordBatch T))) (n : ℕ)
      → ((k : ℕ) → k < n → scan.pull k ≡ calls k)
      → emitted scan n ≡ emitted (with_pull calls) n
  unfolding emitted emit
  emitted-with_pull calls zero h = refl
  emitted-with_pull calls (suc n) h =
      ap₂ ◌++◌ (emitted-with_pull calls n (λ k below. h k (omega arith)))
        (ap (emit scan) (h n (omega arith)) ∙ emit-with_pull calls (calls n))

  module _ {S I : Type 0} (reader : Reader S I (RecordBatch T)) where
    open reader use {pull, next, start, opened}

    module _ (as' : List Action) (calls : (n : ℕ) → scan.pull n ≡ nth_call pull start n) where
      called-AllBatches :
          (n : ℕ)
          → n < (run scan as' (spawn_channel_stream scan)).pulls
          → AllBatches (nth_call pull start) n
      called-AllBatches zero h = tt
      called-AllBatches (suc n) h =
          let (b, e) = accepted-batch n (pull_again-accepted scan as' n h) in
          (called-AllBatches n (omega arith), (b, sym (calls n) ∙ e))

      -- What the consumer of a scan got and what waits for it are, after any interleaving, the
      -- outcomes of one iterator, opened once and read in its order, or the error of its opening.
      pub run-planned :
          let s = run scan as' (spawn_channel_stream scan) in
          s.delivered ++ (scan.mpsc.view s.channel).queued
          ≡ emitted (with_pull (planned next opened)) s.pulls
      run-planned =
          let s = run scan as' (spawn_channel_stream scan) in
          run-emitted scan as'
          ∙ emitted-with_pull (planned next opened) s.pulls
              (λ k below. calls k ∙ nth_call-planned reader k (called-AllBatches k below))
