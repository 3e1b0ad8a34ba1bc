-- ===== src/Stream/Bridge/Order.antt =====
-- What the consumer gets: the outcomes of the reader, in order, each once.
use mathlib.Core.List.{append-nil, append_assoc}
use xorq_datafusion.Common.{
  ℕ, zero, suc, ◌≡◌, refl, Option, none, some, List, [], ◌∷◌, ◌++◌, arith, Result, ok, err,
  Bool-cases, inl, inr,
}
use xorq_datafusion.Arrow.{RecordBatch}
use xorq_datafusion.Stream.Schema.{check_batch_schema}
use xorq_datafusion.Stream.Bridge.{
  Scan, Phase, choosing, waiting, reserving, pulling, sent, slotted, finished, Action, produce,
  polls, drops, borrows, returns, Bridge, spawn_channel_stream, is_closed, on_pull, produce_at,
  drop_at, step, run,
}

module _ {T : Type 0} (scan : Scan T) where
  open scan use {types, tokio, mpsc, schema, read_ahead, pull}
  open mpsc use {
    view, view-send, view-release, view-close, view-new, try_reserve-Reserves, recv-Receives,
  }

  -- What one outcome of `pull` puts into the stream.
  unfoldable pub emit : Option (Result (RecordBatch T)) → List (Result (RecordBatch T))
  emit none = []
  emit (some (err e)) = err e ∷ []
  emit (some (ok batch)) = elim (check_batch_schema ⦃d = types⦄ schema batch) [
    | ok _ ↦ ok batch ∷ []
    | err e ↦ err e ∷ []
  ]

  -- What the first `n` calls put into it.
  unfoldable pub emitted : ℕ → List (Result (RecordBatch T))
  emitted zero = []
  emitted (suc n) = emitted n ++ emit (pull n)

  abbrev pub IsOrdered : Bridge scan → Type 0
  IsOrdered s = s.delivered ++ (view s.channel).queued ≡ emitted s.pulls

  on_pull-IsOrdered : (s : Bridge scan) → IsOrdered s → IsOrdered (on_pull scan s)
  unfolding on_pull emitted emit
  on_pull-IsOrdered s h = grind (arith, view-send, view-release, append_assoc, append-nil)

  produce_at-IsOrdered :
      (p : Phase) (s : Bridge scan) → IsOrdered s → IsOrdered (produce_at scan p s)
  unfolding produce_at
  produce_at-IsOrdered choosing s h = ground arith
  produce_at-IsOrdered waiting s h = ground arith
  produce_at-IsOrdered reserving s h = ground (arith, try_reserve-Reserves s.channel)
  produce_at-IsOrdered pulling s h = on_pull-IsOrdered s h
  produce_at-IsOrdered sent s h = ground (arith, try_reserve-Reserves s.channel)
  produce_at-IsOrdered slotted s h = ground (arith, view-release s.channel)
  produce_at-IsOrdered finished s h = h

  drop_at-IsOrdered : (p : Phase) (s : Bridge scan) → IsOrdered s → IsOrdered (drop_at scan p s)
  unfolding drop_at
  drop_at-IsOrdered pulling s h = h
  drop_at-IsOrdered _ s h = h

  step-IsOrdered : (a : Action) (s : Bridge scan) → IsOrdered s → IsOrdered (step scan a s)
  unfolding step
  step-IsOrdered produce s h = produce_at-IsOrdered s.phase s h
  step-IsOrdered polls s h = grind (arith, recv-Receives s.channel, append_assoc)
  step-IsOrdered drops s h = elim (Bool-cases (is_closed scan s)) [
    | inl gone ↦ rw gone h
    | inr open' ↦ rw open' (
        drop_at-IsOrdered s.phase (record s { channel = mpsc.close s.channel })
          (rw (view-close s.channel) h))
  ]
  step-IsOrdered borrows s h = ground arith
  step-IsOrdered returns s h = ground arith

  run-IsOrdered : (as' : List Action) (s : Bridge scan) → IsOrdered s → IsOrdered (run scan as' s)
  unfolding run
  run-IsOrdered [] s h = h
  run-IsOrdered (a ∷ as') s h = run-IsOrdered as' (step scan a s) (step-IsOrdered a s h)

  -- After any history, what the consumer got and what waits in the channel are together the
  -- outcomes of the calls of `pull` so far, in their order: none is lost, repeated or moved.
  pub run-emitted :
      (as' : List Action)
      → let s = run scan as' (spawn_channel_stream scan) in
        s.delivered ++ (view s.channel).queued ≡ emitted s.pulls
  unfolding spawn_channel_stream emitted
  run-emitted as' = run-IsOrdered as' (spawn_channel_stream scan) (rw view-new refl)
