-- ===== src/Stream/Bridge/Contract.antt =====
-- When the reader is entered again, and what the end of the stream means.
use mathlib.Core.List.{append-nil}
use xorq_datafusion.Common.{
  ℕ, zero, suc, ◌<◌, ◌≡◌, refl, Bool, true, false, none, some, List, [], ◌∷◌, arith, ok, err,
  Bool-cases, inl, inr, dec_lt,
}
use xorq_datafusion.Stream.Schema.{check_batch_schema}
use xorq_datafusion.Stream.Bridge.{
  Scan, Phase, choosing, waiting, reserving, pulling, sent, slotted, finished, Action, produce,
  polls, drops, borrows, returns, Bridge, spawn_channel_stream, is_closed, produce_at, drop_at,
  step, run, poll_next, ended,
}
use xorq_datafusion.Stream.Bridge.Order.{emitted, run-emitted}

abbrev pub is_finished : Phase → Bool
is_finished finished = true
is_finished _ = false

module _ {T : Type 0} (scan : Scan T) where
  open scan use {types, tokio, mpsc, schema, read_ahead, pull}
  open mpsc use {view, view-close, recv-Receives}

  -- Call `n` of `pull` returned a batch that fits the schema.
  unfoldable pub accepted : ℕ → Bool
  accepted n = elim (pull n) [
    | none ↦ false
    | some (err e) ↦ false
    | some (ok batch) ↦ elim (check_batch_schema ⦃d = types⦄ schema batch) [
      | ok _ ↦ true
      | err e ↦ false
    ]
  ]

  abbrev pub AllAccepted : ℕ → Type 0
  AllAccepted zero = Unit {0}
  AllAccepted (suc n) = AllAccepted n × (accepted n ≡ true)

  abbrev pub AllButLast : ℕ → Type 0
  AllButLast zero = Unit {0}
  AllButLast (suc n) = AllAccepted n

  -- The last of `n` calls ended the input, failed, or returned a batch that does not fit.
  abbrev pub EndsWithin : ℕ → Type 0
  EndsWithin zero = ⊥
  EndsWithin (suc n) = accepted n ≡ false

  pub record KeepsContract (s : Bridge scan) : Type 0 where
    pub running : is_finished s.phase ≡ false → AllAccepted s.pulls
    pub past : AllButLast s.pulls
    pub over : is_closed scan s ≡ false → s.phase ≡ finished → EndsWithin s.pulls

  AllAccepted-AllButLast : (n : ℕ) → AllAccepted n → AllButLast n
  AllAccepted-AllButLast zero h = tt
  AllAccepted-AllButLast (suc n) h = h.0

  produce_at-KeepsContract :
      (p : Phase) (s : Bridge scan)
      → s.phase ≡ p
      → KeepsContract s
      → KeepsContract (produce_at scan p s)
  unfolding produce_at accepted
  produce_at-KeepsContract choosing s e h = ground arith
  produce_at-KeepsContract waiting s e h = ground arith
  produce_at-KeepsContract reserving s e h = ground (arith, mpsc.try_reserve-Reserves s.channel)
  produce_at-KeepsContract pulling s e h = grind (arith, mpsc.view-send, mpsc.view-release)
  produce_at-KeepsContract sent s e h = ground (arith, mpsc.try_reserve-Reserves s.channel)
  produce_at-KeepsContract slotted s e h = ground (arith, mpsc.view-release s.channel)
  produce_at-KeepsContract finished s e h = h

  drop_at-KeepsContract :
      (p : Phase) (s : Bridge scan)
      → s.phase ≡ p
      → is_closed scan s ≡ true
      → KeepsContract s
      → KeepsContract (drop_at scan p s)
  unfolding drop_at
  drop_at-KeepsContract pulling s e c h = h
  drop_at-KeepsContract _ s e c h = ground arith

  step-KeepsContract :
      (a : Action) (s : Bridge scan) → KeepsContract s → KeepsContract (step scan a s)
  unfolding step
  step-KeepsContract produce s h = produce_at-KeepsContract s.phase s refl h
  step-KeepsContract polls s h = ground (arith, recv-Receives s.channel)
  step-KeepsContract drops s h = elim (Bool-cases (is_closed scan s)) [
    | inl gone ↦ rw gone h
    | inr open' ↦ rw open' (
        drop_at-KeepsContract s.phase (record s { channel = mpsc.close s.channel }) refl
          (ground (arith, view-close s.channel)) (ground (arith, view-close s.channel)))
  ]
  step-KeepsContract borrows s h = ground arith
  step-KeepsContract returns s h = ground arith

  run-KeepsContract :
      (as' : List Action) (s : Bridge scan) → KeepsContract s → KeepsContract (run scan as' s)
  unfolding run
  run-KeepsContract [] s h = h
  run-KeepsContract (a ∷ as') s h = run-KeepsContract as' (step scan a s) (step-KeepsContract a s h)

  pub run_spawn-KeepsContract :
      (as' : List Action) → KeepsContract (run scan as' (spawn_channel_stream scan))
  unfolding spawn_channel_stream
  run_spawn-KeepsContract as' = run-KeepsContract as' _ (ground arith)

  AllAccepted-lt : (n k : ℕ) → AllAccepted n → k < n → accepted k ≡ true
  AllAccepted-lt zero k h lt = absurd (omega arith)
  AllAccepted-lt (suc n) k h lt = elim (dec_lt k n) [
    | yes below ↦ AllAccepted-lt n k h.0 below
    | no other ↦ let last : k ≡ n = omega arith in rw last h.1
  ]

  AllButLast-lt : (n k : ℕ) → AllButLast n → suc k < n → accepted k ≡ true
  AllButLast-lt zero k h lt = absurd (omega arith)
  AllButLast-lt (suc n) k h lt = AllAccepted-lt n k h (omega arith)

  -- The contract of `BatchPull`: the reader is entered again only after a call that returned a
  -- batch that fits the schema; the end of the input, an error and a misfit are terminal.
  pub pull_again-accepted :
      (as' : List Action) (n : ℕ)
      → suc n < (run scan as' (spawn_channel_stream scan)).pulls
      → accepted n ≡ true
  pull_again-accepted as' n lt = AllButLast-lt _ n (run_spawn-KeepsContract as').past lt

  -- When a poll of a live stream reports its end, the consumer holds the outcomes of every call of
  -- `pull`, and the last of these calls was terminal.
  pub ended-emitted :
      (as' : List Action)
      → let s = run scan as' (spawn_channel_stream scan) in
        is_closed scan s ≡ false
        → (poll_next scan s).1 ≡ ended
        → (s.delivered ≡ emitted scan s.pulls) × EndsWithin s.pulls
  unfolding poll_next
  ended-emitted as' live e =
      let s = run scan as' (spawn_channel_stream scan) in
      ground (
        arith,
        recv-Receives s.channel,
        run-emitted scan as',
        append-nil s.delivered,
        (run_spawn-KeepsContract as').over live,
      )
