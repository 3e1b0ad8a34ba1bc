-- ===== src/Stream/Bridge/Cancel.antt =====
-- A stream that is dropped: no pull is dispatched, and the producer stops.
use xorq_datafusion.Common.{ℕ, ◌+◌, ◌-◌, ◌≤◌, ◌≡◌, refl, true, false, List, [], ◌∷◌, arith}
use xorq_datafusion.Stream.Bridge.{
  Scan, Phase, choosing, waiting, reserving, pulling, sent, slotted, finished, Action, produce,
  polls, drops, borrows, returns, Bridge, is_closed, produce_at, drop_at, step, run,
}

-- The calls of `pull` that a round may still make once the channel is closed.
abbrev left : Phase → ℕ
left pulling = 1
left slotted = 1
left _ = 0

-- A round that runs, or the end.
abbrev InRound : Phase → Type 0
InRound choosing = ⊥
InRound waiting = ⊥
InRound reserving = ⊥
InRound _ = Unit {0}

-- The steps that a round may still take.
abbrev rank : Phase → ℕ
rank slotted = 3
rank pulling = 2
rank sent = 1
rank _ = 0

module _ {T : Type 0} (scan : Scan T) where
  open scan use {tokio, mpsc}
  open mpsc use {view, view-send, view-release, view-close, try_reserve-Reserves, recv-Receives}

  record IsDropped (n : ℕ) (s : Bridge scan) : Type 0 where
    gone : is_closed scan s ≡ true
    round : InRound s.phase
    few : s.pulls + left s.phase ≤ n

  produce_at-IsDropped :
      {n : ℕ} (p : Phase) (s : Bridge scan)
      → s.phase ≡ p
      → IsDropped n s
      → IsDropped n (produce_at scan p s)
  unfolding produce_at
  produce_at-IsDropped choosing s e h = ground arith
  produce_at-IsDropped waiting s e h = ground arith
  produce_at-IsDropped reserving s e h = ground arith
  produce_at-IsDropped pulling s e h = grind (arith, view-send, view-release)
  produce_at-IsDropped sent s e h = ground (arith, try_reserve-Reserves s.channel)
  produce_at-IsDropped slotted s e h = ground (arith, view-release s.channel)
  produce_at-IsDropped finished s e h = h

  step-IsDropped :
      {n : ℕ} (a : Action) (s : Bridge scan) → IsDropped n s → IsDropped n (step scan a s)
  unfolding step
  step-IsDropped produce s h = produce_at-IsDropped s.phase s refl h
  step-IsDropped polls s h = ground arith
  step-IsDropped drops s h = ground arith
  step-IsDropped borrows s h = ground arith
  step-IsDropped returns s h = ground arith

  run-IsDropped :
      {n : ℕ} (as' : List Action) (s : Bridge scan) → IsDropped n s → IsDropped n (run scan as' s)
  unfolding run
  run-IsDropped [] s h = h
  run-IsDropped (a ∷ as') s h = run-IsDropped as' (step scan a s) (step-IsDropped a s h)

  drop_at-IsDropped :
      (p : Phase) (s : Bridge scan)
      → s.phase ≡ p
      → is_closed scan s ≡ true
      → IsDropped (s.pulls + 1) (drop_at scan p s)
  unfolding drop_at
  drop_at-IsDropped pulling s e c = ground arith
  drop_at-IsDropped sent s e c = ground arith
  drop_at-IsDropped slotted s e c = ground arith
  drop_at-IsDropped _ s e c = ground arith

  drops-IsDropped :
      (s : Bridge scan) → is_closed scan s ≡ false → IsDropped (s.pulls + 1) (step scan drops s)
  unfolding step
  drops-IsDropped s live = rw live (
      drop_at-IsDropped s.phase (record s { channel = mpsc.close s.channel }) refl
        (ground (arith, view-close s.channel)))

  -- Each step of the producer takes a dropped stream one step nearer to its end.
  produce-rank :
      {n : ℕ} (p : Phase) (s : Bridge scan)
      → s.phase ≡ p
      → IsDropped n s
      → rank (produce_at scan p s).phase ≤ rank p - 1
  unfolding produce_at
  produce-rank pulling s e h = ground arith
  produce-rank sent s e h = ground (arith, try_reserve-Reserves s.channel)
  produce-rank slotted s e h = ground (arith, view-release s.channel)
  produce-rank finished s e h = ground arith
  produce-rank _ s e h = ground arith

  step-rank :
      {n : ℕ} (s : Bridge scan)
      → IsDropped n s
      → rank (step scan produce s).phase ≤ rank s.phase - 1
  unfolding step
  step-rank s h = produce-rank s.phase s refl h

  finished_of_rank : (p : Phase) → InRound p → rank p ≡ 0 → p ≡ finished
  finished_of_rank pulling r e = absurd (omega arith)
  finished_of_rank sent r e = absurd (omega arith)
  finished_of_rank slotted r e = absurd (omega arith)
  finished_of_rank finished r e = refl
  finished_of_rank _ r e = absurd r

  rank-le : (p : Phase) → rank p ≤ 3
  rank-le pulling = omega arith
  rank-le _ = omega arith

  three_steps :
      {n : ℕ} (s : Bridge scan)
      → IsDropped n s
      → (run scan (produce ∷ produce ∷ produce ∷ []) s).phase ≡ finished
  unfolding run
  three_steps s h =
      let s1 = step scan produce s in
      let h1 = step-IsDropped produce s h in
      let s2 = step scan produce s1 in
      let h2 = step-IsDropped produce s1 h1 in
      let h3 = step-IsDropped produce s2 h2 in
      finished_of_rank _ h3.round
        (omega (arith, rank-le s.phase, step-rank s h, step-rank s1 h1, step-rank s2 h2))

  drop_pulls :
      (s : Bridge scan) (as' : List Action)
      → is_closed scan s ≡ false
      → (run scan as' (step scan drops s)).pulls ≤ s.pulls + 1
  drop_pulls s as' live =
      let h = run-IsDropped as' _ (drops-IsDropped s live) in omega (arith, h.few)

  -- Once a live stream is dropped, the reader is entered at most once more, by the round that was
  -- running, whatever then happens; and three steps of the producer end it.
  pub drops-ends :
      (s : Bridge scan)
      → is_closed scan s ≡ false
      → ((as' : List Action) → (run scan as' (step scan drops s)).pulls ≤ s.pulls + 1)
        × ((run scan (produce ∷ produce ∷ produce ∷ []) (step scan drops s)).phase ≡ finished)
  drops-ends s live = ((λ as'. drop_pulls s as' live), three_steps _ (drops-IsDropped s live))
