-- ===== src/Stream/Bridge/Credits.antt =====
-- What the producer may do: permission to pull is granted by a poll or drawn from the budget.
use xorq_datafusion.Common.{
  ℕ, ◌+◌, ◌≤◌, ◌≡◌, refl, true, false, List, [], ◌∷◌, arith, length, length-append, Bool-cases, inl,
  inr, if◌then◌else◌,
}
use xorq_datafusion.Stream.Credit.{on_demand, Credit, speculated, speculation_budget}
use xorq_datafusion.Stream.Bridge.{
  Scan, Phase, choosing, waiting, reserving, pulling, sent, slotted, finished, Action, produce,
  polls, drops, borrows, returns, Bridge, spawn_channel_stream, is_closed, produce_at, drop_at,
  step, run,
}

-- A credit is in hand from the moment it is taken to the call of `pull`.
abbrev pub in_hand : Phase → ℕ
in_hand reserving = 1
in_hand pulling = 1
in_hand _ = 0

-- The slots that the producer holds.
abbrev pub slots : Phase → ℕ
slots pulling = 1
slots slotted = 1
slots _ = 0

-- Outside a round, and without a slot to wait for, the producer holds no credit.
abbrev pub Holds : Phase → List Credit → Type 0
Holds choosing cs = cs ≡ []
Holds waiting cs = cs ≡ []
Holds finished cs = cs ≡ []
Holds _ cs = Unit

module _ {T : Type 0} (scan : Scan T) where
  open scan use {types, tokio, mpsc, schema, read_ahead, pull}
  open tokio use {available, available-new, available-add_permits, try_acquire-Acquires}
  open mpsc use {
    view, view-send, view-release, view-close, view-new, try_reserve-Reserves, recv-Receives,
  }

  pub record IsAccounted (s : Bridge scan) : Type 0 where
    pub budget : available s.budget + speculated s.credits + s.borrowed ≡ speculation_budget
    pub bound : s.pulls + in_hand s.phase + available s.demand ≤ s.granted + s.speculations
    pub exact :
        is_closed scan s ≡ false
        → s.pulls + in_hand s.phase + available s.demand ≡ s.granted + s.speculations
    pub asked : s.granted ≡ length s.delivered + (if s.requested then 1 else 0)
    pub kept : read_ahead ≡ on_demand → s.speculations ≡ 0
    pub slot : (view s.channel).permits ≡ slots s.phase
    pub idle : Holds s.phase s.credits

  produce_at-IsAccounted :
      (p : Phase) (s : Bridge scan)
      → s.phase ≡ p
      → IsAccounted s
      → IsAccounted (produce_at scan p s)
  unfolding produce_at
  produce_at-IsAccounted choosing s e h =
      ground (arith, try_acquire-Acquires s.demand, try_acquire-Acquires s.budget)
  produce_at-IsAccounted waiting s e h = ground (arith, try_acquire-Acquires s.demand)
  produce_at-IsAccounted reserving s e h =
      ground (
        arith,
        try_reserve-Reserves s.channel,
        available-add_permits (speculated s.credits) s.budget,
      )
  produce_at-IsAccounted pulling s e h =
      grind (arith, view-send, view-release, available-add_permits)
  produce_at-IsAccounted sent s e h =
      ground (
        arith,
        try_reserve-Reserves s.channel,
        available-add_permits (speculated s.credits) s.budget,
      )
  produce_at-IsAccounted slotted s e h = ground (
    arith,
    view-release s.channel,
    try_acquire-Acquires s.demand,
    try_acquire-Acquires s.budget,
    available-add_permits (speculated s.credits) s.budget,
  )
  produce_at-IsAccounted finished s e h = h

  drop_at-IsAccounted :
      (p : Phase) (s : Bridge scan)
      → s.phase ≡ p
      → is_closed scan s ≡ true
      → IsAccounted s
      → IsAccounted (drop_at scan p s)
  unfolding drop_at
  drop_at-IsAccounted pulling s e c h = h
  drop_at-IsAccounted sent s e c h = h
  drop_at-IsAccounted slotted s e c h = h
  drop_at-IsAccounted _ s e c h =
      ground (arith, available-add_permits (speculated s.credits) s.budget)

  closed-IsAccounted :
      (s : Bridge scan) → IsAccounted s → IsAccounted (record s { channel = mpsc.close s.channel })
  closed-IsAccounted s h = ground (arith, view-close s.channel)

  polls-IsAccounted : (s : Bridge scan) → IsAccounted s → IsAccounted (step scan polls s)
  unfolding step
  polls-IsAccounted s h = grind (arith, recv-Receives, length-append, available-add_permits)

  pub step-IsAccounted :
      (a : Action) (s : Bridge scan) → IsAccounted s → IsAccounted (step scan a s)
  unfolding step
  step-IsAccounted produce s h = produce_at-IsAccounted s.phase s refl h
  step-IsAccounted polls s h = polls-IsAccounted s h
  step-IsAccounted drops s h = elim (Bool-cases (is_closed scan s)) [
    | inl gone ↦ rw gone h
    | inr open' ↦ rw open' (
        drop_at-IsAccounted s.phase (record s { channel = mpsc.close s.channel }) refl
          (ground (arith, view-close s.channel)) (closed-IsAccounted s h))
  ]
  step-IsAccounted borrows s h = ground (arith, try_acquire-Acquires s.budget)
  step-IsAccounted returns s h = ground (arith, available-add_permits 1 s.budget)

  run-IsAccounted :
      (as' : List Action) (s : Bridge scan) → IsAccounted s → IsAccounted (run scan as' s)
  unfolding run
  run-IsAccounted [] s h = h
  run-IsAccounted (a ∷ as') s h = run-IsAccounted as' (step scan a s) (step-IsAccounted a s h)

  pub spawn-IsAccounted : IsAccounted (spawn_channel_stream scan)
  unfolding spawn_channel_stream speculated
  spawn-IsAccounted = ground (arith, view-new, available-new 0, available-new speculation_budget)

  -- After any history the credits and the budget are accounted for.
  pub run_spawn-IsAccounted :
      (as' : List Action) → IsAccounted (run scan as' (spawn_channel_stream scan))
  run_spawn-IsAccounted as' = run-IsAccounted as' _ spawn-IsAccounted

  -- On demand, the reader is entered at most once more than the consumer has received batches, and
  -- never before it has asked: a query that takes n batches enters it n times at most while no
  -- further batch is asked for.
  pub pulls-le-delivered :
      (as' : List Action)
      → read_ahead ≡ on_demand
      → let s = run scan as' (spawn_channel_stream scan) in
        (s.pulls ≤ length s.delivered + 1) × (s.requested ≡ false → s.pulls ≤ length s.delivered)
  pulls-le-delivered as' mode =
      let v = run_spawn-IsAccounted as' in ground (arith, v.kept mode, v.bound, v.asked)

  -- The permits of the speculation budget are conserved: what the stream holds, what the other
  -- streams hold and what is free always add up to the budget, and a stream that has finished
  -- holds none.
  pub budget_conserved :
      (as' : List Action)
      → let s = run scan as' (spawn_channel_stream scan) in
        (available s.budget + speculated s.credits + s.borrowed ≡ speculation_budget)
        × (s.phase ≡ finished → speculated s.credits ≡ 0)
  unfolding speculated
  budget_conserved as' = let v = run_spawn-IsAccounted as' in ground (arith, v.budget, v.idle)
