-- ===== src/Stream/Bridge.antt =====
-- utils.rs: `spawn_channel_stream`, `drain_batches` and `DemandStream`, as one state and a step for
-- each stretch of code that runs without waiting for another thread. The state holds what the code
-- shares (the channel, the demand semaphore, the speculation budget), where the producer stands,
-- and a history: what the consumer got, the polls that granted a credit, the credits speculated.
pub mod Order
pub mod Credits
pub mod Contract
pub mod Progress
pub mod Cancel
pub mod Refinement
pub mod Typed
mod Tests
use xorq_datafusion.Common.{
  ℕ, zero, suc, Bool, true, false, Option, none, some, List, [], ◌∷◌, ◌++◌, if◌then◌else◌, Result,
  ok, err,
}
use xorq_datafusion.Arrow.{IsDataType, SchemaRef, RecordBatch}
use xorq_datafusion.Stream.Tokio.{Semaphores, Channels}
use xorq_datafusion.Stream.Credit.{
  ReadAhead, Credit, demanded, speculated, try_speculate, channel_capacity, speculation_budget,
}
use xorq_datafusion.Stream.Schema.{check_batch_schema}

-- Where the coordinator stands, or the drain round that it waits for.
pub data Phase : Type 0 where
  choosing : Phase  -- the head of the coordinator's loop
  waiting : Phase  -- in `producer_demand.acquire().await`
  reserving : Phase  -- in `reserve_owned().await`, with a credit
  pulling : Phase  -- in a round, with a slot and a credit, about to call `pull`
  sent : Phase  -- in a round, after `permit.send`, about to take the next slot
  slotted : Phase  -- in a round, with the next slot, about to take the credit for it
  finished : Phase

-- What the parts of a process share for one stream: the libraries below the code, the arguments of
-- `spawn_channel_stream`, and the outcomes of the calls of `pull`, by their number.
pub record Scan (T : Type 0) : Type 1 where
  pub types : IsDataType T
  pub tokio : Semaphores
  pub mpsc : Channels (Result (RecordBatch T)) channel_capacity
  pub schema : SchemaRef T
  pub read_ahead : ReadAhead
  pub pull : ℕ → Option (Result (RecordBatch T))

pub record State (T S C : Type 0) : Type 0 where
  pub channel : C
  pub demand : S
  pub budget : S
  pub phase : Phase
  pub credits : List Credit
  pub requested : Bool
  pub pulls : ℕ
  pub delivered : List (Result (RecordBatch T))
  pub granted : ℕ
  pub speculations : ℕ
  pub borrowed : ℕ

pub data Poll (A : Type 0) : Type 0 where
  ready : A → Poll A
  ended : Poll A
  pending : Poll A

-- Who moves next: the producer, the consumer that polls or drops the stream, and the other streams
-- of the process, which take and return permits of the speculation budget.
pub data Action : Type 0 where
  produce polls drops borrows returns : Action

module _ {T : Type 0} (scan : Scan T) where
  open scan use {types, tokio, mpsc, schema, read_ahead, pull}
  open tokio use {Semaphore, add_permits, try_acquire}
  open mpsc use {Channel, view, try_reserve, send, release, recv, close}

  abbrev pub Bridge : Type 0
  Bridge = State T Semaphore Channel

  -- The stream as `spawn_channel_stream` returns it, on the whole budget.
  pub spawn_channel_stream : Bridge
  spawn_channel_stream = record {
    channel = mpsc.new;
    demand = tokio.new 0;
    budget = tokio.new speculation_budget;
    phase = choosing;
    credits = [];
    requested = false;
    pulls = 0;
    delivered = [];
    granted = 0;
    speculations = 0;
    borrowed = 0;
  }

  abbrev pub is_closed : Bridge → Bool
  is_closed s = (view s.channel).closed

  -- The credits are dropped, so their permits go back to the budget.
  drop_credits : Phase → Bridge → Bridge
  unfolding speculated
  drop_credits next s = record s {
    budget = add_permits (speculated s.credits) s.budget;
    credits = [];
    phase = next;
  }

  -- The end of a round: `round` returns `ended`, and the coordinator breaks or goes on. It has been
  -- aborted meanwhile if the stream is gone.
  end_round : Bool → Bridge → Bridge
  unfolding drop_credits
  end_round true s = drop_credits finished s
  end_round false s = drop_credits (if is_closed s then finished else choosing) s

  -- Pull on demand, or speculatively while the budget allows, or park until there is demand.
  choose : Bridge → Bridge
  unfolding try_speculate
  choose s = elim (try_acquire s.demand) [
    | some d ↦ record s { demand = d; credits = demanded ∷ []; phase = reserving }
    | none ↦ elim (try_speculate tokio read_ahead s.budget) [
      | some (c, b) ↦ record s {
        budget = b;
        credits = c ∷ [];
        phase = reserving;
        speculations = suc s.speculations;
      }
      | none ↦ record s { phase = waiting }
    ]
  ]

  await_demand : Bridge → Bridge
  await_demand s = elim (try_acquire s.demand) [
    | some d ↦ record s { demand = d; credits = demanded ∷ []; phase = reserving }
    | none ↦ s
  ]

  -- Park until a slot frees, and stop if the receiver is gone.
  await_slot : Bridge → Bridge
  unfolding drop_credits
  await_slot s = elim (try_reserve s.channel) [
    | some c ↦ record s { channel = c; phase = pulling }
    | none ↦ if is_closed s then drop_credits finished s else s
  ]

  -- `match pull()`: a batch that fits goes out, an error or a batch that does not fit goes out and
  -- ends the stream, and the end of the input gives the slot back.
  on_pull : Bridge → Bridge
  unfolding end_round check_batch_schema
  on_pull s =
      let s' = record s { pulls = suc s.pulls } in
      elim (pull s.pulls) [
        | none ↦ end_round true (record s' { channel = release s.channel })
        | some (err e) ↦ end_round true (record s' { channel = send (err e) s.channel })
        | some (ok batch) ↦ elim (check_batch_schema ⦃d = types⦄ schema batch) [
          | err e ↦ end_round true (record s' { channel = send (err e) s.channel })
          | ok _ ↦ record s' { channel = send (ok batch) s.channel; phase = sent }
        ]
      ]

  -- `tx.try_reserve_owned()`: the round ends on a channel that is full or closed.
  on_sent : Bridge → Bridge
  unfolding end_round
  on_sent s = elim (try_reserve s.channel) [
    | none ↦ end_round false s
    | some c ↦ record s { channel = c; phase = slotted }
  ]

  -- Continue on demand that is already granted, else on read-ahead, else end the round.
  on_slot : Bridge → Bridge
  unfolding end_round try_speculate
  on_slot s = elim (try_acquire s.demand) [
    | some d ↦ record s { demand = d; phase = pulling }
    | none ↦ elim (try_speculate tokio read_ahead s.budget) [
      | some (c, b) ↦ record s {
        budget = b;
        credits = c ∷ s.credits;
        phase = pulling;
        speculations = suc s.speculations;
      }
      | none ↦ end_round false (record s { channel = release s.channel })
    ]
  ]

  produce_at : Phase → Bridge → Bridge
  unfolding choose await_demand await_slot on_pull on_sent on_slot
  produce_at choosing s = choose s
  produce_at waiting s = await_demand s
  produce_at reserving s = await_slot s
  produce_at pulling s = on_pull s
  produce_at sent s = on_sent s
  produce_at slotted s = on_slot s
  produce_at finished s = s

  -- `DemandStream::poll_next`: one credit for each batch that is asked for, however often it is
  -- polled for.
  ask : Bridge → Bridge
  ask s =
      if s.requested
      then s
      else record s { demand = add_permits 1 s.demand; requested = true; granted = suc s.granted }

  receive : Bridge → Bridge × Poll (Result (RecordBatch T))
  receive s = elim (recv s.channel) [
    | some (item, c) ↦ (
      record s { channel = c; requested = false; delivered = s.delivered ++ item ∷ [] },
      ready item,
    )
    | none ↦ (s, elim s.phase [ finished ↦ ended | _ ↦ pending ])
  ]

  pub poll_next : Bridge → Bridge × Poll (Result (RecordBatch T))
  unfolding ask receive
  poll_next s = receive (ask s)

  -- The receiver closes the channel, and the coordinator is aborted at its next await; a round that
  -- runs goes on.
  drop_at : Phase → Bridge → Bridge
  unfolding drop_credits
  drop_at pulling s = s
  drop_at sent s = s
  drop_at slotted s = s
  drop_at _ s = drop_credits finished s

  drop_stream : Bridge → Bridge
  unfolding drop_at
  drop_stream s = drop_at s.phase (record s { channel = close s.channel })

  -- A stream that was dropped is not polled again.
  pub step : Action → Bridge → Bridge
  unfolding produce_at poll_next drop_stream
  step produce s = produce_at s.phase s
  step polls s = if is_closed s then s else (poll_next s).0
  step drops s = if is_closed s then s else drop_stream s
  step borrows s = elim (try_acquire s.budget) [
    | some b ↦ record s { budget = b; borrowed = suc s.borrowed }
    | none ↦ s
  ]
  step returns s = elim s.borrowed [
    | zero ↦ s
    | suc n ↦ record s { budget = add_permits 1 s.budget; borrowed = n }
  ]

  pub run : List Action → Bridge → Bridge
  run [] s = s
  run (a ∷ as') s = run as' (step a s)
