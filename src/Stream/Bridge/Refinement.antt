-- ===== src/Stream/Bridge/Refinement.antt =====
-- The bridge refines the lazy stream: each step of an interleaving is some steps of it.
use mathlib.Core.List.{append-nil}
use xorq_datafusion.Common.{
  suc, ◌+◌, ◌≤◌, ◌≡◌, refl, sym, subst, Bool, true, false, not, List, [], ◌∷◌, ◌++◌, arith, length,
  length-append, Result, Bool-cases, Option-cases, inl, inr, ◌⊎◌,
}
use xorq_datafusion.Arrow.{RecordBatch}
use xorq_datafusion.Stream.Credit.{ReadAhead, on_demand, buffered, channel_capacity}
use xorq_datafusion.Stream.Lazy.{
  Lazy, fresh, asks, reads, takes, leaves, stops, ◌⟶*◌, here, then, join,
}
use xorq_datafusion.Stream.Bridge.{
  Scan, Phase, choosing, waiting, reserving, pulling, sent, slotted, finished, Action, produce,
  polls, drops, borrows, returns, Bridge, spawn_channel_stream, is_closed, produce_at, on_pull, ask,
  receive, poll_next, drop_at, drop_stream, step, run,
}
use xorq_datafusion.Stream.Bridge.Order.{emit}
use xorq_datafusion.Stream.Bridge.Contract.{is_finished, accepted}
use xorq_datafusion.Stream.Bridge.Credits.{IsAccounted, step-IsAccounted, spawn-IsAccounted}

abbrev pub reads_ahead : ReadAhead → Bool
reads_ahead on_demand = false
reads_ahead buffered = true

module _ {T : Type 0} (scan : Scan T) where
  open scan use {types, tokio, mpsc, schema, read_ahead, pull}
  open mpsc use {
    view, view-send, view-release, view-close, view-new, try_reserve-Reserves, recv-Receives,
  }

  -- What the consumer may see of a bridge.
  abbrev pub observed : Bridge scan → Lazy (Result (RecordBatch T))
  observed s = record {
    calls = s.pulls;
    got = s.delivered;
    queue = (view s.channel).queued;
    asked = s.granted;
    over = is_finished s.phase;
    live = not (is_closed scan s);
  }

  infix 40 ◌⇒*◌
  abbrev pub ◌⇒*◌ : Lazy (Result (RecordBatch T)) → Lazy (Result (RecordBatch T)) → Type 0
  s ⇒* t =
      ◌⟶*◌ (λ n. emit scan (pull n)) (accepted scan) channel_capacity (reads_ahead read_ahead) s t

  abbrev Fits : Bridge scan → Type 0
  Fits s = length (view s.channel).queued + (view s.channel).permits ≤ channel_capacity

  after : {s t u : Lazy (Result (RecordBatch T))} → s ⇒* t → t ⇒* u → s ⇒* u
  after = join (λ n. emit scan (pull n)) (accepted scan) channel_capacity (reads_ahead read_ahead)

  stays : {s t : Lazy (Result (RecordBatch T))} → s ≡ t → s ⇒* t
  stays {s} e = subst (λ u. s ⇒* u) e here

  on_pull-observed :
      (s : Bridge scan)
      → observed (on_pull scan s) ≡ record (observed s) {
        calls = suc s.pulls;
        queue = (view s.channel).queued ++ emit scan (pull s.pulls);
        over = not (accepted scan s.pulls);
      }
  unfolding on_pull emit accepted
  on_pull-observed s = grind (arith, view-send, view-release, append-nil)

  -- The producer moves unseen, or stops since nobody listens.
  Unseen : Bridge scan → Bridge scan → Type 0
  Unseen s t =
      (observed t ≡ observed s)
      ⊎ ((is_closed scan s ≡ true)
          × (is_finished s.phase ≡ false)
          × (observed t ≡ record (observed s) { over = true }))

  unseen-refines : (s t : Bridge scan) → Unseen s t → observed s ⇒* observed t
  unfolding Unseen
  unseen-refines s t (inl e) = stays (sym e)
  unseen-refines s t (inr (gone, on, e)) =
      subst (λ u. observed s ⇒* u) (sym e) (then here (stops (observed s) (ground arith) on))

  pulls-refines :
      (s : Bridge scan)
      → s.phase ≡ pulling
      → IsAccounted scan s
      → Fits s
      → observed s ⇒* observed (on_pull scan s)
  pulls-refines s e v fits =
      subst (λ u. observed s ⇒* u) (sym (on_pull-observed s))
        (then here (
          reads (observed s) (ground arith) (ground (arith, v.slot))
            (λ lazy. ground (arith, v.bound, v.kept))))

  produce_at-refines :
      (p : Phase) (s : Bridge scan)
      → s.phase ≡ p
      → IsAccounted scan s
      → Fits s
      → observed s ⇒* observed (produce_at scan p s)
  unfolding produce_at Unseen
  produce_at-refines choosing s e v fits = stays (ground arith)
  produce_at-refines waiting s e v fits = stays (ground arith)
  produce_at-refines reserving s e v fits =
      unseen-refines s (produce_at scan reserving s)
        (ground (arith, try_reserve-Reserves s.channel))
  produce_at-refines pulling s e v fits = pulls-refines s e v fits
  produce_at-refines sent s e v fits =
      unseen-refines s (produce_at scan sent s) (ground (arith, try_reserve-Reserves s.channel))
  produce_at-refines slotted s e v fits =
      unseen-refines s (produce_at scan slotted s) (ground (arith, view-release s.channel))
  produce_at-refines finished s e v fits = here

  produce_at-Fits :
      (p : Phase) (s : Bridge scan)
      → s.phase ≡ p
      → IsAccounted scan s
      → Fits s
      → Fits (produce_at scan p s)
  unfolding produce_at
  produce_at-Fits choosing s e v h = ground arith
  produce_at-Fits waiting s e v h = ground arith
  produce_at-Fits reserving s e v h = ground (arith, try_reserve-Reserves s.channel)
  produce_at-Fits pulling s e v h = grind (arith, view-send, view-release, length-append, v.slot)
  produce_at-Fits sent s e v h = ground (arith, try_reserve-Reserves s.channel)
  produce_at-Fits slotted s e v h = ground (arith, view-release s.channel)
  produce_at-Fits finished s e v h = h

  drop_at-Fits : (p : Phase) (s : Bridge scan) → Fits s → Fits (drop_at scan p s)
  unfolding drop_at
  drop_at-Fits pulling s h = h
  drop_at-Fits sent s h = h
  drop_at-Fits slotted s h = h
  drop_at-Fits _ s h = ground arith

  step-Fits : (a : Action) (s : Bridge scan) → IsAccounted scan s → Fits s → Fits (step scan a s)
  unfolding step
  step-Fits produce s v h = produce_at-Fits s.phase s refl v h
  step-Fits polls s v h = grind (arith, recv-Receives s.channel)
  step-Fits drops s v h = elim (Bool-cases (is_closed scan s)) [
    | inl gone ↦ rw gone h
    | inr open' ↦ rw open' (
        drop_at-Fits s.phase (record s { channel = mpsc.close s.channel })
          (ground (arith, view-close s.channel)))
  ]
  step-Fits borrows s v h = ground arith
  step-Fits returns s v h = ground arith

  asks-refines :
      (s : Bridge scan)
      → IsAccounted scan s
      → is_closed scan s ≡ false
      → observed s ⇒* observed (ask scan s)
  unfolding ask
  asks-refines s v live = elim (Bool-cases s.requested) [
    | inl r ↦ stays (ground arith)
    | inr r ↦
        subst (λ u. observed s ⇒* u) (ground arith)
          (then here (asks (observed s) (ground arith) (ground (arith, v.asked))))
  ]

  receives-refines :
      (s : Bridge scan)
      → s.granted ≡ suc (length s.delivered)
      → is_closed scan s ≡ false
      → observed s ⇒* observed (receive scan s).0
  unfolding receive
  receives-refines s asked live = elim (Option-cases (mpsc.recv s.channel)) [
    | inl empty ↦ stays (ground arith)
    | inr ((item, c), got) ↦
        let q : (view s.channel).queued ≡ item ∷ (view c).queued =
          ground (arith, recv-Receives s.channel) in
        subst (λ u. observed s ⇒* u) (ground (arith, recv-Receives s.channel))
          (then here (takes (observed s) item (view c).queued (ground arith) asked q))
  ]

  polls-refines :
      (s : Bridge scan)
      → IsAccounted scan s
      → is_closed scan s ≡ false
      → observed s ⇒* observed (poll_next scan s).0
  unfolding poll_next ask
  polls-refines s v live =
      after (asks-refines s v live)
        (receives-refines (ask scan s) (ground (arith, v.asked)) (ground arith))

  drop_at-refines :
      (p : Phase) (s : Bridge scan)
      → s.phase ≡ p
      → is_closed scan s ≡ true
      → observed s ⇒* observed (drop_at scan p s)
  unfolding drop_at Unseen
  drop_at-refines pulling s e gone = here
  drop_at-refines sent s e gone = here
  drop_at-refines slotted s e gone = here
  drop_at-refines finished s e gone = stays (ground arith)
  drop_at-refines choosing s e gone = unseen-refines s (drop_at scan choosing s) (ground arith)
  drop_at-refines waiting s e gone = unseen-refines s (drop_at scan waiting s) (ground arith)
  drop_at-refines reserving s e gone = unseen-refines s (drop_at scan reserving s) (ground arith)

  closes-refines :
      (s : Bridge scan)
      → is_closed scan s ≡ false
      → observed s ⇒* observed (record s { channel = mpsc.close s.channel })
  closes-refines s live =
      subst (λ u. observed s ⇒* u) (ground (arith, view-close s.channel))
        (then here (leaves (observed s) (ground arith)))

  drops-refines :
      (s : Bridge scan) → is_closed scan s ≡ false → observed s ⇒* observed (drop_stream scan s)
  unfolding drop_stream
  drops-refines s live = after (closes-refines s live) (
      drop_at-refines s.phase (record s { channel = mpsc.close s.channel }) refl
        (ground (arith, view-close s.channel)))

  reaches :
      (s t u : Bridge scan)
      → observed t ≡ observed u
      → observed s ⇒* observed t
      → observed s ⇒* observed u
  reaches s t u e p = subst (λ v. observed s ⇒* v) e p

  step-refines :
      (a : Action) (s : Bridge scan)
      → IsAccounted scan s
      → Fits s
      → observed s ⇒* observed (step scan a s)
  unfolding step
  step-refines produce s v h = produce_at-refines s.phase s refl v h
  step-refines polls s v h = elim (Bool-cases (is_closed scan s)) [
    | inl gone ↦ stays (ground arith)
    | inr live ↦
        reaches s (poll_next scan s).0 (step scan polls s) (ground arith) (polls-refines s v live)
  ]
  step-refines drops s v h = elim (Bool-cases (is_closed scan s)) [
    | inl gone ↦ stays (ground arith)
    | inr live ↦
        reaches s (drop_stream scan s) (step scan drops s) (ground arith) (drops-refines s live)
  ]
  step-refines borrows s v h = stays (ground arith)
  step-refines returns s v h = stays (ground arith)

  run_from-refines :
      (as' : List Action) (s : Bridge scan)
      → IsAccounted scan s
      → Fits s
      → observed s ⇒* observed (run scan as' s)
  unfolding run
  run_from-refines [] s v h = here
  run_from-refines (a ∷ as') s v h =
      after (step-refines a s v h)
        (run_from-refines as' (step scan a s) (step-IsAccounted scan a s v) (step-Fits a s v h))

  spawn-observed : observed (spawn_channel_stream scan) ≡ fresh
  unfolding spawn_channel_stream
  spawn-observed = ground (arith, view-new)

  spawn-Fits : Fits (spawn_channel_stream scan)
  unfolding spawn_channel_stream
  spawn-Fits = ground (arith, view-new)

  -- Whatever the interleaving, what a consumer may see of the bridge is what a lazy stream over the
  -- reader allows: the reader is entered after a batch that was accepted, while the queue is below
  -- the capacity, and on demand only for a batch that was asked for; and the consumer takes the
  -- oldest message after asking for one.
  pub run-refines :
      (as' : List Action) → fresh ⇒* observed (run scan as' (spawn_channel_stream scan))
  run-refines as' =
      subst (λ u. u ⇒* observed (run scan as' (spawn_channel_stream scan))) spawn-observed
        (run_from-refines as' (spawn_channel_stream scan) (spawn-IsAccounted scan) spawn-Fits)
