-- ===== src/Stream/Bridge/Progress.antt =====
-- A consumer that waits is served: read-ahead is never required for progress.
use mathlib.Core.List.{append-nil}
use xorq_datafusion.Common.{
  ℕ, zero, suc, ◌≤◌, ◌≡◌, refl, sym, ap, ◌∙◌, true, false, List, [], ◌∷◌, ◌++◌, arith, length,
  length-append, ◌≢◌, ◌⊎◌, inl, inr,
}
use xorq_datafusion.Stream.Bridge.{
  Scan, Phase, choosing, waiting, reserving, pulling, sent, slotted, finished, Action, produce,
  Bridge, pending, poll_next, is_closed, produce_at, step, run, spawn_channel_stream,
}
use xorq_datafusion.Stream.Bridge.Order.{emit, emitted, run-emitted}
use xorq_datafusion.Stream.Bridge.Credits.{run_spawn-IsAccounted, in_hand, slots}
use xorq_datafusion.Stream.Bridge.Contract.{
  accepted, AllAccepted, run_spawn-KeepsContract, is_finished,
}

-- Steps of the producer from a phase to the next outcome, if a credit and a slot are there.
abbrev pub steps_to_outcome : Phase → ℕ
steps_to_outcome choosing = 3
steps_to_outcome waiting = 3
steps_to_outcome reserving = 2
steps_to_outcome pulling = 1
steps_to_outcome sent = 3
steps_to_outcome slotted = 2
steps_to_outcome finished = 0

append_ne_nil : {A : Type 0} (xs : List A) (a : A) → xs ++ a ∷ [] ≢ []
append_ne_nil [] a e = cc
append_ne_nil (x ∷ xs) a e = cc

module _ {T : Type 0} (scan : Scan T) where
  open scan use {types, tokio, mpsc, schema, read_ahead, pull}
  open tokio use {available, try_acquire-Acquires}
  open mpsc use {view, view-send, view-release, try_reserve-Reserves, recv-Receives}

  -- `n` steps of the producer, undisturbed.
  pub produce_steps : ℕ → Bridge scan → Bridge scan
  produce_steps zero s = s
  produce_steps (suc n) s = produce_steps n (step scan produce s)

  length-emit : (n : ℕ) → accepted scan n ≡ true → length (emit scan (pull n)) ≡ 1
  unfolding accepted emit
  length-emit n h = ground arith

  length-emitted : (n : ℕ) → AllAccepted scan n → length (emitted scan n) ≡ n
  unfolding emitted
  length-emitted zero h = refl
  length-emitted (suc n) h = omega (
    arith,
    length-append (emitted scan n) (emit scan (pull n)),
    length-emitted n h.0,
    length-emit n h.1,
  )

  -- There is an outcome for the consumer, or the stream has ended.
  abbrev Serves : Bridge scan → Type 0
  Serves s = ((view s.channel).queued ≢ []) ⊎ (s.phase ≡ finished)

  -- An empty channel of a live stream, with no slot taken.
  abbrev HasRoom : Bridge scan → Type 0
  HasRoom s =
      (is_closed scan s ≡ false) × ((view s.channel).queued ≡ []) × ((view s.channel).permits ≡ 0)

  pulling-Serves : (s : Bridge scan) → s.phase ≡ pulling → Serves (step scan produce s)
  unfolding step produce_at
  pulling-Serves s e = grind (arith, view-send, append_ne_nil)

  reserved :
      (s : Bridge scan) → s.phase ≡ reserving → HasRoom s → (step scan produce s).phase ≡ pulling
  unfolding step produce_at
  reserved s e r = ground (arith, try_reserve-Reserves s.channel)

  reserving-Serves :
      (s : Bridge scan) → s.phase ≡ reserving → HasRoom s → Serves (produce_steps 2 s)
  unfolding produce_steps
  reserving-Serves s e r = pulling-Serves _ (reserved s e r)

  -- With a credit to take, the head of the loop and the wait for demand lead to the next slot.
  credited :
      (s : Bridge scan)
      → (s.phase ≡ choosing) ⊎ (s.phase ≡ waiting)
      → 1 ≤ available s.demand
      → HasRoom s
      → ((step scan produce s).phase ≡ reserving) × HasRoom (step scan produce s)
  unfolding step produce_at
  credited s e c r = ground (arith, try_acquire-Acquires s.demand)

  choosing-Serves :
      (s : Bridge scan)
      → (s.phase ≡ choosing) ⊎ (s.phase ≡ waiting)
      → 1 ≤ available s.demand
      → HasRoom s
      → Serves (produce_steps 3 s)
  unfolding produce_steps
  choosing-Serves s e c r = let h = credited s e c r in reserving-Serves _ h.0 h.1

  slotted_credited :
      (s : Bridge scan)
      → s.phase ≡ slotted
      → 1 ≤ available s.demand
      → (step scan produce s).phase ≡ pulling
  unfolding step produce_at
  slotted_credited s e c = ground (arith, try_acquire-Acquires s.demand)

  slotted-Serves :
      (s : Bridge scan) → s.phase ≡ slotted → 1 ≤ available s.demand → Serves (produce_steps 2 s)
  unfolding produce_steps
  slotted-Serves s e c = pulling-Serves _ (slotted_credited s e c)

  sent_slotted :
      (s : Bridge scan)
      → s.phase ≡ sent
      → HasRoom s
      → ((step scan produce s).phase ≡ slotted) × ((step scan produce s).demand ≡ s.demand)
  unfolding step produce_at
  sent_slotted s e r = ground (arith, try_reserve-Reserves s.channel)

  sent-Serves :
      (s : Bridge scan)
      → s.phase ≡ sent
      → 1 ≤ available s.demand
      → HasRoom s
      → Serves (produce_steps 3 s)
  unfolding produce_steps
  sent-Serves s e c r = let h = sent_slotted s e r in slotted-Serves _ h.0 (rw h.1 c)

  -- Every credit that was granted and not used is still there.
  unused :
      (as' : List Action)
      → let s = run scan as' (spawn_channel_stream scan) in
        is_closed scan s ≡ false
        → s.requested ≡ true
        → (view s.channel).queued ≡ []
        → in_hand s.phase ≡ 0
        → is_finished s.phase ≡ false
        → 1 ≤ available s.demand
  unused as' live waits empty hand going =
      let s = run scan as' (spawn_channel_stream scan) in
      let v = run_spawn-IsAccounted scan as' in
      let order : s.delivered ++ (view s.channel).queued ≡ emitted scan s.pulls =
        run-emitted scan as' in
      let all : length s.delivered ≡ s.pulls =
        ap length (sym (append-nil s.delivered) ∙ (rw empty at order))
        ∙ length-emitted s.pulls ((run_spawn-KeepsContract scan as').running going) in
      ground (arith, v.exact live, v.asked, all)

  Serves-from :
      (p : Phase) (s : Bridge scan)
      → s.phase ≡ p
      → (in_hand p ≡ 0 → is_finished p ≡ false → 1 ≤ available s.demand)
      → HasRoom s ⊎ (slots p ≡ 1)
      → Serves (produce_steps (steps_to_outcome p) s)
  unfolding produce_steps
  Serves-from choosing s e c (inl r) = choosing-Serves s (inl e) (c refl refl) r
  Serves-from choosing s e c (inr h) = absurd (omega arith)
  Serves-from waiting s e c (inl r) = choosing-Serves s (inr e) (c refl refl) r
  Serves-from waiting s e c (inr h) = absurd (omega arith)
  Serves-from reserving s e c (inl r) = reserving-Serves s e r
  Serves-from reserving s e c (inr h) = absurd (omega arith)
  Serves-from pulling s e c r = pulling-Serves s e
  Serves-from sent s e c (inl r) = sent-Serves s e (c refl refl) r
  Serves-from sent s e c (inr h) = absurd (omega arith)
  Serves-from slotted s e c r = slotted-Serves s e (c refl refl)
  Serves-from finished s e c r = inr e

  steps-le : (p : Phase) → steps_to_outcome p ≤ 3
  steps-le choosing = omega arith
  steps-le _ = omega arith

  room :
      (p : Phase) (s : Bridge scan)
      → (view s.channel).permits ≡ slots p
      → is_closed scan s ≡ false
      → (view s.channel).queued ≡ []
      → HasRoom s ⊎ (slots p ≡ 1)
  room pulling s e live empty = inr refl
  room slotted s e live empty = inr refl
  room _ s e live empty = inl (live, empty, e)

  Serves-poll_next : (s : Bridge scan) → Serves s → (poll_next scan s).1 ≢ pending
  unfolding poll_next
  Serves-poll_next s h = ground (arith, recv-Receives s.channel)

  -- No consumer starves: if a live stream has been asked for a batch and its channel is empty, then
  -- after three steps of its producer at most, a poll is answered, by a batch, an error or the end.
  -- So it is whatever the other streams hold of the speculation budget.
  pub poll_next-ne-pending :
      (as' : List Action)
      → let s = run scan as' (spawn_channel_stream scan) in
        is_closed scan s ≡ false
        → s.requested ≡ true
        → (view s.channel).queued ≡ []
        → (n : ℕ) × (n ≤ 3) × ((poll_next scan (produce_steps n s)).1 ≢ pending)
  poll_next-ne-pending as' live waits empty =
      let s = run scan as' (spawn_channel_stream scan) in
      let slot = (run_spawn-IsAccounted scan as').slot in
      (
        steps_to_outcome s.phase,
        steps-le s.phase,
        Serves-poll_next _ (
            Serves-from s.phase s refl (unused as' live waits empty)
              (room s.phase s slot live empty)),
      )
