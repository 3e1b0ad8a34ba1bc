-- ===== src/Stream/Host/Exposed.antt =====
-- The steps that destroy the reader on an async worker, from the moment a stream is spawned: what
-- the guard does not cover.
use xorq_datafusion.Common.{
  ℕ, ◌≡◌, refl, ◌⊎◌, inl, inr, Bool, true, false, none, List, [], ◌∷◌, ◌++◌, arith,
}
use xorq_datafusion.Stream.Tokio.{Semaphores}
use xorq_datafusion.Stream.Host.{
  up, closing, down, Thread, worker, pull_thread, Use, destroyed, capture, Kind, affine, pooled,
  exited, unpolled, Host, Action, polls, coordinate, thread_moves, task_moves, aborts, captured,
  pull_host, step, run,
}
use xorq_datafusion.Stream.Host.Affinity.{AllOn, IsAffine, step-IsAffine, pull_host-IsAffine}
use xorq_datafusion.Stream.Host.Guarding.{IsPooled, step-IsPooled, pull_host-IsPooled}
use xorq_datafusion.Stream.Host.Pool.{OffWorkers, exposes, pooled-OffWorkers, pooled-exposed}

AllOn-OffWorkers : (xs : List (Use × Thread)) → AllOn pull_thread xs → OffWorkers xs
AllOn-OffWorkers [] h = tt
AllOn-OffWorkers ((use', on) ∷ xs) (e, h) = (ground arith, AllOn-OffWorkers xs h)

Kind-cases : (k : Kind) → (k ≡ affine) ⊎ (k ≡ pooled)
Kind-cases affine = inl refl
Kind-cases pooled = inr refl

module _ (tokio : Semaphores) where
  open tokio use {Semaphore, available}

  -- The coordinator holds the reader that it captured, until its first poll.
  record IsCaptured (s : Host Semaphore) : Type 0 where
    pub kind : s.kind ≡ pooled
    pub idle : s.pull_thread_at ≡ exited
    pub waits : s.coordinator ≡ unpolled
    pub owner : s.owner ≡ capture
    pub report : s.report ≡ none
    pub uses : s.uses ≡ []

  -- Where a stream can be.
  abbrev Reached : Host Semaphore → Type 0
  Reached s = IsCaptured s ⊎ IsPooled tokio s ⊎ ((n : ℕ) × IsAffine tokio n s)

  pull_host-Reached :
      (budget : Semaphore) (spawned delivered : Bool)
      → Reached (pull_host tokio budget spawned delivered)
  pull_host-Reached budget spawned delivered =
      elim (Kind-cases (pull_host tokio budget spawned delivered).kind) [
        | inl k ↦ inr (inr (_, pull_host-IsAffine tokio budget spawned delivered k))
        | inr k ↦ inr (inl (pull_host-IsPooled tokio budget spawned delivered k))
      ]

  pull_host-OffWorkers :
      (budget : Semaphore) (spawned delivered : Bool)
      → OffWorkers (pull_host tokio budget spawned delivered).uses
  unfolding pull_host
  pull_host-OffWorkers budget spawned delivered = ground arith

  module _ (s : Host Semaphore) (h : IsCaptured s) where
    captured-step : (a : Action) → Reached (step tokio a s)
    unfolding step
    captured-step (polls spawned delivered) =
        rw (h.waits) (pull_host-Reached s.budget spawned delivered)
    captured-step (coordinate up) = inl (ground arith)
    captured-step (coordinate closing) = inl (ground arith)
    captured-step (coordinate down) = inl h
    captured-step (thread_moves how) = inl (ground arith)
    captured-step (task_moves outcome) = inl (ground arith)
    captured-step (aborts runtime) = inr (inl (ground arith))

    captured-OffWorkers : (a : Action) → exposes a s ≡ false → OffWorkers (step tokio a s).uses
    unfolding step
    captured-OffWorkers (polls spawned delivered) x =
        rw (h.waits) (pull_host-OffWorkers s.budget spawned delivered)
    captured-OffWorkers (coordinate up) x = ground arith
    captured-OffWorkers (coordinate closing) x = ground arith
    captured-OffWorkers (coordinate down) x = ground arith
    captured-OffWorkers (thread_moves how) x = ground arith
    captured-OffWorkers (task_moves outcome) x = ground arith
    captured-OffWorkers (aborts up) x = ground arith
    captured-OffWorkers (aborts closing) x = ground arith
    captured-OffWorkers (aborts down) x = ground arith

    captured-exposed :
        (a : Action)
        → exposes a s ≡ true
        → (step tokio a s).uses ≡ s.uses ++ (destroyed, worker) ∷ []
    unfolding step
    captured-exposed (coordinate closing) x = ground arith
    captured-exposed (aborts up) x = ground arith
    captured-exposed (aborts closing) x = ground arith
    captured-exposed (aborts down) x = ground arith
    captured-exposed _ x = absurd (ground arith)

  module _ {n : ℕ} (s : Host Semaphore) (h : IsAffine tokio n s) where
    -- The coordinator never owns a reader that has a thread of its own.
    affine-covered : (a : Action) → exposes a s ≡ false
    affine-covered (aborts up) = ground arith
    affine-covered (aborts closing) = ground arith
    affine-covered (aborts down) = refl
    affine-covered (coordinate up) = refl
    affine-covered (coordinate closing) = ground arith
    affine-covered (coordinate down) = refl
    affine-covered (polls spawned delivered) = refl
    affine-covered (thread_moves how) = refl
    affine-covered (task_moves outcome) = refl

  step-Reached : (a : Action) (s : Host Semaphore) → Reached s → Reached (step tokio a s)
  step-Reached a s (inl h) = captured-step s h a
  step-Reached a s (inr (inl h)) = inr (inl (step-IsPooled tokio s h a))
  step-Reached a s (inr (inr (n, h))) = inr (inr (n, step-IsAffine tokio s h a))

  run-Reached : (as' : List Action) (s : Host Semaphore) → Reached s → Reached (run tokio as' s)
  unfolding run
  run-Reached [] s h = h
  run-Reached (a ∷ as') s h = run-Reached as' (step tokio a s) (step-Reached a s h)

  step-OffWorkers :
      (a : Action) (s : Host Semaphore)
      → Reached s
      → exposes a s ≡ false
      → OffWorkers s.uses
      → OffWorkers (step tokio a s).uses
  step-OffWorkers a s (inl h) x u = captured-OffWorkers s h a x
  step-OffWorkers a s (inr (inl h)) x u = pooled-OffWorkers tokio s h a x u
  step-OffWorkers a s (inr (inr (n, h))) x u = AllOn-OffWorkers _ (step-IsAffine tokio s h a).uses

  step-exposed :
      (a : Action) (s : Host Semaphore)
      → Reached s
      → exposes a s ≡ true
      → (step tokio a s).uses ≡ s.uses ++ (destroyed, worker) ∷ []
  step-exposed a s (inl h) x = captured-exposed s h a x
  step-exposed a s (inr (inl h)) x = pooled-exposed tokio s h a x
  step-exposed a s (inr (inr (n, h))) x = absurd (ground (arith, affine-covered s h a))

  -- A history with no such step.
  abbrev pub AreCovered : List Action → Host Semaphore → Type 0
  AreCovered [] s = Unit {0}
  AreCovered (a ∷ as') s = (exposes a s ≡ false) × AreCovered as' (step tokio a s)

  run-OffWorkers :
      (as' : List Action) (s : Host Semaphore)
      → Reached s
      → AreCovered as' s
      → OffWorkers s.uses
      → OffWorkers (run tokio as' s).uses
  unfolding run
  run-OffWorkers [] s h c u = u
  run-OffWorkers (a ∷ as') s h (c, cs) u =
      run-OffWorkers as' (step tokio a s) (step-Reached a s h) cs (step-OffWorkers a s h c u)

  captured-Reached : (budget : Semaphore) → Reached (captured tokio budget)
  unfolding captured
  captured-Reached budget = inl (ground arith)

  module _ (budget : Semaphore) (as' : List Action) where
    -- From the moment its stream is spawned, a reader is never entered or destroyed on an async
    -- worker, with a thread of its own or on the blocking pool, in any history without these steps:
    -- an abort, while the runtime has workers, before the coordinator's first poll or between the
    -- end of a round on the pool and the coordinator's next step; and, as the runtime shuts down,
    -- an abort while the guard holds the reader, the start of a round on the pool, and the
    -- coordinator's step at the end of a stream on the pool.
    pub uses-OffWorkers :
        AreCovered as' (captured tokio budget)
        → OffWorkers (run tokio as' (captured tokio budget)).uses
    unfolding captured
    uses-OffWorkers covered = run-OffWorkers as' _ (captured-Reached budget) covered tt

    -- After any history since its stream was spawned, a reader is destroyed on an async worker by
    -- each of these steps: an abort, while the runtime has workers, before the coordinator's first
    -- poll or between the end of a round on the pool and the coordinator's next step; and, as the
    -- runtime shuts down, an abort while the guard holds the reader, the start of a round on the
    -- pool, and the coordinator's step at the end of a stream on the pool.
    pub exposed-worker :
        (a : Action)
        → let s = run tokio as' (captured tokio budget) in
          exposes a s ≡ true → (step tokio a s).uses ≡ s.uses ++ (destroyed, worker) ∷ []
    exposed-worker a x = step-exposed a _ (run-Reached as' _ (captured-Reached budget)) x
