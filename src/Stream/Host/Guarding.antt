-- ===== src/Stream/Host/Guarding.antt =====
-- A stream on the blocking pool: what the guard of its reader holds, and where the reader is
-- destroyed if the stream is dropped as the result of a round is on its way.
use xorq_datafusion.Common.{
  ◌≡◌, refl, ◌⊎◌, Bool, false, Option, none, some, List, [], ◌∷◌, ◌++◌, arith,
}
use mathlib.Core.List.{append_assoc}
use xorq_datafusion.Stream.Tokio.{Semaphores}
use xorq_datafusion.Stream.Host.{
  Runtime, up, closing, down, worker, pool, entered, destroyed, Owner, guard, task, result, nobody,
  pooled, exited, Coordinator, ready, awaiting, going, over, panicked, Outcome, drained, cancelled,
  Host, Action, polls, coordinate, thread_moves, task_moves, aborts, is_unpolled, pull_host,
  coordinate_at, step, run,
}

-- Who owns the reader between the rounds, in one, and after the last.
abbrev pub Fits : Coordinator → Owner → Option Outcome → Type 0
Fits ready o r = (o ≡ guard) × (r ≡ none)
Fits awaiting o r =
    ((o ≡ task) × (r ≡ none))
    ⊎ ((o ≡ result) × ((r ≡ some (drained going)) ⊎ (r ≡ some (drained over))))
    ⊎ ((o ≡ nobody) × ((r ≡ some (drained panicked)) ⊎ (r ≡ some cancelled)))
Fits _ o r = (o ≡ task) ⊎ (o ≡ nobody)

module _ (tokio : Semaphores) where
  open tokio use {Semaphore}

  pub record IsPooled (s : Host Semaphore) : Type 0 where
    pub kind : s.kind ≡ pooled
    pub idle : s.pull_thread_at ≡ exited
    pub polled : is_unpolled s.coordinator ≡ false
    pub fits : Fits s.coordinator s.owner s.report

  module _ (s : Host Semaphore) (h : IsPooled s) where
    coordinate_at-IsPooled :
        (runtime : Runtime) (c : Coordinator)
        → s.coordinator ≡ c
        → IsPooled (coordinate_at tokio runtime c s)
    unfolding coordinate_at
    coordinate_at-IsPooled up ready e = ground arith
    coordinate_at-IsPooled closing ready e = ground arith
    coordinate_at-IsPooled down ready e = ground arith
    coordinate_at-IsPooled runtime awaiting e = ground arith
    coordinate_at-IsPooled _ _ e = h

    pub step-IsPooled : (a : Action) → IsPooled (step tokio a s)
    unfolding step
    step-IsPooled (polls spawned delivered) = ground arith
    step-IsPooled (coordinate up) = coordinate_at-IsPooled up s.coordinator refl
    step-IsPooled (coordinate closing) = coordinate_at-IsPooled closing s.coordinator refl
    step-IsPooled (coordinate down) = h
    step-IsPooled (thread_moves how) = ground arith
    step-IsPooled (task_moves cancelled) = ground arith
    step-IsPooled (task_moves (drained how)) = ground arith
    step-IsPooled (aborts runtime) = ground arith

  run-IsPooled : (as' : List Action) (s : Host Semaphore) → IsPooled s → IsPooled (run tokio as' s)
  unfolding run
  run-IsPooled [] s h = h
  run-IsPooled (a ∷ as') s h = run-IsPooled as' (step tokio a s) (step-IsPooled s h a)

  pub pull_host-IsPooled :
      (budget : Semaphore) (spawned delivered : Bool)
      → (pull_host tokio budget spawned delivered).kind ≡ pooled
      → IsPooled (pull_host tokio budget spawned delivered)
  unfolding pull_host
  pull_host-IsPooled budget spawned delivered k = ground arith

  module _ (budget : Semaphore) (spawned delivered : Bool) (as' : List Action) where
    pub run-pull_host-IsPooled :
        (pull_host tokio budget spawned delivered).kind ≡ pooled
        → IsPooled (run tokio as' (pull_host tokio budget spawned delivered))
    run-pull_host-IsPooled k = run-IsPooled as' _ (pull_host-IsPooled budget spawned delivered k)

    -- `PullGuard::take` finds the reader: on the blocking pool, whenever the coordinator is about
    -- to start a round, the guard holds the reader.
    pub guard_full :
        (pull_host tokio budget spawned delivered).kind ≡ pooled
        → let s = run tokio as' (pull_host tokio budget spawned delivered) in
          s.coordinator ≡ ready → s.owner ≡ guard
    guard_full k e = let v = run-pull_host-IsPooled k in ground (arith, v.fits)

    -- If a stream on the blocking pool is dropped between the end of a round that goes on and the
    -- coordinator's next step, while the runtime is up, its reader is destroyed on an async worker:
    -- so it is after any history in which the coordinator is about to start a round.
    pub late_abort-worker :
        (pull_host tokio budget spawned delivered).kind ≡ pooled
        → let s = run tokio as' (pull_host tokio budget spawned delivered) in
          s.coordinator ≡ ready
          → (run tokio (coordinate up ∷ task_moves (drained going) ∷ aborts up ∷ []) s).uses
            ≡ s.uses ++ (entered, pool) ∷ (destroyed, worker) ∷ []
    unfolding run step
    late_abort-worker k e =
        let s = run tokio as' (pull_host tokio budget spawned delivered) in
        let v = run-pull_host-IsPooled k in
        ground (
          arith,
          v.fits,
          v.kind,
          append_assoc s.uses ((entered, pool) ∷ []) ((destroyed, worker) ∷ []),
        )
