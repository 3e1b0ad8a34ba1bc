-- ===== src/Stream/Host/Pool.antt =====
-- The uses of a reader that are on no async worker, the steps that destroy one there, and both for
-- the steps of a stream on the blocking pool.
use xorq_datafusion.Common.{
  ◌≡◌, ◌≢◌, refl, Bool, true, false, Option, some, List, [], ◌∷◌, ◌++◌, arith,
}
use xorq_datafusion.Stream.Tokio.{Semaphores}
use xorq_datafusion.Stream.Host.{
  Runtime, up, closing, down, Thread, worker, pool, elsewhere, Use, entered, destroyed, Owner,
  capture, guard, result, Coordinator, ready, awaiting, over, Outcome, drained, cancelled, Host,
  Action, polls, coordinate, thread_moves, task_moves, aborts, coordinate_at, step,
}
use xorq_datafusion.Stream.Host.Guarding.{IsPooled}

-- No use is on an async worker.
abbrev pub OffWorkers : List (Use × Thread) → Type 0
OffWorkers [] = Unit {0}
OffWorkers ((use', on) ∷ uses) = (on ≢ worker) × OffWorkers uses

OffWorkers-append :
    (xs : List (Use × Thread)) (u : Use) (t : Thread)
    → t ≢ worker
    → OffWorkers xs
    → OffWorkers (xs ++ (u, t) ∷ [])
OffWorkers-append [] u t n h = (n, tt)
OffWorkers-append ((use', on) ∷ xs) u t n (e, h) = (e, OffWorkers-append xs u t n h)

-- An abort finds the reader in the capture or in the result of a round, which no guard covers; or
-- in the guard, as the runtime shuts down.
abbrev abort_exposes : Runtime → Owner → Bool
abort_exposes up capture = true
abort_exposes up result = true
abort_exposes closing capture = true
abort_exposes closing result = true
abort_exposes closing guard = true
abort_exposes _ _ = false

-- As the runtime shuts down, the coordinator starts a round on the blocking pool, or hears that the
-- stream is over.
abbrev round_exposes : Owner → Option Outcome → Bool
round_exposes guard r = true
round_exposes result (some (drained over)) = true
round_exposes _ _ = false

abbrev pub exposes : {S : Type 0} → Action → Host S → Bool
exposes (aborts runtime) s = abort_exposes runtime s.owner
exposes (coordinate closing) s = round_exposes s.owner s.report
exposes _ s = false

module _ (tokio : Semaphores) where
  open tokio use {Semaphore}

  module _ (s : Host Semaphore) (h : IsPooled tokio s) where
    OffWorkers-entered : OffWorkers s.uses → OffWorkers (s.uses ++ (entered, pool) ∷ [])
    OffWorkers-entered u = OffWorkers-append s.uses entered pool (ground arith) u

    coordinate_at-OffWorkers :
        (runtime : Runtime) (c : Coordinator)
        → s.coordinator ≡ c
        → exposes (coordinate runtime) s ≡ false
        → OffWorkers s.uses
        → OffWorkers (coordinate_at tokio runtime c s).uses
    unfolding coordinate_at
    coordinate_at-OffWorkers up ready e x u = ground arith
    coordinate_at-OffWorkers closing ready e x u = ground arith
    coordinate_at-OffWorkers down ready e x u = ground arith
    coordinate_at-OffWorkers up awaiting e x u =
        ground (arith, OffWorkers-append s.uses destroyed pool (λ p. cc) u)
    coordinate_at-OffWorkers closing awaiting e x u = ground arith
    coordinate_at-OffWorkers down awaiting e x u =
        ground (arith, OffWorkers-append s.uses destroyed elsewhere (λ p. cc) u)
    coordinate_at-OffWorkers _ _ e x u = u

    pub pooled-OffWorkers :
        (a : Action) → exposes a s ≡ false → OffWorkers s.uses → OffWorkers (step tokio a s).uses
    unfolding step
    pooled-OffWorkers (polls spawned delivered) x u = ground arith
    pooled-OffWorkers (coordinate up) x u = coordinate_at-OffWorkers up s.coordinator refl x u
    pooled-OffWorkers (coordinate closing) x u =
        coordinate_at-OffWorkers closing s.coordinator refl x u
    pooled-OffWorkers (coordinate down) x u = u
    pooled-OffWorkers (thread_moves how) x u = ground arith
    pooled-OffWorkers (task_moves cancelled) x u =
        ground (arith, OffWorkers-append s.uses destroyed pool (λ p. cc) u)
    pooled-OffWorkers (task_moves (drained how)) x u = ground (
      arith,
      OffWorkers-entered u,
      OffWorkers-append (s.uses ++ (entered, pool) ∷ []) destroyed pool (λ p. cc)
          (OffWorkers-entered u),
    )
    pooled-OffWorkers (aborts up) x u =
        ground (arith, OffWorkers-append s.uses destroyed pool (λ p. cc) u)
    pooled-OffWorkers (aborts closing) x u = ground arith
    pooled-OffWorkers (aborts down) x u =
        ground (arith, OffWorkers-append s.uses destroyed elsewhere (λ p. cc) u)

    coordinate_at-exposed :
        (c : Coordinator)
        → s.coordinator ≡ c
        → exposes (coordinate closing) s ≡ true
        → (coordinate_at tokio closing c s).uses ≡ s.uses ++ (destroyed, worker) ∷ []
    unfolding coordinate_at
    coordinate_at-exposed ready e x = ground arith
    coordinate_at-exposed awaiting e x = ground arith
    coordinate_at-exposed _ e x = absurd (ground arith)

    pub pooled-exposed :
        (a : Action)
        → exposes a s ≡ true
        → (step tokio a s).uses ≡ s.uses ++ (destroyed, worker) ∷ []
    unfolding step
    pooled-exposed (coordinate closing) x = coordinate_at-exposed s.coordinator refl x
    pooled-exposed (aborts up) x = ground arith
    pooled-exposed (aborts closing) x = ground arith
    pooled-exposed _ x = absurd (ground arith)
