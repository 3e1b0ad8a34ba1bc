-- ===== src/Stream/Host/Tests.antt =====
-- Hosts of readers on a budget of one thread and on an empty budget, and the theorems at them.
use xorq_datafusion.Common.{ℕ, ◌≡◌, refl, true, List, [], ◌∷◌, ◌++◌, arith}
use xorq_datafusion.Stream.Tokio.{counting}
use xorq_datafusion.Stream.Host.{
  worker, pool, pull_thread, entered, destroyed, nobody, exited, going, over, drained, Host, Action,
  up, closing, polls, captured, coordinate, thread_moves, task_moves, aborts, pull_host, step, run,
}
use xorq_datafusion.Stream.Host.Affinity.{AllOn, uses-AllOn}
use xorq_datafusion.Stream.Host.Pool.{OffWorkers}
use xorq_datafusion.Stream.Host.Exposed.{AreCovered, uses-OffWorkers, exposed-worker}
use xorq_datafusion.Stream.Host.Guarding.{late_abort-worker}
use xorq_datafusion.Stream.Host.Shutdown.{thread_runs, thread_runs-exited}

abbrev own_thread : Host ℕ
own_thread = pull_host counting 1 true true

abbrev no_thread : Host ℕ
no_thread = pull_host counting 0 true true

abbrev one_round : List Action
one_round =
    thread_moves going
    ∷ coordinate up
    ∷ thread_moves going
    ∷ thread_moves going
    ∷ coordinate up
    ∷ []

abbrev pool_round : List Action
pool_round = coordinate up ∷ task_moves (drained going) ∷ coordinate up ∷ []

-- A round that is on its way when the stream is dropped.
abbrev dropped : List Action
dropped = thread_moves going ∷ coordinate up ∷ aborts up ∷ []

round_entered : (run counting one_round own_thread).uses ≡ (entered, pull_thread) ∷ []
unfolding run step pull_host
round_entered = refl

uses-AllOn_example : AllOn pull_thread (run counting one_round own_thread).uses
unfolding pull_host
uses-AllOn_example = uses-AllOn counting 1 true true one_round refl

thread_runs-exited_example :
    let s = run counting dropped own_thread in
    let t = thread_runs counting (going ∷ going ∷ going ∷ going ∷ []) s in
    (t.pull_thread_at ≡ exited) × (t.owner ≡ nobody) × (t.budget ≡ 1)
unfolding run step pull_host
thread_runs-exited_example =
    thread_runs-exited counting 1 true true dropped (going ∷ going ∷ going ∷ going ∷ []) refl refl
      (omega arith)

-- A stream on the pool that is dropped as its first round runs.
abbrev dropped_in_round : List Action
dropped_in_round = polls true true ∷ coordinate up ∷ aborts up ∷ task_moves (drained over) ∷ []

covered : AreCovered counting dropped_in_round (captured counting 0)
unfolding step captured
covered = (refl, (refl, (refl, (refl, tt))))

uses-OffWorkers_example : OffWorkers (run counting dropped_in_round (captured counting 0)).uses
uses-OffWorkers_example = uses-OffWorkers counting 0 dropped_in_round covered

-- A stream that has had a round as the runtime shuts down.
abbrev served : List Action
served = polls true true ∷ coordinate up ∷ task_moves (drained going) ∷ coordinate up ∷ []

exposed-worker_example :
    let s = run counting served (captured counting 0) in
    (step counting (aborts closing) s).uses ≡ s.uses ++ (destroyed, worker) ∷ []
unfolding step captured run
exposed-worker_example = exposed-worker counting 0 served (aborts closing) refl

late_abort-worker_example :
    (run counting
      (coordinate up ∷ task_moves (drained going) ∷ aborts up ∷ [])
      (run counting pool_round no_thread)).uses
    ≡ (run counting pool_round no_thread).uses ++ (entered, pool) ∷ (destroyed, worker) ∷ []
unfolding run step pull_host
late_abort-worker_example = late_abort-worker counting 0 true true pool_round refl refl
