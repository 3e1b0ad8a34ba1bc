-- ===== src/Stream/Host.antt =====
-- utils.rs: `PullHost`, `PullGuard` and `run_affine_pull`, which decide on which thread the reader
-- of a stream is entered and destroyed. The coordinator runs on async workers; a round runs on the
-- stream's own thread, or in a task of the blocking pool. The state says where the reader is, where
-- each thread stands, what is on its way between them, and, as a history, each use of the reader.
pub mod Affinity
pub mod Pool
pub mod Exposed
pub mod Shutdown
mod Tests
pub mod Guarding
use xorq_datafusion.Common.{
  Bool, true, false, Option, none, some, List, [], ◌∷◌, ◌++◌, if◌then◌else◌,
}
use xorq_datafusion.Stream.Tokio.{Semaphores}

-- `elsewhere` is a thread after the runtime is shut down, when no async worker is left.
pub data Thread : Type 0 where
  worker pool pull_thread elsewhere : Thread

pub data Use : Type 0 where
  entered destroyed : Use

-- How `drain_batches` ends: with false, with true, or by a panic of the pull.
pub data Drained : Type 0 where
  going over panicked : Drained

-- What the coordinator hears of a round: how it ended, or that its task never started since the
-- runtime was shut down.
pub data Outcome : Type 0 where
  drained : Drained → Outcome
  cancelled : Outcome

-- `PullHost`
pub data Kind : Type 0 where
  affine pooled : Kind

-- Whether the runtime is up, shuts down, with workers that still drop tasks, or has no worker left.
pub data Runtime : Type 0 where
  up closing down : Runtime

-- Who owns the reader: the coordinator before its first poll, the channel to the pull thread, that
-- thread, the coordinator's guard, a blocking task or its result, or nobody any more.
pub data Owner : Type 0 where
  capture mailbox thread guard task result nobody : Owner

-- `run_affine_pull`: before the first `recv`, in `recv` for a job, in a round, or returned.
pub data PullThread : Type 0 where
  starting receiving draining exited : PullThread

-- The coordinator: not polled yet, about to start a round, awaiting its outcome, or over: by the
-- end of the stream, by an error, by a panic that it raises again, or aborted.
pub data Coordinator : Type 0 where
  unpolled ready awaiting ended failed unwound aborted : Coordinator

pub record Host (S : Type 0) : Type 0 where
  pub kind : Kind
  pub owner : Owner
  pub pull_thread_at : PullThread
  pub job : Bool
  pub report : Option Outcome
  pub coordinator : Coordinator
  pub uses : List (Use × Thread)
  pub budget : S

-- Who moves: the coordinator, in its first poll and afterwards, while the runtime has workers to
-- poll it; the pull thread; the blocking task; and who aborts the coordinator, the consumer that
-- drops the stream or the runtime that shuts down.
pub data Action : Type 0 where
  polls : (spawned delivered : Bool) → Action
  coordinate : Runtime → Action
  thread_moves : Drained → Action
  task_moves : Outcome → Action
  aborts : Runtime → Action

abbrev pub is_unpolled : Coordinator → Bool
is_unpolled unpolled = true
is_unpolled _ = false

-- The coordinator holds the sender of jobs until it is over.
abbrev pub is_over : Coordinator → Bool
is_over unpolled = false
is_over ready = false
is_over awaiting = false
is_over _ = true

module _ (tokio : Semaphores) where
  open tokio use {Semaphore, add_permits, try_acquire}

  abbrev fresh : Kind → Owner → PullThread → Coordinator → Semaphore → Host Semaphore
  fresh kind owner at coordinator budget = record {
    kind = kind;
    owner = owner;
    pull_thread_at = at;
    job = false;
    report = none;
    coordinator = coordinator;
    uses = [];
    budget = budget;
  }

  -- `PullHost::new`: `spawned` and `delivered` say whether the thread could be spawned and whether
  -- it lived to be sent the reader. A thread that is not there gives its permit back.
  pub pull_host : Semaphore → (spawned delivered : Bool) → Host Semaphore
  pull_host budget spawned delivered = elim (try_acquire budget) [
    | none ↦ fresh pooled guard exited ready budget
    | some rest ↦
        if spawned
        then (if delivered
            then fresh affine mailbox starting ready rest
            else fresh pooled guard exited ready (add_permits 1 rest))
        else fresh pooled guard exited ready (add_permits 1 rest)
  ]

  -- What `spawn_channel_stream` leaves: a coordinator that has captured the reader and is not
  -- polled yet. There is no thread, and nothing but the capture owns the reader.
  pub captured : Semaphore → Host Semaphore
  captured budget = fresh pooled capture exited unpolled budget

  used : Use → Thread → Host Semaphore → Host Semaphore
  used use' on s = record s { uses = s.uses ++ (use', on) ∷ [] }

  -- The reader is destroyed where its last owner lets it go.
  destroy : Thread → Host Semaphore → Host Semaphore
  unfolding used
  destroy on s = used destroyed on (record s { owner = nobody })

  -- `PullGuard::drop`: on the blocking pool, which takes no task once the runtime shuts down and
  -- drops it where it is handed in; or here if there is no runtime.
  guard_thread : Runtime → Thread
  guard_thread up = pool
  guard_thread closing = worker
  guard_thread down = elsewhere

  -- The thread that drops the coordinator.
  own_thread : Runtime → Thread
  own_thread up = worker
  own_thread closing = worker
  own_thread down = elsewhere

  -- What the coordinator owns is dropped with it: its guard; what a blocking task has returned;
  -- and, before its first poll, the reader that it captured.
  drop_guard : Runtime → Owner → Host Semaphore → Host Semaphore
  unfolding destroy guard_thread own_thread
  drop_guard runtime guard s = destroy (guard_thread runtime) s
  drop_guard runtime result s = destroy (own_thread runtime) s
  drop_guard runtime capture s = destroy (own_thread runtime) s
  drop_guard runtime mailbox s = s
  drop_guard runtime thread s = s
  drop_guard runtime task s = s
  drop_guard runtime nobody s = s

  -- The coordinator is over, and its locals are dropped.
  leave : Runtime → Coordinator → Host Semaphore → Host Semaphore
  unfolding drop_guard
  leave runtime how s = drop_guard runtime s.owner (record s { coordinator = how; report = none })

  -- `spawn_blocking` of a round: a pool that shuts down drops the task, and the reader with it,
  -- where it is handed in.
  spawn_round : Runtime → Host Semaphore → Host Semaphore
  unfolding destroy
  spawn_round closing s =
      destroy worker (record s { coordinator = awaiting; report = some cancelled })
  spawn_round _ s = record s { owner = task; coordinator = awaiting }

  -- `PullHost::round` up to its `await`: a job for the thread, if that is still there, or
  -- `guard.take()` and a blocking task. An empty guard panics.
  start_round : Runtime → Kind → Host Semaphore → Host Semaphore
  unfolding leave spawn_round
  start_round runtime affine s = elim s.pull_thread_at [
    | exited ↦ leave runtime ended s
    | _ ↦ record s { job = true; coordinator = awaiting }
  ]
  start_round runtime pooled s = elim s.owner [
    | guard ↦ spawn_round runtime s
    | _ ↦ leave runtime unwound s
  ]

  -- `guard.put(returned)`
  put_back : Kind → Host Semaphore → Host Semaphore
  put_back affine s = s
  put_back pooled s = elim s.owner [ result ↦ record s { owner = guard } | _ ↦ s ]

  -- What the coordinator does with the outcome of a round.
  resume : Runtime → Outcome → Host Semaphore → Host Semaphore
  unfolding leave put_back
  resume runtime (drained going) s = record (put_back s.kind s) {
    coordinator = ready;
    report = none;
  }
  resume runtime (drained over) s = leave runtime ended (put_back s.kind s)
  resume runtime (drained panicked) s = leave runtime unwound s
  resume runtime cancelled s = leave runtime failed s

  -- A pull thread that is gone without a report ends the stream.
  lost : Runtime → Kind → Host Semaphore → Host Semaphore
  unfolding leave
  lost runtime affine s = elim s.pull_thread_at [ exited ↦ leave runtime ended s | _ ↦ s ]
  lost runtime pooled s = s

  await_outcome : Runtime → Host Semaphore → Host Semaphore
  unfolding resume lost
  await_outcome runtime s = elim s.report [
    | some outcome ↦ resume runtime outcome s
    | none ↦ lost runtime s.kind s
  ]

  coordinate_at : Runtime → Coordinator → Host Semaphore → Host Semaphore
  unfolding start_round await_outcome
  coordinate_at runtime ready s = start_round runtime s.kind s
  coordinate_at runtime awaiting s = await_outcome runtime s
  coordinate_at runtime unpolled s = s
  coordinate_at runtime ended s = s
  coordinate_at runtime failed s = s
  coordinate_at runtime unwound s = s
  coordinate_at runtime aborted s = s

  -- The first poll makes the host.
  first_poll : (spawned delivered : Bool) → Coordinator → Host Semaphore → Host Semaphore
  unfolding pull_host
  first_poll spawned delivered unpolled s = pull_host s.budget spawned delivered
  first_poll spawned delivered _ s = s

  -- The pull thread returns: the reader is destroyed there, and its permit goes back.
  exit_thread : Host Semaphore → Host Semaphore
  unfolding destroy
  exit_thread s =
      destroy pull_thread (record s { pull_thread_at = exited; budget = add_permits 1 s.budget })

  -- `done.send(outcome)`, to a coordinator that may be gone.
  tell : Outcome → Host Semaphore → Host Semaphore
  tell outcome s = elim s.coordinator [ awaiting ↦ record s { report = some outcome } | _ ↦ s ]

  -- A round of the thread: a panic is caught, reported, and ends the thread, as the end of the
  -- stream does.
  drain : Drained → Host Semaphore → Host Semaphore
  unfolding exit_thread tell
  drain going s = record (tell (drained going) s) { pull_thread_at = receiving }
  drain over s = exit_thread (tell (drained over) s)
  drain panicked s = exit_thread (tell (drained panicked) s)

  -- `run_affine_pull`. What was sent before the sender was dropped is still received.
  thread_at : PullThread → Drained → Host Semaphore → Host Semaphore
  unfolding exit_thread drain used
  thread_at starting how s = record s { owner = thread; pull_thread_at = receiving }
  thread_at receiving how s =
      if s.job
      then record s { job = false; pull_thread_at = draining }
      else (if is_over s.coordinator then exit_thread s else s)
  thread_at draining how s = drain how (used entered pull_thread s)
  thread_at exited how s = s

  -- The blocking task: the result holds the reader, and is dropped at once, in the task, if nobody
  -- awaits it; a panic destroys the reader in the task, and a task that never starts is dropped
  -- by the pool as it shuts down.
  return_pull : Drained → Coordinator → Host Semaphore → Host Semaphore
  unfolding destroy
  return_pull how awaiting s = record s { owner = result; report = some (drained how) }
  return_pull how _ s = destroy pool s

  task_ends : Outcome → Host Semaphore → Host Semaphore
  unfolding destroy used tell return_pull
  task_ends cancelled s = tell cancelled (destroy pool s)
  task_ends (drained panicked) s = tell (drained panicked) (destroy pool (used entered pool s))
  task_ends (drained going) s = return_pull going s.coordinator (used entered pool s)
  task_ends (drained over) s = return_pull over s.coordinator (used entered pool s)

  task_at : Owner → Outcome → Host Semaphore → Host Semaphore
  unfolding task_ends
  task_at task outcome s = task_ends outcome s
  task_at _ outcome s = s

  abort_at : Runtime → Host Semaphore → Host Semaphore
  unfolding leave
  abort_at runtime s = if is_over s.coordinator then s else leave runtime aborted s

  pub step : Action → Host Semaphore → Host Semaphore
  unfolding first_poll coordinate_at thread_at task_at abort_at
  step (polls spawned delivered) s = first_poll spawned delivered s.coordinator s
  step (coordinate up) s = coordinate_at up s.coordinator s
  step (coordinate closing) s = coordinate_at closing s.coordinator s
  step (coordinate down) s = s
  step (thread_moves how) s = thread_at s.pull_thread_at how s
  step (task_moves outcome) s = task_at s.owner outcome s
  step (aborts runtime) s = abort_at runtime s

  pub run : List Action → Host Semaphore → Host Semaphore
  run [] s = s
  run (a ∷ as') s = run as' (step a s)
