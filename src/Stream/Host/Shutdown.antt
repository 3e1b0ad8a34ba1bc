-- ===== src/Stream/Host/Shutdown.antt =====
-- A stream with a thread of its own whose coordinator is over: its thread exits.
use xorq_datafusion.Common.{ℕ, ◌-◌, ◌≤◌, ◌≡◌, refl, Bool, true, false, List, [], ◌∷◌, arith, length}
use xorq_datafusion.Stream.Tokio.{Semaphores}
use xorq_datafusion.Stream.Host.{
  nobody, affine, PullThread, starting, receiving, draining, exited, is_over, Drained, Host, Action,
  thread_moves, pull_host, thread_at, step, run,
}
use xorq_datafusion.Stream.Host.Affinity.{IsAffine, step-IsAffine, run-pull_host-IsAffine}

-- The steps of the thread that are left: a job that was sent before is still run.
abbrev rank : Bool → PullThread → ℕ
rank job exited = 0
rank false receiving = 1
rank false _ = 2
rank true receiving = 3
rank true _ = 4

rank-le : (job : Bool) (p : PullThread) → rank job p ≤ 4
rank-le false exited = omega arith
rank-le true exited = omega arith
rank-le false receiving = omega arith
rank-le true receiving = omega arith
rank-le false _ = omega arith
rank-le true _ = omega arith

exited_of_rank : (job : Bool) (p : PullThread) → rank job p ≡ 0 → p ≡ exited
exited_of_rank false exited e = refl
exited_of_rank true exited e = refl
exited_of_rank false receiving e = absurd (omega arith)
exited_of_rank true receiving e = absurd (omega arith)
exited_of_rank false _ e = absurd (omega arith)
exited_of_rank true _ e = absurd (omega arith)

module _ (tokio : Semaphores) where
  open tokio use {Semaphore, available}

  thread_at-rank :
      (s : Host Semaphore) (p : PullThread) (how : Drained)
      → s.pull_thread_at ≡ p
      → is_over s.coordinator ≡ true
      → let t = thread_at tokio p how s in
        (rank t.job t.pull_thread_at ≤ rank s.job p - 1) × (is_over t.coordinator ≡ true)
  unfolding thread_at
  thread_at-rank s starting how e o = ground arith
  thread_at-rank s receiving how e o = ground arith
  thread_at-rank s draining how e o = ground arith
  thread_at-rank s exited how e o = ground arith

  -- The rounds of the thread alone, with the outcomes given.
  pub thread_runs : List Drained → Host Semaphore → Host Semaphore
  thread_runs [] s = s
  thread_runs (how ∷ hows) s = thread_runs hows (step tokio (thread_moves how) s)

  thread_runs-rank :
      (hows : List Drained) (s : Host Semaphore)
      → is_over s.coordinator ≡ true
      → let t = thread_runs hows s in
        rank t.job t.pull_thread_at ≤ rank s.job s.pull_thread_at - length hows
  unfolding thread_runs step
  thread_runs-rank [] s o = omega arith
  thread_runs-rank (how ∷ hows) s o =
      let h = thread_at-rank s s.pull_thread_at how refl o in
      ground (arith, h.0, thread_runs-rank hows (step tokio (thread_moves how) s) h.1)

  thread_runs-IsAffine :
      {n : ℕ} (hows : List Drained) (s : Host Semaphore)
      → IsAffine tokio n s
      → IsAffine tokio n (thread_runs hows s)
  unfolding thread_runs
  thread_runs-IsAffine [] s h = h
  thread_runs-IsAffine (how ∷ hows) s h =
      thread_runs-IsAffine hows _ (step-IsAffine tokio s h (thread_moves how))

  -- After any history that ends the coordinator of a stream with a thread of its own, four steps of
  -- the thread, or more, end the thread, whatever the rounds it still runs come to: the reader is
  -- destroyed and the permit of the thread budget is back.
  pub thread_runs-exited :
      (budget : Semaphore) (spawned delivered : Bool) (as' : List Action) (hows : List Drained)
      → (pull_host tokio budget spawned delivered).kind ≡ affine
      → let s = run tokio as' (pull_host tokio budget spawned delivered) in
        let t = thread_runs hows s in
        is_over s.coordinator ≡ true
        → 4 ≤ length hows
        → (t.pull_thread_at ≡ exited) × (t.owner ≡ nobody) × (available t.budget ≡ available budget)
  thread_runs-exited budget spawned delivered as' hows k o l =
      let s = run tokio as' (pull_host tokio budget spawned delivered) in
      let t = thread_runs hows s in
      let v =
        thread_runs-IsAffine hows s (run-pull_host-IsAffine tokio budget spawned delivered as' k) in
      let e =
        exited_of_rank t.job t.pull_thread_at
          (omega (arith, rank-le s.job s.pull_thread_at, thread_runs-rank hows s o)) in
      ground (arith, e, v.owner, v.permit)
