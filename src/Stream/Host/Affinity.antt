-- ===== src/Stream/Host/Affinity.antt =====
-- A stream with a thread of its own: where its reader is used, and the permit of the thread.
use xorq_datafusion.Common.{ℕ, ◌+◌, ◌≡◌, refl, Bool, false, List, [], ◌∷◌, ◌++◌, arith}
use xorq_datafusion.Stream.Tokio.{Semaphores}
use xorq_datafusion.Stream.Host.{
  entered, destroyed, Thread, pull_thread, Use, Owner, mailbox, thread, nobody, affine, PullThread,
  starting, receiving, draining, exited, Drained, Host, Action, coordinate, thread_moves,
  task_moves, up, closing, down, aborts, polls, is_unpolled, pull_host, thread_at, step, run,
}

-- Every use is on one thread.
abbrev pub AllOn : Thread → List (Use × Thread) → Type 0
AllOn t [] = Unit {0}
AllOn t ((use', on) ∷ uses) = (on ≡ t) × AllOn t uses

AllOn-append :
    (t : Thread) (xs : List (Use × Thread)) (u : Use) → AllOn t xs → AllOn t (xs ++ (u, t) ∷ [])
AllOn-append t [] u h = (refl, tt)
AllOn-append t ((use', on) ∷ xs) u (e, h) = (e, AllOn-append t xs u h)

-- Who owns the reader, by where the thread stands.
abbrev pub owner_at : PullThread → Owner
owner_at starting = mailbox
owner_at exited = nobody
owner_at _ = thread

-- The permit of the thread budget that a thread holds.
abbrev pub permits_at : PullThread → ℕ
permits_at exited = 0
permits_at _ = 1

module _ (tokio : Semaphores) where
  open tokio use {Semaphore, available, available-add_permits, try_acquire-Acquires}

  pub record IsAffine (n : ℕ) (s : Host Semaphore) : Type 0 where
    pub kind : s.kind ≡ affine
    pub owner : s.owner ≡ owner_at s.pull_thread_at
    pub permit : available s.budget + permits_at s.pull_thread_at ≡ n
    pub uses : AllOn pull_thread s.uses
    pub polled : is_unpolled s.coordinator ≡ false

  module _ {n : ℕ} (s : Host Semaphore) (h : IsAffine n s) where
    -- The reader may be entered, and destroyed, once more.
    AllOn-entered : AllOn pull_thread (s.uses ++ (entered, pull_thread) ∷ [])
    AllOn-entered = AllOn-append pull_thread s.uses entered h.uses

    thread_at-IsAffine :
        (p : PullThread) (how : Drained)
        → s.pull_thread_at ≡ p
        → IsAffine n (thread_at tokio p how s)
    unfolding thread_at
    thread_at-IsAffine starting how e = ground arith
    thread_at-IsAffine receiving how e =
        ground (
          arith,
          available-add_permits 1 s.budget,
          AllOn-append pull_thread s.uses destroyed h.uses,
        )
    thread_at-IsAffine draining how e = ground (
      arith,
      available-add_permits 1 s.budget,
      AllOn-entered,
      AllOn-append pull_thread (s.uses ++ (entered, pull_thread) ∷ []) destroyed AllOn-entered,
    )
    thread_at-IsAffine exited how e = h

    pub step-IsAffine : (a : Action) → IsAffine n (step tokio a s)
    unfolding step
    step-IsAffine (polls spawned delivered) = ground arith
    step-IsAffine (coordinate up) = ground arith
    step-IsAffine (coordinate closing) = ground arith
    step-IsAffine (coordinate down) = h
    step-IsAffine (thread_moves how) = thread_at-IsAffine s.pull_thread_at how refl
    step-IsAffine (task_moves outcome) = ground arith
    step-IsAffine (aborts runtime) = ground arith

  run-IsAffine :
      {n : ℕ} (as' : List Action) (s : Host Semaphore) → IsAffine n s → IsAffine n (run tokio as' s)
  unfolding run
  run-IsAffine [] s h = h
  run-IsAffine (a ∷ as') s h = run-IsAffine as' (step tokio a s) (step-IsAffine s h a)

  pub pull_host-IsAffine :
      (budget : Semaphore) (spawned delivered : Bool)
      → (pull_host tokio budget spawned delivered).kind ≡ affine
      → IsAffine (available budget) (pull_host tokio budget spawned delivered)
  unfolding pull_host
  pull_host-IsAffine budget spawned delivered k = ground (arith, try_acquire-Acquires budget)

  module _ (budget : Semaphore) (spawned delivered : Bool) (as' : List Action) where
    -- Whatever the interleaving.
    pub run-pull_host-IsAffine :
        (pull_host tokio budget spawned delivered).kind ≡ affine
        → IsAffine (available budget) (run tokio as' (pull_host tokio budget spawned delivered))
    run-pull_host-IsAffine k = run-IsAffine as' _ (pull_host-IsAffine budget spawned delivered k)

    -- A stream that got a thread of its own enters its reader and destroys it on that thread alone,
    -- whatever the interleaving with the coordinator and with the consumer that drops the stream.
    pub uses-AllOn :
        (pull_host tokio budget spawned delivered).kind ≡ affine
        → AllOn pull_thread (run tokio as' (pull_host tokio budget spawned delivered)).uses
    uses-AllOn k = (run-pull_host-IsAffine k).uses
