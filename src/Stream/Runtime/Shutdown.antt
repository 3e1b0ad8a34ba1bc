-- ===== src/Stream/Runtime/Shutdown.antt =====
-- The life of the process's runtime over any calls.
use xorq_datafusion.Common.{
  ℕ, suc, ◌≡◌, refl, Option, none, some, List, [], ◌∷◌, Result, ok, err, ◌>>=◌,
}
use xorq_datafusion.Stream.Runtime.{
  Process, unmade, made, get_runtime, init, try_get_tokio_handle, get_tokio_handle, expect,
  take_down, shutdown_runtime, wait_for_future, Blocks, blocks_on,
}

pub data Call (Runtime : Type 0) : Type 0 where
  handle : Call Runtime
  wait : (current : Option Runtime) → Call Runtime
  shutdown : (timeout : Option ℕ) → Call Runtime

-- What a call came to: a handle, a future that ran, a shutdown that returned, or none of these.
pub data Event (Runtime : Type 0) : Type 0 where
  gave : Runtime → Event Runtime
  ran : Event Runtime
  closed : Option ℕ → Event Runtime
  nothing : Event Runtime

module _ {Runtime : Type 0} where
  -- The runtime is down for good: later shutdowns find nothing.
  abbrev pub Off : List (Event Runtime) → Type 0
  Off [] = Unit {0}
  Off (nothing ∷ es) = Off es
  Off (closed t ∷ es) = Off es
  Off (gave r ∷ es) = ⊥
  Off (ran ∷ es) = ⊥

  -- Every handle is to the one runtime, until a shutdown ends it, as the runtimes that ended say.
  abbrev pub Up : List (Runtime × Option ℕ) → Runtime → List (Event Runtime) → Type 0
  Up ended r [] = ended ≡ []
  Up ended r (gave q ∷ es) = (q ≡ r) × Up ended r es
  Up ended r (ran ∷ es) = Up ended r es
  Up ended r (closed t ∷ es) = (ended ≡ (r, t) ∷ []) × Off es
  Up ended r (nothing ∷ es) = ⊥

  -- No runtime could be started before the first call that has one.
  abbrev pub Life : List (Runtime × Option ℕ) → List (Event Runtime) → Type 0
  Life ended [] = ended ≡ []
  Life ended (nothing ∷ es) = Life ended es
  Life ended (gave r ∷ es) = Up ended r es
  Life ended (ran ∷ es) = (r : Runtime) × Up ended r es
  Life ended (closed t ∷ es) = (r : Runtime) × (ended ≡ (r, t) ∷ []) × Off es

  abbrev gave_of : Result (Option Runtime) → Event Runtime
  gave_of (ok (some r)) = gave r
  gave_of (ok none) = nothing
  gave_of (err e) = nothing

  abbrev ran_of : Result (Blocks Runtime) → Event Runtime
  ran_of (ok b) = ran
  ran_of (err e) = nothing

  abbrev closed_of : Option ℕ → Result (Unit {0}) → Event Runtime
  closed_of t (ok u) = closed t
  closed_of t (err e) = nothing

  abbrev pub fresh : ℕ → Process Runtime
  fresh n = record { runtime = unmade; started = n; ended = [] }

  abbrev up : Runtime → ℕ → Process Runtime
  up r n = record { runtime = made (some r); started = n; ended = [] }

  abbrev down : ℕ → List (Runtime × Option ℕ) → Process Runtime
  down n ended = record { runtime = made none; started = n; ended = ended }

module _ {Runtime : Type 0} (starts : ℕ → Result Runtime) where
  abbrev pub step : Call Runtime → Process Runtime → Process Runtime × Event Runtime
  step handle p = let (p', r) = try_get_tokio_handle starts p in (p', gave_of r)
  step (wait current) p = let (p', r) = wait_for_future starts current p in (p', ran_of r)
  step (shutdown t) p = let (p', r) = shutdown_runtime starts t p in (p', closed_of t r)

  abbrev pub run : List (Call Runtime) → Process Runtime → Process Runtime × List (Event Runtime)
  run [] p = (p, [])
  run (c ∷ cs) p = let (p', e) = step c p in let (q, es) = run cs p' in (q, e ∷ es)

  down-Off :
      (cs : List (Call Runtime)) (n : ℕ) (ended : List (Runtime × Option ℕ))
      → ((run cs (down n ended)).0.ended ≡ ended) × Off (run cs (down n ended)).1
  unfolding try_get_tokio_handle wait_for_future shutdown_runtime get_tokio_handle get_runtime
  down-Off [] n ended = (refl, tt)
  down-Off (handle ∷ cs) n ended = down-Off cs n ended
  down-Off (wait c ∷ cs) n ended = down-Off cs n ended
  down-Off (shutdown t ∷ cs) n ended = down-Off cs n ended

  up-Up :
      (cs : List (Call Runtime)) (r : Runtime) (n : ℕ)
      → Up (run cs (up r n)).0.ended r (run cs (up r n)).1
  unfolding try_get_tokio_handle wait_for_future shutdown_runtime get_tokio_handle get_runtime
  up-Up [] r n = refl
  up-Up (handle ∷ cs) r n = (refl, up-Up cs r n)
  up-Up (wait c ∷ cs) r n = up-Up cs r n
  up-Up (shutdown t ∷ cs) r n = down-Off cs n ((r, t) ∷ [])

  -- The first call, by what starting the runtime comes to.
  module _ (cs : List (Call Runtime)) (n : ℕ)
      (later : Life (run cs (fresh (suc n))).0.ended (run cs (fresh (suc n))).1) where
    handle-Life :
        (r : Result Runtime)
        → let (p, x) = init starts r (fresh n) in Life (run cs p).0.ended (gave_of x ∷ (run cs p).1)
    unfolding init
    handle-Life (ok r) = up-Up cs r (suc n)
    handle-Life (err e) = later

    wait-Life :
        (current : Option Runtime) (r : Result Runtime)
        → let (p, x) = init starts r (fresh n) in
          Life
            (run cs p).0.ended
            (ran_of (x >>= expect starts >>= λ h. ok (blocks_on starts current h)) ∷ (run cs p).1)
    unfolding init expect
    wait-Life current (ok r) = (r, up-Up cs r (suc n))
    wait-Life current (err e) = later

    shutdown-Life :
        (t : Option ℕ) (r : Result Runtime)
        → let (p, x) = take_down starts t (init starts r (fresh n)) in
          Life (run cs p).0.ended (closed_of t x ∷ (run cs p).1)
    unfolding init take_down
    shutdown-Life t (ok r) = let (e, off) = down-Off cs (suc n) ((r, t) ∷ []) in (r, e, off)
    shutdown-Life t (err e) = later

  -- In any calls from the start of the process, every handle is to one runtime, which ends at the
  -- first shutdown that returns, with its timeout, and only there; before it a call fails only if
  -- no runtime was started yet, and after it none gives a handle or runs a future.
  pub run-Life :
      (cs : List (Call Runtime)) (n : ℕ) → Life (run cs (fresh n)).0.ended (run cs (fresh n)).1
  unfolding try_get_tokio_handle wait_for_future shutdown_runtime get_tokio_handle get_runtime
  run-Life [] n = refl
  run-Life (handle ∷ cs) n = handle-Life cs n (run-Life cs (suc n)) (starts n)
  run-Life (wait c ∷ cs) n = wait-Life cs n (run-Life cs (suc n)) c (starts n)
  run-Life (shutdown t ∷ cs) n = shutdown-Life cs n (run-Life cs (suc n)) t (starts n)
