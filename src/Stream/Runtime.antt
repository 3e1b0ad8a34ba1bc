-- ===== src/Stream/Runtime.antt =====
-- utils.rs: the runtime of the process behind get_runtime, its handles, shutdown_runtime and
-- wait_for_future. `starts` is what each call of `Runtime::new` comes to.
use xorq_datafusion.Common.{
  ℕ, suc, Option, none, some, List, [], ◌∷◌, ◌++◌, Result, ok, err, panicked, unwrap, ◌>>=◌, map,
}
pub mod Shutdown
mod Tests

-- The static is not made yet, or it holds a runtime or none.
pub data Static (Runtime : Type 0) : Type 0 where
  unmade : Static Runtime
  made : Option Runtime → Static Runtime

-- The calls of `Runtime::new`, and the runtimes that were shut down, each with its timeout.
pub record Process (Runtime : Type 0) : Type 0 where
  pub runtime : Static Runtime
  pub started : ℕ
  pub ended : List (Runtime × Option ℕ)

module _ {Runtime : Type 0} (starts : ℕ → Result Runtime) where
  -- `Some(Runtime::new().unwrap())`: a panic leaves the static unmade.
  init : Result Runtime → Process Runtime → Process Runtime × Result (Option Runtime)
  init (ok r) p = (record p { runtime = made (some r); started = suc p.started }, ok (some r))
  init (err e) p = (record p { started = suc p.started }, unwrap (err e))

  -- The lock's content, which the first call makes.
  get_from : Static Runtime → Process Runtime → Process Runtime × Result (Option Runtime)
  unfolding init
  get_from (made r) p = (p, ok r)
  get_from unmade p = init (starts p.started) p

  unfoldable pub get_runtime : Process Runtime → Process Runtime × Result (Option Runtime)
  unfolding get_from
  get_runtime p = get_from p.runtime p

  -- A handle is known by its runtime.
  unfoldable pub try_get_tokio_handle : Process Runtime → Process Runtime × Result (Option Runtime)
  unfolding get_runtime
  try_get_tokio_handle p = get_runtime p

  expect : Option Runtime → Result Runtime
  expect (some r) = ok r
  expect none = err (panicked "tokio runtime has been shut down")

  unfoldable pub get_tokio_handle : Process Runtime → Process Runtime × Result Runtime
  unfolding try_get_tokio_handle expect
  get_tokio_handle p = let (p', r) = try_get_tokio_handle p in (p', r >>= expect)

  -- `take`, and the shutdown of what it took, with a timeout or in the background
  take_down :
      Option ℕ → Process Runtime × Result (Option Runtime) → Process Runtime × Result (Unit {0})
  take_down timeout (p, err e) = (p, err e)
  take_down timeout (p, ok none) = (p, ok tt)
  take_down timeout (p, ok (some r)) =
      (record p { runtime = made none; ended = p.ended ++ (r, timeout) ∷ [] }, ok tt)

  unfoldable pub shutdown_runtime : Option ℕ → Process Runtime → Process Runtime × Result (Unit {0})
  unfolding get_runtime take_down
  shutdown_runtime timeout p = take_down timeout (get_runtime p)

-- How a future is run: a thread of a runtime hands itself back first.
pub data Blocks (Runtime : Type 0) : Type 0 where
  in_place on_thread : Runtime → Blocks Runtime

module _ {Runtime : Type 0} (starts : ℕ → Result Runtime) where
  blocks_on : Option Runtime → Runtime → Blocks Runtime
  blocks_on (some current) handle = in_place current
  blocks_on none handle = on_thread handle

  -- `current` is the runtime that the calling thread runs in, if any.
  unfoldable pub wait_for_future :
      (current : Option Runtime) → Process Runtime → Process Runtime × Result (Blocks Runtime)
  unfolding get_tokio_handle blocks_on
  wait_for_future current p =
      let (p', r) = get_tokio_handle starts p in (p', r >>= λ handle. ok (blocks_on current handle))
