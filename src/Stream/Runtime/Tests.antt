-- ===== src/Stream/Runtime/Tests.antt =====
-- The life of a runtime that starts at the second attempt.
use xorq_datafusion.Common.{
  ℕ, zero, suc, ◌≡◌, refl, none, some, List, [], ◌∷◌, Result, ok, err, execution_error,
}
use xorq_datafusion.Stream.Runtime.{
  try_get_tokio_handle, wait_for_future, shutdown_runtime, get_tokio_handle, get_runtime,
}
use xorq_datafusion.Stream.Runtime.Shutdown.{
  Call, handle, wait, shutdown, gave, ran, closed, nothing, Life, fresh, run, run-Life,
}

abbrev second : ℕ → Result ℕ
second zero = err (execution_error "no threads")
second (suc n) = ok 7

abbrev calls : List (Call ℕ)
calls = handle ∷ handle ∷ wait none ∷ shutdown (some 3) ∷ wait (some 9) ∷ shutdown none ∷ []

run-Life_example : Life (run second calls (fresh 0)).0.ended (run second calls (fresh 0)).1
run-Life_example = run-Life second calls 0

events :
    (run second calls (fresh 0)).1
    ≡ nothing ∷ gave 7 ∷ ran ∷ closed (some 3) ∷ nothing ∷ closed none ∷ []
unfolding try_get_tokio_handle wait_for_future shutdown_runtime get_tokio_handle get_runtime
events = refl
