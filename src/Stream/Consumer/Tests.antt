-- ===== src/Stream/Consumer/Tests.antt =====
-- A stream of two batches and an exception of a window function.
use xorq_datafusion.Common.{ℕ, ◌≡◌, refl, Bool, true, false, List, [], ◌∷◌, String, arith}
use xorq_datafusion.Errors.{PyClass, stop_iteration, external, py_err, from_datafusion_error}
use xorq_datafusion.Stream.Consumer.{
  Item, batch, failed, ended, raised, next, next_stream, for_loop, for_loop-until_error,
}

-- An exception is its class, or a number.
data Exception : Type 0 where
  of_class : PyClass → Exception
  own : ℕ → Exception

abbrev stops : Exception → Bool
stops (of_class stop_iteration) = true
stops _ = false

abbrev raise : PyClass → String → Exception
raise c t = of_class c

abbrev items : List (Item ℕ Exception)
items = batch 1 ∷ batch 2 ∷ failed (external (py_err (own 7)) "own") ∷ batch 3 ∷ []

for_loop-until_error_example :
    for_loop raise (λ x. "exception") (λ t. t) stops 5 items ≡ (1 ∷ 2 ∷ [], raised (own 7))
for_loop-until_error_example =
    for_loop-until_error raise (λ x. "exception") (λ t. t) stops (λ t. refl) (λ t. refl) 5 items
      (omega arith)

-- An exception of class StopIteration that crossed the engine cuts the batches behind it off.
abbrev cut_off : List (Item ℕ Exception)
cut_off = batch 1 ∷ failed (external (py_err (of_class stop_iteration)) "stop") ∷ batch 2 ∷ []

truncated : for_loop raise (λ x. "exception") (λ t. t) stops 5 cut_off ≡ (1 ∷ [], ended)
unfolding next next_stream from_datafusion_error
truncated = refl
