-- ===== src/Stream/Consumer.antt =====
-- record_batch.rs: PyRecordBatchStream, by which Python iterates over the batches of a query. A
-- stream is the items that are left of it, and `is_stop` tells Python's exceptions of class
-- StopIteration.
use xorq_datafusion.Common.{
  ℕ, zero, suc, ◌<◌, ◌≡◌, refl, Bool, true, false, List, [], ◌∷◌, String, length, arith, ◌⊎◌, inl,
  inr, if◌then◌else◌, ap, Bool-cases,
}
use xorq_datafusion.Errors.{
  PyClass, value_error, stop_iteration, stop_async_iteration, InnerDataFusionError, external, inner,
  py_err, other, from_datafusion_error,
}
mod Tests

pub data Item (Batch PyErr : Type 0) : Type 0 where
  batch : Batch → Item Batch PyErr
  failed : InnerDataFusionError PyErr → Item Batch PyErr

-- How a loop came out: it ended, or an exception left it, or it has calls to make.
pub data Ending (PyErr : Type 0) : Type 0 where
  ended running : Ending PyErr
  raised : PyErr → Ending PyErr

-- An exception ends a loop of Python, silently if it is StopIteration.
abbrev pub ending : {PyErr : Type 0} → (is_stop : PyErr → Bool) → PyErr → Ending PyErr
ending is_stop x = if is_stop x then ended else raised x

module _ {Batch PyErr : Type 0} (raise : PyClass → String → PyErr) (debug_py : PyErr → String)
    (quoted : String → String) where
  unfoldable pub next_stream :
      (sync : Bool) → List (Item Batch PyErr) → List (Item Batch PyErr) × (Batch ⊎ PyErr)
  next_stream sync (batch b ∷ items) = (items, inl b)
  next_stream sync (failed e ∷ items) = (items, inr (from_datafusion_error raise debug_py quoted e))
  next_stream true [] = ([], inr (raise stop_iteration "stream exhausted"))
  next_stream false [] = ([], inr (raise stop_async_iteration "stream exhausted"))

  -- `next` and `__next__`
  unfoldable pub next : List (Item Batch PyErr) → List (Item Batch PyErr) × (Batch ⊎ PyErr)
  next items = next_stream true items

  module _ (is_stop : PyErr → Bool) where
    abbrev with_batch : Batch → List Batch × Ending PyErr → List Batch × Ending PyErr
    with_batch b (bs, e) = (b ∷ bs, e)

    -- A loop of Python over the stream, of at most so many calls of `__next__`, and its batches.
    abbrev pub for_loop : ℕ → List (Item Batch PyErr) → List Batch × Ending PyErr
    for_loop zero items = ([], running)
    for_loop (suc n) items =
        let (rest, r) = next items in
        let later = for_loop n rest in
        elim r [ inl b ↦ with_batch b later | inr x ↦ ([], ending is_stop x) ]

    -- The batches before the first error, which Python gets as its own exception if it was one.
    abbrev pub until_error : List (Item Batch PyErr) → List Batch × Ending PyErr
    until_error [] = ([], ended)
    until_error (batch b ∷ items) = with_batch b (until_error items)
    until_error (failed (external (py_err x) debug) ∷ items) = ([], ending is_stop x)
    until_error (failed (external (other text) debug) ∷ items) =
        ([], raised (raise value_error text))
    until_error (failed (inner text debug) ∷ items) = ([], raised (raise value_error text))

    module _ (stops : (t : String) → is_stop (raise stop_iteration t) ≡ true)
        (differs : (t : String) → is_stop (raise value_error t) ≡ false) where
      -- A loop of Python over a stream yields the batches before its first error, and it ends,
      -- after one more call than there are items at the latest: with the exception of Python that
      -- was made external, with a ValueError for any other error, and silently if there is none or
      -- if the exception is a StopIteration.
      pub for_loop-until_error :
          (n : ℕ) (items : List (Item Batch PyErr))
          → length items < n
          → for_loop n items ≡ until_error items
      unfolding next next_stream from_datafusion_error
      for_loop-until_error zero items h = absurd (omega arith)
      for_loop-until_error (suc n) [] h = ground (arith, stops "stream exhausted")
      for_loop-until_error (suc n) (batch b ∷ items) h =
          ap (with_batch b) (for_loop-until_error n items (omega arith))
      for_loop-until_error (suc n) (failed (external (py_err x) debug) ∷ items) h = refl
      for_loop-until_error (suc n) (failed (external (other text) debug) ∷ items) h =
          ground (arith, differs text)
      for_loop-until_error (suc n) (failed (inner text debug) ∷ items) h =
          ground (arith, differs text)
