-- ===== src/Udf/Accumulator.antt =====
-- udaf.rs: RustAccumulator, which hands each call of DataFusion to an accumulator of Python.
use xorq_datafusion.Common.{
  ◌≡◌, List, [], ◌∷◌, String, Result, ok, err, panicked, traverse, Bool, sym, subst,
}
use xorq_datafusion.Scans.Python.{to_external}
use xorq_datafusion.Udf.Window.{Python, arrays_of, answered, flag_answered}
use xorq_datafusion.Udf.Window.Outcomes.{ReadOf, answered-ReadOf, unwrapped}

module _ (py : Python) where
  open py use {
    Evaluator, Object, ArrayRef, Scalar, call_method, scalar_of, scalars_of, to_pyarrow, text,
  }

  -- A call whose answer is dropped, with arrays that are converted.
  hand_over : String → Evaluator → Result (List Object) → Evaluator × Result (Unit {0})
  hand_over name e (err x) = (e, err x)
  hand_over name e (ok arrays) = answered py (λ v. ok tt) (call_method e name arrays)

  unfoldable pub update_batch : Evaluator → List ArrayRef → Evaluator × Result (Unit {0})
  unfolding hand_over
  update_batch e values = hand_over "update" e (arrays_of py values)

  unfoldable pub evaluate : Evaluator → Evaluator × Result Scalar
  evaluate e = answered py scalar_of (call_method e "evaluate" [])

  unfoldable pub state : Evaluator → Evaluator × Result (List Scalar)
  state e = answered py scalars_of (call_method e "state" [])

  hand_state : Evaluator → Result Object → Evaluator × Result (Unit {0})
  hand_state e (err x) = (e, to_external text (err x))
  hand_state e (ok o) = answered py (λ v. ok tt) (call_method e "merge" (o ∷ []))

  -- `states[0]`, which panics where there is none.
  unfoldable pub merge_batch : Evaluator → List ArrayRef → Evaluator × Result (Unit {0})
  unfolding hand_state
  merge_batch e [] = (e, err (panicked "index out of bounds: the len is 0 but the index is 0"))
  merge_batch e (s ∷ rest) = hand_state e (to_pyarrow s)

  unfoldable pub retract_batch : Evaluator → List ArrayRef → Evaluator × Result (Unit {0})
  unfolding hand_over
  retract_batch e values = hand_over "retract_batch" e (arrays_of py values)

  unfoldable pub supports_retract_batch : Evaluator → Evaluator × Bool
  supports_retract_batch e = flag_answered py (call_method e "supports_retract_batch" [])

  -- A call came to what Python's call came to, its error made external.
  abbrev pub Done : Result Object → Result (Unit {0}) → Type 0
  Done = ReadOf py (λ u v. Unit {0})

  answered-Done :
      (answer : Evaluator × Result Object) → Done answer.1 (answered py (λ v. ok tt) answer).1
  answered-Done answer =
      answered-ReadOf py (λ v. ok tt) (λ u v. Unit {0}) (λ v u k. tt) (λ v y k u i. cc) answer.1

  hand_over-Done :
      (name : String) (e : Evaluator) (values : List ArrayRef) (arrays : List Object)
      → traverse to_pyarrow values ≡ ok arrays
      → Done (call_method e name arrays).1 (hand_over name e (arrays_of py values)).1
  unfolding hand_over
  hand_over-Done name e values arrays h =
      subst (λ r. Done (call_method e name arrays).1 (hand_over name e r).1)
        (sym (unwrapped py values arrays h)) (answered-Done (call_method e name arrays))

  -- Once the arrays of a call are converted, an update or a retraction that returns is one from
  -- which Python returned, a merge is Python's merge of the first state alone, and the states and
  -- the value are what Python answered with; an error is external.
  pub accumulator-Outcomes :
      (e : Evaluator) (values : List ArrayRef) (arrays : List Object) (s : ArrayRef) (o : Object)
      (rest : List ArrayRef)
      → traverse to_pyarrow values ≡ ok arrays
      → to_pyarrow s ≡ ok o
      → Done (call_method e "update" arrays).1 (update_batch e values).1
        × Done (call_method e "retract_batch" arrays).1 (retract_batch e values).1
        × Done (call_method e "merge" (o ∷ [])).1 (merge_batch e (s ∷ rest)).1
        × ReadOf py (λ c v. scalars_of v ≡ ok c) (call_method e "state" []).1 (state e).1
        × ReadOf py (λ c v. scalar_of v ≡ ok c) (call_method e "evaluate" []).1 (evaluate e).1
  unfolding update_batch retract_batch merge_batch state evaluate
  accumulator-Outcomes e values arrays s o rest h k = (
    hand_over-Done "update" e values arrays h,
    hand_over-Done "retract_batch" e values arrays h,
    subst (λ r. Done (call_method e "merge" (o ∷ [])).1 (hand_state e r).1) (sym k)
        (answered-Done (call_method e "merge" (o ∷ []))),
    answered-ReadOf py scalars_of (λ c v. scalars_of v ≡ ok c) (λ v c i. i) (λ v y k c i. cc)
        (call_method e "state" []).1,
    answered-ReadOf py scalar_of (λ c v. scalar_of v ≡ ok c) (λ v c i. i) (λ v y k c i. cc)
        (call_method e "evaluate" []).1,
  )
