-- ===== src/Udf/Window/Outcomes.antt =====
-- What a call of an evaluator returns, by what Python answered.
use xorq_datafusion.Common.{
  ℕ, ◌≡◌, refl, false, List, String, panicked, [], ◌∷◌, arith, Result, ok, err, Error, external,
  traverse, ◌>>=◌, unwrap, Result-cases, ◌⊎◌, inl, inr, is_ok, sym, subst,
}
use xorq_datafusion.Scans.Python.{to_external}
use xorq_datafusion.Udf.Window.{
  Python, get_range, range_items, range_tuple, answered, array_answered, arrays_of, evaluate_all,
  evaluate,
}

module _ (py : Python) where
  open py use {
    Evaluator, Object, ArrayRef, Scalar, call_method, integer, tuple, list, extract_tuple,
    extract_usize, scalar_of, to_pyarrow, from_pyarrow, text,
  }

  -- An answer is a tuple of the two ends of a range.
  abbrev pub IsRange : ℕ × ℕ → Object → Type 0
  IsRange (start, end') v =
      (a : Object) × (b : Object) × (extract_tuple v ≡ ok (a ∷ b ∷ []))
      × (extract_usize a ≡ ok start)
      × (extract_usize b ≡ ok end')

  -- A result is read of the answer of a call. An error is external: it is that of the call, or that
  -- there is nothing of the kind to read of its answer.
  abbrev pub ReadOf : {A : Type 0} → (A → Object → Type 0) → Result Object → Result A → Type 0
  ReadOf Is answer (ok a) = (v : Object) × (answer ≡ ok v) × Is a v
  ReadOf {A} Is answer (err x) =
      (y : Error) × (x ≡ external (text y))
      × ((answer ≡ err y) ⊎ ((v : Object) × (answer ≡ ok v) × ((a : A) → ¬ Is a v)))

  -- An array is read of the answer, whose `unwrap` panics if it is none.
  abbrev pub ArrayOf : Result Object → Result ArrayRef → Type 0
  ArrayOf answer (ok a) = (v : Object) × (answer ≡ ok v) × (from_pyarrow v ≡ ok a)
  ArrayOf answer (err x) =
      ((y : Error) × (answer ≡ err y) × (x ≡ external (text y)))
      ⊎ ((v : Object) × (answer ≡ ok v)
          × (is_ok (from_pyarrow v) ≡ false)
          × ((message : String) × (x ≡ panicked message)))

  -- Python was called once, and left the evaluator as it is now.
  abbrev pub CalledOnce :
      {A : Type 0}
      → (Result Object → Result A → Type 0)
      → Evaluator × Result Object
      → Evaluator × Result A
      → Type 0
  CalledOnce Of call result = (result.0 ≡ call.0) × Of call.1 result.1

  range_items-IsRange :
      (v : Object) (items : List Object) (r : ℕ × ℕ)
      → extract_tuple v ≡ ok items
      → range_items py items ≡ ok r
      → IsRange r v
  unfolding range_items
  range_items-IsRange v [] r t h = ground arith
  range_items-IsRange v (a ∷ []) r t h = ground arith
  range_items-IsRange v (a ∷ b ∷ []) r t h = (a, b, t, ground arith, ground arith)
  range_items-IsRange v (a ∷ b ∷ c ∷ items) r t h = ground arith

  extract-IsRange :
      (v : Object) (r : ℕ × ℕ) → extract_tuple v >>= range_items py ≡ ok r → IsRange r v
  extract-IsRange v r h = elim (Result-cases (extract_tuple v)) [
    | inl (items, t) ↦ range_items-IsRange v items r t (ground arith)
    | inr (y, t) ↦ ground arith
  ]

  -- A pair of numbers is read as such.
  extract_complete :
      (v : Object) (y : Error)
      → extract_tuple v >>= range_items py ≡ err y
      → (r : ℕ × ℕ) → ¬ IsRange r v
  unfolding range_items
  extract_complete v y h (start, end') (a, b, t, s, e) = ground arith

  module _ {A : Type 0} (read : Object → Result A) (Is : A → Object → Type 0)
      (sound : (v : Object) (a : A) → read v ≡ ok a → Is a v)
      (complete : (v : Object) (y : Error) → read v ≡ err y → (a : A) → ¬ Is a v) where
    read_ReadOf : (v : Object) (r : Result A) → read v ≡ r → ReadOf Is (ok v) (to_external text r)
    unfolding to_external
    read_ReadOf v (ok a) h = (v, refl, sound v a h)
    read_ReadOf v (err y) h = (y, refl, inr (v, refl, complete v y h))

    pub answered-ReadOf :
        (answer : Result Object) → ReadOf Is answer (to_external text (answer >>= read))
    unfolding to_external
    answered-ReadOf (err y) = (y, refl, inl refl)
    answered-ReadOf (ok v) = read_ReadOf v (read v) refl

  unwrap-ArrayOf :
      (v : Object) (r : Result ArrayRef) → from_pyarrow v ≡ r → ArrayOf (ok v) (unwrap r)
  unwrap-ArrayOf v (ok a) h = (v, refl, h)
  unwrap-ArrayOf v (err y) h = inr (v, refl, ground arith, (_, refl))

  array_answered-ArrayOf :
      (e : Evaluator) (answer : Result Object)
      → CalledOnce ArrayOf (e, answer) (array_answered py (e, answer))
  unfolding to_external
  array_answered-ArrayOf e (err y) = (refl, inl (y, refl, refl))
  array_answered-ArrayOf e (ok v) = (refl, unwrap-ArrayOf v (from_pyarrow v) refl)

  -- Arrays that are converted one by one are converted by `unwrap` too.
  pub unwrapped :
      (values : List ArrayRef) (arrays : List Object)
      → traverse to_pyarrow values ≡ ok arrays
      → arrays_of py values ≡ ok arrays
  unwrapped [] arrays h = h
  unwrapped (a ∷ values) arrays h = grind (arith, unwrapped values)

  array_outcome :
      (call : Evaluator × Result Object) → CalledOnce ArrayOf call (array_answered py call)
  array_outcome (e, answer) = array_answered-ArrayOf e answer

  abbrev pub range_call : Evaluator → (idx n_rows : ℕ) → Evaluator × Result Object
  range_call e idx n_rows = call_method e "get_range" (integer idx ∷ integer n_rows ∷ [])

  abbrev pub all_call : Evaluator → List Object → ℕ → Evaluator × Result Object
  all_call e arrays num_rows = call_method e "evaluate_all" (list arrays ∷ integer num_rows ∷ [])

  abbrev pub rows_call : Evaluator → List Object → ℕ × ℕ → Evaluator × Result Object
  rows_call e arrays range = call_method e "evaluate" (list arrays ∷ range_tuple py range ∷ [])

  get_range-ReadOf :
      (e : Evaluator) (idx n_rows : ℕ)
      → CalledOnce (ReadOf IsRange) (range_call e idx n_rows) (get_range py e idx n_rows)
  unfolding get_range
  get_range-ReadOf e idx n_rows = (
    refl,
    answered-ReadOf (λ v. extract_tuple v >>= range_items py) (λ r v. IsRange r v) extract-IsRange
        extract_complete (range_call e idx n_rows).1,
  )

  evaluate_all_call :
      (e : Evaluator) (values : List ArrayRef) (arrays : List Object) (num_rows : ℕ)
      → traverse to_pyarrow values ≡ ok arrays
      → evaluate_all py e values num_rows ≡ array_answered py (all_call e arrays num_rows)
  unfolding evaluate_all
  evaluate_all_call e values arrays num_rows h = rw (unwrapped values arrays h, evaluate_all) refl

  evaluate_call :
      (e : Evaluator) (values : List ArrayRef) (arrays : List Object) (range : ℕ × ℕ)
      → traverse to_pyarrow values ≡ ok arrays
      → evaluate py e values range ≡ answered py scalar_of (rows_call e arrays range)
  unfolding evaluate
  evaluate_call e values arrays range h = rw (unwrapped values arrays h, evaluate) refl

  -- Each call calls Python once. The range of a call is the pair of numbers that Python answered
  -- with. Once the arrays of a call are converted, the scalar of evaluate and the array of
  -- evaluate_all are what Python answered with. There is an error only if the call raised one,
  -- which is passed on as external, or if Python answered with no pair of numbers, no scalar or no
  -- array: that error is external too, except that evaluate_all panics.
  pub calls-Outcomes :
      (e : Evaluator) (idx n_rows : ℕ) (values : List ArrayRef) (arrays : List Object)
      (num_rows : ℕ) (range : ℕ × ℕ)
      → traverse to_pyarrow values ≡ ok arrays
      → CalledOnce (ReadOf IsRange) (range_call e idx n_rows) (get_range py e idx n_rows)
        × CalledOnce
            (ReadOf (λ s v. scalar_of v ≡ ok s))
            (rows_call e arrays range)
            (evaluate py e values range)
        × CalledOnce ArrayOf (all_call e arrays num_rows) (evaluate_all py e values num_rows)
  calls-Outcomes e idx n_rows values arrays num_rows range h = (
    get_range-ReadOf e idx n_rows,
    subst (λ c. CalledOnce (ReadOf (λ s v. scalar_of v ≡ ok s)) (rows_call e arrays range) c)
        (sym (evaluate_call e values arrays range h))
        (
          refl,
          answered-ReadOf scalar_of (λ s v. scalar_of v ≡ ok s) (λ v s k. k) (λ v y k s i. cc)
              (rows_call e arrays range).1,
        ),
    subst (λ c. CalledOnce ArrayOf (all_call e arrays num_rows) c)
        (sym (evaluate_all_call e values arrays num_rows h))
        (array_outcome (all_call e arrays num_rows)),
  )
