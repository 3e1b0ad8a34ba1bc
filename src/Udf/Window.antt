-- ===== src/Udf/Window.antt =====
-- udwf.rs: RustPartitionEvaluator, which hands each call of DataFusion to an evaluator of Python.
-- A range is a pair. A panic ends a call before its error is made external.
use Prim.Native.String.{◌++◌ as append}
use xorq_datafusion.Common.{
  ℕ, Bool, false, List, [], ◌∷◌, String, Result, ok, err, Error, value_error, traverse, length,
  ◌>>=◌, unwrap, map,
}
use xorq_datafusion.Scans.Python.{to_external}
pub mod Outcomes

-- An evaluator with its state, and the conversions of Python's values. A call makes a tuple of its
-- arguments.
pub record Python : Type 1 where
  pub Evaluator : Type 0
  pub Object : Type 0
  pub ArrayRef : Type 0
  pub Scalar : Type 0
  pub call_method : Evaluator → String → List Object → Evaluator × Result Object
  pub integer : ℕ → Object
  pub tuple : List Object → Object
  pub list : List Object → Object
  pub extract_tuple : Object → Result (List Object)
  pub extract_usize : Object → Result ℕ
  pub extract_bool : Object → Result Bool
  pub scalar_of : Object → Result Scalar
  pub scalars_of : Object → Result (List Scalar)
  pub to_pyarrow : ArrayRef → Result Object
  pub from_pyarrow : Object → Result ArrayRef
  pub text : Error → String
  pub display : ℕ → String

module _ (py : Python) where
  open py use {
    Evaluator, Object, ArrayRef, Scalar, call_method, integer, tuple, list, extract_tuple,
    extract_usize, extract_bool, scalar_of, to_pyarrow, from_pyarrow, text, display,
  }

  -- The arrays of a call, each converted by `unwrap`
  abbrev pub arrays_of : List ArrayRef → Result (List Object)
  arrays_of = traverse λ a. unwrap (to_pyarrow a)

  -- `map` or `and_then` on what a call returned, and its error made external
  abbrev pub answered :
      {A : Type 0} → (Object → Result A) → Evaluator × Result Object → Evaluator × Result A
  answered read (e, r) = (e, to_external text (r >>= read))

  -- The array that a call returned, by `unwrap`
  abbrev pub array_answered : Evaluator × Result Object → Evaluator × Result ArrayRef
  array_answered (e, ok v) = (e, unwrap (from_pyarrow v))
  array_answered (e, err x) = (e, to_external text (err x))

  -- `and_then(|v| v.extract()).unwrap_or(false)`
  abbrev pub flag_answered : Evaluator × Result Object → Evaluator × Bool
  flag_answered (e, r) = (e, elim (r >>= extract_bool) [ ok b ↦ b | err x ↦ false ])

  abbrev pub range_tuple : ℕ × ℕ → Object
  range_tuple (start, end') = tuple (integer start ∷ integer end' ∷ [])

  unfoldable pub memoize : Evaluator → Evaluator × Result (Unit {0})
  memoize e = answered (λ v. ok tt) (call_method e "memoize" [])

  range_items : List Object → Result (ℕ × ℕ)
  range_items (start ∷ end' ∷ []) = do s ← extract_usize start; t ← extract_usize end'; ok (s, t)
  range_items items = err (
      value_error (
        append "Expected get_range to return tuple of length 2. Received length "
          (display (length items))))

  unfoldable pub get_range : Evaluator → (idx n_rows : ℕ) → Evaluator × Result (ℕ × ℕ)
  unfolding range_items
  get_range e idx n_rows =
      answered (λ v. extract_tuple v >>= range_items)
        (call_method e "get_range" (integer idx ∷ integer n_rows ∷ []))

  unfoldable pub is_causal : Evaluator → Evaluator × Bool
  is_causal e = flag_answered (call_method e "is_causal" [])

  unfoldable pub evaluate_all : Evaluator → List ArrayRef → ℕ → Evaluator × Result ArrayRef
  evaluate_all e values num_rows = elim (arrays_of values) [
    | err x ↦ (e, err x)
    | ok arrays ↦
        array_answered (call_method e "evaluate_all" (list arrays ∷ integer num_rows ∷ []))
  ]

  unfoldable pub evaluate : Evaluator → List ArrayRef → ℕ × ℕ → Evaluator × Result Scalar
  evaluate e values range = elim (arrays_of values) [
    | err x ↦ (e, err x)
    | ok arrays ↦
        answered scalar_of (call_method e "evaluate" (list arrays ∷ range_tuple range ∷ []))
  ]

  unfoldable pub evaluate_all_with_rank : Evaluator → ℕ → List (ℕ × ℕ) → Evaluator × Result ArrayRef
  evaluate_all_with_rank e num_rows ranks = array_answered (
      call_method e "evaluate_all_with_rank" (integer num_rows ∷ list (map range_tuple ranks) ∷ []))

  unfoldable pub supports_bounded_execution : Evaluator → Evaluator × Bool
  supports_bounded_execution e = flag_answered (call_method e "supports_bounded_execution" [])

  unfoldable pub uses_window_frame : Evaluator → Evaluator × Bool
  uses_window_frame e = flag_answered (call_method e "uses_window_frame" [])

  unfoldable pub include_rank : Evaluator → Evaluator × Bool
  include_rank e = flag_answered (call_method e "include_rank" [])
