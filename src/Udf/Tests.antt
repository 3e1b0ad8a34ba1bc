-- ===== src/Udf/Tests.antt =====
-- A sum of numbers, where an array is its length and its rows; and an evaluator that counts its
-- calls, where an object of Python is a number, a pair of numbers, or a sequence.
use xorq_datafusion.Common.{
  ℕ, suc, ◌+◌, ◌≡◌, refl, List, [], ◌∷◌, map, arith, Result, ok, err, type_error, ◌>>=◌,
}
use xorq_datafusion.Udf.{ColumnarValue, array, scalar, Arrays}
use xorq_datafusion.Udf.Window.{Python, get_range, evaluate_all, evaluate}
use xorq_datafusion.Udf.Window.Outcomes.{
  IsRange, ReadOf, ArrayOf, CalledOnce, range_call, rows_call, all_call, calls-Outcomes,
}

abbrev Rows : Type 0
Rows = ℕ × (ℕ → ℕ)

abbrev as_array : ColumnarValue Rows ℕ → ℕ → Result Rows
as_array (array a) n = ok a
as_array (scalar s) n = ok (n, λ i. s)

abbrev arrays : Arrays ℕ
arrays = record {
  Array = Rows;
  Scalar = ℕ;
  len = λ a. a.0;
  row = λ a i. a.1 i;
  value = λ s. s;
  into_array = as_array;
  try_from_array = λ a i. ok (a.1 i);
  into_array-array = λ a n. refl;
  row-into_array = λ s n a h i below. ground arith;
  value-try_from_array = λ a i s h. ground arith;
}

abbrev sum : List ℕ → ℕ
sum [] = 0
sum (n ∷ ns) = n + sum ns

abbrev add_arrays : List Rows → Result Rows
add_arrays as' = ok (2, λ i. sum (map (λ a. a.1 i) as'))

abbrev doubled : Rows
doubled = (2, λ i. i + i)

abbrev args : List (ColumnarValue Rows ℕ)
args = array doubled ∷ scalar 5 ∷ []

data Object : Type 0 where
  number : ℕ → Object
  pair : ℕ → ℕ → Object
  sequence : Object

abbrev as_number : Object → Result ℕ
as_number (number n) = ok n
as_number _ = err (type_error "no number")

abbrev as_items : Object → Result (List Object)
as_items (pair a b) = ok (number a ∷ number b ∷ [])
as_items _ = err (type_error "no tuple")

-- Each call answers with the pair of the number of calls before it and 7.
abbrev counting : Python
counting = record {
  Evaluator = ℕ;
  Object = Object;
  ArrayRef = ℕ;
  Scalar = ℕ;
  call_method = λ e name os. (suc e, ok (pair e 7));
  integer = number;
  tuple = λ os. sequence;
  list = λ os. sequence;
  extract_tuple = as_items;
  extract_usize = as_number;
  extract_bool = λ o. err (type_error "no bool");
  scalar_of = as_number;
  scalars_of = λ o. as_number o >>= λ n. ok (n ∷ []);
  to_pyarrow = λ a. ok (number a);
  from_pyarrow = as_number;
  text = λ x. "error";
  display = λ n. "number";
}

calls-Outcomes_example :
    CalledOnce counting
      (ReadOf counting (IsRange counting))
      (range_call counting 3 0 9)
      (get_range counting 3 0 9)
    × CalledOnce counting
        (ReadOf counting (λ s v. as_number v ≡ ok s))
        (rows_call counting 3 (number 5 ∷ []) (0, 1))
        (evaluate counting 3 (5 ∷ []) (0, 1))
    × CalledOnce counting
        (ArrayOf counting)
        (all_call counting 3 (number 5 ∷ []) 1)
        (evaluate_all counting 3 (5 ∷ []) 1)
calls-Outcomes_example = calls-Outcomes counting 3 0 9 (5 ∷ []) (number 5 ∷ []) 1 (0, 1) refl
