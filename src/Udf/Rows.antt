-- ===== src/Udf/Rows.antt =====
-- A function of rows, applied to arrays and scalars.
use xorq_datafusion.Common.{ℕ, ◌<◌, ◌≡◌, Bool, true, false, ◌&&◌, List, [], ◌∷◌, map, Result, ok}
use xorq_datafusion.Udf.{ColumnarValue, array, scalar, Arrays}

abbrev pub last_or : ℕ → List ℕ → ℕ
last_or n [] = n
last_or n (m ∷ ms) = last_or m ms

module _ {Value : Type 0} (arrays : Arrays Value) where
  open arrays use {
    Array, Scalar, len, row, value, into_array, try_from_array, into_array-array, row-into_array,
    value-try_from_array,
  }

  -- What an argument or a result is at a row.
  abbrev pub value_at : ColumnarValue Array Scalar → ℕ → Value
  value_at (array a) i = row a i
  value_at (scalar s) i = value s

  -- The rows of a call: as many as the last array has, or one where there is no array.
  abbrev pub lengths : List (ColumnarValue Array Scalar) → List ℕ
  lengths [] = []
  lengths (array a ∷ args) = len a ∷ lengths args
  lengths (scalar s ∷ args) = lengths args

  abbrev pub rows_of : List (ColumnarValue Array Scalar) → ℕ
  rows_of args = last_or 1 (lengths args)

  abbrev pub is_scalar : ColumnarValue Array Scalar → Bool
  is_scalar (array a) = false
  is_scalar (scalar s) = true

  abbrev pub all_scalar : List (ColumnarValue Array Scalar) → Bool
  all_scalar [] = true
  all_scalar (arg ∷ args) = is_scalar arg && all_scalar args

  -- A function of arrays applies a function of values in each row below a length.
  abbrev pub IsRowWise : (List Value → Value) → ℕ → (List Array → Result Array) → Type 0
  IsRowWise f n inner =
      (as' : List Array) (out : Array)
      → inner as' ≡ ok out
      → (i : ℕ) → i < n
      → row out i ≡ f (map (λ a. row a i) as')
