-- ===== src/Udf.antt =====
-- udf.rs: the functions that Python defines, with make_scalar_function and parse_volatility of
-- utils.rs.
pub mod Rows
pub mod Window
pub mod Accumulator
pub mod HashInt
mod Tests
use Prim.Native.String.{◌++◌ as append}
use text.Mathlib.Text.{◌==◌ as str_eq}
use xorq_datafusion.Common.{
  ℕ, ◌<◌, ◌≡◌, Bool, true, false, Option, none, some, List, [], ◌∷◌, String, if◌then◌else◌, Result,
  ok, err, Error, common, traverse, ◌>>=◌,
}

pub data Volatility : Type 0 where
  immutable stable volatile : Volatility

unfoldable pub parse_volatility : String → Result Volatility
parse_volatility value =
    if str_eq value "immutable"
    then ok immutable
    else if str_eq value "stable"
    then ok stable
    else if str_eq value "volatile"
    then ok volatile
    else err (
        common (
          append "Unsupported volatility type: `"
            (append value "`, supported values are: immutable, stable and volatile.")))

-- `ColumnarValue`
pub data ColumnarValue (Array Scalar : Type 0) : Type 0 where
  array : Array → ColumnarValue Array Scalar
  scalar : Scalar → ColumnarValue Array Scalar

-- The arrays of Arrow and the scalars of DataFusion, over values: a scalar becomes an array that
-- has its value in every row, an array stays as it is, and a scalar is read of a row.
pub record Arrays (Value : Type 0) : Type 1 where
  pub Array : Type 0
  pub Scalar : Type 0
  pub len : Array → ℕ
  pub row : Array → ℕ → Value
  pub value : Scalar → Value
  pub into_array : ColumnarValue Array Scalar → ℕ → Result Array
  pub try_from_array : Array → ℕ → Result Scalar
  pub into_array-array : (a : Array) (n : ℕ) → into_array (array a) n ≡ ok a
  pub row-into_array :
      (s : Scalar) (n : ℕ) (a : Array)
      → into_array (scalar s) n ≡ ok a
      → (i : ℕ) → i < n
      → row a i ≡ value s
  pub value-try_from_array :
      (a : Array) (i : ℕ) (s : Scalar) → try_from_array a i ≡ ok s → value s ≡ row a i

module _ {Value : Type 0} (arrays : Arrays Value) where
  open arrays use {Array, Scalar, len, into_array, try_from_array}

  -- `fold(None, |acc, arg| ..)`: the length of the last array.
  pub array_len : Option ℕ → List (ColumnarValue Array Scalar) → Option ℕ
  array_len acc [] = acc
  array_len acc (scalar s ∷ args) = array_len acc args
  array_len acc (array a ∷ args) = array_len (some (len a)) args

  unwrap_or_one : Option ℕ → ℕ
  unwrap_or_one none = 1
  unwrap_or_one (some n) = n

  pub inferred_length : List (ColumnarValue Array Scalar) → ℕ
  unfolding array_len unwrap_or_one
  inferred_length args = unwrap_or_one (array_len none args)

  -- All inputs are scalar: so is the output.
  as_columnar : Option ℕ → Array → Result (ColumnarValue Array Scalar)
  as_columnar none a = try_from_array a 0 >>= λ s. ok (scalar s)
  as_columnar (some n) a = ok (array a)

  pub make_scalar_function :
      (List Array → Result Array)
      → List (ColumnarValue Array Scalar)
      → Result (ColumnarValue Array Scalar)
  unfolding inferred_length as_columnar array_len
  make_scalar_function inner args = do
    arrays' ← traverse (λ arg. into_array arg (inferred_length args)) args
    result ← inner arrays'
    as_columnar (array_len none args) result
