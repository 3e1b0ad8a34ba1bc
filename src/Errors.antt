-- ===== src/Errors.antt =====
-- errors.rs: the errors of DataFusion, of the crate and of Python, and the conversions between
-- them. `PyErr` is Python's exceptions, and `raise` makes one of a class with a text.
use Prim.Native.String.{◌++◌ as append}
use xorq_datafusion.Common.{◌≡◌, refl, String}
pub mod Crossing

-- The classes of which the crate raises exceptions where it converts errors or ends a stream.
pub data PyClass : Type 0 where
  exception value_error type_error runtime_error stop_iteration stop_async_iteration : PyClass

-- What an external error of DataFusion holds.
pub data Boxed (PyErr : Type 0) : Type 0 where
  py_err : PyErr → Boxed PyErr
  other : (display : String) → Boxed PyErr

-- DataFusion's error as far as the crate matches on it, with the texts of `{}` and of `{:?}`.
pub data InnerDataFusionError (PyErr : Type 0) : Type 0 where
  external : Boxed PyErr → (debug : String) → InnerDataFusionError PyErr
  inner : (display debug : String) → InnerDataFusionError PyErr

-- `DataFusionError`; an error of Arrow is its text by `{:?}`, one of substrait by `{}`.
pub data DataFusionError (PyErr : Type 0) : Type 0 where
  execution_error : InnerDataFusionError PyErr → DataFusionError PyErr
  arrow_error : (debug : String) → DataFusionError PyErr
  common : String → DataFusionError PyErr
  python_error : PyErr → DataFusionError PyErr
  encode_error : (display : String) → DataFusionError PyErr

module _ {PyErr : Type 0} (raise : PyClass → String → PyErr) (debug_py : PyErr → String)
    (quoted : String → String) where
  abbrev debug_of : InnerDataFusionError PyErr → String
  debug_of (external boxed debug) = debug
  debug_of (inner display debug) = debug

  unfoldable pub fmt : DataFusionError PyErr → String
  fmt (execution_error e) = append "DataFusion error: " (debug_of e)
  fmt (arrow_error debug) = append "Arrow error: " debug
  fmt (python_error e) = append "Python error " (debug_py e)
  fmt (common text) = text
  fmt (encode_error display) = append "Failed to encode substrait plan: " display

  -- `From` for `DataFusionError`
  unfoldable pub from_inner : InnerDataFusionError PyErr → DataFusionError PyErr
  from_inner e = execution_error e

  unfoldable pub from_py_err : PyErr → DataFusionError PyErr
  from_py_err e = python_error e

  -- `From<DataFusionError> for PyErr`
  unfoldable pub into_py_err : DataFusionError PyErr → PyErr
  into_py_err (python_error e) = e
  into_py_err e = raise exception (fmt e)

  -- A text is shown by `{:?}`.
  unfoldable pub py_type_err : String → PyErr
  py_type_err text = raise type_error (quoted text)

  unfoldable pub py_runtime_err : String → PyErr
  py_runtime_err text = raise runtime_error (quoted text)

  -- The debug text of an external error is DataFusion's.
  unfoldable pub to_external_err : (PyErr → String) → PyErr → InnerDataFusionError PyErr
  to_external_err debug e = external (py_err e) (debug e)

  unfoldable pub from_datafusion_error : InnerDataFusionError PyErr → PyErr
  from_datafusion_error (external (py_err e) debug) = e
  from_datafusion_error (external (other display) debug) = raise value_error display
  from_datafusion_error (inner display debug) = raise value_error display
