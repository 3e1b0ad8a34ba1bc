-- ===== src/Errors/Crossing.antt =====
-- What becomes of an exception of Python that crosses DataFusion.
use Prim.Native.String.{◌++◌ as append}
use xorq_datafusion.Common.{◌≡◌, refl, String}
use xorq_datafusion.Errors.{
  PyClass, exception, from_inner, from_py_err, into_py_err, to_external_err, from_datafusion_error,
  fmt,
}

module _ {PyErr : Type 0} (raise : PyClass → String → PyErr) (debug_py : PyErr → String)
    (quoted : String → String) where
  -- An exception that was made external comes back as it was by from_datafusion_error, and so does
  -- one that was made a Python error of the crate; but by the conversion of DataFusion's error into
  -- the crate's, it comes back as a plain exception with a text.
  pub exception-back :
      (debug : PyErr → String) (e : PyErr)
      → let crossed = to_external_err raise debug_py quoted debug e in
        (from_datafusion_error raise debug_py quoted crossed ≡ e)
        × (into_py_err raise debug_py quoted (from_py_err raise debug_py quoted e) ≡ e)
        × (into_py_err raise debug_py quoted (from_inner raise debug_py quoted crossed)
            ≡ raise exception (append "DataFusion error: " (debug e)))
  unfolding to_external_err from_datafusion_error into_py_err from_py_err from_inner fmt
  exception-back debug e = (refl, refl, refl)
