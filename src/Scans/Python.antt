-- ===== src/Scans/Python.antt =====
-- How the scans pass on what a Python iterator yields.
use xorq_datafusion.Common.{Option, none, some, Result, ok, err, Error, external, String, ◌>>=◌}

-- `map_err(|e| DataFusionError::External(Box::new(e)))`, with the text of the exception.
unfoldable pub to_external : {A : Type 0} → (Error → String) → Result A → Result A
to_external text (ok a) = ok a
to_external text (err e) = err (external (text e))

-- `bound_iter.next().map(|r| r.and_then(extract).map_err(External))`
unfoldable pub extracted :
    {Obj B : Type 0} → (Error → String) → (Obj → Result B) → Option (Result Obj) → Option (Result B)
unfolding to_external
extracted text extract none = none
extracted text extract (some r) = some (to_external text (r >>= extract))
