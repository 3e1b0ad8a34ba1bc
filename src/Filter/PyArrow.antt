-- ===== src/Filter/PyArrow.antt =====
-- pyarrow_filter_expression.rs: filters as `pyarrow.compute` expressions, and dataset.rs: which
-- filters are pushed down.
use Prim.Native.String.{◌++◌ as append}
use xorq_datafusion.Common.{
  ◌≡◌, Bool, true, false, not, List, String, arith, Result, ok, err, common, ◌>>=◌, unwrap, ap, ◌∙◌,
  if◌then◌else◌,
}
use xorq_datafusion.DataType.Types.{ScalarValue}
use xorq_datafusion.Expr.Types.{Expr, Exprs}
use xorq_datafusion.Filter.Python.{
  PyOperator, py_le, py_and, meant, operator_to_py, operator_to_py-meant, is_handled, Debug,
  extract_scalar_list, extract_scalar_list-literals, literals, Engine, meaning, among, invert_if,
  within,
}

-- The objects of `pyarrow.compute`, and the calls of them. A call may raise.
pub record PyArrow : Type 1 where
  pub Object : Type 0
  pub field : String → Result Object
  pub scalar : ScalarValue → Result Object
  pub call : PyOperator → Object → Object → Result Object
  pub invert : Object → Result Object
  pub is_valid : Object → Result Object
  pub is_null : Object → Result Object
  pub isin : Object → List ScalarValue → Result Object

unwrap-eq-ok {ℓ} : {A : Type ℓ} (r : Result A) {a : A} → unwrap r ≡ ok a → r ≡ ok a
unwrap-eq-ok (ok b) h = h
unwrap-eq-ok (err e) h = cc

module _ (debug : Debug) (pc : PyArrow) where
  open pc use {Object, field, scalar, call, isin}

  pub py_literal : ScalarValue → Result Object
  py_literal v =
      if is_handled v
      then scalar v
      else err (common (append "PyArrow can't handle ScalarValue: " (debug.scalar v)))

  -- `le(low, expr) & le(expr, high)`
  both_le : Object → Object → Object → Result Object
  both_le e low high = do a ← call py_le low e; b ← call py_le e high; call py_and a b

  unfoldable pub py_between : Bool → Object → Object → Object → Result Object
  unfolding both_le
  py_between negated e low high = do
    ret ← both_le e low high
    if negated then pc.invert ret else ok ret

  unfoldable pub py_in_list : Bool → Object → List ScalarValue → Result Object
  py_in_list negated e scalars = do
    ret ← isin e scalars
    if negated then unwrap (pc.invert ret) else ok ret

  unfoldable pub try_from : Expr → Result Object
  unfolding py_literal
  try_from (Expr.column relation name) = field name
  try_from (Expr.literal v) = py_literal v
  try_from (Expr.binary_expr l op r) = do
    f ← operator_to_py debug.operator op
    a ← try_from l
    b ← try_from r
    call f a b
  try_from (Expr.not e) = do o ← try_from e; pc.invert o
  try_from (Expr.is_not_null e) = do o ← try_from e; pc.is_valid o
  try_from (Expr.is_null e) = do o ← try_from e; pc.is_null o
  try_from (Expr.between e negated low high) = do
    o ← try_from e
    a ← try_from low
    b ← try_from high
    py_between negated o a b
  try_from (Expr.in_list e es negated) = do
    scalars ← extract_scalar_list debug es
    o ← try_from e
    py_in_list negated o scalars
  try_from e = err (common (append "Unsupported Datafusion expression " (debug.expr e)))

-- What pyarrow documents of its expressions: each evaluates on a row as the engine's operation
-- does, `isin` on a value that is not null.
pub record Evaluates (engine : Engine) (pc : PyArrow) : Type 1 where
  pub eval : pc.Object → engine.Row → engine.Value
  pub eval-field :
      (n : String) {o : pc.Object} (row : engine.Row)
      → pc.field n ≡ ok o
      → eval o row ≡ engine.column n row
  pub eval-scalar :
      (v : ScalarValue) {o : pc.Object} (row : engine.Row)
      → pc.scalar v ≡ ok o
      → eval o row ≡ engine.constant v
  pub eval-call :
      (f : PyOperator) (a b : pc.Object) {o : pc.Object} (row : engine.Row)
      → pc.call f a b ≡ ok o
      → eval o row ≡ engine.apply (meant f) (eval a row) (eval b row)
  pub eval-invert :
      (a : pc.Object) {o : pc.Object} (row : engine.Row)
      → pc.invert a ≡ ok o
      → eval o row ≡ engine.invert (eval a row)
  pub eval-is_valid :
      (a : pc.Object) {o : pc.Object} (row : engine.Row)
      → pc.is_valid a ≡ ok o
      → eval o row ≡ engine.truth (not (engine.is_null (eval a row)))
  pub eval-is_null :
      (a : pc.Object) {o : pc.Object} (row : engine.Row)
      → pc.is_null a ≡ ok o
      → eval o row ≡ engine.truth (engine.is_null (eval a row))
  pub eval-isin :
      (a : pc.Object) (vs : List ScalarValue) {o : pc.Object} (row : engine.Row)
      → pc.isin a vs ≡ ok o
      → engine.is_null (eval a row) ≡ false
      → eval o row ≡ among engine (eval a row) vs

module _ (engine : Engine) (debug : Debug) (pc : PyArrow) (laws : Evaluates engine pc) where
  open laws use {
    eval, eval-field, eval-scalar, eval-call, eval-invert, eval-is_valid, eval-is_null, eval-isin,
  }

  -- No IN list of the filter tests a null on this row.
  abbrev pub TestsNoNull : Expr → engine.Row → Type 0
  TestsNoNull (Expr.binary_expr l op r) row = TestsNoNull l row × TestsNoNull r row
  TestsNoNull (Expr.not e) row = TestsNoNull e row
  TestsNoNull (Expr.is_not_null e) row = TestsNoNull e row
  TestsNoNull (Expr.is_null e) row = TestsNoNull e row
  TestsNoNull (Expr.between e negated low high) row =
      TestsNoNull e row × TestsNoNull low row × TestsNoNull high row
  TestsNoNull (Expr.in_list e es negated) row =
      TestsNoNull e row × (engine.is_null (meaning engine e row) ≡ false)
  TestsNoNull e row = Unit {0}

  both_le-eval :
      (a low high o : pc.Object) (row : engine.Row)
      → both_le debug pc a low high ≡ ok o
      → eval o row ≡ within engine (eval a row) (eval low row) (eval high row)
  unfolding both_le
  both_le-eval a low high o row h = grind (
    arith,
    λ (x y : pc.Object) (p : pc.call py_and x y ≡ ok o). eval-call py_and x y row p,
    λ (x : pc.Object) (p : pc.call py_le low a ≡ ok x). eval-call py_le low a row p,
    λ (x : pc.Object) (p : pc.call py_le a high ≡ ok x). eval-call py_le a high row p,
    engine.ge-le (eval a row) (eval low row),
  )

  py_between-eval :
      (negated : Bool) (a low high o : pc.Object) (row : engine.Row)
      → py_between debug pc negated a low high ≡ ok o
      → eval o row
        ≡ invert_if engine negated (within engine (eval a row) (eval low row) (eval high row))
  unfolding py_between
  py_between-eval negated a low high o row h = grind (
    arith,
    λ (x : pc.Object) (p : both_le debug pc a low high ≡ ok x). both_le-eval a low high x row p,
    λ (x : pc.Object) (p : pc.invert x ≡ ok o). eval-invert x row p,
  )

  unwrapped-eval :
      (negated : Bool) (a o : pc.Object) (row : engine.Row)
      → (if negated then unwrap (pc.invert a) else ok a) ≡ ok o
      → eval o row ≡ invert_if engine negated (eval a row)
  unwrapped-eval true a o row h = eval-invert a row (unwrap-eq-ok (pc.invert a) h)
  unwrapped-eval false a o row h = ground arith

  py_in_list-eval :
      (negated : Bool) (a o : pc.Object) (vs : List ScalarValue) (row : engine.Row)
      → py_in_list debug pc negated a vs ≡ ok o
      → engine.is_null (eval a row) ≡ false
      → eval o row ≡ invert_if engine negated (among engine (eval a row) vs)
  unfolding py_in_list
  py_in_list-eval negated a o vs row h t = grind (
    arith,
    λ (b : pc.Object) (p : (if negated then unwrap (pc.invert b) else ok b) ≡ ok o).
        unwrapped-eval negated b o row p,
    λ (b : pc.Object) (p : pc.isin a vs ≡ ok b). eval-isin a vs row p t,
  )

  -- The list of the filter and its negation, whatever value is tested.
  in_list-eval :
      (negated : Bool) (e : Expr) (es : Exprs) (a o : pc.Object) (vs : List ScalarValue)
      (row : engine.Row)
      → extract_scalar_list debug es ≡ ok vs
      → py_in_list debug pc negated a vs ≡ ok o
      → eval a row ≡ meaning engine e row
      → engine.is_null (meaning engine e row) ≡ false
      → eval o row ≡ invert_if engine negated (among engine (meaning engine e row) (literals es))
  in_list-eval negated e es a o vs row p q r t =
      rw (← r, ← extract_scalar_list-literals debug es vs p)
        (py_in_list-eval negated a o vs row q (ap engine.is_null r ∙ t))

  try_from-meaning' :
      (e : Expr) (o : pc.Object) (row : engine.Row)
      → try_from debug pc e ≡ ok o
      → TestsNoNull e row
      → eval o row ≡ meaning engine e row
  unfolding try_from meaning
  try_from-meaning' (Expr.column relation name) o row h t = eval-field name row h
  try_from-meaning' (Expr.literal v) o row h t = ground (arith, eval-scalar v {o = o} row)
  try_from-meaning' (Expr.binary_expr l op r) o row h t = grind (
    arith,
    λ (f : PyOperator) (a b : pc.Object) (p : pc.call f a b ≡ ok o). eval-call f a b row p,
    operator_to_py-meant debug.operator op,
    λ (a : pc.Object) (p : try_from debug pc l ≡ ok a). try_from-meaning' l a row p t.0,
    λ (a : pc.Object) (p : try_from debug pc r ≡ ok a). try_from-meaning' r a row p t.1,
  )
  try_from-meaning' (Expr.not e) o row h t = grind (
    arith,
    λ (a : pc.Object) (p : pc.invert a ≡ ok o). eval-invert a row p,
    λ (a : pc.Object) (p : try_from debug pc e ≡ ok a). try_from-meaning' e a row p t,
  )
  try_from-meaning' (Expr.is_not_null e) o row h t = grind (
    arith,
    λ (a : pc.Object) (p : pc.is_valid a ≡ ok o). eval-is_valid a row p,
    λ (a : pc.Object) (p : try_from debug pc e ≡ ok a). try_from-meaning' e a row p t,
  )
  try_from-meaning' (Expr.is_null e) o row h t = grind (
    arith,
    λ (a : pc.Object) (p : pc.is_null a ≡ ok o). eval-is_null a row p,
    λ (a : pc.Object) (p : try_from debug pc e ≡ ok a). try_from-meaning' e a row p t,
  )
  try_from-meaning' (Expr.between e negated low high) o row h t = grind (
    arith,
    λ (a b c : pc.Object) (p : py_between debug pc negated a b c ≡ ok o).
        py_between-eval negated a b c o row p,
    λ (a : pc.Object) (p : try_from debug pc e ≡ ok a). try_from-meaning' e a row p t.0,
    λ (a : pc.Object) (p : try_from debug pc low ≡ ok a). try_from-meaning' low a row p t.1,
    λ (a : pc.Object) (p : try_from debug pc high ≡ ok a). try_from-meaning' high a row p t.2,
  )
  try_from-meaning' (Expr.in_list e es negated) o row h t = grind (
    arith,
    λ (a : pc.Object) (vs : List ScalarValue) (p : extract_scalar_list debug es ≡ ok vs)
          (q : py_in_list debug pc negated a vs ≡ ok o) (r : eval a row ≡ meaning engine e row).
        in_list-eval negated e es a o vs row p q r t.1,
    λ (a : pc.Object) (p : try_from debug pc e ≡ ok a). try_from-meaning' e a row p t.0,
  )
  try_from-meaning' _ o row h t = ground arith

  -- A filter that is translated evaluates on a row to what the filter means, if the objects of
  -- `pyarrow.compute` evaluate as documented and no IN list of the filter tests a null on the row.
  pub try_from-meaning :
      (e : Expr) (o : pc.Object) (row : engine.Row)
      → try_from debug pc e ≡ ok o
      → TestsNoNull e row
      → eval o row ≡ meaning engine e row
  try_from-meaning e o row h t = try_from-meaning' e o row h t
