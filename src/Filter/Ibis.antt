-- ===== src/Filter/Ibis.antt =====
-- ibis_filter_expression.rs: filters as ibis expressions over the deferred `_`.
pub mod Meaning
use Prim.Native.String.{◌++◌ as append}
use xorq_datafusion.Common.{
  ◌≡◌, Bool, true, false, not, some, List, String, arith, Result, ok, err, common, ◌>>=◌, ap, ◌∙◌,
  if◌then◌else◌,
}
use xorq_datafusion.DataType.Types.{ScalarValue}
use xorq_datafusion.Expr.Types.{Expr, Exprs}
use xorq_datafusion.Filter.Python.{
  PyOperator, meant, operator_to_py, operator_to_py-meant, is_handled, Debug, extract_scalar_list,
  extract_scalar_list-literals, literals, Engine, meaning, among, invert_if, within,
}

-- The expressions of ibis, and the calls of them. A call may raise.
pub record Ibis : Type 1 where
  pub Object : Type 0
  pub getattr : String → Result Object
  pub literal : ScalarValue → Result Object
  pub call : PyOperator → Object → Object → Result Object
  pub invert : Object → Result Object
  pub notnull : Object → Result Object
  pub isnull : Object → Result Object
  pub isin : Object → List ScalarValue → Result Object
  pub notin : Object → List ScalarValue → Result Object
  pub between : Object → Object → Object → Result Object

module _ (debug : Debug) (ibis : Ibis) where
  open ibis use {Object, getattr}

  pub ibis_literal : ScalarValue → Result Object
  ibis_literal v =
      if is_handled v
      then ibis.literal v
      else err (common (append "Ibis can't handle ScalarValue: " (debug.scalar v)))

  unfoldable pub ibis_in_list : Bool → Object → List ScalarValue → Result Object
  ibis_in_list negated e scalars = if negated then ibis.isin e scalars else ibis.notin e scalars

  unfoldable pub ibis_between : Bool → Object → Object → Object → Result Object
  ibis_between negated e low high = do
    ret ← ibis.between e low high
    if negated then ibis.invert ret else ok ret

  unfoldable pub try_from : Expr → Result Object
  unfolding ibis_literal
  try_from (Expr.column relation name) = getattr name
  try_from (Expr.literal v) = ibis_literal v
  try_from (Expr.binary_expr l op r) = do
    f ← operator_to_py debug.operator op
    a ← try_from l
    b ← try_from r
    ibis.call f a b
  try_from (Expr.not e) = do o ← try_from e; ibis.invert o
  try_from (Expr.is_not_null e) = do o ← try_from e; ibis.notnull o
  try_from (Expr.is_null e) = do o ← try_from e; ibis.isnull o
  try_from (Expr.in_list e es negated) = do
    scalars ← extract_scalar_list debug es
    o ← try_from e
    ibis_in_list negated o scalars
  try_from (Expr.between e negated low high) = do
    a ← try_from low
    b ← try_from high
    o ← try_from e
    ibis_between negated o a b
  try_from e = err (common (append "Unsupported Datafusion expression " (debug.expr e)))

-- What ibis documents of its expressions: each evaluates on a row as the engine's operation does.
pub record Evaluates (engine : Engine) (ibis : Ibis) : Type 1 where
  pub eval : ibis.Object → engine.Row → engine.Value
  pub eval-getattr :
      (n : String) {o : ibis.Object} (row : engine.Row)
      → ibis.getattr n ≡ ok o
      → eval o row ≡ engine.column n row
  pub eval-literal :
      (v : ScalarValue) {o : ibis.Object} (row : engine.Row)
      → ibis.literal v ≡ ok o
      → eval o row ≡ engine.constant v
  pub eval-call :
      (f : PyOperator) (a b : ibis.Object) {o : ibis.Object} (row : engine.Row)
      → ibis.call f a b ≡ ok o
      → eval o row ≡ engine.apply (meant f) (eval a row) (eval b row)
  pub eval-invert :
      (a : ibis.Object) {o : ibis.Object} (row : engine.Row)
      → ibis.invert a ≡ ok o
      → eval o row ≡ engine.invert (eval a row)
  pub eval-notnull :
      (a : ibis.Object) {o : ibis.Object} (row : engine.Row)
      → ibis.notnull a ≡ ok o
      → eval o row ≡ engine.truth (not (engine.is_null (eval a row)))
  pub eval-isnull :
      (a : ibis.Object) {o : ibis.Object} (row : engine.Row)
      → ibis.isnull a ≡ ok o
      → eval o row ≡ engine.truth (engine.is_null (eval a row))
  pub eval-isin :
      (a : ibis.Object) (vs : List ScalarValue) {o : ibis.Object} (row : engine.Row)
      → ibis.isin a vs ≡ ok o
      → eval o row ≡ among engine (eval a row) vs
  pub eval-notin :
      (a : ibis.Object) (vs : List ScalarValue) {o : ibis.Object} (row : engine.Row)
      → ibis.notin a vs ≡ ok o
      → eval o row ≡ engine.invert (among engine (eval a row) vs)
  pub eval-between :
      (a low high : ibis.Object) {o : ibis.Object} (row : engine.Row)
      → ibis.between a low high ≡ ok o
      → eval o row ≡ within engine (eval a row) (eval low row) (eval high row)
