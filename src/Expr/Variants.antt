-- ===== src/Expr/Variants.antt =====
-- expr.rs: `to_variant`, which gives Python an object of a class of expr/, and `python_value`.
-- `debug` is `{:?}` on DataFusion's expressions, and `table` the table's name of a reference.
use Prim.Native.String.{◌++◌ as append}
use xorq_datafusion.Common.{String, Result, ok, err, runtime_error, type_error}
use xorq_datafusion.DataType.Types.{ScalarValue}
use xorq_datafusion.Expr.Types.{Expr}
use xorq_datafusion.Expr.BoolExpr.{
  PyNot, PyIsNotNull, PyIsNull, PyIsTrue, PyIsFalse, PyIsUnknown, PyIsNotTrue, PyIsNotFalse,
  PyIsNotUnknown, PyNegative, new_not, new_is_not_null, new_is_null, new_is_true, new_is_false,
  new_is_unknown, new_is_not_true, new_is_not_false, new_is_not_unknown, new_negative,
}
use xorq_datafusion.Expr.Nodes.{
  PyAlias, PyColumn, PyScalarVariable, PyLike, PyLiteral, PyBinaryExpr, PyCast, PyCase, PyWildcard,
  PyAggregateFunction, new_alias, new_scalar_variable, new_literal, new_wildcard,
}
pub mod Operands

pub data Variant : Type 0 where
  py_alias : PyAlias → Variant
  py_column : PyColumn → Variant
  py_scalar_variable : PyScalarVariable → Variant
  py_like : PyLike → Variant
  py_literal_expr : PyLiteral → Variant
  py_binary_expr : PyBinaryExpr → Variant
  py_not : PyNot → Variant
  py_is_not_null : PyIsNotNull → Variant
  py_is_null : PyIsNull → Variant
  py_is_true : PyIsTrue → Variant
  py_is_false : PyIsFalse → Variant
  py_is_unknown : PyIsUnknown → Variant
  py_is_not_true : PyIsNotTrue → Variant
  py_is_not_false : PyIsNotFalse → Variant
  py_is_not_unknown : PyIsNotUnknown → Variant
  py_negative : PyNegative → Variant
  py_cast : PyCast → Variant
  py_case : PyCase → Variant
  py_wildcard : PyWildcard → Variant
  py_aggregate_function : PyAggregateFunction → Variant

module _ (debug : Expr → String) (table : String → String) where
  no_variant : Expr → Result Variant
  no_variant e =
      err (runtime_error (append "Cannot convert this Expr to a Python object: " (debug e)))

  unfoldable pub to_variant : Expr → Result Variant
  unfolding no_variant
  to_variant (Expr.alias e name) = ok (py_alias (new_alias e name))
  to_variant (Expr.column r n) = ok (py_column (record { relation = r; name = n }))
  to_variant (Expr.scalar_variable t names) = ok (py_scalar_variable (new_scalar_variable t names))
  to_variant (Expr.like n e p i) =
      ok (py_like (record { is_negated = n; expr = e; pattern' = p; case_insensitive = i }))
  to_variant (Expr.literal v) = ok (py_literal_expr (new_literal v))
  to_variant (Expr.binary_expr a o b) = ok (py_binary_expr (record { l = a; operator' = o; r = b }))
  to_variant (Expr.not e) = ok (py_not (new_not e))
  to_variant (Expr.is_not_null e) = ok (py_is_not_null (new_is_not_null e))
  to_variant (Expr.is_null e) = ok (py_is_null (new_is_null e))
  to_variant (Expr.is_true e) = ok (py_is_true (new_is_true e))
  to_variant (Expr.is_false e) = ok (py_is_false (new_is_false e))
  to_variant (Expr.is_unknown e) = ok (py_is_unknown (new_is_unknown e))
  to_variant (Expr.is_not_true e) = ok (py_is_not_true (new_is_not_true e))
  to_variant (Expr.is_not_false e) = ok (py_is_not_false (new_is_not_false e))
  to_variant (Expr.is_not_unknown e) = ok (py_is_not_unknown (new_is_not_unknown e))
  to_variant (Expr.negative e) = ok (py_negative (new_negative e))
  to_variant (Expr.cast e t) = ok (py_cast (record { expr = e; data_type = t }))
  to_variant (Expr.case s a o) = ok (py_case (record { subject = s; arms = a; otherwise = o }))
  to_variant (Expr.wildcard q) = ok (py_wildcard (new_wildcard table q))
  to_variant (Expr.aggregate_function f es) =
      ok (py_aggregate_function (record { func = f; params = es }))
  to_variant e = no_variant e

-- `to_pyarrow` is what `scalar_to_pyarrow` makes of a value.
module _ {Object : Type 0} (debug : Expr → String) (to_pyarrow : ScalarValue → Result Object) where
  unfoldable pub python_value : Expr → Result Object
  python_value (Expr.literal v) = to_pyarrow v
  python_value e = err (type_error (append "Non Expr::Literal encountered in types: " (debug e)))
