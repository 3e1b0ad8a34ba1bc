-- ===== src/Expr/DataTypes.antt =====
-- expr.rs: `_types`, the type of an expression as far as `types` gives it. `display` and `debug`
-- are `{}` and `{:?}` on the types of DataFusion.
use Prim.Native.String.{◌++◌ as append}
use xorq_datafusion.Common.{String, Result, err, type_error}
use xorq_datafusion.DataType.Types.{DataType, DataTypeMap}
use xorq_datafusion.DataType.Arrow.{map_from_arrow_type, map_from_scalar_value}
use xorq_datafusion.Expr.Types.{
  Operator, eq, not_eq, lt, lt_eq, gt, gt_eq, and, or, is_distinct_from, is_not_distinct_from,
  regex_match, regex_i_match, regex_not_match, regex_not_i_match, like_match, i_like_match,
  not_like_match, not_i_like_match, plus, minus, multiply, modulo, divide, string_concat,
  bitwise_shift_left, bitwise_shift_right, bitwise_xor, bitwise_and, bitwise_or, at_arrow, arrow_at,
  arrow, long_arrow, hash_arrow, hash_long_arrow, at_at, integer_divide, hash_minus, at_question,
  question, question_and, question_pipe, colon, Expr,
}

module _ (display : Operator → String) (debug : Expr → String)
    (debug_type : DataType → String) where
  operator_type : Operator → Result DataTypeMap
  unfolding map_from_arrow_type
  operator_type eq = map_from_arrow_type debug_type DataType.boolean
  operator_type not_eq = map_from_arrow_type debug_type DataType.boolean
  operator_type lt = map_from_arrow_type debug_type DataType.boolean
  operator_type lt_eq = map_from_arrow_type debug_type DataType.boolean
  operator_type gt = map_from_arrow_type debug_type DataType.boolean
  operator_type gt_eq = map_from_arrow_type debug_type DataType.boolean
  operator_type and = map_from_arrow_type debug_type DataType.boolean
  operator_type or = map_from_arrow_type debug_type DataType.boolean
  operator_type is_distinct_from = map_from_arrow_type debug_type DataType.boolean
  operator_type is_not_distinct_from = map_from_arrow_type debug_type DataType.boolean
  operator_type regex_match = map_from_arrow_type debug_type DataType.boolean
  operator_type regex_i_match = map_from_arrow_type debug_type DataType.boolean
  operator_type regex_not_match = map_from_arrow_type debug_type DataType.boolean
  operator_type regex_not_i_match = map_from_arrow_type debug_type DataType.boolean
  operator_type like_match = map_from_arrow_type debug_type DataType.boolean
  operator_type i_like_match = map_from_arrow_type debug_type DataType.boolean
  operator_type not_like_match = map_from_arrow_type debug_type DataType.boolean
  operator_type not_i_like_match = map_from_arrow_type debug_type DataType.boolean
  operator_type plus = map_from_arrow_type debug_type DataType.int64
  operator_type minus = map_from_arrow_type debug_type DataType.int64
  operator_type multiply = map_from_arrow_type debug_type DataType.int64
  operator_type modulo = map_from_arrow_type debug_type DataType.int64
  operator_type divide = map_from_arrow_type debug_type DataType.float64
  operator_type string_concat = map_from_arrow_type debug_type DataType.utf8
  operator_type bitwise_shift_left = map_from_arrow_type debug_type DataType.binary
  operator_type bitwise_shift_right = map_from_arrow_type debug_type DataType.binary
  operator_type bitwise_xor = map_from_arrow_type debug_type DataType.binary
  operator_type bitwise_and = map_from_arrow_type debug_type DataType.binary
  operator_type bitwise_or = map_from_arrow_type debug_type DataType.binary
  operator_type at_arrow = err (type_error (append "Unsupported expr: $" (display at_arrow)))
  operator_type arrow_at = err (type_error (append "Unsupported expr: $" (display arrow_at)))
  operator_type arrow = err (type_error (append "Unsupported expr: $" (display arrow)))
  operator_type long_arrow = err (type_error (append "Unsupported expr: $" (display long_arrow)))
  operator_type hash_arrow = err (type_error (append "Unsupported expr: $" (display hash_arrow)))
  operator_type hash_long_arrow =
      err (type_error (append "Unsupported expr: $" (display hash_long_arrow)))
  operator_type at_at = err (type_error (append "Unsupported expr: $" (display at_at)))
  operator_type integer_divide =
      err (type_error (append "Unsupported expr: $" (display integer_divide)))
  operator_type hash_minus = err (type_error (append "Unsupported expr: $" (display hash_minus)))
  operator_type at_question = err (type_error (append "Unsupported expr: $" (display at_question)))
  operator_type question = err (type_error (append "Unsupported expr: $" (display question)))
  operator_type question_and =
      err (type_error (append "Unsupported expr: $" (display question_and)))
  operator_type question_pipe =
      err (type_error (append "Unsupported expr: $" (display question_pipe)))
  operator_type colon = err (type_error (append "Unsupported expr: $" (display colon)))

  -- `PyExpr::_types`, which `types` calls
  unfoldable pub types : Expr → Result DataTypeMap
  unfolding operator_type
  types (Expr.alias e name) =
      err
        (type_error (append "Non Expr::Literal encountered in types: " (debug (Expr.alias e name))))
  types (Expr.column relation name) = err (
      type_error
        (append "Non Expr::Literal encountered in types: " (debug (Expr.column relation name))))
  types (Expr.scalar_variable t names) = err (
      type_error
        (append "Non Expr::Literal encountered in types: " (debug (Expr.scalar_variable t names))))
  types (Expr.literal v) = map_from_scalar_value debug_type v
  types (Expr.binary_expr l op r) = operator_type op
  types (Expr.like negated e p i) = err (
      type_error
        (append "Non Expr::Literal encountered in types: " (debug (Expr.like negated e p i))))
  types (Expr.similar_to negated e p i) = err (
      type_error
        (append "Non Expr::Literal encountered in types: " (debug (Expr.similar_to negated e p i))))
  types (Expr.not e) =
      err (type_error (append "Non Expr::Literal encountered in types: " (debug (Expr.not e))))
  types (Expr.is_not_null e) =
      err (
        type_error (append "Non Expr::Literal encountered in types: " (debug (Expr.is_not_null e))))
  types (Expr.is_null e) =
      err (type_error (append "Non Expr::Literal encountered in types: " (debug (Expr.is_null e))))
  types (Expr.is_true e) =
      err (type_error (append "Non Expr::Literal encountered in types: " (debug (Expr.is_true e))))
  types (Expr.is_false e) =
      err (type_error (append "Non Expr::Literal encountered in types: " (debug (Expr.is_false e))))
  types (Expr.is_unknown e) =
      err
        (type_error (append "Non Expr::Literal encountered in types: " (debug (Expr.is_unknown e))))
  types (Expr.is_not_true e) =
      err (
        type_error (append "Non Expr::Literal encountered in types: " (debug (Expr.is_not_true e))))
  types (Expr.is_not_false e) =
      err (
        type_error
          (append "Non Expr::Literal encountered in types: " (debug (Expr.is_not_false e))))
  types (Expr.is_not_unknown e) = err (
      type_error
        (append "Non Expr::Literal encountered in types: " (debug (Expr.is_not_unknown e))))
  types (Expr.negative e) =
      err (type_error (append "Non Expr::Literal encountered in types: " (debug (Expr.negative e))))
  types (Expr.between e negated low high) = err (
      type_error (
        append "Non Expr::Literal encountered in types: "
          (debug (Expr.between e negated low high))))
  types (Expr.case subject arms otherwise) = err (
      type_error (
        append "Non Expr::Literal encountered in types: "
          (debug (Expr.case subject arms otherwise))))
  types (Expr.cast e t) = map_from_arrow_type debug_type t
  types (Expr.try_cast e t) =
      err
        (type_error (append "Non Expr::Literal encountered in types: " (debug (Expr.try_cast e t))))
  types (Expr.scalar_function f es) = err (
      type_error
        (append "Non Expr::Literal encountered in types: " (debug (Expr.scalar_function f es))))
  types (Expr.aggregate_function f es) = err (
      type_error
        (append "Non Expr::Literal encountered in types: " (debug (Expr.aggregate_function f es))))
  types (Expr.window_function f es) = err (
      type_error
        (append "Non Expr::Literal encountered in types: " (debug (Expr.window_function f es))))
  types (Expr.higher_order_function f es) = err (
      type_error (
        append "Non Expr::Literal encountered in types: "
          (debug (Expr.higher_order_function f es))))
  types (Expr.in_list e es negated) = err (
      type_error
        (append "Non Expr::Literal encountered in types: " (debug (Expr.in_list e es negated))))
  types (Expr.exists plan) =
      err
        (type_error (append "Non Expr::Literal encountered in types: " (debug (Expr.exists plan))))
  types (Expr.scalar_subquery plan) = err (
      type_error
        (append "Non Expr::Literal encountered in types: " (debug (Expr.scalar_subquery plan))))
  types (Expr.set_comparison plan) = err (
      type_error
        (append "Non Expr::Literal encountered in types: " (debug (Expr.set_comparison plan))))
  types (Expr.in_subquery e plan negated) = err (
      type_error (
        append "Non Expr::Literal encountered in types: "
          (debug (Expr.in_subquery e plan negated))))
  types (Expr.wildcard q) =
      err (type_error (append "Non Expr::Literal encountered in types: " (debug (Expr.wildcard q))))
  types (Expr.grouping_set es) = err (
      type_error (append "Non Expr::Literal encountered in types: " (debug (Expr.grouping_set es))))
  types (Expr.placeholder name) = err (
      type_error
        (append "Non Expr::Literal encountered in types: " (debug (Expr.placeholder name))))
  types (Expr.outer_reference_column t name) = err (
      type_error (
        append "Non Expr::Literal encountered in types: "
          (debug (Expr.outer_reference_column t name))))
  types (Expr.unnest e) =
      err (type_error (append "Non Expr::Literal encountered in types: " (debug (Expr.unnest e))))
  types (Expr.lambda names e) =
      err (
        type_error
          (append "Non Expr::Literal encountered in types: " (debug (Expr.lambda names e))))
  types (Expr.lambda_variable name t) = err (
      type_error
        (append "Non Expr::Literal encountered in types: " (debug (Expr.lambda_variable name t))))
