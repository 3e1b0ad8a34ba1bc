-- ===== src/Expr/Rex.antt =====
-- expr.rs: `rex_type`, `rex_call_operands` and `rex_call_operator`. `display` and `debug` are `{}`
-- and `{:?}` on the types of DataFusion.
use Prim.Native.String.{◌++◌ as append}
use xorq_datafusion.Common.{
  List, [], ◌∷◌, ◌++◌, String, Result, ok, err, runtime_error, type_error, if◌then◌else◌,
}
use xorq_datafusion.DataType.Types.{RexType}
use xorq_datafusion.Expr.Types.{
  Operator, eq, Expr, binary_expr, Exprs, nil, cons, MaybeExpr, absent, present, WhenThens, done,
  arm,
}

unfoldable pub rex_type : Expr → RexType
rex_type (Expr.alias e name) = RexType.alias
rex_type (Expr.column relation name) = RexType.reference
rex_type (Expr.scalar_variable t names) = RexType.literal
rex_type (Expr.literal v) = RexType.literal
rex_type (Expr.binary_expr l op r) = RexType.call
rex_type (Expr.like negated e p i) = RexType.call
rex_type (Expr.similar_to negated e p i) = RexType.call
rex_type (Expr.not e) = RexType.call
rex_type (Expr.is_not_null e) = RexType.call
rex_type (Expr.is_null e) = RexType.call
rex_type (Expr.is_true e) = RexType.call
rex_type (Expr.is_false e) = RexType.call
rex_type (Expr.is_unknown e) = RexType.call
rex_type (Expr.is_not_true e) = RexType.call
rex_type (Expr.is_not_false e) = RexType.call
rex_type (Expr.is_not_unknown e) = RexType.call
rex_type (Expr.negative e) = RexType.call
rex_type (Expr.between e negated low high) = RexType.call
rex_type (Expr.case subject arms otherwise) = RexType.call
rex_type (Expr.cast e t) = RexType.call
rex_type (Expr.try_cast e t) = RexType.call
rex_type (Expr.scalar_function f es) = RexType.call
rex_type (Expr.aggregate_function f es) = RexType.call
rex_type (Expr.window_function f es) = RexType.call
rex_type (Expr.higher_order_function f es) = RexType.call
rex_type (Expr.in_list e es negated) = RexType.call
rex_type (Expr.exists plan) = RexType.call
rex_type (Expr.scalar_subquery plan) = RexType.scalar_subquery
rex_type (Expr.set_comparison plan) = RexType.call
rex_type (Expr.in_subquery e plan negated) = RexType.call
rex_type (Expr.wildcard q) = RexType.call
rex_type (Expr.grouping_set es) = RexType.call
rex_type (Expr.placeholder name) = RexType.call
rex_type (Expr.outer_reference_column t name) = RexType.call
rex_type (Expr.unnest e) = RexType.call
rex_type (Expr.lambda names e) = RexType.call
rex_type (Expr.lambda_variable name t) = RexType.reference

-- `args.iter().map(..).collect()`
unfoldable pub to_list : Exprs → List Expr
to_list nil = []
to_list (cons e es) = e ∷ to_list es

-- The arms of `CASE e WHEN ..`, each condition made an equation with `e`.
unfoldable pub simple_arms : Expr → WhenThens → List Expr
simple_arms e done = []
simple_arms e (arm when then' rest) = binary_expr e eq when ∷ then' ∷ simple_arms e rest

unfoldable pub searched_arms : WhenThens → List Expr
searched_arms done = []
searched_arms (arm when then' rest) = when ∷ then' ∷ searched_arms rest

unfoldable pub else_operand : MaybeExpr → List Expr
else_operand absent = []
else_operand (present e) = e ∷ []

unfoldable pub case_arms : MaybeExpr → WhenThens → List Expr
unfolding simple_arms searched_arms
case_arms (present e) arms = simple_arms e arms
case_arms absent arms = searched_arms arms

module _ (display : Expr → String) where
  unimplemented : Expr → Result (List Expr)
  unimplemented e = err (runtime_error (append "Unimplemented Expr type: " (display e)))

  unfoldable pub rex_call_operands : Expr → Result (List Expr)
  unfolding to_list case_arms else_operand unimplemented
  rex_call_operands (Expr.alias e name) = ok (e ∷ [])
  rex_call_operands (Expr.column relation name) = ok ((Expr.column relation name) ∷ [])
  rex_call_operands (Expr.scalar_variable t names) = ok ((Expr.scalar_variable t names) ∷ [])
  rex_call_operands (Expr.literal v) = ok ((Expr.literal v) ∷ [])
  rex_call_operands (Expr.binary_expr l op r) = ok (l ∷ r ∷ [])
  rex_call_operands (Expr.like negated e p i) = ok (e ∷ p ∷ [])
  rex_call_operands (Expr.similar_to negated e p i) = ok (e ∷ p ∷ [])
  rex_call_operands (Expr.not e) = ok (e ∷ [])
  rex_call_operands (Expr.is_not_null e) = ok (e ∷ [])
  rex_call_operands (Expr.is_null e) = ok (e ∷ [])
  rex_call_operands (Expr.is_true e) = ok (e ∷ [])
  rex_call_operands (Expr.is_false e) = ok (e ∷ [])
  rex_call_operands (Expr.is_unknown e) = ok (e ∷ [])
  rex_call_operands (Expr.is_not_true e) = ok (e ∷ [])
  rex_call_operands (Expr.is_not_false e) = ok (e ∷ [])
  rex_call_operands (Expr.is_not_unknown e) = ok (e ∷ [])
  rex_call_operands (Expr.negative e) = ok (e ∷ [])
  rex_call_operands (Expr.between e negated low high) = ok (e ∷ low ∷ high ∷ [])
  rex_call_operands (Expr.case subject arms otherwise) =
      ok (case_arms subject arms ++ else_operand otherwise)
  rex_call_operands (Expr.cast e t) = ok (e ∷ [])
  rex_call_operands (Expr.try_cast e t) = ok (e ∷ [])
  rex_call_operands (Expr.scalar_function f es) = ok (to_list es)
  rex_call_operands (Expr.aggregate_function f es) = ok (to_list es)
  rex_call_operands (Expr.window_function f es) = ok (to_list es)
  rex_call_operands (Expr.higher_order_function f es) = ok (to_list es)
  rex_call_operands (Expr.in_list e es negated) = ok (e ∷ to_list es)
  rex_call_operands (Expr.exists plan) = unimplemented (Expr.exists plan)
  rex_call_operands (Expr.scalar_subquery plan) = unimplemented (Expr.scalar_subquery plan)
  rex_call_operands (Expr.set_comparison plan) = unimplemented (Expr.set_comparison plan)
  rex_call_operands (Expr.in_subquery e plan negated) = ok (e ∷ [])
  rex_call_operands (Expr.wildcard q) = unimplemented (Expr.wildcard q)
  rex_call_operands (Expr.grouping_set es) = unimplemented (Expr.grouping_set es)
  rex_call_operands (Expr.placeholder name) = unimplemented (Expr.placeholder name)
  rex_call_operands (Expr.outer_reference_column t name) =
      unimplemented (Expr.outer_reference_column t name)
  rex_call_operands (Expr.unnest e) = unimplemented (Expr.unnest e)
  rex_call_operands (Expr.lambda names e) = ok (e ∷ [])
  rex_call_operands (Expr.lambda_variable name t) = ok ((Expr.lambda_variable name t) ∷ [])

module _ (display : Operator → String) (debug : Expr → String) where
  no_operator : Expr → Result String
  no_operator e = err (type_error (append "Catch all triggered in get_operator_name: " (debug e)))

  unfoldable pub rex_call_operator : Expr → Result String
  unfolding no_operator
  rex_call_operator (Expr.alias e name) = no_operator (Expr.alias e name)
  rex_call_operator (Expr.column relation name) = no_operator (Expr.column relation name)
  rex_call_operator (Expr.scalar_variable t names) = no_operator (Expr.scalar_variable t names)
  rex_call_operator (Expr.literal v) = no_operator (Expr.literal v)
  rex_call_operator (Expr.binary_expr l op r) = ok (display op)
  rex_call_operator (Expr.like negated e p i) =
      let name : String = if i then "ilike" else "like" in
      ok (if negated then append "not " name else name)
  rex_call_operator (Expr.similar_to negated e p i) =
      ok (if negated then "not similar to" else "similar to")
  rex_call_operator (Expr.not e) = ok "not"
  rex_call_operator (Expr.is_not_null e) = ok "is not null"
  rex_call_operator (Expr.is_null e) = ok "is null"
  rex_call_operator (Expr.is_true e) = ok "is true"
  rex_call_operator (Expr.is_false e) = ok "is false"
  rex_call_operator (Expr.is_unknown e) = ok "is unknown"
  rex_call_operator (Expr.is_not_true e) = ok "is not true"
  rex_call_operator (Expr.is_not_false e) = ok "is not false"
  rex_call_operator (Expr.is_not_unknown e) = ok "is not unknown"
  rex_call_operator (Expr.negative e) = ok "negative"
  rex_call_operator (Expr.between e negated low high) = ok "between"
  rex_call_operator (Expr.case subject arms otherwise) = ok "case"
  rex_call_operator (Expr.cast e t) = ok "cast"
  rex_call_operator (Expr.try_cast e t) = no_operator (Expr.try_cast e t)
  rex_call_operator (Expr.scalar_function f es) = ok f
  rex_call_operator (Expr.aggregate_function f es) = no_operator (Expr.aggregate_function f es)
  rex_call_operator (Expr.window_function f es) = no_operator (Expr.window_function f es)
  rex_call_operator (Expr.higher_order_function f es) = ok f
  rex_call_operator (Expr.in_list e es negated) = ok "in list"
  rex_call_operator (Expr.exists plan) = no_operator (Expr.exists plan)
  rex_call_operator (Expr.scalar_subquery plan) = no_operator (Expr.scalar_subquery plan)
  rex_call_operator (Expr.set_comparison plan) = no_operator (Expr.set_comparison plan)
  rex_call_operator (Expr.in_subquery e plan negated) =
      no_operator (Expr.in_subquery e plan negated)
  rex_call_operator (Expr.wildcard q) = no_operator (Expr.wildcard q)
  rex_call_operator (Expr.grouping_set es) = no_operator (Expr.grouping_set es)
  rex_call_operator (Expr.placeholder name) = no_operator (Expr.placeholder name)
  rex_call_operator (Expr.outer_reference_column t name) =
      no_operator (Expr.outer_reference_column t name)
  rex_call_operator (Expr.unnest e) = no_operator (Expr.unnest e)
  rex_call_operator (Expr.lambda names e) = ok "lambda"
  rex_call_operator (Expr.lambda_variable name t) = no_operator (Expr.lambda_variable name t)
