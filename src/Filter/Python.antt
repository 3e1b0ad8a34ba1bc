-- ===== src/Filter/Python.antt =====
-- What both translations use: Python's `operator` module, and the scalars they can hand over. Also
-- the meaning of a filter, by which the translations are judged: three-valued logic over values
-- whose comparisons belong to the query engine.
use Prim.Native.String.{◌++◌ as append}
use xorq_datafusion.Common.{
  ◌≡◌, Bool, true, false, not, some, List, [], ◌∷◌, String, arith, Result, ok, err, common, ◌>>=◌,
  if◌then◌else◌,
}
use xorq_datafusion.DataType.Types.{ScalarValue}
use xorq_datafusion.Expr.Types.{
  Operator, eq, not_eq, lt, lt_eq, gt, gt_eq, and, or, Expr, Exprs, nil, cons, literal,
}

-- The functions of Python's `operator` module that the translations look up.
pub data PyOperator : Type 0 where
  py_eq py_ne py_lt py_le py_gt py_ge py_and py_or : PyOperator

-- The operator that a function of the module stands for.
abbrev pub meant : PyOperator → Operator
meant py_eq = eq
meant py_ne = not_eq
meant py_lt = lt
meant py_le = lt_eq
meant py_gt = gt
meant py_ge = gt_eq
meant py_and = and
meant py_or = or

unfoldable pub operator_to_py : (Operator → String) → Operator → Result PyOperator
operator_to_py debug eq = ok py_eq
operator_to_py debug not_eq = ok py_ne
operator_to_py debug lt = ok py_lt
operator_to_py debug lt_eq = ok py_le
operator_to_py debug gt = ok py_gt
operator_to_py debug gt_eq = ok py_ge
operator_to_py debug and = ok py_and
operator_to_py debug or = ok py_or
operator_to_py debug op = err (common (append "Unsupported operator " (debug op)))

-- A function that is found stands for the operator it was looked up for.
pub operator_to_py-meant :
    (debug : Operator → String) (op : Operator) (f : PyOperator)
    → operator_to_py debug op ≡ ok f
    → meant f ≡ op
unfolding operator_to_py
operator_to_py-meant debug eq f h = ground arith
operator_to_py-meant debug _ f h = ground arith

-- The scalars that become Python values.
abbrev pub is_handled : ScalarValue → Bool
is_handled (ScalarValue.boolean (some b)) = true
is_handled (ScalarValue.int8 (some i)) = true
is_handled (ScalarValue.int16 (some i)) = true
is_handled (ScalarValue.int32 (some i)) = true
is_handled (ScalarValue.int64 (some i)) = true
is_handled (ScalarValue.uint8 (some i)) = true
is_handled (ScalarValue.uint16 (some i)) = true
is_handled (ScalarValue.uint32 (some i)) = true
is_handled (ScalarValue.uint64 (some i)) = true
is_handled (ScalarValue.float32 (some f)) = true
is_handled (ScalarValue.float64 (some f)) = true
is_handled (ScalarValue.utf8 (some s)) = true
is_handled _ = false

-- `{:?}` on the types of DataFusion.
pub record Debug : Type 0 where
  pub operator : Operator → String
  pub scalar : ScalarValue → String
  pub expr : Expr → String

unfoldable pub extract_scalar : Debug → Expr → Result ScalarValue
extract_scalar debug (literal v) =
    if is_handled v
    then ok v
    else err (common (append "PyArrow can't handle ScalarValue: " (debug.scalar v)))
extract_scalar debug e =
    err (common (append "Only a list of Literals are supported got " (debug.expr e)))

unfoldable pub extract_scalar_list : Debug → Exprs → Result (List ScalarValue)
unfolding extract_scalar
extract_scalar_list debug nil = ok []
extract_scalar_list debug (cons e es) = do
  v ← extract_scalar debug e
  vs ← extract_scalar_list debug es
  ok (v ∷ vs)

-- How the query engine evaluates: values and rows are its own.
pub record Engine : Type 1 where
  pub Value : Type 0
  pub Row : Type 0
  pub column : String → Row → Value
  pub constant : ScalarValue → Value
  pub apply : Operator → Value → Value → Value
  pub invert : Value → Value
  pub truth : Bool → Value
  pub is_null : Value → Bool
  pub other : Expr → Row → Value
  pub invert_invert : (b : Value) → invert (invert b) ≡ b
  pub ge-le : (a b : Value) → apply gt_eq a b ≡ apply lt_eq b a

abbrev pub literals : Exprs → List ScalarValue
literals nil = []
literals (cons (literal v) es) = v ∷ literals es
literals (cons e es) = literals es

module _ (engine : Engine) where
  open engine use {Value, Row, column, constant, apply, invert, truth, is_null, other}

  -- `v IN (vs)`
  pub among : Value → List ScalarValue → Value
  among v [] = truth false
  among v (x ∷ xs) = apply or (apply eq v (constant x)) (among v xs)

  abbrev pub invert_if : Bool → Value → Value
  invert_if negated v = if negated then invert v else v

  -- `v BETWEEN low AND high`
  abbrev pub within : Value → Value → Value → Value
  within v low high = apply and (apply gt_eq v low) (apply lt_eq v high)

  -- What a filter means in SQL, on the expressions that can be pushed down.
  unfoldable pub meaning : Expr → Row → Value
  unfolding among
  meaning (Expr.column relation name) row = column name row
  meaning (Expr.literal v) row = constant v
  meaning (Expr.binary_expr l op r) row = apply op (meaning l row) (meaning r row)
  meaning (Expr.not e) row = invert (meaning e row)
  meaning (Expr.is_not_null e) row = truth (not (is_null (meaning e row)))
  meaning (Expr.is_null e) row = truth (is_null (meaning e row))
  meaning (Expr.in_list e es negated) row = invert_if negated (among (meaning e row) (literals es))
  meaning (Expr.between e negated low high) row =
      invert_if negated (within (meaning e row) (meaning low row) (meaning high row))
  meaning e row = other e row

-- The elements of a list that was extracted are the literals of the list.
pub extract_scalar_list-literals :
    (debug : Debug) (es : Exprs) (vs : List ScalarValue)
    → extract_scalar_list debug es ≡ ok vs
    → vs ≡ literals es
unfolding extract_scalar_list
extract_scalar_list-literals debug nil vs h = ground arith
extract_scalar_list-literals debug (cons (literal v) es) vs h =
    grind (arith, extract_scalar_list-literals debug es)
extract_scalar_list-literals debug (cons e es) vs h = ground arith
